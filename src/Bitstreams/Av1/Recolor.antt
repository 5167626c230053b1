-- ===== src/Bitstreams/Av1/Recolor.antt =====
-- backends/_bitstreams.py, `av1_set_color`: the sequence header with another color.
use opencodecs.Common.{
  ℕ, zero, suc, ◌+◌, ◌-◌, ◌*◌, ◌/◌, ◌%◌, ◌^◌, ◌≤◌, ◌<◌, List, [], ◌∷◌, ◌++◌, Bool, true, false,
  ◌&&◌, some, ◌≡◌, refl, ◌==◌, if◌then◌else◌, length, get_elem?-total, arith, sym, ◌∙◌, ap,
  eq_of_some, Option-cases, inl, inr, ltb,
}
use mathlib.Core.Path.{subst}
use mathlib.Core.Option.{none-ne-some}
use opencodecs.Bitstreams.{bit_at, u_from, u, bits_of, tobytes}
use opencodecs.Bitstreams.Golomb.{Reads, Reads-append, length-bits_of}
use opencodecs.Bitstreams.Packing.{AllBits, bits_of-AllBits, Reads-tobytes}
use opencodecs.Bitstreams.Rewrite.Bits.{append-AllBits}
use opencodecs.Bitstreams.Prints.{u_from-bits}
use opencodecs.Bitstreams.Reader.{pure, ◌>>=◌}
use opencodecs.Bitstreams.Moves.{Same, Moves, bind-cases, bind-some, pair_cong}
use opencodecs.Bitstreams.Hevc.Sps.{Color}
use opencodecs.Bitstreams.Av1.{
  depth, both, identity, SequenceHeader, depth_bits, sampling_bits, position_bits, ranged_bits,
  color_bits, color_config, sequence, av1_sequence_header,
}
use opencodecs.Bitstreams.Av1.Front.{Start, start}
use opencodecs.Bitstreams.Av1.Config.{recolored, color_config-Prints, color_config-cases}
use opencodecs.Bitstreams.Av1.Local.{IsLocal-start, bit-place}
use opencodecs.Bitstreams.Av1.Positions.{start-ends}

-- All bits within the bytes are there.
u_from-total :
    (n high : ℕ) (bytes : List ℕ) (at : ℕ)
    → at + n ≤ 8 * length bytes
    → (value : ℕ) × (u_from n high bytes at ≡ some (value, at + n))
unfolding u_from bit_at
u_from-total zero high bytes at h = (high, pair_cong refl (omega arith))
u_from-total (suc n) high bytes at h =
    let (byte, e) = get_elem?-total bytes (at / 8) (omega arith) in
    let (value, rest) =
      u_from-total n (high * 2 + byte / 2 ^ (7 - at % 8) % 2) bytes (at + 1) (omega arith) in
    let end : at + 1 + n ≡ at + suc n = omega arith in
    (value, rw (e, u_from, bit_at) (rest ∙ pair_cong refl end))

Reads-Same :
    (bytes : List ℕ) (at : ℕ) (bytes2 : List ℕ) (at2 : ℕ) (bits : List ℕ)
    → Reads bytes at bits
    → Reads bytes2 at2 bits
    → Same bytes at bytes2 at2 (length bits)
unfolding Same
Reads-Same bytes at bytes2 at2 [] h k i l = absurd (omega arith)
Reads-Same bytes at bytes2 at2 (b ∷ bits) h k zero l =
    ap (bit_at bytes) (omega arith) ∙ h.0 ∙ sym k.0 ∙ ap (bit_at bytes2) (omega arith)
Reads-Same bytes at bytes2 at2 (b ∷ bits) h k (suc i) l =
    ap (bit_at bytes) (omega arith)
    ∙ Reads-Same bytes (at + 1) bytes2 (at2 + 1) bits h.1 k.1 i (omega arith)
    ∙ ap (bit_at bytes2) (omega arith)

if-AllBits : (b : Bool) (xs ys : List ℕ) → AllBits xs → AllBits ys → AllBits (if b then xs else ys)
if-AllBits true xs ys h k = h
if-AllBits false xs ys h k = k

if-bit : (b : Bool) → (if b then 1 else 0) < 2
if-bit true = omega arith
if-bit false = omega arith

color_bits-AllBits : (info : SequenceHeader) (color : Color) → AllBits (color_bits info color)
unfolding color_bits ranged_bits depth_bits sampling_bits position_bits
color_bits-AllBits info (cp, tc, mc, full) =
    append-AllBits (depth_bits info.start.profile info.bits) _
      (
        if-bit (ltb 8 info.bits),
        if-AllBits (info.start.profile == 2 && ltb 8 info.bits)
            ((if info.bits == 12 then 1 else 0) ∷ []) [] (if-bit (info.bits == 12), tt) tt,
      )
      (append-AllBits (if info.start.profile == 1 then [] else 0 ∷ []) _
        (if-AllBits (info.start.profile == 1) [] (0 ∷ []) tt (omega arith, tt))
        (append-AllBits (1 ∷ (bits_of 8 cp ++ (bits_of 8 tc ++ bits_of 8 mc))) _
          (
            omega arith,
            append-AllBits (bits_of 8 cp) (bits_of 8 tc ++ bits_of 8 mc) (bits_of-AllBits 8 cp) (
                append-AllBits (bits_of 8 tc) (bits_of 8 mc) (bits_of-AllBits 8 tc)
                  (bits_of-AllBits 8 mc)),
          )
          (append-AllBits (ranged_bits info full) _
            (
              if-bit full,
              append-AllBits (sampling_bits info.start.profile info.bits info.subsampling) _
                  (if-AllBits (info.start.profile == 2 && info.bits == 12) _ []
                    (append-AllBits (bits_of 1 info.subsampling.0) _
                      (bits_of-AllBits 1 info.subsampling.0)
                      (if-AllBits (info.subsampling.0 == 0) [] (bits_of 1 info.subsampling.1) tt
                        (bits_of-AllBits 1 info.subsampling.1)))
                    tt)
                  (if-AllBits (both info.subsampling) (bits_of 2 info.sample_position) []
                    (bits_of-AllBits 2 info.sample_position) tt),
            )
            (append-AllBits (bits_of 1 info.separate_uv) (bits_of 1 info.film_grain)
              (bits_of-AllBits 1 info.separate_uv) (bits_of-AllBits 1 info.film_grain)))))

-- The bits of the new payload, from a copy of those in front of the color configuration.
abbrev pub new_bits : SequenceHeader → ℕ → Color → List ℕ
new_bits info copied color =
    bits_of info.start.color_config_at copied ++ (color_bits info color ++ (1 ∷ []))

new_bits-Reads :
    (info : SequenceHeader) (copied : ℕ) (color : Color)
    → Reads (tobytes (new_bits info copied color)) 0 (bits_of info.start.color_config_at copied)
      × Reads
          (tobytes (new_bits info copied color))
          info.start.color_config_at
          (color_bits info color)
new_bits-Reads info copied color =
    let n = info.start.color_config_at in
    let all : AllBits (new_bits info copied color) =
      append-AllBits (bits_of n copied) (color_bits info color ++ (1 ∷ []))
        (bits_of-AllBits n copied)
        (append-AllBits (color_bits info color) (1 ∷ []) (color_bits-AllBits info color)
          (omega arith, tt)) in
    let out = tobytes (new_bits info copied color) in
    let (front, rest) =
      Reads-append out 0 (bits_of n copied) (color_bits info color ++ (1 ∷ []))
        (Reads-tobytes (new_bits info copied color) all) in
    let place : 0 + length (bits_of n copied) ≡ n = omega (arith, length-bits_of n copied) in
    (
      front,
      (Reads-append out n (color_bits info color) (1 ∷ [])
          (subst (λ t. Reads out t (color_bits info color ++ (1 ∷ []))) place rest)).0,
    )

-- What a sequence header is made of.
sequence-cases :
    (payload : List ℕ) (info : SequenceHeader)
    → av1_sequence_header payload ≡ some info
    → (st : Start) × (m : ℕ) × (end : ℕ) × (start payload 0 ≡ some (st, m))
      × (color_config st payload m ≡ some (info, end))
unfolding av1_sequence_header sequence
sequence-cases payload info h = elim (Option-cases (sequence payload 0)) [
  | inl e ↦ absurd (none-ne-some info (rw (e, av1_sequence_header) at h))
  | inr ((info2, end), e) ↦
      let same : info2 ≡ info = eq_of_some (rw (e, av1_sequence_header) at h) in
      let (st, m, front, rest) = bind-cases start color_config payload 0 (info2, end) e in
      (st, m, end, front, rest ∙ pair_cong same refl)
]

depth-room :
    (profile : ℕ) (bytes : List ℕ) (at bits at' : ℕ)
    → depth profile bytes at ≡ some (bits, at')
    → at < 8 * length bytes
unfolding depth
depth-room profile bytes at bits at' h =
    let (high, m, e, _) =
      bind-cases (u 1)
        (λ high.
          if high == 0
          then pure 8
          else if profile == 2
          then (u 1 >>= λ twelve. pure (if twelve == 0 then 10 else 12))
          else pure 10)
        bytes at (bits, at') h in
    (bit-place bytes at high m e).1

-- The new payload is read with the new color and all other fields as they were.
pub payload-recolored :
    (payload : List ℕ) (info : SequenceHeader) (cp tc mc : ℕ) (full : Bool)
    → av1_sequence_header payload ≡ some info
    → (info.mono == 0) ≡ true
    → identity (info.color.0, info.color.1, info.color.2) ≡ false
    → identity (cp, tc, mc) ≡ false
    → cp < 256
    → tc < 256
    → mc < 256
    → (info.start.color_config_at < 8 * length payload)
      × (copied : ℕ) × (at : ℕ) × (u info.start.color_config_at payload 0 ≡ some (copied, at))
      × (av1_sequence_header (tobytes (new_bits info copied (cp, tc, mc, full)))
          ≡ some (recolored info (cp, tc, mc, full)))
unfolding av1_sequence_header sequence Moves
payload-recolored payload info cp tc mc full h gray old new a b c =
    let (st, m, end, front, rest) = sequence-cases payload info h in
    let (same, d, _, _, _, _, depth_run, _, _, _) = color_config-cases st payload m info end rest in
    let (_, printed) =
      color_config-Prints st payload m info end cp tc mc full rest gray old new a b c in
    let n = info.start.color_config_at in
    let place : m ≡ n =
      sym (start-ends payload 0 st m front) ∙ ap (λ (t : Start). t.color_config_at) (sym same) in
    let room = depth-room info.start.profile payload m info.bits d depth_run in
    let (copied, read) = u_from-total n 0 payload 0 (omega arith) in
    let (_, _, old_reads) = u_from-bits n 0 payload 0 copied (0 + n) read in
    let out = tobytes (new_bits info copied (cp, tc, mc, full)) in
    let (front_reads, color_reads) = new_bits-Reads info copied (cp, tc, mc, full) in
    let size : length (bits_of n copied) ≡ m - 0 = omega (arith, length-bits_of n copied) in
    let same_front : Same payload 0 out 0 (m - 0) =
      subst (Same payload 0 out 0) size
        (Reads-Same payload 0 out 0 (bits_of n copied) old_reads front_reads) in
    let (st2, again, st_st2) = (IsLocal-start.moves payload 0 st m front).1 out 0 refl same_front in
    let first : start out 0 ≡ some (info.start, n) =
      again ∙ pair_cong (sym st_st2 ∙ sym same) (omega arith) in
    (
      omega arith,
      copied,
      0 + n,
      read,
      rw
          (
            bind-some start color_config out 0 first ∙ printed.read out n color_reads,
            av1_sequence_header,
          )
          refl,
    )
