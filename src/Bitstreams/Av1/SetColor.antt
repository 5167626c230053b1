-- ===== src/Bitstreams/Av1/SetColor.antt =====
-- backends/_bitstreams.py, `av1_set_color`: the whole OBU, as `split_obus` and `av1_sequence_header`
-- read it.
use opencodecs.Common.{
  ℕ, zero, suc, ◌+◌, ◌/◌, ◌%◌, ◌^◌, ◌≤◌, ◌<◌, List, [], ◌∷◌, ◌++◌, Bool, true, false, ◌&&◌, some,
  ◌≡◌, refl, ◌==◌, ==_iff, if◌then◌else◌, length, drop, get_elem?, arith, sym, ◌∙◌, ap, Bool-cases,
  inl, inr, ltb, append_assoc, length-append, length-take, length-drop, append-nil,
}
use opencodecs.Common.Bytes.{slice, drop-append}
use opencodecs.Bitstreams.{bits_of, tobytes_loop, tobytes, leb128}
use opencodecs.Bitstreams.Golomb.{length-bits_of}
use opencodecs.Bitstreams.Obus.{split_obus}
use opencodecs.Bitstreams.Obus.Splitting.{obu_bytes, split_obus-join}
use opencodecs.Bitstreams.Hevc.Sps.{Color}
use opencodecs.Bitstreams.Av1.{
  both, identity, SequenceHeader, depth_bits, sampling_bits, position_bits, ranged_bits, color_bits,
  av1_sequence_header, join_obu, av1_set_color,
}
use opencodecs.Bitstreams.Av1.Config.{recolored}
use opencodecs.Bitstreams.Av1.Recolor.{new_bits, payload-recolored}

length-tobytes_loop : (fuel : ℕ) (bits : List ℕ) → length (tobytes_loop fuel bits) ≤ length bits
unfolding tobytes_loop
length-tobytes_loop fuel [] = omega arith
length-tobytes_loop zero (b ∷ bits) = omega arith
length-tobytes_loop (suc fuel) (b ∷ bits) =
    omega (arith, length-tobytes_loop fuel (drop 8 (b ∷ bits)), length-drop 8 (b ∷ bits))

length-tobytes : (bits : List ℕ) → length (tobytes bits) ≤ length bits
unfolding tobytes
length-tobytes bits = length-tobytes_loop (length bits) bits

length-if : (b : Bool) (xs ys : List ℕ) → length (if b then xs else ys) ≤ length xs + length ys
length-if true xs ys = omega arith
length-if false xs ys = omega arith

length-depth_bits : (profile bits : ℕ) → length (depth_bits profile bits) ≤ 2
unfolding depth_bits
length-depth_bits profile bits =
    omega (arith, length-if (profile == 2 && ltb 8 bits) ((if bits == 12 then 1 else 0) ∷ []) [])

length-sampling_bits : (profile bits : ℕ) (s : ℕ × ℕ) → length (sampling_bits profile bits s) ≤ 2
unfolding sampling_bits
length-sampling_bits profile bits (sx, sy) =
    let tail = if sx == 0 then [] else bits_of 1 sy in
    omega (
      arith,
      length-if (profile == 2 && bits == 12) (bits_of 1 sx ++ tail) [],
      length-append (bits_of 1 sx) tail,
      length-bits_of 1 sx,
      length-if (sx == 0) [] (bits_of 1 sy),
      length-bits_of 1 sy,
    )

length-position_bits : (s : ℕ × ℕ) (position : ℕ) → length (position_bits s position) ≤ 2
unfolding position_bits
length-position_bits s position =
    omega (arith, length-if (both s) (bits_of 2 position) [], length-bits_of 2 position)

length-ranged_bits : (info : SequenceHeader) (full : Bool) → length (ranged_bits info full) ≤ 5
unfolding ranged_bits
length-ranged_bits info full =
    let a = sampling_bits info.start.profile info.bits info.subsampling in
    let b = position_bits info.subsampling info.sample_position in
    omega (
      arith,
      length-append a b,
      length-position_bits info.subsampling info.sample_position,
      length-sampling_bits info.start.profile info.bits info.subsampling,
    )

length-color_bits : (info : SequenceHeader) (color : Color) → length (color_bits info color) ≤ 64
unfolding color_bits
length-color_bits info (cp, tc, mc, full) =
    let colors = bits_of 8 cp ++ (bits_of 8 tc ++ bits_of 8 mc) in
    let ends = bits_of 1 info.separate_uv ++ bits_of 1 info.film_grain in
    let ranged = ranged_bits info full in
    let mono : List ℕ = if info.start.profile == 1 then [] else 0 ∷ [] in
    omega (
      arith,
      length-append (depth_bits info.start.profile info.bits)
          (mono ++ ((1 ∷ colors) ++ (ranged ++ ends))),
      length-append mono ((1 ∷ colors) ++ (ranged ++ ends)),
      length-append (1 ∷ colors) (ranged ++ ends),
      length-append ranged ends,
      length-append (bits_of 1 info.separate_uv) (bits_of 1 info.film_grain),
      length-append (bits_of 8 cp) (bits_of 8 tc ++ bits_of 8 mc),
      length-append (bits_of 8 tc) (bits_of 8 mc),
      length-bits_of 8 cp,
      length-bits_of 8 tc,
      length-bits_of 8 mc,
      length-bits_of 1 info.separate_uv,
      length-bits_of 1 info.film_grain,
      length-depth_bits info.start.profile info.bits,
      length-ranged_bits info full,
      length-if (info.start.profile == 1) [] (0 ∷ []),
    )

length-new_bits :
    (info : SequenceHeader) (copied : ℕ) (color : Color)
    → length (new_bits info copied color) ≤ info.start.color_config_at + 65
length-new_bits info copied color = omega (
  arith,
  length-append (bits_of info.start.color_config_at copied) (color_bits info color ++ (1 ∷ [])),
  length-append (color_bits info color) (1 ∷ []),
  length-color_bits info color,
  length-bits_of info.start.color_config_at copied,
)

-- The extension of the new OBU.
abbrev extension : ℕ → List ℕ → List ℕ
extension header obu = if header / 4 % 2 == 0 then [] else slice obu 1 2

nonzero : (n : ℕ) → (n == 0) ≡ false → 0 < n
nonzero zero h = ground arith
nonzero (suc n) h = omega arith

length-extension :
    (header : ℕ) (obu : List ℕ)
    → header / 4 % 2 < length obu
    → length (extension header obu) ≡ header / 4 % 2
length-extension header obu h = elim (Bool-cases (header / 4 % 2 == 0)) [
  | inl z ↦ rw z (omega (arith, (==_iff (header / 4 % 2) 0).0 z))
  | inr z ↦
      rw z
        (omega (arith, length-take 1 (drop 1 obu), length-drop 1 obu, nonzero (header / 4 % 2) z))
]

-- One OBU is split into itself, and its payload stands at the place that is given.
one_obu :
    (header : ℕ) (obu payload : List ℕ)
    → header / 2 % 2 ≡ 1
    → header / 4 % 2 < length obu
    → length payload < 2 ^ 56
    → (at : ℕ) × (split_obus (join_obu header obu payload)
        ≡ some ((header / 8 % 16, join_obu header obu payload, at) ∷ []))
      × (drop at (join_obu header obu payload) ≡ payload)
unfolding join_obu
one_obu header obu payload sized room small =
    let ext = extension header obu in
    let size = leb128 (length payload) in
    let whole = obu_bytes (header, ext, payload) in
    let at = suc (length ext + length size) in
    (
      at,
      ap split_obus (sym (append-nil whole))
          ∙ split_obus-join ((header, ext, payload) ∷ [])
              ((sized, length-extension header obu room, small), tt),
      ap (drop (length ext + length size)) (sym (append_assoc ext size payload))
          ∙ drop-append (ext ++ size) payload (length ext + length size)
              (omega (arith, length-append ext size)),
    )

-- An OBU below 2 ** 50 bytes with a size field, whose payload, behind the header and the extension, is
-- read as the sequence header of a color image with a color that is not the identity (sRGB, 4:4:4), is
-- rewritten with another such color, whose code points fit a byte. What comes out is one OBU of the
-- same type, and its payload is read as the same header, every field as it was, with the new color.
pub av1_set_color-recolored :
    (obu : List ℕ) (payload_at header : ℕ) (info : SequenceHeader) (cp tc mc : ℕ) (full : Bool)
    → av1_sequence_header (drop payload_at obu) ≡ some info
    → get_elem? obu 0 ≡ some header
    → header / 2 % 2 ≡ 1
    → header / 4 % 2 < payload_at
    → length obu < 2 ^ 50
    → (info.mono == 0) ≡ true
    → identity (info.color.0, info.color.1, info.color.2) ≡ false
    → identity (cp, tc, mc) ≡ false
    → cp < 256
    → tc < 256
    → mc < 256
    → (obu' : List ℕ) × (at : ℕ) × (av1_set_color obu payload_at (cp, tc, mc, full) ≡ some obu')
      × (split_obus obu' ≡ some ((header / 8 % 16, obu', at) ∷ []))
      × (av1_sequence_header (drop at obu') ≡ some (recolored info (cp, tc, mc, full)))
unfolding av1_set_color
av1_set_color-recolored obu payload_at header info cp tc mc full h first sized room small gray old
      new a b c =
    let (bound, copied, end, read, again) =
      payload-recolored (drop payload_at obu) info cp tc mc full h gray old new a b c in
    let payload = tobytes (new_bits info copied (cp, tc, mc, full)) in
    let n = length-drop payload_at obu in
    let (at, one, behind) = one_obu header obu payload sized (omega (arith, n)) (
      omega (
        arith,
        n,
        length-tobytes (new_bits info copied (cp, tc, mc, full)),
        length-new_bits info copied (cp, tc, mc, full),
      )) in
    (
      join_obu header obu payload,
      at,
      rw (h, read, first, gray, new, av1_set_color) refl,
      one,
      ap av1_sequence_header behind ∙ again,
    )
