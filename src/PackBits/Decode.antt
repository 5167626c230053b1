-- ===== src/PackBits/Decode.antt =====
-- `packbits_decode_dicom` reads back what `encode` writes, whatever padding follows.
use opencodecs.Common.{ℕ, zero, suc, ◌+◌, ◌-◌, ◌%◌, ◌≤◌, ◌<◌, ◌≡◌, refl, ap, ◌∙◌, sym, arith}
use opencodecs.Common.{List, [], ◌∷◌, ◌++◌, Bool, true, leb, ◌==◌}
use opencodecs.Common.{Option, none, some, ◌⊎◌, append_assoc, append-nil}
use opencodecs.Common.{
  length, take, drop, replicate, Bool-cases, inl, inr, length-append, length-take,
}
use opencodecs.Common.{length-drop, take-append-drop}
use opencodecs.PackBits.{same_run, literal_run, encode_loop, encode, wants_more, decode_loop}
use opencodecs.PackBits.{packbits_decode_dicom, packbits_decode}
use opencodecs.PackBits.Encode.{same_run_bounds, replicate-same_run, literal_run_bounds}
use opencodecs.PackBits.Encode.{encode_loop-run, encode_loop-literal}

take-append_length : (xs ys : List ℕ) → take (length xs) (xs ++ ys) ≡ xs
take-append_length [] ys = refl
take-append_length (x ∷ xs) ys = ap (◌∷◌ x) (take-append_length xs ys)

drop-append_length : (xs ys : List ℕ) → drop (length xs) (xs ++ ys) ≡ ys
drop-append_length [] ys = refl
drop-append_length (x ∷ xs) ys = drop-append_length xs ys

-- One round on a literal packet, and one on a replicate packet.
literal_packet :
    (fuel : ℕ) (limit : Option ℕ) (x : ℕ) (l rest out : List ℕ)
    → length l < 128
    → wants_more limit out ≡ true
    → decode_loop (suc fuel) limit (length l ∷ ((x ∷ l) ++ rest)) out
      ≡ decode_loop fuel limit rest (out ++ (x ∷ l))
unfolding decode_loop
literal_packet fuel limit x l rest out h more =
    let e : length l + 1 ≡ suc (length l) = omega arith in
    let t = take-append_length l rest in
    let d = drop-append_length l rest in rw (more, e, t, d) (ground (arith, h))

run_packet :
    (fuel : ℕ) (limit : Option ℕ) (n x : ℕ) (rest out : List ℕ)
    → 3 ≤ n
    → n ≤ 128
    → wants_more limit out ≡ true
    → decode_loop (suc fuel) limit ((257 - n) % 256 ∷ (x ∷ rest)) out
      ≡ decode_loop fuel limit rest (out ++ replicate n x)
unfolding decode_loop
run_packet fuel limit n x rest out lo hi more =
    let e : 257 - (257 - n) % 256 ≡ n = omega arith in rw (more, e) (ground arith)

-- When the loop ends with `buf` still to come: at the limit, or at the end of the input.
abbrev Ends : Option ℕ → List ℕ → List ℕ → List ℕ → Type 0
Ends none buf pad out = pad ≡ []
Ends (some limit) buf pad out = limit ≡ length out + length buf

Ends-wants_more :
    (limit : Option ℕ) (x : ℕ) (buf pad out : List ℕ)
    → Ends limit (x ∷ buf) pad out
    → wants_more limit out ≡ true
Ends-wants_more none x buf pad out h = refl
Ends-wants_more (some limit) x buf pad out h = ground arith

Ends-later :
    (limit : Option ℕ) (packet buf pad out : List ℕ)
    → Ends limit (packet ++ buf) pad out
    → Ends limit buf pad (out ++ packet)
Ends-later none packet buf pad out h = h
Ends-later (some limit) packet buf pad out h =
    omega (arith, length-append packet buf, length-append out packet)

decode_done :
    (fuel : ℕ) (limit : Option ℕ) (pad out : List ℕ)
    → Ends limit [] pad out
    → decode_loop fuel limit pad out ≡ out
unfolding decode_loop
decode_done fuel none pad out h = rw h
decode_done fuel (some limit) [] out h = refl
decode_done zero (some limit) (x ∷ pad) out h = refl
decode_done (suc fuel) (some limit) (x ∷ pad) out h = ground arith

-- One packet and what follows it, for either kind of packet.
after_packet :
    (g f : ℕ) (limit : Option ℕ) (packet buf pad out : List ℕ)
    → ((out' : List ℕ)
        → Ends limit buf pad out'
        → decode_loop f limit (encode_loop g buf ++ pad) out' ≡ out' ++ buf)
    → Ends limit (packet ++ buf) pad out
    → decode_loop f limit (encode_loop g buf ++ pad) (out ++ packet) ≡ out ++ (packet ++ buf)
after_packet g f limit packet buf pad out ih e =
    ih (out ++ packet) (Ends-later limit packet buf pad out e) ∙ append_assoc out packet buf

decode_loop-encode_loop :
    (g f : ℕ) (limit : Option ℕ) (buf pad out : List ℕ)
    → length buf ≤ g
    → length (encode_loop g buf ++ pad) ≤ f
    → Ends limit buf pad out
    → decode_loop f limit (encode_loop g buf ++ pad) out ≡ out ++ buf
decode_loop-encode_loop g f limit [] pad out hg hf e =
    unfold encode_loop in (decode_done f limit pad out e ∙ sym (append-nil out))
decode_loop-encode_loop zero f limit (x ∷ l) pad out hg hf e = absurd (omega arith)
decode_loop-encode_loop (suc g) zero limit (x ∷ l) pad out hg hf e =
    absurd (not_empty (leb 3 (suc (same_run 127 x l))) hf)
  where
    not_empty : (b : Bool) → ¬ (length (encode_loop (suc g) (x ∷ l) ++ pad) ≤ 0)
    not_empty b h = unfold encode_loop in ground arith
decode_loop-encode_loop (suc g) (suc f) limit (x ∷ l) pad out hg hf e =
    elim (Bool-cases (leb 3 (suc n))) [
      | inl long ↦
          let whole : replicate (suc n) x ++ drop n l ≡ x ∷ l =
            ap (◌∷◌ x) (replicate-same_run 127 x l) in
          let fuel : length (encode_loop g (drop n l) ++ pad) ≤ f =
            ground (arith, encode_loop-run g x l long) in
          rw (encode_loop-run g x l long) (
            run_packet f limit (suc n) x (encode_loop g (drop n l) ++ pad) out (ground arith)
              (omega (arith, (same_run_bounds 127 x l).0)) (Ends-wants_more limit x l pad out e)
            ∙ after_packet g f limit (replicate (suc n) x) (drop n l) pad out
                (λ out'.
                  decode_loop-encode_loop g f limit (drop n l) pad out'
                    (omega (arith, length-drop n l)) fuel)
                (rw whole e)
            ∙ ap (λ t. out ++ t) whole)
      | inr short ↦
          let whole : (x ∷ take m l) ++ drop m l ≡ x ∷ l = ap (◌∷◌ x) (take-append-drop m l) in
          let fuel : length (encode_loop g (drop m l) ++ pad) ≤ f = omega (
            arith,
            ap (λ (t : List ℕ). length (t ++ pad)) (encode_loop-literal g x l short),
            ap (λ (t : List ℕ). length t) (append_assoc (take m l) (encode_loop g (drop m l)) pad),
            length-append (take m l) (encode_loop g (drop m l) ++ pad),
          ) in
          rw (encode_loop-literal g x l short) (
            rw (append_assoc (take m l) (encode_loop g (drop m l)) pad) (
              literal_header
              ∙ literal_packet f limit x (take m l) (encode_loop g (drop m l) ++ pad) out
                  (omega (arith, length-take m l, (literal_run_bounds 127 l).0))
                  (Ends-wants_more limit x l pad out e)
              ∙ after_packet g f limit (x ∷ take m l) (drop m l) pad out
                  (λ out'.
                    decode_loop-encode_loop g f limit (drop m l) pad out'
                      (omega (arith, length-drop m l)) fuel)
                  (rw whole e)
              ∙ ap (λ t. out ++ t) whole))
    ]
  where
    n : ℕ
    n = same_run 127 x l

    m : ℕ
    m = literal_run 127 l

    literal_header :
        decode_loop (suc f) limit (m ∷ (x ∷ (take m l ++ (encode_loop g (drop m l) ++ pad)))) out
        ≡ decode_loop
            (suc f)
            limit
            (length (take m l) ∷ (x ∷ (take m l ++ (encode_loop g (drop m l) ++ pad))))
            out
    literal_header =
        ap
          (λ k.
            decode_loop (suc f) limit (k ∷ (x ∷ (take m l ++ (encode_loop g (drop m l) ++ pad))))
              out)
          (omega (arith, length-take m l, literal_run_bounds 127 l))

-- Decoding what `encode` wrote, with the plane size that was encoded, gives the plane back, whatever
-- pad bytes follow the segment.
pub decode-encode_padded :
    (buf pad : List ℕ) → packbits_decode_dicom (encode buf ++ pad) (some (length buf)) ≡ buf
unfolding packbits_decode_dicom encode
decode-encode_padded buf pad =
    rw
      (decode_loop-encode_loop (length buf) (length (encode_loop (length buf) buf ++ pad))
        (some (length buf)) buf pad [] (omega arith) (omega arith) (omega arith))
      (ground arith)

-- With no expected size, decoding exactly what `encode` wrote gives the buffer back.
pub decode-encode : (buf : List ℕ) → packbits_decode_dicom (encode buf) none ≡ buf
unfolding packbits_decode_dicom encode
decode-encode buf =
    ap (λ t. decode_loop (length t) none t []) (sym (append-nil (encode_loop (length buf) buf)))
    ∙ decode_loop-encode_loop (length buf) (length (encode_loop (length buf) buf ++ [])) none buf []
        [] (omega arith) (omega arith) refl

-- `packbits_decode` with an expected size returns exactly that many bytes, or raises.
pub packbits_decode-length :
    (buf : List ℕ) (size : ℕ)
    → (packbits_decode buf (some size) ≡ none)
      ⊎ ((out : List ℕ) × (packbits_decode buf (some size) ≡ some out) × (length out ≡ size))
unfolding packbits_decode
packbits_decode-length buf size =
    elim (Bool-cases (length (packbits_decode_dicom buf (some size)) == size)) [
      | inl e ↦ inr (packbits_decode_dicom buf (some size), rw e, ground (arith, e))
      | inr e ↦ inl (rw e)
    ]

-- A buffer that is not empty has an encoding that is not empty.
pub encode_nonempty : (buf : List ℕ) → 0 < length buf → 0 < length (encode buf)
unfolding encode encode_loop
encode_nonempty [] h = h
encode_nonempty (x ∷ l) h = ground arith

-- The codec's decoder returns the plane that was encoded, whatever pad bytes follow it.
pub packbits_decode-padded :
    (buf pad : List ℕ) → packbits_decode (encode buf ++ pad) (some (length buf)) ≡ some buf
unfolding packbits_decode
packbits_decode-padded buf pad = rw (decode-encode_padded buf pad) (ground arith)
