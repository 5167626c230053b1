-- ===== src/DicomRle/Layout.antt =====
-- Where the segments of a DICOM RLE container stand, and that the header says so.
use opencodecs.Common.{ℕ, suc, ◌+◌, ◌≤◌, ◌<◌, ◌≡◌, refl, ap, arith}
use opencodecs.Common.{List, [], ◌∷◌, ◌++◌, false}
use opencodecs.Common.{length, length-append, append_assoc}
use mathlib.Core.Path.{subst}
use opencodecs.Common.Bytes.{join, slice-append}
use opencodecs.DicomRle.{offsets_from, not_increasing, last_of, invalid_offsets}
use opencodecs.DicomRle.{pieces}

pub length-offsets_from :
    (at : ℕ) (parts : List (List ℕ)) → length (offsets_from at parts) ≡ length parts
unfolding offsets_from
length-offsets_from at [] = refl
length-offsets_from at (p ∷ parts) = ap suc (length-offsets_from (at + length p) parts)

-- No part is empty.
abbrev pub NonEmpty : List (List ℕ) → Type 0
NonEmpty [] = Unit
NonEmpty (p ∷ parts) = (0 < length p) × NonEmpty parts

not_increasing-offsets :
    (at : ℕ) (parts : List (List ℕ))
    → NonEmpty parts
    → not_increasing (offsets_from at parts) ≡ false
unfolding not_increasing offsets_from
not_increasing-offsets at [] h = refl
not_increasing-offsets at (p ∷ []) h = refl
not_increasing-offsets at (p ∷ q ∷ parts) h =
    ground (arith, not_increasing-offsets (at + length p) (q ∷ parts) h.1)

last_of-offsets :
    (at a : ℕ) (parts : List (List ℕ))
    → a ≤ at
    → last_of a (offsets_from at parts) ≤ at + length (join parts)
unfolding offsets_from
last_of-offsets at a [] h = omega arith
last_of-offsets at a (p ∷ parts) h =
    omega
      (arith, last_of-offsets (at + length p) at parts (omega arith), length-append p (join parts))

-- The offsets of parts that are not empty pass the check.
pub offsets_valid :
    (parts : List (List ℕ)) (size : ℕ)
    → NonEmpty parts
    → size ≡ 64 + length (join parts)
    → invalid_offsets size (offsets_from 64 parts) ≡ false
unfolding invalid_offsets offsets_from
offsets_valid [] size h e = refl
offsets_valid (p ∷ parts) size h e = ground (
  arith,
  last_of-offsets (64 + length p) 64 parts (omega arith),
  length-append p (join parts),
  ordered,
)
  where
    ordered : not_increasing (64 ∷ offsets_from (64 + length p) parts) ≡ false
    ordered = not_increasing-offsets 64 (p ∷ parts) h

-- Slicing at the offsets gives the parts back.
pub pieces-offsets :
    (front : List ℕ) (at : ℕ) (parts : List (List ℕ))
    → at ≡ length front
    → pieces (front ++ join parts) (offsets_from at parts ++ ((at + length (join parts)) ∷ []))
      ≡ parts
unfolding pieces offsets_from
pieces-offsets front at [] h = refl
pieces-offsets front at (p ∷ []) h =
    ap (λ t. t ∷ [])
      (slice-append front p [] at (at + length (p ++ [])) h (omega (arith, h, length-append p [])))
pieces-offsets front at (p ∷ q ∷ parts) h =
    let rest = q ++ join parts in
    let end : at + length (p ++ rest) ≡ at + length p + length rest =
      omega (arith, length-append p rest) in
    rw (slice-append front p rest at (at + length p) h (omega (arith, h)), end)
      (ap (◌∷◌ p) (
        subst
          (λ buf.
            pieces buf (
              (at + length p)
              ∷ (offsets_from (at + length p + length q) parts
                  ++ ((at + length p + length rest) ∷ [])))
            ≡ q ∷ parts)
          (append_assoc front p rest)
          (pieces-offsets (front ++ p) (at + length p) (q ∷ parts)
            (omega (arith, h, length-append front p)))))
