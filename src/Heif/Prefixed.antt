-- ===== src/Heif/Prefixed.antt =====
-- backends/_heifbox.py: `length_prefixed_to_annexb`, against `split_annexb` of
-- backends/_bitstreams.py.
use opencodecs.Common.{
  ℕ, zero, suc, ◌^◌, ◌<◌, List, [], ◌∷◌, ◌++◌, some, ◌≡◌, refl, length, take, drop, arith, sym, ◌∙◌,
  ap, map, length-append, append_assoc, ltb-false, leb-true, leb-false,
}
use opencodecs.Common.Bytes.{join, take-append, drop-append}
use opencodecs.Bitstreams.Annexb.{split_annexb}
use opencodecs.Bitstreams.Annexb.Splitting.{
  IsFree, EndsNonzero, Framed, framed, AllUnits, nals, split_annexb-join,
}
use opencodecs.Heif.Bytes.{be_bytes, length-be_bytes, from_be-be_bytes}
use opencodecs.Heif.{prefixed_unit, annexb_loop, length_prefixed_to_annexb}

-- A unit behind its length, in `n` bytes.
abbrev pub prefixed : ℕ → List ℕ → List ℕ
prefixed n nal = be_bytes n (length nal) ++ nal

-- Units whose lengths fit `n` bytes, which hold no start code and do not end with a zero.
abbrev pub AllPrefixed : ℕ → List (List ℕ) → Type 0
AllPrefixed n [] = Unit
AllPrefixed n (nal ∷ us) = (length nal < 256 ^ n × IsFree nal × EndsNonzero nal) × AllPrefixed n us

abbrev four : List ℕ → Framed
four nal = (1, nal)

prefixed_unit-prefixed :
    (n : ℕ) (nal rest : List ℕ)
    → length nal < 256 ^ n
    → prefixed_unit n (prefixed n nal ++ rest) ≡ some (nal, rest)
unfolding prefixed_unit
prefixed_unit-prefixed n nal rest small =
    let size = be_bytes n (length nal) in
    let shape = append_assoc size nal rest in
    let front : take n (prefixed n nal ++ rest) ≡ size =
      ap (take n) shape ∙ take-append size (nal ++ rest) n (sym (length-be_bytes n (length nal))) in
    let behind : drop n (prefixed n nal ++ rest) ≡ nal ++ rest =
      ap (drop n) shape ∙ drop-append size (nal ++ rest) n (sym (length-be_bytes n (length nal))) in
    let number = from_be-be_bytes n (length nal) small in
    let fits =
      ltb-false (length (nal ++ rest)) (length nal) (omega (arith, length-append nal rest)) in
    rw (front, behind, number, fits)
      (λ i.
        some (take-append nal rest (length nal) refl i, drop-append nal rest (length nal) refl i))

annexb_loop-prefixed :
    (fuel n : ℕ) (us : List (List ℕ))
    → 0 < n
    → AllPrefixed n us
    → length (join (map (prefixed n) us)) < fuel
    → annexb_loop fuel n (join (map (prefixed n) us)) ≡ some (join (map framed (map four us)))
unfolding annexb_loop
annexb_loop-prefixed zero n us pos h l = absurd (omega arith)
annexb_loop-prefixed (suc fuel) zero us pos h l = absurd (omega arith)
annexb_loop-prefixed (suc fuel) (suc n) [] pos h l = rw (leb-false (suc n) 0 (omega arith)) refl
annexb_loop-prefixed (suc fuel) (suc n) (nal ∷ us) pos h l =
    let rest = join (map (prefixed (suc n)) us) in
    let m = length-append (prefixed (suc n) nal) rest in
    let k = length-append (be_bytes (suc n) (length nal)) nal in
    let j = length-be_bytes (suc n) (length nal) in
    rw
      (
        leb-true (suc n) (length (prefixed (suc n) nal ++ rest)) (omega (arith, m, k, j)),
        prefixed_unit-prefixed (suc n) nal rest h.0.0,
        annexb_loop-prefixed fuel (suc n) us pos h.1 (omega (arith, m, k, j)),
      )
      refl

all_units : (n : ℕ) (us : List (List ℕ)) → AllPrefixed n us → AllUnits (map four us)
all_units n [] h = tt
all_units n (nal ∷ us) h = ((h.0.1, h.0.2), all_units n us h.1)

nals-four : (us : List (List ℕ)) → nals (map four us) ≡ us
nals-four [] = refl
nals-four (nal ∷ us) = ap (◌∷◌ nal) (nals-four us)

-- The coded data of an item, NAL units behind their lengths, becomes a byte stream that is split into
-- just these units. The lengths fit their bytes, at least one, and a unit has no start code within it
-- and ends with a byte other than zero.
pub length_prefixed_to_annexb-split_annexb :
    (n : ℕ) (us : List (List ℕ))
    → 0 < n
    → AllPrefixed n us
    → (stream : List ℕ) × (length_prefixed_to_annexb (join (map (prefixed n) us)) n ≡ some stream)
      × (split_annexb stream ≡ us)
unfolding length_prefixed_to_annexb
length_prefixed_to_annexb-split_annexb n us pos h = (
  join (map framed (map four us)),
  annexb_loop-prefixed (suc (length (join (map (prefixed n) us)))) n us pos h (omega arith),
  split_annexb-join (map four us) (all_units n us h) ∙ nals-four us,
)
