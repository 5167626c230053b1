-- ===== src/Ranges/Tests.antt =====
-- Runs of the range functions of src/opencodecs/core/io.py, and the theorems at concrete inputs.
use opencodecs.Common.{ℕ, List, [], ◌∷◌, ◌+◌, ◌-◌, ◌/◌, ◌≡◌, ◌≤◌, refl, some, arith, length}
use opencodecs.Ranges.{
  Range, coalesce_ranges, merge, place, extend, add_split, sorted, insert, key_leb, enumerate,
}
use opencodecs.Ranges.{spans, spans_from}
use opencodecs.Ranges.Splits.{IsServed, coalesce_ranges-IsServed}
use opencodecs.Ranges.Limits.{AllFine, coalesce_ranges-AllFine}
use opencodecs.Ranges.Spans.{IsCut, spans-IsCut}

abbrev three_ranges : List Range
three_ranges = (500, 10) ∷ (0, 100) ∷ (110, 20) ∷ []

three_ranges_merged : coalesce_ranges three_ranges 16 400 ≡ (
  (0, 130) ∷ (500, 10) ∷ [],
  ((1, 0, 10) ∷ []) ∷ ((0, 0, 100) ∷ []) ∷ ((0, 110, 130) ∷ []) ∷ [],
)
unfolding coalesce_ranges merge place extend add_split sorted insert key_leb enumerate
three_ranges_merged = refl

spans_of_ten : spans 10 4 ≡ some ((0, 3) ∷ (3, 6) ∷ (6, 9) ∷ (9, 10) ∷ [])
unfolding spans spans_from
spans_of_ten = refl

coalesce_ranges-IsServed_example :
    IsServed
      (coalesce_ranges three_ranges 16 400).0
      (coalesce_ranges three_ranges 16 400).1
      2
      110
      20
coalesce_ranges-IsServed_example = coalesce_ranges-IsServed three_ranges 16 400 2 110 20 refl

coalesce_ranges-AllFine_example : AllFine three_ranges 400 (coalesce_ranges three_ranges 16 400).0
coalesce_ranges-AllFine_example = coalesce_ranges-AllFine three_ranges 16 400

spans-IsCut_example :
    (l : List (ℕ × ℕ)) × (spans 10 4 ≡ some l) × IsCut ((10 + 4 - 1) / 4) 0 10 l × (length l ≤ 4)
spans-IsCut_example = spans-IsCut 10 4 (omega arith) (omega arith)
