-- ===== src/Pyramid/Tests.antt =====
-- Runs of src/opencodecs/core/pyramid.py, and the theorems at concrete inputs.
use opencodecs.Common.{Option}
use opencodecs.Common.{ℕ, List, [], ◌∷◌, ◌≡◌, ◌≢◌, ◌≤◌, ◌<◌, ◌⊎◌, ◌↔◌, inl, refl, none, some, arith}
use opencodecs.Common.Int.{pos, negsuc, ◌+ℤ◌}
use opencodecs.Pyramid.{
  Shape, level, list_index, best_level_for, first_fit, within, Bounds, slice, normalize_axis,
  normalize, wrap, clip,
}
use opencodecs.Pyramid.Levels.{IsFit, best_level_for-IsFit}
use opencodecs.Pyramid.Axis.{normalize_axis-slices, IsFrom, start_of, stop_of}

abbrev three_levels : List Shape
three_levels = (1000, 800) ∷ (500, 400) ∷ (250, 200) ∷ []

half_level : best_level_for three_levels (some 600) none ≡ 1
unfolding best_level_for first_fit within
half_level = refl

no_level : best_level_for three_levels (some 100) none ≡ 0
unfolding best_level_for first_fit within
no_level = refl

-- -4 is not an index of three levels, and is the last one here.
below_levels : level three_levels (negsuc 3) ≡ some (250, 200)
unfolding level list_index ◌+ℤ◌
below_levels = refl

last_ten : normalize_axis (slice (some (negsuc 9)) none none) 100 ≡ (90, 100)
unfolding normalize_axis normalize wrap clip ◌+ℤ◌
last_ten = refl

-- Python selects 0, 2, 4, 6 and 8.
step_ignored : normalize_axis (slice (some (pos 0)) (some (pos 10)) (some (pos 2))) 100 ≡ (0, 10)
unfolding normalize_axis normalize wrap clip
step_ignored = refl

-- The height is held against the first limit, and the width against the second.
axes_told : best_level_for ((3, 9) ∷ (4, 5) ∷ []) (some 4) (some 5) ≡ 1
unfolding best_level_for first_fit within
axes_told = refl

limit_given : ◌≢◌ {A = Option ℕ} (some 600) none
limit_given h = ground arith

best_level_for-IsFit_example :
    (IsFit three_levels (some 600) none (best_level_for three_levels (some 600) none)
      × ((k : ℕ)
          → k < best_level_for three_levels (some 600) none
          → ¬ IsFit three_levels (some 600) none k))
    ⊎ ((best_level_for three_levels (some 600) none ≡ 0)
        × ((k : ℕ) → ¬ IsFit three_levels (some 600) none k))
best_level_for-IsFit_example = best_level_for-IsFit three_levels (some 600) none (inl limit_given)

abbrev ten : Bounds
ten = slice (some (negsuc 9)) none (some (pos 1))

normalize_axis-slices_example :
    ((normalize_axis ten 100).0 ≤ (normalize_axis ten 100).1)
    × ((normalize_axis ten 100).1 ≤ 100)
    × ((k : ℕ)
        → k < 100
        → ((normalize_axis ten 100).0 ≤ k × k < (normalize_axis ten 100).1)
          ↔ (IsFrom (start_of ten 100) 100 k × ¬ IsFrom (stop_of ten 100) 100 k))
normalize_axis-slices_example = normalize_axis-slices ten 100
