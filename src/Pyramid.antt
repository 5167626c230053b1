-- ===== src/Pyramid.antt =====
-- src/opencodecs/core/pyramid.py: the choice of a level, and the bounds of a region.
pub mod Levels
pub mod Axis
mod Tests
use opencodecs.Common.{ℕ, zero, suc, ◌+◌, ◌-◌, min, max, List, [], ◌∷◌, Bool, true, false, ◌&&◌}
use opencodecs.Common.{Option, none, some, ltb, leb, if◌then◌else◌, length, get_elem?, not}
use opencodecs.Common.Int.{ℤ, pos, negsuc, ◌+ℤ◌, ltb_ℤ}

-- `(h, w)` of a level.
abbrev pub Shape : Type 0
Shape = ℕ × ℕ

-- `PyramidReader.level`; `none` is the IndexError. `self.levels[n]` itself counts a negative index
-- from the end, after `n` has been moved once.
pub list_index : {A : Type 0} → List A → ℤ → Option A
list_index levels (pos n) = get_elem? levels n
list_index levels (negsuc n) =
    if ltb n (length levels) then get_elem? levels (length levels - suc n) else none

pub level : {A : Type 0} → List A → ℤ → Option A
level levels (pos n) = list_index levels (pos n)
level levels (negsuc n) = list_index levels (negsuc n +ℤ pos (length levels))

-- `limit is None or size <= limit`
pub within : ℕ → Option ℕ → Bool
within size none = true
within size (some limit) = leb size limit

abbrev pub fits : Shape → Option ℕ → Option ℕ → Bool
fits (h, w) max_y max_x = within h max_y && within w max_x

-- The loop of `best_level_for` from index `i` on; `best` stays 0 if it ends without a break.
pub first_fit : ℕ → List Shape → Option ℕ → Option ℕ → ℕ
first_fit i [] max_y max_x = 0
first_fit i (shape ∷ shapes) max_y max_x =
    let rest = first_fit (suc i) shapes max_y max_x in if fits shape max_y max_x then i else rest

pub best_level_for : List Shape → Option ℕ → Option ℕ → ℕ
best_level_for shapes none none = 0
best_level_for shapes max_y max_x = first_fit 0 shapes max_y max_x

-- The argument for one axis: None, a slice with its start, stop and step, or a tuple.
pub data Bounds : Type 0 where
  whole : Bounds
  slice : Option ℤ → Option ℤ → Option ℤ → Bounds
  pair : ℤ → ℤ → Bounds

-- `if start < 0: start += full`
pub wrap : ℤ → ℕ → ℤ
wrap (pos n) full = pos n
wrap (negsuc n) full = negsuc n +ℤ pos full

-- `max(0, min(start, full))`
pub clip : ℤ → ℕ → ℕ
clip (pos n) full = min n full
clip (negsuc n) full = 0

-- The last four statements of `_normalize_axis`.
pub normalize : ℤ → ℤ → ℕ → ℕ × ℕ
normalize start stop full =
    let first = clip (wrap start full) full in (first, max first (clip (wrap stop full) full))

abbrev pub or_value : Option ℤ → ℕ → ℤ
or_value none n = pos n
or_value (some a) n = a

-- The step of a slice is not looked at.
pub normalize_axis : Bounds → ℕ → ℕ × ℕ
normalize_axis whole full = (0, full)
normalize_axis (slice start stop step) full = normalize (or_value start 0) (or_value stop full) full
normalize_axis (pair start stop) full = normalize start stop full
