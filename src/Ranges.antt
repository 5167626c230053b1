-- ===== src/Ranges.antt =====
-- src/opencodecs/core/io.py: `coalesce_ranges`, which merges nearby byte ranges into fewer fetches,
-- and `_spans`, which cuts a range in equal parts. Offsets and lengths are not negative.
pub mod Sorting
pub mod Placing
pub mod Splits
pub mod Limits
pub mod Spans
mod Tests
use opencodecs.Common.{
  ℕ, zero, suc, ◌+◌, ◌-◌, ◌/◌, min, max, List, [], ◌∷◌, ◌++◌, Bool, true, false, ◌&&◌, ◌||◌,
}
use opencodecs.Common.{Option, none, some, ltb, leb, ◌==◌, if◌then◌else◌, length, set, replicate}

-- `(offset, length)`
abbrev pub Range : Type 0
Range = ℕ × ℕ

-- A range with the index that it has in the input.
abbrev pub Indexed : Type 0
Indexed = ℕ × ℕ × ℕ

-- `(merged_index, slice_start, slice_end)`
abbrev pub Split : Type 0
Split = ℕ × ℕ × ℕ

-- The order of the sort key `(offset, -length)`.
pub key_leb : Indexed → Indexed → Bool
key_leb (o, l, i) (p, m, j) = ltb o p || (o == p) && leb m l

-- `sorted` is stable: an element goes in front of those that its key equals and that follow it.
pub insert : Indexed → List Indexed → List Indexed
insert x [] = x ∷ []
insert x (y ∷ ys) = let rest = insert x ys in if key_leb x y then x ∷ y ∷ ys else y ∷ rest

pub sorted : List Indexed → List Indexed
sorted [] = []
sorted (x ∷ xs) = insert x (sorted xs)

pub enumerate : ℕ → List Range → List Indexed
enumerate i [] = []
enumerate i ((o, l) ∷ ranges) = (o, l, i) ∷ enumerate (suc i) ranges

-- `cur_off`, `cur_end` and `cur_idx`.
pub record Fetch : Type 0 where
  pub start : ℕ
  pub stop : ℕ
  pub index : ℕ

abbrev pub new_fetch : List Range → ℕ → ℕ → Fetch × List Range
new_fetch merged off end =
    (record { start = off; stop = end; index = length merged }, merged ++ ((off, end - off) ∷ []))

-- `off - cur_end <= max_gap and (max(end, cur_end) - cur_off) <= max_combined`
abbrev pub joins : ℕ → ℕ → Fetch → ℕ → ℕ → Bool
joins max_gap max_combined f off end =
    leb off (f.stop + max_gap) && leb (max end f.stop) (f.start + max_combined)

-- The current fetch grows up to `end`, where it does not reach there yet.
pub extend : Fetch → List Range → ℕ → Fetch × List Range
extend f merged end =
    if ltb f.stop end
    then (record f { stop = end }, set merged f.index (f.start, end - f.start))
    else (f, merged)

-- Which fetch the range from `off` to `end` goes to; `none` is the `cur_off` of -1.
pub place : ℕ → ℕ → Option Fetch → List Range → ℕ → ℕ → Fetch × List Range
place max_gap max_combined none merged off end = new_fetch merged off end
place max_gap max_combined (some f) merged off end =
    if joins max_gap max_combined f off end then extend f merged end else new_fetch merged off end

-- `splits[orig].append(split)`
pub add_split : List (List Split) → ℕ → Split → List (List Split)
add_split [] i x = []
add_split (l ∷ ls) zero x = (l ++ (x ∷ [])) ∷ ls
add_split (l ∷ ls) (suc i) x = l ∷ add_split ls i x

abbrev pub split_in : Fetch → ℕ → ℕ → Split
split_in f off end = (f.index, off - f.start, end - f.start)

-- The loop over the sorted ranges.
pub merge :
    ℕ
    → ℕ
    → Option Fetch
    → List Range
    → List (List Split)
    → List Indexed
    → List Range × List (List Split)
merge max_gap max_combined current merged splits [] = (merged, splits)
merge max_gap max_combined current merged splits ((off, n, orig) ∷ items) =
    let placed = place max_gap max_combined current merged off (off + n) in
    merge max_gap max_combined (some placed.0) placed.1
      (add_split splits orig (split_in placed.0 off (off + n))) items

pub coalesce_ranges : List Range → ℕ → ℕ → List Range × List (List Split)
coalesce_ranges [] max_gap max_combined = ([], [])
coalesce_ranges (r ∷ ranges) max_gap max_combined =
    merge max_gap max_combined none [] (replicate (length (r ∷ ranges)) [])
      (sorted (enumerate 0 (r ∷ ranges)))

-- The `(lo, min(total, lo + step))` for `lo` in `range(lo, total, step)`, on fuel.
pub spans_from : ℕ → ℕ → ℕ → ℕ → List (ℕ × ℕ)
spans_from zero total step lo = []
spans_from (suc fuel) total step lo =
    let rest = spans_from fuel total step (lo + step) in
    if ltb lo total then (lo, min total (lo + step)) ∷ rest else []

-- `_spans`; `-(-total // parts)` rounds up. `none` is the ValueError of a step of 0, or the
-- ZeroDivisionError. At most `total` spans begin.
pub spans : ℕ → ℕ → Option (List (ℕ × ℕ))
spans total zero = none
spans zero (suc p) = none
spans (suc n) (suc p) = some (spans_from (suc n) (suc n) ((suc n + p) / suc p) 0)
