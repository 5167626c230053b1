-- ===== src/Pyramid/Axis.antt =====
-- core/pyramid.py, `_normalize_axis`: which indices of an axis a region covers.
use opencodecs.Common.{ℕ, suc, ◌+◌, ◌≤◌, ◌<◌, max, arith, ◌↔◌}
use opencodecs.Common.Int.{ℤ, pos, negsuc, ◌+ℤ◌}
use opencodecs.Pyramid.{Bounds, whole, slice, pair, wrap, clip, normalize, normalize_axis, or_value}

-- The bounds that a call asks for, an absent one being the end of the axis.
pub start_of : Bounds → ℕ → ℤ
start_of whole full = pos 0
start_of (slice start stop step) full = or_value start 0
start_of (pair start stop) full = start

pub stop_of : Bounds → ℕ → ℤ
stop_of whole full = pos full
stop_of (slice start stop step) full = or_value stop full
stop_of (pair start stop) full = stop

-- The integer that an index counted from the end stands for: `k - full` if `k` is negative.
pub IsFrom : ℤ → ℕ → ℕ → Type 0
IsFrom (pos n) full k = n ≤ k
IsFrom (negsuc n) full k = full ≤ k + suc n

clip-wrap :
    (a : ℤ) (full k : ℕ)
    → k < full
    → (clip (wrap a full) full ≤ k → IsFrom a full k)
      × (IsFrom a full k → clip (wrap a full) full ≤ k)
unfolding clip wrap IsFrom ◌+ℤ◌
clip-wrap (pos n) full k h = (λ l. ground arith, λ l. ground arith)
clip-wrap (negsuc n) full k h = (λ l. ground arith, λ l. ground arith)

clip-bound : (a : ℤ) (full : ℕ) → clip a full ≤ full
unfolding clip
clip-bound (pos n) full = omega arith
clip-bound (negsuc n) full = omega arith

IsSliced : ℤ → ℤ → ℕ → ℕ × ℕ → Type 0
IsSliced start stop full r =
    (r.0 ≤ r.1)
    × (r.1 ≤ full)
    × ((k : ℕ) → k < full → (r.0 ≤ k × k < r.1) ↔ (IsFrom start full k × ¬ IsFrom stop full k))

normalize-IsSliced :
    (start stop : ℤ) (full : ℕ) → IsSliced start stop full (normalize start stop full)
unfolding normalize IsSliced
normalize-IsSliced start stop full =
    let a = clip (wrap start full) full in
    let b = clip (wrap stop full) full in
    let p : a ≤ full = clip-bound (wrap start full) full in
    let q : b ≤ full = clip-bound (wrap stop full) full in
    (
      omega arith,
      omega arith,
      λ k h.
          let s = clip-wrap start full k h in
          let t = clip-wrap stop full k h in
          (
            λ l. (s.0 l.0, λ f. absurd (past a b k l.0 l.1 (t.1 f))),
            λ l. (s.1 l.0, before a b k (s.1 l.0) (λ f. l.1 (t.0 f))),
          ),
    )
  where
    past : (a b k : ℕ) → a ≤ k → k < max a b → b ≤ k → ⊥
    past a b k h l f = omega arith

    before : (a b k : ℕ) → a ≤ k → ¬ (b ≤ k) → k < max a b
    before a b k h f = omega arith

whole-IsSliced : (full : ℕ) → IsSliced (pos 0) (pos full) full (0, full)
unfolding IsSliced IsFrom
whole-IsSliced full =
    (omega arith, omega arith, λ k h. (λ l. (omega arith, λ f. omega arith), λ l. (omega arith, h)))

-- The bounds are in order and on the axis, and an index of the axis lies between them where it is at
-- or behind the start that was asked for and before the stop, both counted from the end of the axis
-- if negative and absent ones being its ends. The step of a slice has no part in this. So a slice
-- with no step, or with step 1, gives what Python selects from a sequence; one with another step
-- gives the same indices as without it.
pub normalize_axis-slices :
    (b : Bounds) (full : ℕ)
    → ((normalize_axis b full).0 ≤ (normalize_axis b full).1)
      × ((normalize_axis b full).1 ≤ full)
      × ((k : ℕ)
          → k < full
          → ((normalize_axis b full).0 ≤ k × k < (normalize_axis b full).1)
            ↔ (IsFrom (start_of b full) full k × ¬ IsFrom (stop_of b full) full k))
unfolding normalize_axis start_of stop_of
normalize_axis-slices whole full = unfold IsSliced in whole-IsSliced full
normalize_axis-slices (slice start stop step) full =
    unfold IsSliced in normalize-IsSliced (or_value start 0) (or_value stop full) full
normalize_axis-slices (pair start stop) full = unfold IsSliced in normalize-IsSliced start stop full
