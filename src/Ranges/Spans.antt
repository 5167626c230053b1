-- ===== src/Ranges/Spans.antt =====
-- core/io.py, `_spans`: the parts of a range.
use opencodecs.Common.{
  ℕ, zero, suc, ◌+◌, ◌-◌, ◌*◌, ◌/◌, ◌≤◌, ◌<◌, List, [], ◌∷◌, ◌≡◌, refl, arith, length, ltb, ltb→lt,
  dec_le, Bool-cases, inl, inr,
}
use mathlib.Core.Path.{subst}
use native.Mathlib.Nat.{lt-mul-div-succ, le-div_iff_mul-le}
use opencodecs.Common.{some, ap}
use opencodecs.Ranges.{spans_from, spans}

-- The parts join up from `lo` to `total`, and none is empty or longer than `step`.
pub IsCut : ℕ → ℕ → ℕ → List (ℕ × ℕ) → Type 0
IsCut step lo total [] = lo ≡ total
IsCut step lo total ((a, b) ∷ parts) =
    (a ≡ lo) × (a < b) × (b ≤ a + step) × IsCut step b total parts

spans_from-past : (fuel total step lo : ℕ) → total ≤ lo → spans_from fuel total step lo ≡ []
unfolding spans_from
spans_from-past zero total step lo h = refl
spans_from-past (suc fuel) total step lo h = ground arith

spans_from-IsCut :
    (fuel total step lo : ℕ)
    → 1 ≤ step
    → lo ≤ total
    → total ≤ lo + fuel
    → IsCut step lo total (spans_from fuel total step lo)
unfolding spans_from IsCut
spans_from-IsCut zero total step lo h l f = omega arith
spans_from-IsCut (suc fuel) total step lo h l f = elim (Bool-cases (ltb lo total)) [
  | inl e ↦ rw e (
    refl,
    omega (arith, ltb→lt lo total e),
    omega arith,
    elim (dec_le (lo + step) total) [
      | yes q ↦
          subst (λ b. IsCut step b total (spans_from fuel total step (lo + step))) (omega arith)
            (spans_from-IsCut fuel total step (lo + step) h q (omega arith))
      | no q ↦ rw (spans_from-past fuel total step (lo + step) (omega arith)) (omega arith)
    ],
  )
  | inr e ↦ rw e (ground arith)
]

spans_from-length :
    (fuel total step lo n : ℕ) → total ≤ lo + n * step → length (spans_from fuel total step lo) ≤ n
unfolding spans_from
spans_from-length zero total step lo n h = omega arith
spans_from-length (suc fuel) total step lo zero h = ground arith
spans_from-length (suc fuel) total step lo (suc n) h =
    ground (arith, spans_from-length fuel total step (lo + step) n (omega arith))

step_pos : (n p : ℕ) → 1 ≤ (suc n + p) / suc p
step_pos n p = (le-div_iff_mul-le {k = suc p} {x = 1} {y = suc n + p} (omega arith)).1 (omega arith)

-- `_spans` of a positive total in a positive number of parts does not raise: its spans join up from 0
-- to the total, none is empty or longer than the total over the parts, rounded up, and there are at
-- most as many as asked for.
pub spans-IsCut :
    (total parts : ℕ)
    → 1 ≤ total
    → 1 ≤ parts
    → (l : List (ℕ × ℕ)) × (spans total parts ≡ some l)
      × IsCut ((total + parts - 1) / parts) 0 total l
      × (length l ≤ parts)
unfolding spans
spans-IsCut zero parts h k = elim h [ ]
spans-IsCut (suc n) zero h k = elim k [ ]
spans-IsCut (suc n) (suc p) h k =
    let step = (suc n + p) / suc p in
    let whole : suc n ≤ suc p * step =
      omega (arith, lt-mul-div-succ (suc n + p) {b = suc p} (omega arith)) in
    (
      spans_from (suc n) (suc n) step 0,
      refl,
      subst (λ s. IsCut s 0 (suc n) (spans_from (suc n) (suc n) step 0))
          (ap (λ m. m / suc p) (omega arith))
          (spans_from-IsCut (suc n) (suc n) step 0 (step_pos n p) (omega arith) (omega arith)),
      spans_from-length (suc n) (suc n) step 0 (suc p) (omega arith),
    )
