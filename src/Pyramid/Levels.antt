-- ===== src/Pyramid/Levels.antt =====
-- core/pyramid.py, `PyramidReader.level` and `best_level_for`.
use opencodecs.Common.{
  ℕ, zero, suc, ◌+◌, ◌<◌, ◌≤◌, List, [], ◌∷◌, ◌≡◌, ◌⊎◌, inl, inr, refl, arith, true, false,
}
use opencodecs.Common.{◌≢◌, Option, none, some, get_elem?, ap, sym, ◌∙◌, Bool-cases, eq_of_some}
use mathlib.Core.Path.{subst}
use opencodecs.Pyramid.{Shape, within, fits, first_fit, best_level_for}

-- A size keeps to a limit, where there is one.
pub IsAtMost : ℕ → Option ℕ → Type 0
IsAtMost size none = Unit
IsAtMost size (some limit) = size ≤ limit

-- There is a level at the index, its height is at most the first limit and its width at most the
-- second.
pub IsFit : List Shape → Option ℕ → Option ℕ → ℕ → Type 0
IsFit shapes max_y max_x i =
    (h : ℕ) × (w : ℕ) × (get_elem? shapes i ≡ some (h, w)) × IsAtMost h max_y × IsAtMost w max_x

-- The code's test passes at an index.
Passes : List Shape → Option ℕ → Option ℕ → ℕ → Type 0
Passes shapes max_y max_x i =
    (shape : Shape) × (get_elem? shapes i ≡ some shape) × (fits shape max_y max_x ≡ true)

within-IsAtMost : (n : ℕ) (limit : Option ℕ) → within n limit ≡ true → IsAtMost n limit
unfolding within IsAtMost
within-IsAtMost n none h = tt
within-IsAtMost n (some limit) h = ground (arith, h)

IsAtMost-within : (n : ℕ) (limit : Option ℕ) → IsAtMost n limit → within n limit ≡ true
unfolding within IsAtMost
IsAtMost-within n none h = refl
IsAtMost-within n (some limit) h = ground (arith, h)

Passes-IsFit :
    (shapes : List Shape) (max_y max_x : Option ℕ) (i : ℕ)
    → Passes shapes max_y max_x i
    → IsFit shapes max_y max_x i
unfolding Passes IsFit
Passes-IsFit shapes max_y max_x i ((h, w), at, f) =
    (h, w, at, within-IsAtMost h max_y (ground arith), within-IsAtMost w max_x (ground arith))

IsFit-Passes :
    (shapes : List Shape) (max_y max_x : Option ℕ) (i : ℕ)
    → IsFit shapes max_y max_x i
    → Passes shapes max_y max_x i
unfolding Passes IsFit
IsFit-Passes shapes max_y max_x i (h, w, at, y, x) =
    ((h, w), at, rw (IsAtMost-within h max_y y, IsAtMost-within w max_x x) refl)

true_ne_false : true ≡ false → ⊥
true_ne_false h = ground arith

-- From index `i` on: the first level that passes, and none before it does.
IsFirst : ℕ → List Shape → Option ℕ → Option ℕ → ℕ → Type 0
IsFirst i shapes max_y max_x best =
    ((j : ℕ) × (best ≡ i + j)
      × Passes shapes max_y max_x j
      × ((k : ℕ) → k < j → Passes shapes max_y max_x k → ⊥))
    ⊎ ((best ≡ 0) × ((k : ℕ) → Passes shapes max_y max_x k → ⊥))

-- Nor does a level at the front that does not pass.
unfit_head :
    (s : Shape) (shapes : List Shape) (max_y max_x : Option ℕ) (k : ℕ)
    → fits s max_y max_x ≡ false
    → ((j : ℕ) → k ≡ suc j → Passes shapes max_y max_x j → ⊥)
    → Passes (s ∷ shapes) max_y max_x k
    → ⊥
unfolding Passes
unfit_head s shapes max_y max_x zero e n (t, g, h) =
    true_ne_false (sym h ∙ ap (λ z. fits z max_y max_x) (sym (eq_of_some g)) ∙ e)
unfit_head s shapes max_y max_x (suc k) e n f = n k refl f

first_fit-IsFirst :
    (i : ℕ) (shapes : List Shape) (max_y max_x : Option ℕ)
    → IsFirst i shapes max_y max_x (first_fit i shapes max_y max_x)
unfolding first_fit IsFirst Passes
first_fit-IsFirst i [] max_y max_x = inr (refl, λ k h. ground (arith, h.1))
first_fit-IsFirst i (s ∷ shapes) max_y max_x = elim (Bool-cases (fits s max_y max_x)) [
  | inl e ↦ rw e (inl (0, omega arith, (s, refl, e), λ k l h. elim l [ ]))
  | inr e ↦ rw e (elim (first_fit-IsFirst (suc i) shapes max_y max_x) [
    | inl (j, b, f, n) ↦ inl (
      suc j,
      b ∙ omega arith,
      f,
      λ k l. unfit_head s shapes max_y max_x k e (λ m q. n m (omega arith)),
    )
    | inr (b, n) ↦ inr (b, λ k. unfit_head s shapes max_y max_x k e (λ m q. n m))
  ])
]

first_fit_cases :
    (shapes : List Shape) (max_y max_x : Option ℕ)
    → (IsFit shapes max_y max_x (first_fit 0 shapes max_y max_x)
        × ((k : ℕ) → k < first_fit 0 shapes max_y max_x → ¬ IsFit shapes max_y max_x k))
      ⊎ ((first_fit 0 shapes max_y max_x ≡ 0) × ((k : ℕ) → ¬ IsFit shapes max_y max_x k))
unfolding IsFirst
first_fit_cases shapes max_y max_x = elim (first_fit-IsFirst 0 shapes max_y max_x) [
  | inl (j, b, f, n) ↦
      let e : j ≡ first_fit 0 shapes max_y max_x = omega (arith, b) in
      inl (
        Passes-IsFit shapes max_y max_x _ (subst (Passes shapes max_y max_x) e f),
        λ k l q. n k (omega arith) (IsFit-Passes shapes max_y max_x k q),
      )
  | inr (b, n) ↦ inr (b, λ k q. n k (IsFit-Passes shapes max_y max_x k q))
]

-- `best_level_for` with a limit gives the first level whose height is at most `max_y` and whose width
-- is at most `max_x`, an absent limit allowing every size, so that no level before it is such a one; where there is no such level it gives 0, which is the level of full resolution.
pub best_level_for-IsFit :
    (shapes : List Shape) (max_y max_x : Option ℕ)
    → (max_y ≢ none) ⊎ (max_x ≢ none)
    → (IsFit shapes max_y max_x (best_level_for shapes max_y max_x)
        × ((k : ℕ) → k < best_level_for shapes max_y max_x → ¬ IsFit shapes max_y max_x k))
      ⊎ ((best_level_for shapes max_y max_x ≡ 0) × ((k : ℕ) → ¬ IsFit shapes max_y max_x k))
unfolding best_level_for
best_level_for-IsFit shapes none none (inl n) = absurd (n refl)
best_level_for-IsFit shapes none none (inr n) = absurd (n refl)
best_level_for-IsFit shapes none (some x) n = first_fit_cases shapes none (some x)
best_level_for-IsFit shapes (some y) none n = first_fit_cases shapes (some y) none
best_level_for-IsFit shapes (some y) (some x) n = first_fit_cases shapes (some y) (some x)
