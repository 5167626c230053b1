-- ===== src/Ranges/Sorting.antt =====
-- core/io.py, `coalesce_ranges`: what `sorted` and `enumerate` keep, and the order they give.
use opencodecs.Common.{
  ℕ, zero, suc, ◌+◌, ◌≤◌, ◌<◌, List, [], ◌∷◌, some, ◌≡◌, ◌≢◌, ◌⊎◌, inl, inr, refl, arith,
}
use opencodecs.Common.{get_elem?, sym, some_pair}
use mathlib.Core.Path.{subst}
use opencodecs.Ranges.{Range, Indexed, key_leb, insert, sorted, enumerate}

abbrev pub IsIn : Indexed → List Indexed → Type 0
IsIn x [] = ⊥
IsIn x (y ∷ ys) = (x ≡ y) ⊎ IsIn x ys

-- No range of the list has the index.
abbrev pub IsFresh : ℕ → List Indexed → Type 0
IsFresh i [] = Unit
IsFresh i (y ∷ ys) = (y.2 ≢ i) × IsFresh i ys

abbrev pub IsDistinct : List Indexed → Type 0
IsDistinct [] = Unit
IsDistinct (y ∷ ys) = IsFresh y.2 ys × IsDistinct ys

-- The offsets do not fall, from `lo` on.
abbrev pub IsAscending : ℕ → List Indexed → Type 0
IsAscending lo [] = Unit
IsAscending lo (y ∷ ys) = (lo ≤ y.0) × IsAscending y.0 ys

module _ (x : Indexed) where
  insert-head : (xs : List Indexed) → IsIn x (insert x xs)
  unfolding insert
  insert-head [] = inl refl
  insert-head (y ∷ ys) = ground (arith, insert-head ys)

  insert-tail : (y : Indexed) (xs : List Indexed) → IsIn y xs → IsIn y (insert x xs)
  unfolding insert
  insert-tail y [] h = elim h [ ]
  insert-tail y (z ∷ zs) (inl e) = ground arith
  insert-tail y (z ∷ zs) (inr h) = ground (arith, insert-tail y zs h)

  insert-IsFresh : (i : ℕ) (xs : List Indexed) → x.2 ≢ i → IsFresh i xs → IsFresh i (insert x xs)
  unfolding insert
  insert-IsFresh i [] n h = (n, tt)
  insert-IsFresh i (y ∷ ys) n h = ground (arith, insert-IsFresh i ys n h.1)

  insert-IsDistinct :
      (xs : List Indexed) → IsFresh x.2 xs → IsDistinct xs → IsDistinct (insert x xs)
  unfolding insert
  insert-IsDistinct [] f d = (f, d)
  insert-IsDistinct (y ∷ ys) f d =
      ground (arith, insert-IsDistinct ys f.1 d.1, insert-IsFresh y.2 ys (λ e. f.0 (sym e)) d.0)

  insert-IsAscending :
      (lo : ℕ) (xs : List Indexed) → lo ≤ x.0 → IsAscending lo xs → IsAscending lo (insert x xs)
  unfolding insert key_leb
  insert-IsAscending lo [] l h = (l, tt)
  insert-IsAscending lo (y ∷ ys) l h = ground (arith, insert-IsAscending y.0 ys)

pub sorted-IsAscending : (xs : List Indexed) → IsAscending 0 (sorted xs)
unfolding sorted
sorted-IsAscending [] = tt
sorted-IsAscending (x ∷ xs) =
    insert-IsAscending x 0 (sorted xs) (omega arith) (sorted-IsAscending xs)

pub sorted-IsIn : (y : Indexed) (xs : List Indexed) → IsIn y xs → IsIn y (sorted xs)
unfolding sorted
sorted-IsIn y [] h = elim h [ ]
sorted-IsIn y (x ∷ xs) (inl e) =
    subst (λ z. IsIn z (insert x (sorted xs))) (sym e) (insert-head x (sorted xs))
sorted-IsIn y (x ∷ xs) (inr h) = insert-tail x y (sorted xs) (sorted-IsIn y xs h)

sorted-IsFresh : (i : ℕ) (xs : List Indexed) → IsFresh i xs → IsFresh i (sorted xs)
unfolding sorted
sorted-IsFresh i [] h = tt
sorted-IsFresh i (x ∷ xs) h = insert-IsFresh x i (sorted xs) h.0 (sorted-IsFresh i xs h.1)

pub sorted-IsDistinct : (xs : List Indexed) → IsDistinct xs → IsDistinct (sorted xs)
unfolding sorted
sorted-IsDistinct [] h = tt
sorted-IsDistinct (x ∷ xs) h =
    insert-IsDistinct x (sorted xs) (sorted-IsFresh x.2 xs h.0) (sorted-IsDistinct xs h.1)

enumerate-IsFresh : (i j : ℕ) (ranges : List Range) → i < j → IsFresh i (enumerate j ranges)
unfolding enumerate
enumerate-IsFresh i j [] h = tt
enumerate-IsFresh i j (r ∷ ranges) h =
    (omega arith, enumerate-IsFresh i (suc j) ranges (omega arith))

pub enumerate-IsDistinct : (i : ℕ) (ranges : List Range) → IsDistinct (enumerate i ranges)
unfolding enumerate
enumerate-IsDistinct i [] = tt
enumerate-IsDistinct i (r ∷ ranges) =
    (enumerate-IsFresh i (suc i) ranges (omega arith), enumerate-IsDistinct (suc i) ranges)

pub enumerate-IsIn :
    (i j : ℕ) (o l : ℕ) (ranges : List Range)
    → get_elem? ranges i ≡ some (o, l)
    → IsIn (o, l, j + i) (enumerate j ranges)
unfolding enumerate
enumerate-IsIn zero j o l [] e = ground arith
enumerate-IsIn (suc i) j o l [] e = ground arith
enumerate-IsIn zero j o l (r ∷ ranges) e = inl (ground (arith, some_pair e))
enumerate-IsIn (suc i) j o l (r ∷ ranges) e = inr (
    subst (λ n. IsIn (o, l, n) (enumerate (suc j) ranges)) (omega arith)
      (enumerate-IsIn i (suc j) o l ranges e))
