-- ===== src/Ranges/Splits.antt =====
-- core/io.py, `coalesce_ranges`: every range of the input is a slice of the fetch its split names.
use opencodecs.Common.{
  ℕ, zero, suc, ◌+◌, ◌-◌, ◌≤◌, ◌<◌, List, [], ◌∷◌, ◌++◌, Option, none, some, ◌≡◌, ◌≢◌, inl, inr,
}
use opencodecs.Common.{refl, arith, length, get_elem?, replicate, sym}
use opencodecs.Common.{ap, ◌∙◌}
use opencodecs.Common.{eq_of_some}
use mathlib.Core.Path.{subst}
use opencodecs.Ranges.{Range, Indexed, Split, Fetch, place, add_split, split_in, merge}
use opencodecs.Ranges.{enumerate, sorted, coalesce_ranges}
use opencodecs.Ranges.Sorting.{
  IsIn, IsFresh, IsDistinct, IsAscending, sorted-IsAscending, sorted-IsIn, sorted-IsDistinct,
  enumerate-IsDistinct, enumerate-IsIn,
}
use opencodecs.Ranges.Placing.{Grows, IsValid, IsValid-later, get_elem?-bound, Placed, place-Placed}

-- Range `i` of the input, from `off` to `off + n`, is one slice of a fetch that is long enough.
pub IsServed : List Range → List (List Split) → ℕ → ℕ → ℕ → Type 0
IsServed merged splits i off n =
    (m lo hi start k : ℕ) × (get_elem? splits i ≡ some ((m, lo, hi) ∷ []))
    × (get_elem? merged m ≡ some (start, k))
    × (start + lo ≡ off)
    × (start + hi ≡ off + n)
    × (hi ≤ k)

add_split_self :
    (splits : List (List Split)) (i : ℕ) (l : List Split) (x : Split)
    → get_elem? splits i ≡ some l
    → get_elem? (add_split splits i x) i ≡ some (l ++ (x ∷ []))
unfolding add_split
add_split_self [] i l x h = ground arith
add_split_self (s ∷ splits) zero l x h = ap (λ z. some (z ++ (x ∷ []))) (eq_of_some h)
add_split_self (s ∷ splits) (suc i) l x h = add_split_self splits i l x h

add_split_other :
    (splits : List (List Split)) (i j : ℕ) (x : Split)
    → i ≢ j
    → get_elem? (add_split splits i x) j ≡ get_elem? splits j
unfolding add_split
add_split_other [] i j x h = refl
add_split_other (s ∷ splits) zero zero x h = absurd (h refl)
add_split_other (s ∷ splits) zero (suc j) x h = refl
add_split_other (s ∷ splits) (suc i) zero x h = refl
add_split_other (s ∷ splits) (suc i) (suc j) x h = add_split_other splits i j x (λ e. h (ap suc e))

IsServed-Grows :
    (merged merged' : List Range) (splits splits' : List (List Split)) (i off n : ℕ)
    → Grows merged merged'
    → get_elem? splits' i ≡ get_elem? splits i
    → IsServed merged splits i off n
    → IsServed merged' splits' i off n
unfolding IsServed Grows
IsServed-Grows merged merged' splits splits' i off n g e (m, lo, hi, start, k, s, f, p, q, r) =
    let grown = g m start k f in
    (m, lo, hi, start, grown.0, e ∙ s, grown.1, p, q, omega (arith, grown.2))

-- The split that the loop adds, where the index had none.
Placed-IsServed :
    (merged : List Range) (splits : List (List Split)) (i off n : ℕ) (p : Fetch × List Range)
    → Placed merged off (off + n) p
    → get_elem? splits i ≡ some []
    → IsServed p.1 (add_split splits i (split_in p.0 off (off + n))) i off n
unfolding IsServed
Placed-IsServed merged splits i off n p (g, (c, l, b), h) e = (
  p.0.index,
  off - p.0.start,
  off + n - p.0.start,
  p.0.start,
  p.0.stop - p.0.start,
  add_split_self splits i [] (split_in p.0 off (off + n)) e,
  c,
  omega arith,
  omega arith,
  omega arith,
)

IsFresh-IsIn : (i : ℕ) (x : Indexed) (xs : List Indexed) → IsFresh i xs → IsIn x xs → i ≢ x.2
IsFresh-IsIn i x [] f h = elim h [ ]
IsFresh-IsIn i x (y ∷ ys) f (inl e) = λ q. f.0 (sym (q ∙ ap (λ z. z.2) e))
IsFresh-IsIn i x (y ∷ ys) f (inr h) = IsFresh-IsIn i x ys f.1 h

module _ (gap limit : ℕ) where
  merge-keeps :
      (current : Option Fetch) (lo : ℕ) (merged : List Range) (splits : List (List Split))
      (items : List Indexed) (i off n : ℕ)
      → IsValid current lo merged
      → IsAscending lo items
      → IsFresh i items
      → IsServed merged splits i off n
      → IsServed
          (merge gap limit current merged splits items).0
          (merge gap limit current merged splits items).1
          i
          off
          n
  unfolding merge
  merge-keeps current lo merged splits [] i off n v a f s = s
  merge-keeps current lo merged splits ((o, l, j) ∷ items) i off n v a f s =
      let p = place gap limit current merged o (o + l) in
      let h : Placed merged o (o + l) p =
        place-Placed gap limit current merged o (o + l) (IsValid-later current lo o merged a.0 v)
          (omega arith) in
      merge-keeps (some p.0) o p.1 (add_split splits j (split_in p.0 o (o + l))) items i off n h.1
        a.1 f.1
        (IsServed-Grows merged p.1 splits (add_split splits j (split_in p.0 o (o + l))) i off n h.0
          (add_split_other splits j i (split_in p.0 o (o + l)) f.0) s)

  merge-serves :
      (current : Option Fetch) (lo : ℕ) (merged : List Range) (splits : List (List Split))
      (items : List Indexed) (i off n : ℕ)
      → IsValid current lo merged
      → IsAscending lo items
      → IsDistinct items
      → IsIn (off, n, i) items
      → get_elem? splits i ≡ some []
      → IsServed
          (merge gap limit current merged splits items).0
          (merge gap limit current merged splits items).1
          i
          off
          n
  unfolding merge
  merge-serves current lo merged splits [] i off n v a d m e = elim m [ ]
  merge-serves current lo merged splits ((o, l, j) ∷ items) i off n v a d (inl q) e =
      let p = place gap limit current merged o (o + l) in
      let h : Placed merged o (o + l) p =
        place-Placed gap limit current merged o (o + l) (IsValid-later current lo o merged a.0 v)
          (omega arith) in
      let added = add_split splits j (split_in p.0 o (o + l)) in
      let done = merge gap limit (some p.0) p.1 added items in
      subst (λ z. IsServed done.0 done.1 z.2 z.0 z.1) (sym q)
        (merge-keeps (some p.0) o p.1 added items j o l h.1 a.1 d.0 (
          Placed-IsServed merged splits j o l p h
            (subst (λ z. get_elem? splits z.2 ≡ some []) q e)))
  merge-serves current lo merged splits ((o, l, j) ∷ items) i off n v a d (inr m) e =
      let p = place gap limit current merged o (o + l) in
      let h : Placed merged o (o + l) p =
        place-Placed gap limit current merged o (o + l) (IsValid-later current lo o merged a.0 v)
          (omega arith) in
      merge-serves (some p.0) o p.1 (add_split splits j (split_in p.0 o (o + l))) items i off n h.1
        a.1 d.1 m
        (add_split_other splits j i (split_in p.0 o (o + l))
            (IsFresh-IsIn j (off, n, i) items d.0 m)
          ∙ e)

get_elem?-replicate : {A : Type 0} (n i : ℕ) (a : A) → i < n → get_elem? (replicate n a) i ≡ some a
get_elem?-replicate zero i a h = elim h [ ]
get_elem?-replicate (suc n) zero a h = refl
get_elem?-replicate (suc n) (suc i) a h = get_elem?-replicate n i a (omega arith)

-- For every range of the input, in the order of the input, `splits` has exactly one slice, and it is
-- a slice of a fetch of `merged` that holds exactly the bytes of the range, whatever the order and
-- the overlaps of the ranges and the two limits.
pub coalesce_ranges-IsServed :
    (ranges : List Range) (max_gap max_combined i off n : ℕ)
    → get_elem? ranges i ≡ some (off, n)
    → IsServed
        (coalesce_ranges ranges max_gap max_combined).0
        (coalesce_ranges ranges max_gap max_combined).1
        i
        off
        n
unfolding coalesce_ranges
coalesce_ranges-IsServed [] gap limit i off n h = ground arith
coalesce_ranges-IsServed (r ∷ ranges) gap limit i off n h =
    merge-serves gap limit none 0 [] (replicate (length (r ∷ ranges)) [])
      (sorted (enumerate 0 (r ∷ ranges))) i off n tt (sorted-IsAscending (enumerate 0 (r ∷ ranges)))
      (sorted-IsDistinct (enumerate 0 (r ∷ ranges)) (enumerate-IsDistinct 0 (r ∷ ranges)))
      (sorted-IsIn (off, n, i) (enumerate 0 (r ∷ ranges))
        (subst (λ k. IsIn (off, n, k) (enumerate 0 (r ∷ ranges))) (omega arith)
          (enumerate-IsIn i 0 off n (r ∷ ranges) h)))
      (get_elem?-replicate (length (r ∷ ranges)) i [] (get_elem?-bound (r ∷ ranges) i (off, n) h))
