-- ===== src/Ranges/Limits.antt =====
-- core/io.py, `coalesce_ranges`: how long the merged fetches get.
use opencodecs.Common.{
  ℕ, zero, suc, ◌+◌, ◌-◌, ◌≤◌, List, [], ◌∷◌, ◌++◌, Option, none, some, ◌≡◌, ◌⊎◌, inl, inr,
}
use opencodecs.Common.{refl, arith, length, get_elem?, set, replicate, Bool-cases}
use opencodecs.Common.{ap, ◌∙◌, ltb}
use mathlib.Core.Path.{subst}
use opencodecs.Ranges.{
  Range, Indexed, Split, Fetch, joins, extend, place, add_split, split_in, merge,
}
use opencodecs.Ranges.{enumerate, insert, sorted, key_leb, coalesce_ranges}

module _ (ranges : List Range) (limit : ℕ) where
  -- A fetch is within the limit or is one range of the input.
  pub IsFine : Range → Type 0
  IsFine (start, n) = (n ≤ limit) ⊎ ((i : ℕ) × (get_elem? ranges i ≡ some (start, n)))

  pub AllFine : List Range → Type 0
  AllFine [] = Unit
  AllFine (r ∷ merged) = IsFine r × AllFine merged

  AreInputs : List Indexed → Type 0
  AreInputs [] = Unit
  AreInputs ((o, l, i) ∷ items) = (get_elem? ranges i ≡ some (o, l)) × AreInputs items

  insert-AreInputs :
      (x : Indexed) (items : List Indexed)
      → get_elem? ranges x.2 ≡ some (x.0, x.1)
      → AreInputs items
      → AreInputs (insert x items)
  unfolding insert AreInputs
  insert-AreInputs x [] h a = (h, tt)
  insert-AreInputs x (y ∷ items) h a = elim (Bool-cases (key_leb x y)) [
    | inl e ↦ rw e (h, a)
    | inr e ↦ rw e (a.0, insert-AreInputs x items h a.1)
  ]

  sorted-AreInputs : (items : List Indexed) → AreInputs items → AreInputs (sorted items)
  unfolding sorted AreInputs
  sorted-AreInputs [] a = tt
  sorted-AreInputs (x ∷ items) a =
      insert-AreInputs x (sorted items) a.0 (sorted-AreInputs items a.1)

  append-AllFine :
      (merged : List Range) (r : Range) → AllFine merged → IsFine r → AllFine (merged ++ (r ∷ []))
  unfolding AllFine
  append-AllFine [] r a h = (h, tt)
  append-AllFine (x ∷ merged) r a h = (a.0, append-AllFine merged r a.1 h)

  set-AllFine :
      (merged : List Range) (m : ℕ) (r : Range)
      → AllFine merged
      → IsFine r
      → AllFine (set merged m r)
  unfolding AllFine
  set-AllFine [] m r a h = tt
  set-AllFine (x ∷ merged) zero r a h = (h, a.1)
  set-AllFine (x ∷ merged) (suc m) r a h = (a.0, set-AllFine merged m r a.1 h)

  place-AllFine :
      (gap : ℕ) (current : Option Fetch) (merged : List Range) (off n i : ℕ)
      → AllFine merged
      → get_elem? ranges i ≡ some (off, n)
      → AllFine (place gap limit current merged off (off + n)).1
  unfolding place extend IsFine
  place-AllFine gap none merged off n i a h =
      append-AllFine merged (off, off + n - off) a
        (inr (i, h ∙ ap (λ k. some (off, k)) (omega arith)))
  place-AllFine gap (some f) merged off n i a h =
      elim (Bool-cases (joins gap limit f off (off + n))) [
        | inl e ↦ elim (Bool-cases (ltb f.stop (off + n))) [
          | inl q ↦
              rw (e, q)
                (set-AllFine merged f.index (f.start, off + n - f.start) a (inl (ground arith)))
          | inr q ↦ rw (e, q) a
        ]
        | inr e ↦ rw e (
            append-AllFine merged (off, off + n - off) a
              (inr (i, h ∙ ap (λ k. some (off, k)) (omega arith))))
      ]

  merge-AllFine :
      (gap : ℕ) (current : Option Fetch) (merged : List Range) (splits : List (List Split))
      (items : List Indexed)
      → AllFine merged
      → AreInputs items
      → AllFine (merge gap limit current merged splits items).0
  unfolding merge AreInputs
  merge-AllFine gap current merged splits [] a h = a
  merge-AllFine gap current merged splits ((o, l, j) ∷ items) a h =
      let p = place gap limit current merged o (o + l) in
      merge-AllFine gap (some p.0) p.1 (add_split splits j (split_in p.0 o (o + l))) items
        (place-AllFine gap current merged o l j a h.0) h.1

enumerate-AreInputs :
    (all ranges : List Range) (i : ℕ)
    → ((j : ℕ) (r : Range) → get_elem? ranges j ≡ some r → get_elem? all (i + j) ≡ some r)
    → (limit : ℕ) → AreInputs all limit (enumerate i ranges)
unfolding enumerate AreInputs
enumerate-AreInputs all [] i h limit = tt
enumerate-AreInputs all ((o, l) ∷ ranges) i h limit = (
  subst (λ k. get_elem? all k ≡ some (o, l)) (omega arith) (h 0 (o, l) refl),
  enumerate-AreInputs all ranges (suc i)
      (λ j r e. subst (λ k. get_elem? all k ≡ some r) (omega arith) (h (suc j) r e)) limit,
)

-- Every fetch of `coalesce_ranges` is at most `max_combined` long, or has the offset and the
-- length of one range of the input.
pub coalesce_ranges-AllFine :
    (ranges : List Range) (max_gap max_combined : ℕ)
    → AllFine ranges max_combined (coalesce_ranges ranges max_gap max_combined).0
unfolding coalesce_ranges AllFine
coalesce_ranges-AllFine [] gap limit = tt
coalesce_ranges-AllFine (r ∷ ranges) gap limit =
    merge-AllFine (r ∷ ranges) limit gap none [] (replicate (length (r ∷ ranges)) [])
      (sorted (enumerate 0 (r ∷ ranges))) tt
      (sorted-AreInputs (r ∷ ranges) limit (enumerate 0 (r ∷ ranges)) (
        enumerate-AreInputs (r ∷ ranges) (r ∷ ranges) 0
          (λ j q e. subst (λ k. get_elem? (r ∷ ranges) k ≡ some q) (omega arith) e) limit))
