-- ===== src/Pipeline/Order.antt =====
-- core/pipeline.py, `map_bounded`: it yields what running the tasks one after the other yields.
use opencodecs.Common.{◌||◌}
use opencodecs.Common.{ℕ, zero, suc, ◌+◌, ◌≤◌, List, [], ◌∷◌, ◌++◌, true, false, Option, none, some}
use opencodecs.Common.{◌≡◌, refl, arith, ltb, leb, length, Bool-cases, inl, inr, ◌∙◌, ap, sym}
use opencodecs.Common.Int.{pos}
use opencodecs.Common.Result.{ok}
use opencodecs.Common.{map, length-map}
use opencodecs.Common.{Option-cases, if_true, if_false}
use opencodecs.Pipeline.{follow, bad_limits, ends, continues, yields}
use opencodecs.Pipeline.{
  Scheduler, fill, Ending, Round, collect, round, run_from, run_inline, start, map_bounded,
  returned, task_failed, goes_on, popped,
}
use opencodecs.Pipeline.Filling.{
  not_both, goes_on-false, list-cases, items_of, held, content, IsOk, IsFilled, total,
  fill-IsFilled,
}

-- One task after the other, up to the first that raises.
pub run_through : {A B : Type 0} → (A → Option B) → List A → List B × Ending
run_through fn [] = ([], returned)
run_through fn (item ∷ items) =
    let rest = run_through fn items in
    elim (fn item) [ none ↦ ([], task_failed) | some result ↦ (result ∷ rest.0, rest.1) ]

module _ {A P B : Type 0} (max_pending max_bytes : ℕ) (g : A → ℕ) (prepared : A → P)
    (fn : P → Option B) (h : 1 ≤ max_pending) where
  round-ends :
      (s : Scheduler A P)
      → goes_on s ≡ false
      → round max_pending max_bytes (λ a. pos (g a)) (total prepared) fn s ≡ ends returned
  unfolding round
  round-ends s e = if_false (goes_on s) _ (ends returned) e

  round-collect :
      (s f : Scheduler A P)
      → goes_on s ≡ true
      → fill max_pending max_bytes (λ a. pos (g a)) (total prepared) s ≡ ok f
      → round max_pending max_bytes (λ a. pos (g a)) (total prepared) fn s ≡ collect fn f f.pending
  unfolding round
  round-collect s f e q = if_true (goes_on s) _ (ends returned) e ∙ rw q refl

  done-content : (s : Scheduler A P) → IsOk prepared s → goes_on s ≡ false → content prepared s ≡ []
  unfolding IsOk content held items_of
  done-content s fine e =
      let both = goes_on-false s.pending s.exhausted e in
      rw (both.0, (fine both.1).0, (fine both.1).1) refl

  not_done : (s : Scheduler A P) → s.pending ≡ [] → s.exhausted ≡ true → goes_on s ≡ false
  not_done s p x = rw (p, x) refl

  pop-content :
      (f : Scheduler A P) (a : P) (n : ℕ) (p : List (P × ℕ))
      → f.pending ≡ (a, n) ∷ p
      → content prepared f ≡ a ∷ content prepared (popped f p n)
  unfolding content items_of
  pop-content f a n p q =
      ap (λ l. items_of prepared l ++ map prepared (held prepared f.lookahead ++ f.source)) q

  -- One round of `run_from`, with its outcome known.
  run_from-round :
      (fuel : ℕ) (s : Scheduler A P) (r : Round A P B)
      → round max_pending max_bytes (λ a. pos (g a)) (total prepared) fn s ≡ r
      → run_from (suc fuel) max_pending max_bytes (λ a. pos (g a)) (total prepared) fn s
        ≡ follow (run_from fuel max_pending max_bytes (λ a. pos (g a)) (total prepared) fn) r
  unfolding run_from
  run_from-round fuel s r e =
      ap (follow (run_from fuel max_pending max_bytes (λ a. pos (g a)) (total prepared) fn)) e

  -- A round that finds nothing pending after the inner loop is the last but one.
  run_from-done :
      (fuel : ℕ) (s f : Scheduler A P)
      → goes_on s ≡ true
      → fill max_pending max_bytes (λ a. pos (g a)) (total prepared) s ≡ ok f
      → f.pending ≡ []
      → f.exhausted ≡ true
      → run_from (suc (suc fuel)) max_pending max_bytes (λ a. pos (g a)) (total prepared) fn s
        ≡ ([], returned)
  unfolding follow collect
  run_from-done fuel s f e q p x =
      run_from-round (suc fuel) s (continues f) (round-collect s f e q ∙ ap (collect fn f) p)
      ∙ run_from-round fuel f (ends returned) (round-ends f (not_done f p x))

  run_from-task :
      (fuel : ℕ) (s f : Scheduler A P) (a : P) (n : ℕ) (p : List (P × ℕ))
      → goes_on s ≡ true
      → fill max_pending max_bytes (λ a. pos (g a)) (total prepared) s ≡ ok f
      → f.pending ≡ (a, n) ∷ p
      → run_from fuel max_pending max_bytes (λ a. pos (g a)) (total prepared) fn (popped f p n)
        ≡ run_through fn (content prepared (popped f p n))
      → run_from (suc fuel) max_pending max_bytes (λ a. pos (g a)) (total prepared) fn s
        ≡ run_through fn (a ∷ content prepared (popped f p n))
  unfolding follow collect run_through
  run_from-task fuel s f a n p e q c ih =
      let collected = round-collect s f e q ∙ ap (collect fn f) c in
      elim (Option-cases (fn a)) [
        | inl t ↦
            run_from-round fuel s (ends task_failed) (collected ∙ rw (t, collect) refl)
            ∙ rw (t, run_through) refl
        | inr (b, t) ↦
            run_from-round fuel s (yields b (popped f p n)) (collected ∙ rw (t, collect) refl)
            ∙ rw (t, ih, run_through) refl
      ]

  -- A round after which the loop runs as it should goes as it should.
  filled_round :
      (fuel : ℕ) (s f : Scheduler A P)
      → goes_on s ≡ true
      → fill max_pending max_bytes (λ a. pos (g a)) (total prepared) s ≡ ok f
      → IsFilled prepared (content prepared s) f
      → length (content prepared s) + 2 ≤ suc (suc fuel)
      → ((s' : Scheduler A P)
          → IsOk prepared s'
          → length (content prepared s') + 2 ≤ suc fuel
          → run_from (suc fuel) max_pending max_bytes (λ a. pos (g a)) (total prepared) fn s'
            ≡ run_through fn (content prepared s'))
      → run_from (suc (suc fuel)) max_pending max_bytes (λ a. pos (g a)) (total prepared) fn s
        ≡ run_through fn (content prepared s)
  unfolding IsFilled IsOk
  filled_round fuel s f e q (c, fine, n) l ih = elim (list-cases f.pending) [
    | inl p ↦ run_from-done fuel s f e q p (n p).0 ∙ unfold run_through in rw ((n p).1) refl
    | inr (t, p, c2) ↦
        let split : content prepared s ≡ t.0 ∷ content prepared (popped f p t.1) =
          sym c ∙ pop-content f t.0 t.1 p c2 in
        run_from-task (suc fuel) s f t.0 t.1 p e q c2
          (ih (popped f p t.1) fine (omega (arith, ap length split)))
        ∙ ap (run_through fn) (sym split)
  ]

  run_from-run_through :
      (fuel : ℕ) (s : Scheduler A P)
      → IsOk prepared s
      → length (content prepared s) + 2 ≤ fuel
      → run_from fuel max_pending max_bytes (λ a. pos (g a)) (total prepared) fn s
        ≡ run_through fn (content prepared s)
  run_from-run_through zero s fine l = absurd (omega arith)
  run_from-run_through (suc zero) s fine l = absurd (omega arith)
  run_from-run_through (suc (suc fuel)) s fine l = elim (Bool-cases (goes_on s)) [
    | inr e ↦
        run_from-round (suc fuel) s (ends returned) (round-ends s e)
        ∙ unfold follow run_through in rw (done-content s fine e) refl
    | inl e ↦
        let filled = fill-IsFilled prepared max_pending max_bytes g h s fine in
        filled_round fuel s filled.0 e filled.1 filled.2 l (run_from-run_through (suc fuel))
  ]

  start-IsOk : (items : List A) → IsOk prepared (start items)
  unfolding IsOk
  start-IsOk items q = absurd (not_both true refl (sym q))

  run_inline-run_through :
      (items : List A)
      → run_inline (λ a. pos (g a)) (total prepared) fn items ≡ run_through fn (map prepared items)
  unfolding run_inline run_through
  run_inline-run_through [] = refl
  run_inline-run_through (item ∷ items) = elim (Option-cases (fn (prepared item))) [
    | inl t ↦ rw (t, run_inline, run_through) refl
    | inr (b, t) ↦ rw (t, run_inline-run_through items, run_inline, run_through) refl
  ]

  -- With limits of at least 1, item sizes that are not negative and a `prepare` that does not raise,
  -- `map_bounded` yields what preparing every item and running the tasks one after the other yields, in
  -- the order of the items, and ends as that does: it returns after the last item, or raises when
  -- it comes to the first task that raises. So it is for any number of workers and any limits, and it
  -- always ends.
  pub map_bounded-run_through :
      (workers : ℕ) (items : List A)
      → 1 ≤ max_bytes
      → map_bounded workers max_pending max_bytes (λ a. pos (g a)) (total prepared) fn items
        ≡ run_through fn (map prepared items)
  unfolding map_bounded content items_of held
  map_bounded-run_through workers items b =
      if_false (ltb max_bytes 1 || ltb max_pending 1) ([], bad_limits) _ (ground arith)
      ∙ elim (Bool-cases (leb workers 1)) [
        | inl w ↦ if_true (leb workers 1) _ _ w ∙ run_inline-run_through items
        | inr w ↦
            if_false (leb workers 1) _ _ w
            ∙ run_from-run_through (length items + 2) (start items) (start-IsOk items)
                (omega (arith, length-map items prepared))
      ]
