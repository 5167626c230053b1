-- ===== src/Pipeline/Bounds.antt =====
-- core/pipeline.py, `map_bounded`: what is pending and reserved while tasks run.
use opencodecs.Common.{ℕ, suc, ◌+◌, ◌-◌, ◌≤◌, List, [], ◌∷◌, ◌++◌, false, Option, none, some}
use opencodecs.Common.{◌≡◌, refl, arith, ltb, length, Bool-cases, ◌⊎◌, inl, inr, ◌∙◌, ap, sym}
use opencodecs.Common.{length-append, if_true, if_false, Option-cases}
use opencodecs.Common.Int.{ℤ, pos, negsuc}
use opencodecs.Common.Result.{Result, ok, raise}
use opencodecs.Common.{Bool, true, if◌then◌else◌}
use opencodecs.Common.{◌&&◌, ltb→lt}
use mathlib.Core.Path.{subst}
use opencodecs.Pipeline.{
  Scheduler, submit, offer, fill_from, fill, fill_with, Round, collect, round, start, blocked,
  account, goes_on, non_empty, continues, yields, ends, returned, Ending,
}

sign-cases : (z : ℤ) → ((n : ℕ) × (z ≡ negsuc n)) ⊎ ((n : ℕ) × (z ≡ pos n))
sign-cases (pos n) = inr (n, refl)
sign-cases (negsuc n) = inl (n, refl)

module _ {P : Type 0} where
  -- The bytes that the pending tasks have reserved.
  pub sum_of : List (P × ℕ) → ℕ
  sum_of [] = 0
  sum_of (p ∷ l) = p.1 + sum_of l

  sum_of-append : (l : List (P × ℕ)) (p : P × ℕ) → sum_of (l ++ (p ∷ [])) ≡ sum_of l + p.1
  unfolding sum_of
  sum_of-append [] p = omega arith
  sum_of-append (q ∷ l) p = omega (arith, sum_of-append l p)

  blocked-fits :
      (max_bytes : ℕ) (l : List (P × ℕ)) (r n : ℕ)
      → (non_empty l && ltb max_bytes (r + n)) ≡ false
      → (r + n ≤ max_bytes) ⊎ (length l ≡ 0)
  blocked-fits max_bytes [] r n h = inr refl
  blocked-fits max_bytes (p ∷ l) r n h = inl (ground arith)

module _ {A P : Type 0} where
  -- `reserved` is the sum over the pending tasks, there are at most `max_pending` of them, and they
  -- keep to `max_bytes` unless there is only one.
  pub IsWithin : ℕ → ℕ → Scheduler A P → Type 0
  IsWithin max_pending max_bytes s =
      (s.reserved ≡ sum_of s.pending)
      × (length s.pending ≤ max_pending)
      × ((s.reserved ≤ max_bytes) ⊎ (length s.pending ≤ 1))
      × (s.stats.peak_pending ≤ max_pending)

  module _ (max_pending max_bytes : ℕ) where
    submit-IsWithin :
        (s : Scheduler A P) (a : P) (n : ℕ)
        → length s.pending + 1 ≤ max_pending
        → blocked max_bytes s n ≡ false
        → IsWithin max_pending max_bytes s
        → IsWithin max_pending max_bytes (submit max_bytes s a n)
    unfolding IsWithin submit account
    submit-IsWithin s a n l b (r, p, w, k) =
        let m : length (s.pending ++ ((a, n) ∷ [])) ≡ length s.pending + 1 =
          length-append s.pending ((a, n) ∷ []) in
        (
          omega (arith, sum_of-append s.pending (a, n)),
          omega (arith, m),
          fits s.pending (s.pending ++ ((a, n) ∷ [])) s.reserved m
              (blocked-fits max_bytes s.pending s.reserved n b),
          omega arith,
        )
      where
        fits :
            (l k : List (P × ℕ)) (i : ℕ)
            → length k ≡ length l + 1
            → (i + n ≤ max_bytes) ⊎ (length l ≡ 0)
            → (i + n ≤ max_bytes) ⊎ (length k ≤ 1)
        fits l k i m (inl h) = inl h
        fits l k i m (inr h) = inr (omega arith)

    AllOffered : Result Ending (Scheduler A P × Bool) → Type 0
    AllOffered (raise e) = Unit
    AllOffered (ok offered) = IsWithin max_pending max_bytes offered.0

    offer-AllOffered :
        (prepare : A → Option P) (s : Scheduler A P) (a : A) (n : ℕ)
        → length s.pending + 1 ≤ max_pending
        → IsWithin max_pending max_bytes s
        → AllOffered (offer max_bytes prepare s a n)
    unfolding offer AllOffered
    offer-AllOffered prepare s a n l w = elim (Bool-cases (blocked max_bytes s n)) [
      | inl e ↦ rw e (unfold IsWithin in w)
      | inr e ↦ elim (Option-cases (prepare a)) [
        | inl k ↦ rw (e, k) tt
        | inr (owned, k) ↦ rw (e, k) (submit-IsWithin s owned n l e w)
      ]
    ]

    AllWithin : Result Ending (Scheduler A P) → Type 0
    AllWithin (raise e) = Unit
    AllWithin (ok s) = IsWithin max_pending max_bytes s

    -- What goes on after an item was offered.
    AllOffered-AllWithin :
        (r : Result Ending (Scheduler A P × Bool))
        (rest : Scheduler A P → Result Ending (Scheduler A P))
        → AllOffered r
        → ((s : Scheduler A P) → IsWithin max_pending max_bytes s → AllWithin (rest s))
        → AllWithin (elim r [
          | raise e ↦ raise e
          | ok offered ↦ if offered.1 then rest offered.0 else ok offered.0
        ])
    unfolding AllOffered AllWithin
    AllOffered-AllWithin (raise e) rest h k = tt
    AllOffered-AllWithin (ok (s, true)) rest h k = k s h
    AllOffered-AllWithin (ok (s, false)) rest h k = h

    fill_from-AllWithin :
        (size : A → ℤ) (prepare : A → Option P) (items : List A) (s : Scheduler A P)
        → IsWithin max_pending max_bytes s
        → AllWithin (fill_from max_pending max_bytes size prepare items s)
    unfolding fill_from AllWithin IsWithin
    fill_from-AllWithin size prepare [] s w =
        elim (Bool-cases (ltb (length s.pending) max_pending)) [ inl e ↦ rw e w | inr e ↦ rw e w ]
    fill_from-AllWithin size prepare (item ∷ items) s w =
        elim (Bool-cases (ltb (length s.pending) max_pending)) [
          | inl e ↦ elim (sign-cases (size item)) [
            | inl (n, z) ↦ rw (e, z) tt
            | inr (n, z) ↦
                let s' : Scheduler A P = record s { source = items } in
                rw (e, z)
                  (AllOffered-AllWithin (offer max_bytes prepare s' item n)
                    (fill_from max_pending max_bytes size prepare items)
                    (offer-AllOffered prepare s' item n
                      (omega (arith, ltb→lt (length s.pending) max_pending e)) w)
                    (fill_from-AllWithin size prepare items))
          ]
          | inr e ↦ rw e w
        ]

    fill_with-AllWithin :
        (size : A → ℤ) (prepare : A → Option P) (look : Option (A × ℕ)) (s : Scheduler A P)
        → IsWithin max_pending max_bytes s
        → AllWithin (fill_with max_pending max_bytes size prepare look s)
    unfolding fill_with AllWithin
    fill_with-AllWithin size prepare none s w = elim (Bool-cases s.exhausted) [
      | inl e ↦ subst AllWithin (sym (if_true s.exhausted (ok s) _ e)) w
      | inr e ↦
          subst AllWithin (sym (if_false s.exhausted (ok s) _ e))
            (fill_from-AllWithin size prepare s.source s w)
    ]
    fill_with-AllWithin size prepare (some (a, n)) s w =
        elim (Bool-cases (ltb (length s.pending) max_pending)) [
          | inl e ↦ rw e (
              AllOffered-AllWithin (offer max_bytes prepare s a n)
                (fill_from max_pending max_bytes size prepare s.source)
                (offer-AllOffered prepare s a n
                  (omega (arith, ltb→lt (length s.pending) max_pending e)) w)
                (fill_from-AllWithin size prepare s.source))
          | inr e ↦ rw e w
        ]

Result-cases : {E A : Type 0} (r : Result E A) → ((e : E) × (r ≡ raise e)) ⊎ ((a : A) × (r ≡ ok a))
Result-cases (raise e) = inl (e, refl)
Result-cases (ok a) = inr (a, refl)

module _ {A P B : Type 0} (max_pending max_bytes : ℕ) (size : A → ℤ) (prepare : A → Option P)
    (fn : P → Option B) where
  RoundWithin : Round A P B → Type 0
  RoundWithin (ends e) = Unit
  RoundWithin (continues s) = IsWithin max_pending max_bytes s
  RoundWithin (yields b s) = IsWithin max_pending max_bytes s

  collect-RoundWithin :
      (f : Scheduler A P) (l : List (P × ℕ))
      → f.pending ≡ l
      → IsWithin max_pending max_bytes f
      → RoundWithin (collect fn f l)
  unfolding collect RoundWithin IsWithin sum_of
  collect-RoundWithin f [] q w = w
  collect-RoundWithin f ((a, n) ∷ p) q (r, l, b, k) = elim (Option-cases (fn a)) [
    | inl t ↦ rw (t, collect, RoundWithin) tt
    | inr (y, t) ↦
        let s : f.reserved ≡ n + sum_of p = r ∙ ap sum_of q in
        let m : length f.pending ≡ suc (length p) = ap length q in
        rw (t, collect, RoundWithin) (omega arith, omega arith, left f.reserved n p s m b, k)
  ]
    where
      left :
          (i n : ℕ) (p : List (P × ℕ))
          → i ≡ n + sum_of p
          → length f.pending ≡ suc (length p)
          → (i ≤ max_bytes) ⊎ (length f.pending ≤ 1)
          → (i - n ≤ max_bytes) ⊎ (length p ≤ 1)
      left i n p s m (inl h) = inl (omega arith)
      left i n p s m (inr h) = inr (omega arith)

  fill-IsWithin :
      (s f : Scheduler A P)
      → IsWithin max_pending max_bytes s
      → fill max_pending max_bytes size prepare s ≡ ok f
      → IsWithin max_pending max_bytes f
  unfolding AllWithin
  fill-IsWithin s f w q =
      subst (AllWithin max_pending max_bytes) q
        (fill_with-AllWithin max_pending max_bytes size prepare s.lookahead s w)

  round-RoundWithin :
      (s : Scheduler A P)
      → IsWithin max_pending max_bytes s
      → RoundWithin (round max_pending max_bytes size prepare fn s)
  unfolding round RoundWithin
  round-RoundWithin s w = elim (Bool-cases (goes_on s)) [
    | inr e ↦ subst RoundWithin (sym (if_false (goes_on s) _ (ends returned) e)) tt
    | inl e ↦
        subst RoundWithin (sym (if_true (goes_on s) _ (ends returned) e))
          (elim (Result-cases (fill max_pending max_bytes size prepare s)) [
            | inl (e', q) ↦ rw q tt
            | inr (f, q) ↦ rw q (collect-RoundWithin f f.pending refl (fill-IsWithin s f w q))
          ])
  ]

  -- The states in which the generator stands at its start, at a `yield` when it resumes, or before
  -- another round.
  pub data Reached (items : List A) : Scheduler A P → Type 0 where
    starts : Reached items (start items)
    resumes :
        {s s' : Scheduler A P} (result : B)
        → Reached items s
        → round max_pending max_bytes size prepare fn s ≡ yields result s'
        → Reached items s'
    repeats :
        {s s' : Scheduler A P}
        → Reached items s
        → round max_pending max_bytes size prepare fn s ≡ continues s'
        → Reached items s'

  Reached-IsWithin :
      {items : List A} {s : Scheduler A P} → Reached items s → IsWithin max_pending max_bytes s
  unfolding RoundWithin
  Reached-IsWithin starts =
      unfold IsWithin sum_of in (refl, omega arith, inl (omega arith), omega arith)
  Reached-IsWithin (resumes {s} b r e) =
      subst RoundWithin e (round-RoundWithin s (Reached-IsWithin r))
  Reached-IsWithin (repeats {s} r e) =
      subst RoundWithin e (round-RoundWithin s (Reached-IsWithin r))

  -- While `map_bounded` waits for the first pending task, whatever the sizes, `prepare` and the tasks: at most
  -- `max_pending` tasks are pending, `reserved` is the sum of their sizes, that is at most `max_bytes`
  -- or there is one task alone, and `peak_pending` is at most `max_pending`.
  pub filled-IsWithin :
      (items : List A) (s f : Scheduler A P)
      → Reached items s
      → fill max_pending max_bytes size prepare s ≡ ok f
      → IsWithin max_pending max_bytes f
  filled-IsWithin items s f r e = fill-IsWithin s f (Reached-IsWithin r) e
