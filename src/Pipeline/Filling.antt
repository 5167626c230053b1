-- ===== src/Pipeline/Filling.antt =====
-- core/pipeline.py, `map_bounded`: the inner loop keeps the items and their order.
use opencodecs.Common.{◌⊎◌, ◌||◌}
use opencodecs.Common.{ℕ, ◌≤◌, List, [], ◌∷◌, ◌++◌, map, Bool, true, false, Option, none, some}
use opencodecs.Common.{◌≡◌, refl, arith, ltb, leb, length, Bool-cases, inl, inr, ◌∙◌, ap, sym}
use opencodecs.Common.{if◌then◌else◌}
use opencodecs.Common.Int.{pos}
use opencodecs.Common.Result.{ok}
use opencodecs.Common.{if_true, if_false}
use mathlib.Core.Path.{subst}
use opencodecs.Pipeline.{Scheduler, submit, offer, fill_from, fill, fill_with, non_empty, blocked}

pub not_both : (b : Bool) → b ≡ true → b ≡ false → ⊥
not_both b h k = ground arith

pub goes_on-false :
    {A : Type 0} (p : List A) (x : Bool)
    → (non_empty p || (if x then false else true)) ≡ false
    → (p ≡ []) × (x ≡ true)
goes_on-false [] true h = (refl, refl)
goes_on-false [] false h = absurd (not_both true refl h)
goes_on-false (a ∷ p) x h = absurd (not_both true refl h)

pub list-cases {ℓ} :
    {A : Type ℓ} (l : List A) → (l ≡ []) ⊎ ((a : A) × (rest : List A) × (l ≡ a ∷ rest))
list-cases [] = inl refl
list-cases (a ∷ l) = inr (a, l, refl)

some_not_none : {A : Type 0} {a : A} → some a ≡ none → ⊥
some_not_none h = ground arith

module _ {A P : Type 0} (q : A → P) where
  unfoldable pub items_of : List (P × ℕ) → List P
  items_of l = map (λ p. p.0) l

  unfoldable pub held : Option (A × ℕ) → List A
  held none = []
  held (some p) = p.0 ∷ []

  -- The inputs that are not yielded yet, in order, as they are prepared.
  unfoldable pub content : Scheduler A P → List P
  content s = items_of s.pending ++ map q (held s.lookahead ++ s.source)

  -- At the end of the source there is nothing left over.
  unfoldable pub IsOk : Scheduler A P → Type 0
  IsOk s = s.exhausted ≡ true → (s.source ≡ []) × (s.lookahead ≡ none)

  -- What the inner loop makes of a state whose items left are `left`.
  unfoldable pub IsFilled : List P → Scheduler A P → Type 0
  IsFilled left f =
      (content f ≡ left) × IsOk f × (f.pending ≡ [] → (f.exhausted ≡ true) × (left ≡ []))

  items_of-append :
      (l : List (P × ℕ)) (a : P) (n : ℕ) (rest : List P)
      → items_of (l ++ ((a, n) ∷ [])) ++ rest ≡ items_of l ++ (a ∷ rest)
  unfolding items_of
  items_of-append [] a n rest = refl
  items_of-append (p ∷ l) a n rest = ap (λ z. p.0 ∷ z) (items_of-append l a n rest)

  append-not_nil : (l : List (P × ℕ)) (p : P × ℕ) → l ++ (p ∷ []) ≡ [] → ⊥
  append-not_nil [] p h = ground arith
  append-not_nil (q ∷ l) p h = ground arith

  -- `prepare` where it does not raise.
  abbrev pub total : A → Option P
  total a = some (q a)

  -- What is offered then: the item is held back behind others, or submitted.
  offered : ℕ → Scheduler A P → A → ℕ → Scheduler A P × Bool
  offered max_bytes s a n =
      if blocked max_bytes s n
      then (record s { lookahead = some (a, n) }, false)
      else (submit max_bytes s (q a) n, leb n max_bytes)

  offer-offered :
      (max_bytes : ℕ) (s : Scheduler A P) (a : A) (n : ℕ)
      → offer max_bytes total s a n ≡ ok (offered max_bytes s a n)
  unfolding offer offered
  offer-offered max_bytes s a n = elim (Bool-cases (blocked max_bytes s n)) [
    | inl e ↦ rw e refl
    | inr e ↦ rw e refl
  ]

  offered-IsFilled :
      (max_bytes : ℕ) (s : Scheduler A P) (a : A) (n : ℕ)
      → s.exhausted ≡ false
      → IsFilled (items_of s.pending ++ map q (a ∷ s.source)) (offered max_bytes s a n).0
  unfolding offered submit IsFilled content IsOk held
  offered-IsFilled max_bytes s a n h = elim (Bool-cases (blocked max_bytes s n)) [
    | inl e ↦ rw e (
      refl,
      λ p. absurd (not_both s.exhausted p h),
      λ p. absurd (not_both (blocked max_bytes s n) e (rw p refl)),
    )
    | inr e ↦ rw e (
      items_of-append s.pending (q a) n (map q s.source),
      λ p. absurd (not_both s.exhausted p h),
      λ p. absurd (append-not_nil s.pending (q a, n) p),
    )
  ]

  offered-submits :
      (max_bytes : ℕ) (s : Scheduler A P) (a : A) (n : ℕ)
      → (offered max_bytes s a n).1 ≡ true
      → (offered max_bytes s a n).0 ≡ submit max_bytes s (q a) n
  unfolding offered
  offered-submits max_bytes s a n h = elim (Bool-cases (blocked max_bytes s n)) [
    | inl e ↦ ground arith
    | inr e ↦ rw e refl
  ]

  none-IsFilled :
      (s : Scheduler A P)
      → s.lookahead ≡ none
      → IsOk s
      → s.exhausted ≡ true
      → IsFilled (items_of s.pending ++ map q s.source) s
  unfolding IsFilled IsOk content items_of
  none-IsFilled s l fine x = (
    ap (λ o. items_of s.pending ++ map q (held o ++ s.source)) l ∙ unfold held in refl,
    fine,
    λ p. (x, ap (λ l. items_of l ++ map q s.source) p ∙ ap (map q) (fine x).0),
  )

  lookahead-live :
      (s : Scheduler A P) (p : A × ℕ) → s.lookahead ≡ some p → IsOk s → s.exhausted ≡ false
  unfolding IsOk
  lookahead-live s p l fine = elim (Bool-cases s.exhausted) [
    | inl y ↦ absurd (some_not_none (sym l ∙ (fine y).1))
    | inr y ↦ y
  ]

  full-IsFilled :
      (s : Scheduler A P) (look : Option (A × ℕ))
      → s.lookahead ≡ look
      → s.exhausted ≡ false
      → (s.pending ≡ [] → ⊥)
      → IsFilled (items_of s.pending ++ map q (held look ++ s.source)) s
  unfolding IsFilled IsOk content
  full-IsFilled s look l x n = (
    ap (λ o. items_of s.pending ++ map q (held o ++ s.source)) l,
    λ p. absurd (not_both s.exhausted p x),
    λ p. absurd (n p),
  )

  nil-length : (l : List (P × ℕ)) → l ≡ [] → length l ≡ 0
  nil-length l h = rw h refl

  module _ (max_pending max_bytes : ℕ) (g : A → ℕ) (h : 1 ≤ max_pending) where
    fill_from-IsFilled :
        (items : List A) (s : Scheduler A P)
        → s.lookahead ≡ none
        → s.exhausted ≡ false
        → (f : Scheduler A P) × (fill_from max_pending max_bytes (λ a. pos (g a)) total items s
            ≡ ok f)
          × IsFilled (items_of s.pending ++ map q items) f
    unfolding fill_from IsFilled content IsOk held items_of
    fill_from-IsFilled [] s l x = elim (Bool-cases (ltb (length s.pending) max_pending)) [
      | inl e ↦ rw e (
        record s { source = []; exhausted = true },
        refl,
        (rw l refl, λ p. (refl, l), λ p. (refl, rw p refl)),
      )
      | inr e ↦ rw e (
        record s { source = [] },
        refl,
        (
          rw l refl,
          λ p. absurd (not_both s.exhausted p x),
          λ p. ground (arith, nil-length s.pending p),
        ),
      )
    ]
    fill_from-IsFilled (a ∷ items) s l x =
        let s' : Scheduler A P = record s { source = items } in
        elim (Bool-cases (ltb (length s.pending) max_pending)) [
          | inl e ↦ elim (Bool-cases (offered max_bytes s' a (g a)).1) [
            | inl k ↦
                let rest =
                  fill_from-IsFilled items (submit max_bytes s' (q a) (g a)) (unfold submit in refl)
                    (unfold submit in x) in
                let same : items_of (submit max_bytes s' (q a) (g a)).pending ++ map q items
                    ≡ items_of s.pending ++ (q a ∷ map q items) =
                  unfold submit in items_of-append s.pending (q a) (g a) (map q items) in
                rw
                  (e, offer-offered max_bytes s' a (g a), k, offered-submits max_bytes s' a (g a) k)
                  (rest.0, rest.1, subst (λ z. IsFilled z rest.0) same rest.2)
            | inr k ↦
                rw (e, offer-offered max_bytes s' a (g a), k)
                  ((offered max_bytes s' a (g a)).0, refl, offered-IsFilled max_bytes s' a (g a) x)
          ]
          | inr e ↦ rw e (
            record s { source = a ∷ items },
            refl,
            (
              rw l refl,
              λ p. absurd (not_both s.exhausted p x),
              λ p. ground (arith, nil-length s.pending p),
            ),
          )
        ]

    -- The inner loop does not raise, and loses, repeats and reorders nothing.
    fill_with-IsFilled :
        (look : Option (A × ℕ)) (s : Scheduler A P)
        → s.lookahead ≡ look
        → IsOk s
        → (f : Scheduler A P) × (fill_with max_pending max_bytes (λ a. pos (g a)) total look s
            ≡ ok f)
          × IsFilled (items_of s.pending ++ map q (held look ++ s.source)) f
    unfolding fill_with held IsOk
    fill_with-IsFilled none s l fine = elim (Bool-cases s.exhausted) [
      | inl x ↦ (s, if_true s.exhausted (ok s) _ x, none-IsFilled s l fine x)
      | inr x ↦
          let rest = fill_from-IsFilled s.source s l x in
          (rest.0, if_false s.exhausted (ok s) _ x ∙ rest.1, rest.2)
    ]
    fill_with-IsFilled (some (a, n)) s l fine =
        let x : s.exhausted ≡ false = lookahead-live s (a, n) l fine in
        elim (Bool-cases (ltb (length s.pending) max_pending)) [
          | inl e ↦ elim (Bool-cases (offered max_bytes s a n).1) [
            | inl k ↦
                let rest =
                  fill_from-IsFilled s.source (submit max_bytes s (q a) n) (unfold submit in refl)
                    (unfold submit in x) in
                let same : items_of (submit max_bytes s (q a) n).pending ++ map q s.source
                    ≡ items_of s.pending ++ (q a ∷ map q s.source) =
                  unfold submit in items_of-append s.pending (q a) n (map q s.source) in
                rw (e, offer-offered max_bytes s a n, k, offered-submits max_bytes s a n k)
                  (rest.0, rest.1, subst (λ z. IsFilled z rest.0) same rest.2)
            | inr k ↦
                rw (e, offer-offered max_bytes s a n, k)
                  ((offered max_bytes s a n).0, refl, offered-IsFilled max_bytes s a n x)
          ]
          | inr e ↦ rw e (
            s,
            refl,
            full-IsFilled s (some (a, n)) l x (λ p. ground (arith, nil-length s.pending p)),
          )
        ]

    pub fill-IsFilled :
        (s : Scheduler A P)
        → IsOk s
        → (f : Scheduler A P) × (fill max_pending max_bytes (λ a. pos (g a)) total s ≡ ok f)
          × IsFilled (content s) f
    unfolding content
    fill-IsFilled s fine = fill_with-IsFilled s.lookahead s refl fine
