-- ===== src/Pipeline/Batches.antt =====
-- core/pipeline.py, `range_batches`: the batches hold the items in order and keep to the limits.
use opencodecs.Common.{
  ℕ, ◌+◌, ◌≤◌, List, [], ◌∷◌, ◌++◌, Bool, true, false, ◌≡◌, ◌⊎◌, inl, inr, refl, arith,
}
use opencodecs.Common.{
  ltb, leb, length, length-append, Bool-cases, ap, sym, ◌∙◌, append_assoc, append-nil, ◌||◌,
}
use opencodecs.Common.{if_false, if◌then◌else◌}
use mathlib.Core.Path.{subst}
use opencodecs.Common.Int.{pos}
use opencodecs.Common.Bytes.{join}
use opencodecs.Pipeline.{Batch, add_item, batches_from, range_batches, non_empty}

module _ {A : Type 0} (g : A → ℕ) (max_bytes max_items : ℕ) where
  -- The size of a batch.
  pub total : List A → ℕ
  total [] = 0
  total (a ∷ l) = g a + total l

  -- A batch has an item, no more than `max_items`, and no more than `max_bytes` unless it has just
  -- one item.
  pub IsBatch : List A → Type 0
  IsBatch l = (1 ≤ length l) × (length l ≤ max_items) × ((total l ≤ max_bytes) ⊎ (length l ≡ 1))

  pub AllBatches : List (List A) → Type 0
  AllBatches [] = Unit
  AllBatches (l ∷ ls) = IsBatch l × AllBatches ls

  -- What the loop has collected is empty or could be yielded.
  IsOpen : Batch A → Type 0
  IsOpen b = (b.count ≡ total b.items) × (1 ≤ length b.items → IsBatch b.items)

  total-append : (l : List A) (a : A) → total (l ++ (a ∷ [])) ≡ total l + g a
  unfolding total
  total-append [] a = omega arith
  total-append (b ∷ l) a = omega (arith, total-append l a)

  non_empty-length : (l : List A) → non_empty l ≡ true → 1 ≤ length l
  non_empty-length [] h = ground arith
  non_empty-length (a ∷ l) h = omega arith

  empty-length : (l : List A) → non_empty l ≡ false → length l ≡ 0
  empty-length [] h = refl
  empty-length (a ∷ l) h = ground arith

  -- What one item does: a batch that is yielded is one, and nothing is lost.
  IsAdded : Batch A → A → List (List A) × Batch A → Type 0
  IsAdded b item r =
      AllBatches r.0
      × IsOpen r.1
      × (1 ≤ length r.1.items)
      × (join r.0 ++ r.1.items ≡ b.items ++ (item ∷ []))

  full-IsAdded :
      (b : Batch A) (item : A)
      → 1 ≤ max_items
      → b.count ≡ total b.items
      → IsBatch b.items
      → IsAdded b item (b.items ∷ [], record { items = item ∷ []; count = 0 + g item })
  unfolding IsAdded IsOpen IsBatch AllBatches total
  full-IsAdded b item h c o = (
    (o, tt),
    (omega arith, λ _. (omega arith, h, inr refl)),
    omega arith,
    ap (λ z. z ++ (item ∷ [])) (append-nil b.items),
  )

  room-IsAdded :
      (b : Batch A) (item : A)
      → length b.items + 1 ≤ max_items
      → (b.count + g item ≤ max_bytes) ⊎ (length b.items ≡ 0)
      → b.count ≡ total b.items
      → IsAdded b item ([], record { items = b.items ++ (item ∷ []); count = b.count + g item })
  unfolding IsAdded IsOpen IsBatch AllBatches
  room-IsAdded b item l m c =
      let n : length (b.items ++ (item ∷ [])) ≡ length b.items + 1 =
        length-append b.items (item ∷ []) in
      let t : total (b.items ++ (item ∷ [])) ≡ total b.items + g item = total-append b.items item in
      (
        tt,
        (
          omega (arith, t),
          λ _. (
            omega (arith, n),
            omega (arith, n),
            fits b.items (b.items ++ (item ∷ [])) b.count (g item) m n t c,
          ),
        ),
        omega (arith, n),
        refl,
      )
    where
      fits :
          (l k : List A) (i j : ℕ)
          → (i + j ≤ max_bytes) ⊎ (length l ≡ 0)
          → length k ≡ length l + 1
          → total k ≡ total l + j
          → i ≡ total l
          → (total k ≤ max_bytes) ⊎ (length k ≡ 1)
      fits l k i j (inl h) n t c = inl (omega arith)
      fits l k i j (inr h) n t c = inr (omega arith)

  add_item-IsAdded :
      (b : Batch A) (item : A)
      → 1 ≤ max_items
      → IsOpen b
      → IsAdded b item (add_item max_bytes max_items b item (g item))
  unfolding add_item IsAdded IsOpen IsBatch AllBatches
  add_item-IsAdded b item h (c, o) = elim (Bool-cases (non_empty b.items)) [
    | inl n ↦
        elim (Bool-cases (ltb max_bytes (b.count + g item) || leb max_items (length b.items))) [
          | inl e ↦ rw (n, e) (full-IsAdded b item h c (o (non_empty-length b.items n)))
          | inr e ↦ rw (n, e) (room-IsAdded b item (ground arith) (inl (ground arith)) c)
        ]
    | inr n ↦ rw n (
        room-IsAdded b item (omega (arith, empty-length b.items n)) (inr (empty-length b.items n))
          c)
  ]

  start-IsOpen : IsOpen (record { items = []; count = 0 })
  unfolding IsOpen total
  start-IsOpen = (refl, λ h. elim h [ ])

  empty-nil : (l : List A) → non_empty l ≡ false → l ≡ []
  empty-nil [] h = refl
  empty-nil (a ∷ l) h = ground arith

  append-AllBatches :
      (ks ls : List (List A)) → AllBatches ks → AllBatches ls → AllBatches (ks ++ ls)
  unfolding AllBatches
  append-AllBatches [] ls h k = k
  append-AllBatches (x ∷ ks) ls h k = (h.0, append-AllBatches ks ls h.1 k)

  join-append : (ks ls : List (List A)) → join (ks ++ ls) ≡ join ks ++ join ls
  join-append [] ls = refl
  join-append (k ∷ ks) ls = rw (join-append ks ls) (sym (append_assoc k (join ks) (join ls)))

  -- A run of `range_batches` that does not raise, and splits the items left into batches.
  pub IsSplit : List A → List (List A) × Bool → Type 0
  IsSplit items r = (r.1 ≡ false) × (join r.0 ≡ items) × AllBatches r.0

  finish-IsSplit :
      (b : Batch A)
      → IsOpen b
      → IsSplit (b.items ++ []) (if non_empty b.items then b.items ∷ [] else [], false)
  unfolding IsSplit AllBatches IsOpen
  finish-IsSplit b o = elim (Bool-cases (non_empty b.items)) [
    | inl e ↦ rw e (refl, refl, (o.1 (non_empty-length b.items e), tt))
    | inr e ↦ rw e (refl, sym (append-nil b.items ∙ empty-nil b.items e), tt)
  ]

  step-IsSplit :
      (b : Batch A) (item : A) (items : List A) (p : List (List A) × Batch A)
      (r : List (List A) × Bool)
      → IsAdded b item p
      → IsSplit (p.1.items ++ items) r
      → IsSplit (b.items ++ (item ∷ items)) (p.0 ++ r.0, r.1)
  unfolding IsSplit IsAdded
  step-IsSplit b item items p r (batches, _, _, kept) (fine, joined, all) = (
    fine,
    join-append p.0 r.0
        ∙ ap (λ z. join p.0 ++ z) joined
        ∙ sym (append_assoc (join p.0) p.1.items items)
        ∙ ap (λ z. z ++ items) kept
        ∙ append_assoc b.items (item ∷ []) items,
    append-AllBatches p.0 r.0 batches all,
  )

  batches_from-IsSplit :
      (items : List A) (b : Batch A)
      → 1 ≤ max_items
      → IsOpen b
      → IsSplit (b.items ++ items) (batches_from max_bytes max_items (λ a. pos (g a)) b items)
  unfolding batches_from IsAdded
  batches_from-IsSplit [] b h o = finish-IsSplit b o
  batches_from-IsSplit (item ∷ items) b h o =
      let p = add_item max_bytes max_items b item (g item) in
      let added = add_item-IsAdded b item h o in
      step-IsSplit b item items p (batches_from max_bytes max_items (λ a. pos (g a)) p.1 items)
        added (batches_from-IsSplit items p.1 h added.1)

-- With limits of at least 1 and sizes that are not negative, `range_batches` does not raise, its
-- batches put together are the items in their order, and each has at least one item and at most
-- `max_items`, and at most `max_bytes` unless it is one item alone.
pub range_batches-IsSplit :
    {A : Type 0} (g : A → ℕ) (max_bytes max_items : ℕ) (items : List A)
    → 1 ≤ max_bytes
    → 1 ≤ max_items
    → IsSplit g max_bytes max_items items (range_batches items (λ a. pos (g a)) max_bytes max_items)
unfolding range_batches
range_batches-IsSplit g max_bytes max_items items h k =
    subst (IsSplit g max_bytes max_items items)
      (sym (if_false (ltb max_bytes 1 || ltb max_items 1) ([], true) _ (ground arith)))
      (batches_from-IsSplit g max_bytes max_items items (record { items = []; count = 0 }) k
        (start-IsOpen g max_bytes max_items))
