-- ===== src/TileCache/Eviction.antt =====
-- What `store` evicts, and what a later `claim` finds.
use opencodecs.Common.{ℕ, ◌+◌, ◌-◌, ◌≤◌, ◌<◌, ◌≡◌, ◌≢◌, refl, ap, ◌∙◌, arith, inl, inr}
use opencodecs.Common.{[], ◌∷◌, ◌++◌, true, false, none, some, leb}
use opencodecs.Common.{length, length-append, Bool-cases}
use opencodecs.Common.Dict
use mathlib.Core.Path.{subst}
use opencodecs.TileCache.{Array, Cache, Entries, freeze, claim_round, store, hit, inserted}
use opencodecs.TileCache.Accounting.{IsValid, total, keep, inserted-append, inserted-Distinct}
use opencodecs.TileCache.Invariant.{stored, store-stored, stored-IsValid}

module _ {K A : Type 0} where
  -- What the loop leaves is a suffix, and the number of entries in front of it is what it evicted.
  keep-suffix :
      (limit : ℕ) (d : Entries K A)
      → (front : Entries K A) × (d ≡ front ++ keep limit d)
        × (length front ≡ length d - length (keep limit d))
  keep-suffix limit [] = ([], refl, omega arith)
  keep-suffix limit ((k, (a, size)) ∷ d) = elim (Bool-cases (leb (size + total d) limit)) [
    | inl e ↦ ([], rw e, rw e (omega arith))
    | inr e ↦
        let (front, split, count) = keep-suffix limit d in
        (
          (k, (a, size)) ∷ front,
          rw e (ap (◌∷◌ (k, (a, size))) split),
          rw e (omega (arith, count, ap length split, length-append front (keep limit d))),
        )
  ]

  -- No longer suffix fits the budget.
  keep-longest :
      (limit : ℕ) (d front back : Entries K A)
      → d ≡ front ++ back
      → total back ≤ limit
      → length back ≤ length (keep limit d)
  keep-longest limit [] [] back e h = omega (arith, ap length e)
  keep-longest limit [] (x ∷ front) back e h = absurd (cc)
  keep-longest limit ((k, (a, size)) ∷ d) [] back e h =
      subst (λ b. total b ≤ limit → length b ≤ length (keep limit ((k, (a, size)) ∷ d))) e
        (λ fits. ground arith) h
  keep-longest limit ((k, (a, size)) ∷ d) (x ∷ front) back e h =
      let tails : d ≡ front ++ back = cc in
      ground
        (arith, keep-longest limit d front back tails h, ap length tails, length-append front back)

module _ {K A : Type 0} (dec : Discrete K) where
  get-keep_last :
      (limit : ℕ) (key : K) (a : Array A) (size : ℕ) (d : Entries K A)
      → size ≤ limit
      → Dict.get dec key d ≡ none
      → Dict.get dec key (keep limit (d ++ ((key, (a, size)) ∷ []))) ≡ some (a, size)
  unfolding Dict.get
  get-keep_last limit key a size [] h e = ground arith
  get-keep_last limit key a size ((k, (b, s)) ∷ d) h e =
      ground
        (arith, get-keep_last limit key a size d, Dict.get-append dec key d ((key, (a, size)) ∷ []))

  get-keep :
      (limit : ℕ) (key : K) (entry : Array A × ℕ) (d : Entries K A)
      → Dict.Distinct dec d
      → Dict.get dec key (keep limit d) ≡ some entry
      → Dict.get dec key d ≡ some entry
  unfolding Dict.get
  get-keep limit key entry [] h e = e
  get-keep limit key entry ((k, (b, s)) ∷ d) h e = elim (Bool-cases (leb (s + total d) limit)) [
    | inl p ↦ rw p at e
    | inr p ↦ ground (arith, get-keep limit key entry d h.1)
  ]

  -- A `store` of an array within the budget never raises. It evicts from the least recently used
  -- end, and only as much as it must: what stays, the new entry last, is the longest suffix of the
  -- entries whose sizes fit the budget, and the eviction counter grows by the entries in front of it.
  pub store-evicts :
      {c : Cache K A} (key : K) (a : Array A)
      → IsValid dec c
      → a.nbytes ≤ c.max_bytes
      → (c' : Cache K A) × (front : Entries K A) × (store dec c key a
          ≡ some (c', Dict.get dec key c.inflight))
        × (Dict.drop_key dec key c.entries ++ ((key, (freeze a, a.nbytes)) ∷ [])
            ≡ front ++ c'.entries)
        × (c'.evictions ≡ c.evictions + length front)
        × (total c'.entries ≤ c'.max_bytes)
        × ((before after : Entries K A)
            → Dict.drop_key dec key c.entries ++ ((key, (freeze a, a.nbytes)) ∷ [])
              ≡ before ++ after
            → total after ≤ c.max_bytes
            → length after ≤ length c'.entries)
  store-evicts {c} key a v h =
      let (front, split, count) = keep-suffix c.max_bytes (inserted dec c key a) in
      let fits : leb a.nbytes c.max_bytes ≡ true = ground arith in
      let valid = stored-IsValid dec key a v in
      (
        stored dec c key a,
        front,
        store-stored dec key a v,
        rw (← inserted-append dec key a v) (unfold stored in rw fits split),
        unfold stored in rw fits (omega (arith, count)),
        omega (arith, valid.counted, valid.within),
        λ before after e small.
            unfold stored in
            rw fits (
              keep-longest c.max_bytes (inserted dec c key a) before after
                (inserted-append dec key a v ∙ e) small),
      )

  -- A `claim` right after a `store` within the budget is a hit, and hands out the stored array,
  -- read-only.
  pub claim-store :
      {c : Cache K A} (key : K) (a : Array A)
      → IsValid dec c
      → a.nbytes ≤ c.max_bytes
      → (c' : Cache K A) × (store dec c key a ≡ some (c', Dict.get dec key c.inflight))
        × ((claim_round dec c' key).1 ≡ hit (record a { writeable = false }))
  unfolding claim_round
  claim-store {c} key a v h =
      let fits : leb a.nbytes c.max_bytes ≡ true = ground arith in
      let absent = Dict.get-drop_key_self dec key c.entries v.distinct in
      let found =
        get-keep_last c.max_bytes key (freeze a) a.nbytes (Dict.drop_key dec key c.entries) h
          absent in
      (
        stored dec c key a,
        store-stored dec key a v,
        unfold stored in rw (fits, inserted-append dec key a v, found, claim_round),
      )

  -- A `store` changes no other tile: what it leaves under another key was there before. An array
  -- over the budget changes no entry at all.
  pub store-other :
      {c : Cache K A} (key other : K) (a : Array A) (entry : Array A × ℕ)
      → IsValid dec c
      → key ≢ other
      → (c' : Cache K A) × (store dec c key a ≡ some (c', Dict.get dec key c.inflight))
        × (Dict.get dec other c'.entries ≡ some entry → Dict.get dec other c.entries ≡ some entry)
        × (c.max_bytes < a.nbytes → c'.entries ≡ c.entries)
  store-other {c} key other a entry v ne =
      (stored dec c key a, store-stored dec key a v, was_there, unchanged)
    where
      unchanged : c.max_bytes < a.nbytes → (stored dec c key a).entries ≡ c.entries
      unchanged h = unfold stored in ground arith

      was_there :
          Dict.get dec other (stored dec c key a).entries ≡ some entry
          → Dict.get dec other c.entries ≡ some entry
      was_there = elim (Bool-cases (leb a.nbytes c.max_bytes)) [
        | inl e ↦
            unfold stored in
            rw e (λ p. ground (
              arith,
              get-keep c.max_bytes other entry (inserted dec c key a)
                  (inserted-Distinct dec key a v) p,
              Dict.get-put dec other key (freeze a, a.nbytes) (Dict.drop_key dec key c.entries),
              Dict.get-drop_key_ne dec other key c.entries ne,
            ))
        | inr e ↦ unfold stored in rw e (λ p. p)
      ]
