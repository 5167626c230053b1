-- ===== src/TileCache/Invariant.antt =====
-- Every operation of `DecodedTileCache` keeps the byte accounting, and `store` never raises.
use opencodecs.Common.{ℕ, zero, suc, ◌+◌, ◌-◌, ◌≡◌, refl, arith, inl, inr}
use opencodecs.Common.{[], ◌∷◌, ◌++◌, some, leb}
use opencodecs.Common.{if◌then◌else◌, length, Bool-cases, Option-cases}
use opencodecs.Common.Dict
use opencodecs.Common.Int.{ℤ, pos, negsuc}
use opencodecs.TileCache.{Array, Cache, claim_round, store_entry, store}
use opencodecs.TileCache.{release, clear, init, inserted}
use opencodecs.TileCache.Accounting.{IsValid, total, keep, evict-keep}
use opencodecs.TileCache.Accounting.{total-inserted, inserted-Frozen, inserted-Distinct, Frozen-get}
use opencodecs.TileCache.Accounting.{total-drop_key, Frozen-drop_key, Frozen-append, Frozen-keep}
use opencodecs.TileCache.Accounting.{Distinct-keep, total-keep-le, total-append}

module _ {K A : Type 0} (dec : Discrete K) where
  -- A new cache is valid and empty, for every positive budget; any other budget is refused.
  pub init-IsValid :
      (budget : ℤ) {c : Cache K A}
      → init budget ≡ some c
      → IsValid dec c × (c.entries ≡ []) × (pos c.max_bytes ≡ budget)
  unfolding init
  init-IsValid (pos zero) e = absurd (cc)
  init-IsValid (pos (suc n)) e = ground arith
  init-IsValid (negsuc n) e = absurd (cc)

  -- The cache after `store`.
  unfoldable pub stored : Cache K A → K → Array A → Cache K A
  stored c key a =
      let kept = keep c.max_bytes (inserted dec c key a) in
      let popped = record c { inflight = Dict.drop_key dec key c.inflight } in
      if leb a.nbytes c.max_bytes
      then record popped {
        entries = kept;
        bytes = total kept;
        evictions = c.evictions + (length (inserted dec c key a) - length kept);
        stores = c.stores + 1;
      }
      else record popped { skipped_oversized = c.skipped_oversized + 1 }

  pub store-stored :
      {c : Cache K A} (key : K) (a : Array A)
      → IsValid dec c
      → store dec c key a ≡ some (stored c key a, Dict.get dec key c.inflight)
  unfolding store store_entry stored
  store-stored {c} key a v =
      ground (
        arith,
        total-inserted dec key a v,
        evict-keep c.max_bytes (inserted dec c key a) c.evictions,
      )

  pub stored-IsValid :
      {c : Cache K A} (key : K) (a : Array A) → IsValid dec c → IsValid dec (stored c key a)
  unfolding stored
  stored-IsValid {c} key a v = elim (Bool-cases (leb a.nbytes c.max_bytes)) [
    | inl e ↦
        rw (e, stored)
          (record {
            positive = v.positive;
            counted = refl;
            within = total-keep-le c.max_bytes (inserted dec c key a);
            frozen = Frozen-keep c.max_bytes (inserted dec c key a) (inserted-Frozen dec key a v);
            distinct = Distinct-keep dec c.max_bytes _ (inserted-Distinct dec key a v);
            claims_distinct = Dict.drop_key-Distinct dec key c.inflight v.claims_distinct;
          })
    | inr e ↦
        rw (e, stored)
          (record {
            positive = v.positive;
            counted = v.counted;
            within = v.within;
            frozen = v.frozen;
            distinct = v.distinct;
            claims_distinct = Dict.drop_key-Distinct dec key c.inflight v.claims_distinct;
          })
  ]

  claim_round-hit-IsValid :
      {c : Cache K A} (key : K) (entry : Array A × ℕ)
      → Dict.get dec key c.entries ≡ some entry
      → IsValid dec c
      → IsValid dec (record c {
        entries = Dict.drop_key dec key c.entries ++ ((key, entry) ∷ []);
        hits = c.hits + 1;
      })
  claim_round-hit-IsValid {c} key entry e v =
      let rest = Dict.drop_key dec key c.entries in
      let absent = Dict.get-drop_key_self dec key c.entries v.distinct in
      record {
        positive = v.positive;
        counted = omega (
          arith,
          total-append rest ((key, entry) ∷ []),
          total-drop_key dec key c.entries entry e,
          v.counted,
        );
        within = v.within;
        frozen =
            Frozen-append rest _ (Frozen-drop_key dec key c.entries v.frozen)
              (let f = Frozen-get dec key c.entries entry e v.frozen in (f.0, f.1, tt));
        distinct = rw (← Dict.put_absent dec key entry rest absent) (
            Dict.put-Distinct dec key entry rest
              (Dict.drop_key-Distinct dec key c.entries v.distinct));
        claims_distinct = v.claims_distinct;
      }

  pub claim_round-IsValid :
      {c : Cache K A} (key : K) → IsValid dec c → IsValid dec (claim_round dec c key).0
  unfolding claim_round
  claim_round-IsValid {c} key v = elim (Option-cases (Dict.get dec key c.entries)) [
    | inl e ↦ elim (Option-cases (Dict.get dec key c.inflight)) [
      | inl f ↦
          rw (e, claim_round)
            (rw (f, claim_round)
              (record {
                positive = v.positive;
                counted = v.counted;
                within = v.within;
                frozen = v.frozen;
                distinct = v.distinct;
                claims_distinct =
                    Dict.put-Distinct dec key c.next_event c.inflight v.claims_distinct;
              }))
      | inr (event, f) ↦ rw (e, claim_round) (rw (f, claim_round) (ground arith))
    ]
    | inr (entry, e) ↦ rw (e, claim_round) (claim_round-hit-IsValid key entry e v)
  ]

  pub release-IsValid :
      {c : Cache K A} (key : K) → IsValid dec c → IsValid dec (release dec c key).0
  unfolding release
  release-IsValid {c} key v = record {
    positive = v.positive;
    counted = v.counted;
    within = v.within;
    frozen = v.frozen;
    distinct = v.distinct;
    claims_distinct = Dict.drop_key-Distinct dec key c.inflight v.claims_distinct;
  }

  pub clear-IsValid : {c : Cache K A} → IsValid dec c → IsValid dec (clear c)
  unfolding clear
  clear-IsValid v = record {
    positive = v.positive;
    counted = refl;
    within = omega arith;
    frozen = tt;
    distinct = tt;
    claims_distinct = v.claims_distinct;
  }
