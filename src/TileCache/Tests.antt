-- ===== src/TileCache/Tests.antt =====
-- Concrete runs of the tile cache, and its theorems at concrete inputs.
use opencodecs.Common.{ℕ, ◌+◌, ◌≤◌, ◌<◌, ◌≡◌, refl, arith, [], ◌∷◌, ◌++◌, true, false, ◌⊎◌}
use opencodecs.Common.{none, some, length, ℕ_discrete}
use opencodecs.Common.Dict
use opencodecs.Common.Int.{pos}
use opencodecs.TileCache.{Array, Cache, Entries, empty_cache, init, evict, old_size, claim_round}
use opencodecs.TileCache.{store_entry, store, release, clear, hit, freeze}
use opencodecs.TileCache.Accounting.{IsValid, total}
use opencodecs.TileCache.Eviction.{store-evicts, claim-store, store-other}
use opencodecs.TileCache.Threads.{System, Reach, start, next, claims, claim_by, running, setting}
use opencodecs.TileCache.Safety.{one_decoder, no_lost_wakeup, budget_kept}

program : Unit {0}
unfolding Dict.get Dict.put Dict.drop_key init evict old_size claim_round store_entry store release
    clear ℕ_discrete
program = tt

-- A tile of `size` bytes.
abbrev tile : ℕ → Array ℕ
tile size = record { pixels = size; nbytes = size; writeable = true }

abbrev two : Cache ℕ ℕ
two = record (empty_cache 10) {
  entries = (1, (freeze (tile 4), 4)) ∷ (2, (freeze (tile 5), 5)) ∷ [];
  bytes = 9;
  stores = 2;
}

two-IsValid : IsValid ℕ_discrete two
unfolding program
two-IsValid = record {
  positive = omega arith;
  counted = refl;
  within = omega arith;
  frozen = (refl, refl, (refl, refl, tt));
  distinct = (refl, (refl, tt));
  claims_distinct = tt;
}

-- A third tile of 4 bytes evicts the oldest one only.
store_three :
    store ℕ_discrete two 3 (tile 4)
    ≡ some (
      record two {
        entries = (2, (freeze (tile 5), 5)) ∷ (3, (freeze (tile 4), 4)) ∷ [];
        bytes = 9;
        evictions = 1;
        stores = 3;
      },
      none,
    )
unfolding program
store_three = refl

init_zero : init {K = ℕ} {A = ℕ} (pos 0) ≡ none
unfolding program
init_zero = refl

init_ten : init {K = ℕ} {A = ℕ} (pos 10) ≡ some (empty_cache 10)
unfolding program
init_ten = refl

store-evicts_example :
    (c' : Cache ℕ ℕ) × (front : Entries ℕ ℕ) × (store ℕ_discrete two 3 (tile 4)
      ≡ some (c', Dict.get ℕ_discrete 3 two.inflight))
    × (Dict.drop_key ℕ_discrete 3 two.entries ++ ((3, (freeze (tile 4), 4)) ∷ [])
        ≡ front ++ c'.entries)
    × (c'.evictions ≡ 0 + length front)
    × (total c'.entries ≤ c'.max_bytes)
    × ((before after : Entries ℕ ℕ)
        → Dict.drop_key ℕ_discrete 3 two.entries ++ ((3, (freeze (tile 4), 4)) ∷ [])
          ≡ before ++ after
        → total after ≤ 10
        → length after ≤ length c'.entries)
store-evicts_example = store-evicts ℕ_discrete 3 (tile 4) two-IsValid (omega arith)

claim-store_example :
    (c' : Cache ℕ ℕ) × (store ℕ_discrete two 3 (tile 4)
      ≡ some (c', Dict.get ℕ_discrete 3 two.inflight))
    × ((claim_round ℕ_discrete c' 3).1 ≡ hit (record (tile 4) { writeable = false }))
claim-store_example = claim-store ℕ_discrete 3 (tile 4) two-IsValid (omega arith)

store-other_example :
    (c' : Cache ℕ ℕ) × (store ℕ_discrete two 3 (tile 11)
      ≡ some (c', Dict.get ℕ_discrete 3 two.inflight))
    × (Dict.get ℕ_discrete 2 c'.entries ≡ some (freeze (tile 5), 5)
        → Dict.get ℕ_discrete 2 two.entries ≡ some (freeze (tile 5), 5))
    × (10 < 11 → c'.entries ≡ two.entries)
store-other_example =
    store-other ℕ_discrete 3 2 (tile 11) (freeze (tile 5), 5) two-IsValid (omega arith)

-- Threads 0 and 1 claim tile 7 one after the other.
abbrev fresh : System ℕ ℕ
fresh = record {
  cache = empty_cache 10;
  is_set = λ e. false;
  doing = λ t. running;
  holds = λ t k. false;
}

abbrev first_claim : System ℕ ℕ
first_claim = claim_by ℕ_discrete fresh 0 7

abbrev second_claim : System ℕ ℕ
second_claim = claim_by ℕ_discrete first_claim 1 7

second_reached : Reach ℕ_discrete 10 second_claim
unfolding program
second_reached = next (next start (claims 0 7 refl)) (claims 1 7 refl)

one_decoder_example : ◌≡◌ {A = ℕ} 0 0
unfolding program
one_decoder_example = one_decoder ℕ_discrete 0 0 7 (omega arith) second_reached refl refl

no_lost_wakeup_example :
    (second_claim.is_set 0 ≡ true)
    ⊎ ((u : ℕ) × (second_claim.doing u ≡ setting 0))
    ⊎ ((u : ℕ) × (second_claim.holds u 7 ≡ true)
        × (Dict.get ℕ_discrete 7 second_claim.cache.inflight ≡ some 0))
unfolding program
no_lost_wakeup_example = no_lost_wakeup ℕ_discrete 1 7 0 (omega arith) second_reached refl

budget_kept_example :
    (second_claim.cache.bytes ≡ total second_claim.cache.entries)
    × (second_claim.cache.bytes ≤ second_claim.cache.max_bytes)
    × ((key : ℕ) (entry : Array ℕ × ℕ)
        → Dict.get ℕ_discrete key second_claim.cache.entries ≡ some entry
        → (entry.0.writeable ≡ false) × (entry.1 ≡ entry.0.nbytes))
budget_kept_example = budget_kept ℕ_discrete (omega arith) second_reached
