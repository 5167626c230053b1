-- ===== src/TileCache.antt =====
-- src/opencodecs/core/tile_cache.py: `DecodedTileCache`, a least-recently-used cache of decoded
-- tiles under a byte budget. The children prove its accounting, its eviction order and the claim
-- protocol between threads.
pub mod Accounting
pub mod Invariant
pub mod Eviction
pub mod Threads
pub mod Protocol
pub mod Safety
mod Tests
use opencodecs.Common.{ℕ, zero, suc, ◌+◌, ◌-◌, List, [], ◌∷◌, ◌++◌, Bool, true, false}
use opencodecs.Common.{Option, none, some, ltb, leb, if◌then◌else◌}
use opencodecs.Common.Dict
use opencodecs.Common.Int.{ℤ, pos, negsuc}
use mathlib.Core.Option

-- What the cache reads of a numpy array, and the pixels, which it does not look into.
pub record Array (A : Type 0) : Type 0 where
  pub pixels : A
  pub nbytes : ℕ
  pub writeable : Bool

-- The dictionary of entries, `key -> (array, nbytes)`, least recently used first.
abbrev pub Entries : Type 0 → Type 0 → Type 0
Entries K A = List (K × (Array A × ℕ))

-- A `threading.Event` is the number of events made before it.
pub record Cache (K A : Type 0) : Type 0 where
  pub max_bytes : ℕ
  pub entries : Entries K A
  pub inflight : List (K × ℕ)
  pub bytes : ℕ
  pub hits : ℕ
  pub misses : ℕ
  pub evictions : ℕ
  pub stores : ℕ
  pub skipped_oversized : ℕ
  pub waits : ℕ
  pub next_event : ℕ

abbrev pub empty_cache : {K A : Type 0} → ℕ → Cache K A
empty_cache max_bytes = record {
  max_bytes = max_bytes;
  entries = [];
  inflight = [];
  bytes = 0;
  hits = 0;
  misses = 0;
  evictions = 0;
  stores = 0;
  skipped_oversized = 0;
  waits = 0;
  next_event = 0;
}

-- `__init__`; `none` is its ValueError.
pub init : {K A : Type 0} → ℤ → Option (Cache K A)
init (pos zero) = none
init (pos (suc n)) = some (empty_cache (suc n))
init (negsuc n) = none

-- One round of the loop of `claim`, under the lock: what it returns, or the event to wait for.
pub data Outcome (A : Type 0) : Type 0 where
  hit : Array A → Outcome A
  miss : Outcome A
  wait : ℕ → Outcome A

-- `while self.bytes > self.max_bytes: self._entries.popitem(last=False)`; `none` is the KeyError
-- of an empty dictionary. The result is the entries, the bytes and the evictions.
pub evict : {K A : Type 0} → ℕ → Entries K A → ℕ → ℕ → Option (Entries K A × ℕ × ℕ)
evict limit [] bytes n = if ltb limit bytes then none else some ([], bytes, n)
evict limit ((k, (a, size)) ∷ d) bytes n =
    let rest = evict limit d (bytes - size) (n + 1) in
    if ltb limit bytes then rest else some ((k, (a, size)) ∷ d, bytes, n)

-- `array.flags.writeable = False`
abbrev pub freeze : {A : Type 0} → Array A → Array A
freeze a = record a { writeable = false }

module _ {K A : Type 0} (dec : Discrete K) where
  -- `self._entries.move_to_end(key)`
  abbrev pub move_to_end : K → (Array A × ℕ) → Entries K A → Entries K A
  move_to_end key entry d = Dict.drop_key dec key d ++ ((key, entry) ∷ [])

  pub claim_round : Cache K A → K → Cache K A × Outcome A
  claim_round c key = elim (Dict.get dec key c.entries) [
    | some entry ↦
        (record c { entries = move_to_end key entry c.entries; hits = c.hits + 1 }, hit entry.0)
    | none ↦ elim (Dict.get dec key c.inflight) [
      | none ↦ (
        record c {
          inflight = Dict.put dec key c.next_event c.inflight;
          next_event = c.next_event + 1;
          misses = c.misses + 1;
        },
        miss,
      )
      | some event ↦ (record c { waits = c.waits + 1 }, wait event)
    ]
  ]

  -- `old[1]` of the entry that `pop` took out, 0 if there was none.
  pub old_size : K → Entries K A → ℕ
  old_size key d = elim (Dict.get dec key d) [ none ↦ 0 | some entry ↦ entry.1 ]

  -- The entries with the new one, before the eviction loop.
  abbrev pub inserted : Cache K A → K → Array A → Entries K A
  inserted c key a = Dict.put dec key (freeze a, a.nbytes) (Dict.drop_key dec key c.entries)

  -- The branch of `store` that keeps the array.
  pub store_entry : Cache K A → K → Array A → Option (Cache K A)
  store_entry c key a =
      elim (evict c.max_bytes (inserted c key a) (c.bytes - old_size key c.entries + a.nbytes)
        c.evictions) [
          | none ↦ none
          | some (entries, bytes, evictions) ↦ some (record c {
            entries = entries;
            bytes = bytes;
            evictions = evictions;
            stores = c.stores + 1;
          })
        ]

  -- The part of `store` under the lock, and the event that it sets afterwards. The array that it
  -- returns is `freeze a`.
  pub store : Cache K A → K → Array A → Option (Cache K A × Option ℕ)
  store c key a =
      let event = Dict.get dec key c.inflight in
      let popped = record c { inflight = Dict.drop_key dec key c.inflight } in
      if leb a.nbytes c.max_bytes
      then Option.map (λ stored. (stored, event)) (store_entry popped key a)
      else some (record popped { skipped_oversized = c.skipped_oversized + 1 }, event)

  -- The part of `release` under the lock, and the event that it sets afterwards.
  pub release : Cache K A → K → Cache K A × Option ℕ
  release c key =
      (record c { inflight = Dict.drop_key dec key c.inflight }, Dict.get dec key c.inflight)

pub clear : {K A : Type 0} → Cache K A → Cache K A
clear c = record c { entries = []; bytes = 0 }
