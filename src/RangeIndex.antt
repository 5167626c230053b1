-- ===== src/RangeIndex.antt =====
-- src/opencodecs/core/_range_index.py: `RangeIndex`, the cached byte ranges by offset and size.
-- Offsets are not negative, so the bucket before bucket 0 is not there.
pub mod Filed
pub mod Filing
pub mod Membership
pub mod Search
pub mod Covering
pub mod Sets
mod Tests
use opencodecs.Common.{
  ℕ, zero, suc, ◌+◌, ◌-◌, ◌/◌, ◌^◌, List, [], ◌∷◌, map, Bool, true, false, ◌&&◌,
}
use opencodecs.Common.{Option, none, some, ltb, leb, ◌==◌, if◌then◌else◌, length, ℕ_discrete}
use opencodecs.Common.Dict
use opencodecs.Common.Bits.{bit_length}
use mathlib.Core.Logic.{ite}
use mathlib.Core.List.{reverse}

-- `(offset, length)`
abbrev pub Key : Type 0
Key = ℕ × ℕ

unfoldable pub key_discrete : Discrete Key
key_discrete = hlevel ℕ_discrete

-- A bucket is one key, or a dictionary of keys that maps each to None.
pub data Bucket : Type 0 where
  single : Key → Bucket
  many : List (Key × Unit {0}) → Bucket

abbrev pub Buckets : Type 0
Buckets = List (ℕ × Bucket)

-- `self._groups`
abbrev pub Groups : Type 0
Groups = List (ℕ × Buckets)

-- `(length - 1).bit_length()` and `offset >> shift`
abbrev pub shift_of : Key → ℕ
shift_of key = bit_length (key.1 - 1)

abbrev pub bucket_of : ℕ → ℕ → ℕ
bucket_of offset shift = offset / 2 ^ shift

-- `self._groups.setdefault(shift, {})`, for the value.
abbrev pub buckets_at : ℕ → Groups → Buckets
buckets_at shift groups = elim (Dict.get ℕ_discrete shift groups) [ none ↦ [] | some b ↦ b ]

-- The bucket with the key in it.
pub with_key : Option Bucket → Key → Bucket
with_key none key = single key
with_key (some (single other)) key =
    ite (key_discrete other key) (single other) (many ((other, tt) ∷ (key, tt) ∷ []))
with_key (some (many keys)) key = many (Dict.put key_discrete key tt keys)

pub add : Key → Groups → Groups
add (offset, zero) groups = groups
add (offset, suc n) groups =
    let shift = shift_of (offset, suc n) in
    let buckets = buckets_at shift groups in
    let id = bucket_of offset shift in
    Dict.put ℕ_discrete shift
      (Dict.put ℕ_discrete id (with_key (Dict.get ℕ_discrete id buckets) (offset, suc n)) buckets)
      groups

-- What `discard` makes of the dictionary of a bucket after `bucket.pop(key, None)`.
pub collapse : List (Key × Unit {0}) → Bucket
collapse (e ∷ []) = single e.0
collapse keys = many keys

-- The buckets of a group after `discard`; `none` where it returns early.
pub without_key : Option Bucket → ℕ → Key → Buckets → Option Buckets
without_key none id key buckets = none
without_key (some (single other)) id key buckets =
    ite (key_discrete other key) (some (Dict.drop_key ℕ_discrete id buckets)) none
without_key (some (many keys)) id key buckets =
    some (Dict.put ℕ_discrete id (collapse (Dict.drop_key key_discrete key keys)) buckets)

-- `if not buckets: del self._groups[shift]`
pub write_group : ℕ → Buckets → Groups → Groups
write_group shift [] groups = Dict.drop_key ℕ_discrete shift groups
write_group shift (b ∷ buckets) groups = Dict.put ℕ_discrete shift (b ∷ buckets) groups

pub discard : Key → Groups → Groups
discard (offset, zero) groups = groups
discard (offset, suc n) groups =
    let shift = shift_of (offset, suc n) in
    let id = bucket_of offset shift in
    elim (Dict.get ℕ_discrete shift groups) [
      | none ↦ groups
      | some buckets ↦
          elim (without_key (Dict.get ℕ_discrete id buckets) id (offset, suc n) buckets) [
            | none ↦ groups
            | some left ↦ write_group shift left groups
          ]
    ]

-- `start <= offset and end <= start + size`
abbrev pub covers : Key → ℕ → ℕ → Bool
covers (start, size) offset length = leb start offset && leb (offset + length) (start + size)

-- The inner loop of `covering`.
pub first_covering : List Key → ℕ → ℕ → Option Key
first_covering [] offset length = none
first_covering (key ∷ keys) offset length =
    if covers key offset length then some key else first_covering keys offset length

abbrev pub candidates : Option Bucket → List Key
candidates none = []
candidates (some (single key)) = key ∷ []
candidates (some (many keys)) = reverse (map (λ e. e.0) keys)

-- `buckets.get(bucket_id - 1)`
abbrev pub bucket_before : ℕ → Buckets → Option Bucket
bucket_before zero buckets = none
bucket_before (suc id) buckets = Dict.get ℕ_discrete id buckets

abbrev pub or_else : Option Key → Option Key → Option Key
or_else (some key) other = some key
or_else none other = other

-- The two buckets of one group in which a covering key can start.
pub in_group : Buckets → ℕ → ℕ → ℕ → Option Key
in_group buckets shift offset length =
    let id = bucket_of offset shift in
    or_else (first_covering (candidates (Dict.get ℕ_discrete id buckets)) offset length)
      (first_covering (candidates (bucket_before id buckets)) offset length)

pub covering : Groups → ℕ → ℕ → Option Key
covering [] offset length = none
covering ((shift, buckets) ∷ groups) offset length =
    let rest = covering groups offset length in
    if ltb (2 ^ shift) length then rest else or_else (in_group buckets shift offset length) rest

pub clear : Groups → Groups
clear groups = []
