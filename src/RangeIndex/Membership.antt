-- ===== src/RangeIndex/Membership.antt =====
-- `RangeIndex` as a set of keys: what `add`, `discard` and `clear` do to it.
use opencodecs.Common.{ℕ, zero, suc, ◌<◌, ◌≡◌, refl, arith, List, [], ◌∷◌}
use opencodecs.Common.{Bool, true, false, Option, none, some, ap, eq_of_some}
use opencodecs.Common.{ℕ_discrete, Option-cases, inl, inr}
use opencodecs.Common.Dict
use mathlib.Core.Logic.{ite, if_pos, if_neg}
use opencodecs.RangeIndex.{Key, key_discrete, Bucket, single, many, Buckets, Groups, shift_of}
use opencodecs.RangeIndex.{bucket_of, buckets_at, with_key, add, collapse, without_key, write_group}
use opencodecs.RangeIndex.{discard}
use opencodecs.RangeIndex.Filed.{IsFiled, buckets_at-filed, OptionFiled}
use opencodecs.RangeIndex.Filed.{BucketsFiled-get, AllFiled}

abbrev pub is_some {ℓ} : {A : Type ℓ} → Option A → Bool
is_some none = false
is_some (some a) = true

abbrev pub in_bucket : Option Bucket → Key → Bool
in_bucket none j = false
in_bucket (some (single key)) j = ite (key_discrete key j) true false
in_bucket (some (many keys)) j = is_some (Dict.get key_discrete j keys)

-- A key is in the index where it belongs.
unfoldable pub contains : Groups → Key → Bool
contains groups key =
    in_bucket
      (Dict.get ℕ_discrete (bucket_of key.0 (shift_of key)) (buckets_at (shift_of key) groups)) key

in_bucket-with_key :
    (old : Option Bucket) (key j : Key)
    → in_bucket (some (with_key old key)) j ≡ ite (key_discrete key j) true (in_bucket old j)
unfolding with_key Dict.get
in_bucket-with_key none key j = refl
in_bucket-with_key (some (single other)) key j = ground arith
in_bucket-with_key (some (many keys)) key j =
    ground (arith, Dict.get-put key_discrete j key tt keys)

in_bucket-collapse :
    (keys : List (Key × Unit {0})) (j : Key)
    → in_bucket (some (collapse keys)) j ≡ is_some (Dict.get key_discrete j keys)
unfolding collapse Dict.get
in_bucket-collapse [] j = refl
in_bucket-collapse (e ∷ []) j = ground arith
in_bucket-collapse (e ∷ f ∷ keys) j = refl

-- `add` adds a key of positive size and no other; an empty range is ignored.
pub contains-add :
    (key j : Key) (groups : Groups)
    → (0 < key.1 → contains (add key groups) j ≡ ite (key_discrete key j) true (contains groups j))
      × (key.1 ≡ 0 → add key groups ≡ groups)
unfolding contains add
contains-add (offset, zero) j groups = (λ h. absurd (omega arith), λ e. refl)
contains-add (offset, suc n) j groups = (λ h. stored, λ e. absurd (omega arith))
  where
    key : Key
    key = (offset, suc n)

    shift : ℕ
    shift = shift_of key

    id : ℕ
    id = bucket_of offset shift

    old : Option Bucket
    old = Dict.get ℕ_discrete id (buckets_at shift groups)

    stored : contains (add key groups) j ≡ ite (key_discrete key j) true (contains groups j)
    stored = ground (
      arith,
      Dict.get-put ℕ_discrete (shift_of j) shift
          (Dict.put ℕ_discrete id (with_key old key) (buckets_at shift groups)) groups,
      Dict.get-put ℕ_discrete (bucket_of j.0 (shift_of j)) id (with_key old key)
          (buckets_at shift groups),
      in_bucket-with_key old key j,
    )

-- The buckets of a group after `write_group`: an empty group is deleted, and reads as empty.
buckets_at-write_group :
    (s shift : ℕ) (left : Buckets) (groups : Groups)
    → IsFiled groups
    → buckets_at s (write_group shift left groups)
      ≡ ite (ℕ_discrete shift s) left (buckets_at s groups)
unfolding write_group
buckets_at-write_group s shift [] groups v =
    ground (arith, Dict.get-drop_key ℕ_discrete s shift groups v.distinct)
buckets_at-write_group s shift (b ∷ left) groups v =
    ground (arith, Dict.get-put ℕ_discrete s shift (b ∷ left) groups)

-- `discard` takes the key out of its bucket, and touches no other bucket.
without_key_in :
    (shift id i : ℕ) (old : Option Bucket) (key j : Key) (buckets left : Buckets)
    → Dict.Distinct ℕ_discrete buckets
    → OptionFiled shift id old
    → Dict.get ℕ_discrete id buckets ≡ old
    → without_key old id key buckets ≡ some left
    → in_bucket (Dict.get ℕ_discrete i left) j
      ≡ ite
          (ℕ_discrete id i)
          (ite (key_discrete key j) false (in_bucket old j))
          (in_bucket (Dict.get ℕ_discrete i buckets) j)
unfolding without_key
without_key_in shift id i none key j buckets left d f h e = absurd (cc)
without_key_in shift id i (some (single other)) key j buckets left d f h e =
    elim (key_discrete other key) [
      | yes p ↦
          rw (← eq_of_some (rw (if_pos (key_discrete other key) p) at e))
            (ground (arith, Dict.get-drop_key ℕ_discrete i id buckets d))
      | no p ↦ absurd (ground arith)
    ]
without_key_in shift id i (some (many [])) key j buckets left d f h e = absurd f
without_key_in shift id i (some (many (x ∷ []))) key j buckets left d f h e = absurd f
without_key_in shift id i (some (many (x ∷ y ∷ keys))) key j buckets left d f h e = ground (
  arith,
  eq_of_some e,
  Dict.get-put ℕ_discrete i id (collapse (Dict.drop_key key_discrete key (x ∷ y ∷ keys))) buckets,
  in_bucket-collapse (Dict.drop_key key_discrete key (x ∷ y ∷ keys)) j,
  Dict.get-drop_key key_discrete j key (x ∷ y ∷ keys) f.1,
)

-- Where `discard` returns early, the key is not there.
without_key_absent :
    (shift id : ℕ) (old : Option Bucket) (key : Key) (buckets : Buckets)
    → OptionFiled shift id old
    → without_key old id key buckets ≡ none
    → in_bucket old key ≡ false
unfolding without_key
without_key_absent shift id none key buckets f e = refl
without_key_absent shift id (some (single other)) key buckets f e = ground arith
without_key_absent shift id (some (many keys)) key buckets f e = absurd (cc)

AllFiled-get :
    (shift id : ℕ) (offset : ℕ) (keys : List (Key × Unit {0}))
    → AllFiled shift id keys
    → Dict.get key_discrete (offset, 0) keys ≡ none
unfolding Dict.get
AllFiled-get shift id offset [] h = refl
AllFiled-get shift id offset ((key, v) ∷ keys) h = elim (key_discrete key (offset, 0)) [
  | yes p ↦ absurd (omega (arith, ap (λ (k : Key). k.1) p))
  | no p ↦ rw (if_neg (key_discrete key (offset, 0)) p) (AllFiled-get shift id offset keys h.1)
]

-- No empty range is in a filed index.
not_empty_range :
    (offset : ℕ) (groups : Groups) → IsFiled groups → contains groups (offset, 0) ≡ false
unfolding contains
not_empty_range offset groups v =
    go (Dict.get ℕ_discrete id (buckets_at shift groups)) (
      BucketsFiled-get shift id (buckets_at shift groups) (buckets_at-filed shift groups v.filed).0)
  where
    shift : ℕ
    shift = shift_of (offset, 0)

    id : ℕ
    id = bucket_of offset shift

    go : (old : Option Bucket) → OptionFiled shift id old → in_bucket old (offset, 0) ≡ false
    go none f = refl
    go (some (single other)) f = elim (key_discrete other (offset, 0)) [
      | yes p ↦ absurd (omega (arith, ap (λ (k : Key). k.1) p))
      | no p ↦ if_neg (key_discrete other (offset, 0)) p _ _
    ]
    go (some (many [])) f = absurd f
    go (some (many (x ∷ []))) f = absurd f
    go (some (many (x ∷ y ∷ keys))) f =
        ground (arith, AllFiled-get shift id offset (x ∷ y ∷ keys) f.0)

-- `discard` takes out its key, whether or not it is there, and no other.
pub contains-discard :
    (key j : Key) (groups : Groups)
    → IsFiled groups
    → contains (discard key groups) j ≡ ite (key_discrete key j) false (contains groups j)
unfolding discard contains Dict.get
contains-discard (offset, zero) j groups v = elim (key_discrete (offset, zero) j) [
  | yes p ↦
      rw (if_pos (key_discrete (offset, zero) j) p, ← p)
        (unfold contains in not_empty_range offset groups v)
  | no p ↦ rw (if_neg (key_discrete (offset, zero) j) p)
]
contains-discard (offset, suc n) j groups v =
    elim (Option-cases (Dict.get ℕ_discrete shift groups)) [
      | inl e ↦
          rw (e, discard)
            (elim (key_discrete key j) [
              | yes p ↦ rw (if_pos (key_discrete key j) p) (ground (arith, e, ap shift_of p))
              | no p ↦ rw (if_neg (key_discrete key j) p)
            ])
      | inr (buckets, e) ↦
          let there : buckets_at shift groups ≡ buckets = ground (arith, e) in
          let (filed, distinct) = rw there at (buckets_at-filed shift groups v.filed) in
          let f = BucketsFiled-get shift id buckets filed in
          elim (Option-cases (without_key (Dict.get ℕ_discrete id buckets) id key buckets)) [
            | inl q ↦
                rw (e, discard)
                  (rw (q, discard)
                    (ground (
                      arith,
                      there,
                      without_key_absent shift id (Dict.get ℕ_discrete id buckets) key buckets f q,
                    )))
            | inr (left, q) ↦
                rw (e, discard)
                  (rw (q, discard)
                    (ground (
                      arith,
                      there,
                      buckets_at-write_group (shift_of j) shift left groups v,
                      without_key_in shift id (bucket_of j.0 (shift_of j))
                          (Dict.get ℕ_discrete id buckets) key j buckets left distinct f refl q,
                    )))
          ]
    ]
  where
    key : Key
    key = (offset, suc n)

    shift : ℕ
    shift = shift_of key

    id : ℕ
    id = bucket_of offset shift
