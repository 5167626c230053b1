-- ===== src/RangeIndex/Filing.antt =====
-- The invariant of `RangeIndex`: every key is filed under its own width and place, no dictionary
-- has a key twice, and no group or bucket is empty.
use opencodecs.Common.{ℕ, zero, suc, ◌≡◌, refl, arith, [], ◌∷◌}
use opencodecs.Common.{ℕ_discrete, length, ◌≤◌, Option-cases, inl, inr}
use opencodecs.Common.Dict
use mathlib.Core.Logic.{if_pos, if_neg}
use opencodecs.RangeIndex.{Key, Bucket, Buckets, Groups, shift_of}
use opencodecs.RangeIndex.{bucket_of, buckets_at, with_key, add, without_key, write_group}
use opencodecs.RangeIndex.{discard}
use opencodecs.RangeIndex.Filed.{
  BucketFiled, BucketsFiled, GroupFiled, AllGroups, IsFiled, buckets_at-filed, BucketsFiled-get,
  BucketsFiled-put, with_key-filed, without_key-filed,
}

GroupFiled-put :
    (shift id : ℕ) (bucket : Bucket) (buckets : Buckets)
    → BucketFiled shift id bucket
    → BucketsFiled shift buckets
    → Dict.Distinct ℕ_discrete buckets
    → GroupFiled shift (Dict.put ℕ_discrete id bucket buckets)
GroupFiled-put shift id bucket buckets h hs d =
    go (Dict.put ℕ_discrete id bucket buckets) (shape buckets)
      (BucketsFiled-put shift id bucket buckets h hs)
      (Dict.put-Distinct ℕ_discrete id bucket buckets d)
  where
    shape : (buckets : Buckets) → 1 ≤ length (Dict.put ℕ_discrete id bucket buckets)
    shape [] = unfold Dict.put in omega arith
    shape (b ∷ bs) = unfold Dict.put in ground arith

    go :
        (l : Buckets)
        → 1 ≤ length l
        → BucketsFiled shift l
        → Dict.Distinct ℕ_discrete l
        → GroupFiled shift l
    go [] n a d = absurd (omega arith)
    go (b ∷ l) n a d = (a, d)

AllGroups-put :
    (shift : ℕ) (buckets : Buckets) (groups : Groups)
    → GroupFiled shift buckets
    → AllGroups groups
    → AllGroups (Dict.put ℕ_discrete shift buckets groups)
unfolding Dict.put
AllGroups-put shift buckets [] h hs = (h, tt)
AllGroups-put shift buckets ((s, b) ∷ groups) h hs = elim (ℕ_discrete s shift) [
  | yes p ↦ rw (if_pos (ℕ_discrete s shift) p) (rw p h, hs.1)
  | no p ↦ rw (if_neg (ℕ_discrete s shift) p) (hs.0, AllGroups-put shift buckets groups h hs.1)
]

AllGroups-drop_key :
    (shift : ℕ) (groups : Groups)
    → AllGroups groups
    → AllGroups (Dict.drop_key ℕ_discrete shift groups)
unfolding Dict.drop_key
AllGroups-drop_key shift [] h = h
AllGroups-drop_key shift ((s, b) ∷ groups) h = elim (ℕ_discrete s shift) [
  | yes p ↦ rw (if_pos (ℕ_discrete s shift) p) (h.1)
  | no p ↦ rw (if_neg (ℕ_discrete s shift) p) (h.0, AllGroups-drop_key shift groups h.1)
]

write_group-IsFiled :
    (shift : ℕ) (buckets : Buckets) (groups : Groups)
    → BucketsFiled shift buckets
    → Dict.Distinct ℕ_discrete buckets
    → IsFiled groups
    → IsFiled (write_group shift buckets groups)
unfolding write_group
write_group-IsFiled shift [] groups h d v = record {
  filed = AllGroups-drop_key shift groups v.filed;
  distinct = Dict.drop_key-Distinct ℕ_discrete shift groups v.distinct;
}
write_group-IsFiled shift (b ∷ buckets) groups h d v = record {
  filed = AllGroups-put shift (b ∷ buckets) groups (h, d) v.filed;
  distinct = Dict.put-Distinct ℕ_discrete shift (b ∷ buckets) groups v.distinct;
}

-- `add` keeps the invariant.
pub add-IsFiled : (key : Key) (groups : Groups) → IsFiled groups → IsFiled (add key groups)
unfolding add
add-IsFiled (offset, zero) groups v = v
add-IsFiled (offset, suc size) groups v =
    let shift = shift_of (offset, suc size) in
    let id = bucket_of offset shift in
    let (filed, distinct) = buckets_at-filed shift groups v.filed in
    let old = Dict.get ℕ_discrete id (buckets_at shift groups) in
    record {
      filed =
          AllGroups-put shift _ groups
            (GroupFiled-put shift id (with_key old (offset, suc size)) (buckets_at shift groups)
              (with_key-filed shift id (offset, suc size) old (omega arith, refl, refl)
                (BucketsFiled-get shift id (buckets_at shift groups) filed))
              filed distinct)
            v.filed;
      distinct = Dict.put-Distinct ℕ_discrete shift _ groups v.distinct;
    }

-- `discard` keeps the invariant: it leaves no empty group or bucket behind.
pub discard-IsFiled : (key : Key) (groups : Groups) → IsFiled groups → IsFiled (discard key groups)
discard-IsFiled (offset, zero) groups v = unfold discard in v
discard-IsFiled (offset, suc size) groups v =
    elim (Option-cases (Dict.get ℕ_discrete shift groups)) [
      | inl e ↦ unfold discard in rw (e, discard) v
      | inr (buckets, e) ↦
          let there : (buckets_at shift groups) ≡ buckets = ground (arith, e) in
          let (filed, distinct) = rw there at (buckets_at-filed shift groups v.filed) in
          elim (Option-cases
            (without_key (Dict.get ℕ_discrete id buckets) id (offset, suc size) buckets)) [
              | inl f ↦ unfold discard in rw (e, discard) (rw (f, discard) v)
              | inr (left, f) ↦
                  let (l, d) =
                    without_key-filed shift id (offset, suc size) buckets left filed distinct f in
                  unfold discard in
                  rw (e, discard) (rw (f, discard) (write_group-IsFiled shift left groups l d v))
            ]
    ]
  where
    shift : ℕ
    shift = shift_of (offset, suc size)

    id : ℕ
    id = bucket_of offset shift
