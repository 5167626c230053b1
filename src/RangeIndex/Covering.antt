-- ===== src/RangeIndex/Covering.antt =====
-- `covering` answers with a stored range that holds the request, whenever one is stored.
use opencodecs.Common.{ℕ, zero, suc, ◌+◌, ◌-◌, ◌/◌, ◌^◌, ◌≤◌, ◌≡◌, ◌≢◌, arith, List, [], ◌∷◌}
use opencodecs.Common.{true, Option, none, some, sym, ◌∙◌, ltb}
use opencodecs.Common.{ℕ_discrete, Bool-cases, inl, inr}
use opencodecs.Common.Dict
use opencodecs.Common.Bits.{lt-pow-bit_length, pow_two_pos, block_neighbor}
use mathlib.Core.Logic.{if_neg}
use opencodecs.RangeIndex.{Key, key_discrete, Bucket, single, many, Buckets, Groups, shift_of}
use opencodecs.RangeIndex.{bucket_of, buckets_at, covers, first_covering, candidates, bucket_before}
use opencodecs.RangeIndex.{in_group, covering}
use opencodecs.RangeIndex.Filed.{IsFiled, BucketsFiled, OptionFiled, AllFiled, KeyFiled}
use opencodecs.RangeIndex.Filed.{BucketsFiled-get, AllGroups, GroupFiled}
use opencodecs.RangeIndex.Membership.{contains, in_bucket, is_some}
use opencodecs.RangeIndex.Search.{
  occurs-candidates, first_covering_sound, first_covering_complete, or_else-some, or_else_found,
}

AllFiled-get :
    (shift id : ℕ) (k : Key) (keys : List (Key × Unit {0}))
    → AllFiled shift id keys
    → is_some (Dict.get key_discrete k keys) ≡ true
    → KeyFiled shift id k
unfolding Dict.get
AllFiled-get shift id k [] h e = absurd (cc)
AllFiled-get shift id k ((key, v) ∷ keys) h e = elim (key_discrete key k) [
  | yes p ↦ rw (← p) (h.0)
  | no p ↦ AllFiled-get shift id k keys h.1 (rw (if_neg (key_discrete key k) p) at e)
]

-- A key in a filed bucket belongs there.
in_bucket-filed :
    (shift id : ℕ) (b : Option Bucket) (k : Key)
    → OptionFiled shift id b
    → in_bucket b k ≡ true
    → KeyFiled shift id k
in_bucket-filed shift id none k f e = absurd (cc)
in_bucket-filed shift id (some (single key)) k f e = elim (key_discrete key k) [
  | yes p ↦ rw (← p) f
  | no p ↦ absurd (ground arith)
]
in_bucket-filed shift id (some (many [])) k f e = absurd f
in_bucket-filed shift id (some (many (x ∷ []))) k f e = absurd f
in_bucket-filed shift id (some (many (x ∷ y ∷ keys))) k f e =
    AllFiled-get shift id k (x ∷ y ∷ keys) f.0 e

-- What the search of one bucket finds is stored there and covers the request.
bucket_sound :
    (shift id : ℕ) (buckets : Buckets) (o l : ℕ) (k : Key)
    → BucketsFiled shift buckets
    → first_covering (candidates (Dict.get ℕ_discrete id buckets)) o l ≡ some k
    → KeyFiled shift id k
      × (in_bucket (Dict.get ℕ_discrete (bucket_of k.0 shift) buckets) k ≡ true)
      × (covers k o l ≡ true)
bucket_sound shift id buckets o l k f e =
    let (occ, cov) = first_covering_sound (candidates (Dict.get ℕ_discrete id buckets)) o l k e in
    let there : in_bucket (Dict.get ℕ_discrete id buckets) k ≡ true =
      sym (occurs-candidates k (Dict.get ℕ_discrete id buckets)) ∙ occ in
    let filed =
      in_bucket-filed shift id (Dict.get ℕ_discrete id buckets) k
        (BucketsFiled-get shift id buckets f) there in
    (filed, rw (filed.2) there, cov)

in_group_sound :
    (shift : ℕ) (buckets : Buckets) (o l : ℕ) (k : Key)
    → BucketsFiled shift buckets
    → in_group buckets shift o l ≡ some k
    → (shift_of k ≡ shift)
      × (in_bucket (Dict.get ℕ_discrete (bucket_of k.0 shift) buckets) k ≡ true)
      × (covers k o l ≡ true)
unfolding in_group
in_group_sound shift buckets o l k f e = elim (or_else-some _ _ k e) [
  | inl p ↦
      let (kf, there, cov) = bucket_sound shift (o / 2 ^ shift) buckets o l k f p in
      (kf.1, there, cov)
  | inr p ↦ before (o / 2 ^ shift) p
]
  where
    before :
        (id : ℕ)
        → first_covering (candidates (bucket_before id buckets)) o l ≡ some k
        → (shift_of k ≡ shift)
          × (in_bucket (Dict.get ℕ_discrete (bucket_of k.0 shift) buckets) k ≡ true)
          × (covers k o l ≡ true)
    before zero p = absurd (unfold first_covering in cc)
    before (suc id) p =
        let (kf, there, cov) = bucket_sound shift id buckets o l k f p in (kf.1, there, cov)

in_group_complete :
    (shift : ℕ) (buckets : Buckets) (o l : ℕ) (k : Key)
    → k.1 ≤ 2 ^ shift
    → in_bucket (Dict.get ℕ_discrete (bucket_of k.0 shift) buckets) k ≡ true
    → covers k o l ≡ true
    → (k' : Key) × (in_group buckets shift o l ≡ some k')
unfolding in_group
in_group_complete shift buckets o l k small there cov =
    or_else_found _ _
      (elim (block_neighbor k.0 o (2 ^ shift) (pow_two_pos shift) (ground arith) (ground arith)) [
        | inl same ↦ inl (found (Dict.get ℕ_discrete (o / 2 ^ shift) buckets) (rw same at there))
        | inr next ↦ inr (found (bucket_before (o / 2 ^ shift) buckets) (rw (← next) there))
      ])
  where
    found :
        (b : Option Bucket)
        → in_bucket b k ≡ true
        → (k' : Key) × (first_covering (candidates b) o l ≡ some k')
    found b e = first_covering_complete (candidates b) o l k (occurs-candidates k b ∙ e) cov

GroupFiled-buckets :
    (shift : ℕ) (buckets : Buckets) → GroupFiled shift buckets → BucketsFiled shift buckets
GroupFiled-buckets shift [] f = absurd f
GroupFiled-buckets shift (b ∷ buckets) f = f.0

buckets_at-head :
    (shift : ℕ) (buckets : Buckets) (groups : Groups)
    → buckets_at shift ((shift, buckets) ∷ groups) ≡ buckets
unfolding Dict.get
buckets_at-head shift buckets groups = ground arith

covering_filed :
    (groups : Groups) (o l : ℕ) (k : Key)
    → AllGroups groups
    → Dict.Distinct ℕ_discrete groups
    → covering groups o l ≡ some k
    → (contains groups k ≡ true) × (covers k o l ≡ true)
unfolding covering contains Dict.get
covering_filed [] o l k f d e = absurd (cc)
covering_filed ((shift, buckets) ∷ groups) o l k f d e = elim (Bool-cases (ltb (2 ^ shift) l)) [
  | inl wide ↦ behind (covering_filed groups o l k f.1 d.1 (rw wide at e))
  | inr fits ↦ elim (or_else-some _ _ k (rw fits at e)) [
    | inl p ↦
        let (s, there, cov) =
          in_group_sound shift buckets o l k (GroupFiled-buckets shift buckets f.0) p in
        (rw (s, buckets_at-head shift buckets groups) there, cov)
    | inr p ↦ behind (covering_filed groups o l k f.1 d.1 p)
  ]
]
  where
    behind :
        (contains groups k ≡ true) × (covers k o l ≡ true)
        → (contains ((shift, buckets) ∷ groups) k ≡ true) × (covers k o l ≡ true)
    behind (there, cov) = (ground (arith, there, d.0), cov)

-- Whatever `covering` returns is a key of the index, and its range holds the whole request.
pub covering_sound :
    (groups : Groups) (offset length : ℕ) (key : Key)
    → IsFiled groups
    → covering groups offset length ≡ some key
    → (contains groups key ≡ true) × (key.0 ≤ offset) × (offset + length ≤ key.0 + key.1)
covering_sound groups offset length key v e =
    let (there, cov) = covering_filed groups offset length key v.filed v.distinct e in
    (there, ground (arith, cov), ground (arith, cov))

-- If some key of the index holds the whole request, `covering` returns a key: looking only into
-- two buckets of each width misses nothing.
pub covering_complete :
    (groups : Groups) (offset length : ℕ) (key : Key)
    → contains groups key ≡ true
    → key.0 ≤ offset
    → offset + length ≤ key.0 + key.1
    → (found : Key) × (covering groups offset length ≡ some found)
unfolding covering contains Dict.get
covering_complete [] offset length key e lo hi = absurd (cc)
covering_complete ((shift, buckets) ∷ groups) offset length key e lo hi =
    elim (Bool-cases (ltb (2 ^ shift) length)) [
      | inl wide ↦ rw wide (elim (ℕ_discrete shift (shift_of key)) [
        | yes same ↦ absurd (ground (arith, small same))
        | no other ↦ covering_complete groups offset length key (later other) lo hi
      ])
      | inr fits ↦ rw fits (
          or_else_found _ _ (elim (ℕ_discrete shift (shift_of key)) [
            | yes same ↦
                inl (in_group_complete shift buckets offset length key (small same) (here same) cov)
            | no other ↦ inr (covering_complete groups offset length key (later other) lo hi)
          ]))
    ]
  where
    cov : covers key offset length ≡ true
    cov = ground arith

    small : shift ≡ shift_of key → key.1 ≤ 2 ^ shift
    small same = rw same (omega (arith, lt-pow-bit_length (key.1 - 1)))

    here :
        shift ≡ shift_of key
        → in_bucket (Dict.get ℕ_discrete (bucket_of key.0 shift) buckets) key ≡ true
    here same = rw (← same, buckets_at-head shift buckets groups) at e

    behind : shift ≢ shift_of key → contains ((shift, buckets) ∷ groups) key ≡ contains groups key
    behind other = ground (arith, other)

    later : shift ≢ shift_of key → contains groups key ≡ true
    later other = rw (← behind other) e
