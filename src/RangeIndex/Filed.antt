-- ===== src/RangeIndex/Filed.antt =====
-- core/_range_index.py: where the keys of a `RangeIndex` stand, that is the invariant of `Filing`, and
-- what the operations do to one group.
use opencodecs.Common.{ℕ, ◌<◌, ◌≡◌, refl, arith, List, [], ◌∷◌}
use opencodecs.Common.{Option, none, some}
use opencodecs.Common.{ℕ_discrete, length, sym, ◌≤◌, eq_of_some}
use opencodecs.Common.Dict
use mathlib.Core.Logic.{if_pos, if_neg}
use mathlib.Core.Path.{subst}
use opencodecs.RangeIndex.{Key, key_discrete, Bucket, single, many, Buckets, Groups, shift_of}
use opencodecs.RangeIndex.{bucket_of, buckets_at, with_key, collapse, without_key}

abbrev pub KeyFiled : ℕ → ℕ → Key → Type 0
KeyFiled shift id key = (0 < key.1) × (shift_of key ≡ shift) × (bucket_of key.0 shift ≡ id)

abbrev pub AllFiled : ℕ → ℕ → List (Key × Unit {0}) → Type 0
AllFiled shift id [] = Unit
AllFiled shift id ((key, v) ∷ keys) = KeyFiled shift id key × AllFiled shift id keys

-- A bucket that is a dictionary has two keys at least.
abbrev pub BucketFiled : ℕ → ℕ → Bucket → Type 0
BucketFiled shift id (single key) = KeyFiled shift id key
BucketFiled shift id (many []) = ⊥
BucketFiled shift id (many (e ∷ [])) = ⊥
BucketFiled shift id (many (e ∷ f ∷ keys)) =
    AllFiled shift id (e ∷ f ∷ keys) × Dict.Distinct key_discrete (e ∷ f ∷ keys)

abbrev pub BucketsFiled : ℕ → Buckets → Type 0
BucketsFiled shift [] = Unit
BucketsFiled shift ((id, bucket) ∷ buckets) =
    BucketFiled shift id bucket × BucketsFiled shift buckets

abbrev pub GroupFiled : ℕ → Buckets → Type 0
GroupFiled shift [] = ⊥
GroupFiled shift (b ∷ buckets) =
    BucketsFiled shift (b ∷ buckets) × Dict.Distinct ℕ_discrete (b ∷ buckets)

abbrev pub AllGroups : Groups → Type 0
AllGroups [] = Unit
AllGroups ((shift, buckets) ∷ groups) = GroupFiled shift buckets × AllGroups groups

pub record IsFiled (groups : Groups) : Type 0 where
  pub filed : AllGroups groups
  pub distinct : Dict.Distinct ℕ_discrete groups

-- A group as `setdefault` gives it may be empty; its buckets are filed all the same.
pub buckets_at-filed :
    (shift : ℕ) (groups : Groups)
    → AllGroups groups
    → BucketsFiled shift (buckets_at shift groups)
      × Dict.Distinct ℕ_discrete (buckets_at shift groups)
unfolding Dict.get
buckets_at-filed shift [] h = (tt, tt)
buckets_at-filed shift ((s, []) ∷ groups) h = absurd (h.0)
buckets_at-filed shift ((s, b ∷ buckets) ∷ groups) h =
    ground (arith, buckets_at-filed shift groups h.1)

module _ (shift : ℕ) where
  abbrev pub OptionFiled : ℕ → Option Bucket → Type 0
  OptionFiled id none = Unit
  OptionFiled id (some bucket) = BucketFiled shift id bucket

  pub BucketsFiled-get :
      (id : ℕ) (buckets : Buckets)
      → BucketsFiled shift buckets
      → OptionFiled id (Dict.get ℕ_discrete id buckets)
  unfolding Dict.get
  BucketsFiled-get id [] h = tt
  BucketsFiled-get id ((i, b) ∷ buckets) h = elim (ℕ_discrete i id) [
    | yes p ↦ rw (if_pos (ℕ_discrete i id) p) (rw (← p) (h.0))
    | no p ↦ rw (if_neg (ℕ_discrete i id) p) (BucketsFiled-get id buckets h.1)
  ]

  pub BucketsFiled-put :
      (id : ℕ) (bucket : Bucket) (buckets : Buckets)
      → BucketFiled shift id bucket
      → BucketsFiled shift buckets
      → BucketsFiled shift (Dict.put ℕ_discrete id bucket buckets)
  unfolding Dict.put
  BucketsFiled-put id bucket [] h hs = (h, tt)
  BucketsFiled-put id bucket ((i, b) ∷ buckets) h hs = elim (ℕ_discrete i id) [
    | yes p ↦ rw (if_pos (ℕ_discrete i id) p) (rw p h, hs.1)
    | no p ↦ rw (if_neg (ℕ_discrete i id) p) (hs.0, BucketsFiled-put id bucket buckets h hs.1)
  ]

  BucketsFiled-drop_key :
      (id : ℕ) (buckets : Buckets)
      → BucketsFiled shift buckets
      → BucketsFiled shift (Dict.drop_key ℕ_discrete id buckets)
  unfolding Dict.drop_key
  BucketsFiled-drop_key id [] h = h
  BucketsFiled-drop_key id ((i, b) ∷ buckets) h = elim (ℕ_discrete i id) [
    | yes p ↦ rw (if_pos (ℕ_discrete i id) p) (h.1)
    | no p ↦ rw (if_neg (ℕ_discrete i id) p) (h.0, BucketsFiled-drop_key id buckets h.1)
  ]

  AllFiled-put :
      (id : ℕ) (key : Key) (keys : List (Key × Unit {0}))
      → KeyFiled shift id key
      → AllFiled shift id keys
      → AllFiled shift id (Dict.put key_discrete key tt keys)
  unfolding Dict.put
  AllFiled-put id key [] h hs = (h, tt)
  AllFiled-put id key ((k, v) ∷ keys) h hs = elim (key_discrete k key) [
    | yes p ↦ rw (if_pos (key_discrete k key) p) hs
    | no p ↦ rw (if_neg (key_discrete k key) p) (hs.0, AllFiled-put id key keys h hs.1)
  ]

  AllFiled-drop_key :
      (id : ℕ) (key : Key) (keys : List (Key × Unit {0}))
      → AllFiled shift id keys
      → AllFiled shift id (Dict.drop_key key_discrete key keys)
  unfolding Dict.drop_key
  AllFiled-drop_key id key [] h = h
  AllFiled-drop_key id key ((k, v) ∷ keys) h = elim (key_discrete k key) [
    | yes p ↦ rw (if_pos (key_discrete k key) p) (h.1)
    | no p ↦ rw (if_neg (key_discrete k key) p) (h.0, AllFiled-drop_key id key keys h.1)
  ]

  -- A dictionary of two keys or more stays one.
  put-filed :
      (id : ℕ) (key : Key) (e f : Key × Unit {0}) (keys : List (Key × Unit {0}))
      → KeyFiled shift id key
      → BucketFiled shift id (many (e ∷ f ∷ keys))
      → BucketFiled shift id (many (Dict.put key_discrete key tt (e ∷ f ∷ keys)))
  put-filed id key e f keys h hs =
      longer (Dict.put key_discrete key tt (e ∷ f ∷ keys)) (shape e f keys)
        (AllFiled-put id key (e ∷ f ∷ keys) h hs.0)
        (Dict.put-Distinct key_discrete key tt (e ∷ f ∷ keys) hs.1)
    where
      shape :
          (e f : Key × Unit {0}) (keys : List (Key × Unit {0}))
          → 2 ≤ length (Dict.put key_discrete key tt (e ∷ f ∷ keys))
      shape e f keys = unfold Dict.put in ground arith

      longer :
          (l : List (Key × Unit {0}))
          → 2 ≤ length l
          → AllFiled shift id l
          → Dict.Distinct key_discrete l
          → BucketFiled shift id (many l)
      longer [] n a d = absurd (omega arith)
      longer (e ∷ []) n a d = absurd (omega arith)
      longer (e ∷ f ∷ l) n a d = (a, d)

  pub with_key-filed :
      (id : ℕ) (key : Key) (old : Option Bucket)
      → KeyFiled shift id key
      → OptionFiled id old
      → BucketFiled shift id (with_key old key)
  unfolding with_key Dict.get
  with_key-filed id key none h hs = h
  with_key-filed id key (some (single other)) h hs = elim (key_discrete other key) [
    | yes p ↦ rw (if_pos (key_discrete other key) p) hs
    | no p ↦
        rw (if_neg (key_discrete other key) p)
          ((hs, (h, tt)), (if_neg (key_discrete key other) (λ q. p (sym q)) _ _, (refl, tt)))
  ]
  with_key-filed id key (some (many [])) h hs = absurd hs
  with_key-filed id key (some (many (e ∷ []))) h hs = absurd hs
  with_key-filed id key (some (many (e ∷ f ∷ keys))) h hs = put-filed id key e f keys h hs

  collapse-filed :
      (id : ℕ) (keys : List (Key × Unit {0}))
      → 1 ≤ length keys
      → AllFiled shift id keys
      → Dict.Distinct key_discrete keys
      → BucketFiled shift id (collapse keys)
  unfolding collapse
  collapse-filed id [] n a d = absurd (omega arith)
  collapse-filed id (e ∷ []) n a d = a.0
  collapse-filed id (e ∷ f ∷ keys) n a d = (a, d)

  -- `discard` leaves filed buckets, unless it returns early.
  pub without_key-filed :
      (id : ℕ) (key : Key) (buckets left : Buckets)
      → BucketsFiled shift buckets
      → Dict.Distinct ℕ_discrete buckets
      → without_key (Dict.get ℕ_discrete id buckets) id key buckets ≡ some left
      → BucketsFiled shift left × Dict.Distinct ℕ_discrete left
  without_key-filed id key buckets left h d =
      go (Dict.get ℕ_discrete id buckets) (BucketsFiled-get id buckets h)
    where
      shorter :
          (e f : Key × Unit {0}) (keys : List (Key × Unit {0}))
          → 1 ≤ length (Dict.drop_key key_discrete key (e ∷ f ∷ keys))
      shorter e f keys = unfold Dict.drop_key in ground arith

      go :
          (old : Option Bucket)
          → OptionFiled id old
          → without_key old id key buckets ≡ some left
          → BucketsFiled shift left × Dict.Distinct ℕ_discrete left
      go none hs = unfold without_key in λ e. absurd (cc)
      go (some (single other)) hs =
          unfold without_key in
          elim (key_discrete other key) [
            | yes p ↦ rw (if_pos (key_discrete other key) p) (λ e.
                subst (λ l. BucketsFiled shift l × Dict.Distinct ℕ_discrete l) (eq_of_some e)
                  (
                    BucketsFiled-drop_key id buckets h,
                    Dict.drop_key-Distinct ℕ_discrete id buckets d,
                  ))
            | no p ↦ rw (if_neg (key_discrete other key) p) (λ e. absurd (cc))
          ]
      go (some (many [])) hs = absurd hs
      go (some (many (e ∷ []))) hs = absurd hs
      go (some (many (e ∷ f ∷ keys))) hs =
          unfold without_key in
          λ q.
            subst (λ l. BucketsFiled shift l × Dict.Distinct ℕ_discrete l) (eq_of_some q)
              (
                BucketsFiled-put id _ buckets
                    (collapse-filed id _ (shorter e f keys)
                      (AllFiled-drop_key id key (e ∷ f ∷ keys) hs.0)
                      (Dict.drop_key-Distinct key_discrete key (e ∷ f ∷ keys) hs.1))
                    h,
                Dict.put-Distinct ℕ_discrete id _ buckets d,
              )
