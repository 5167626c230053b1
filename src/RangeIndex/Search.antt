-- ===== src/RangeIndex/Search.antt =====
-- `RangeIndex.covering`: the search in one bucket.
use opencodecs.Common.{ℕ, ◌≡◌, refl, arith, List, [], ◌∷◌, ◌++◌}
use opencodecs.Common.{Bool, true, false, ◌||◌, Option, none, some, sym, ◌∙◌, eq_of_some, map, ◌⊎◌}
use opencodecs.Common.{Bool-cases, inl, inr}
use opencodecs.Common.Dict
use mathlib.Core.List.{reverse, reverse-cons}
use mathlib.Core.Logic.{ite, if_pos, if_neg}
use opencodecs.RangeIndex.{Key, key_discrete, Bucket, single, many}
use opencodecs.RangeIndex.{covers, first_covering, candidates}
use opencodecs.RangeIndex.{or_else}
use opencodecs.RangeIndex.Membership.{in_bucket, is_some}

pub occurs : Key → List Key → Bool
occurs k [] = false
occurs k (key ∷ keys) = ite (key_discrete key k) true (occurs k keys)

occurs-append : (k : Key) (xs ys : List Key) → occurs k (xs ++ ys) ≡ (occurs k xs || occurs k ys)
unfolding occurs
occurs-append k [] ys = refl
occurs-append k (x ∷ xs) ys = ground (arith, occurs-append k xs ys)

occurs-reverse : (k : Key) (xs : List Key) → occurs k (reverse xs) ≡ occurs k xs
unfolding occurs
occurs-reverse k [] = refl
occurs-reverse k (x ∷ xs) =
    rw (reverse-cons, occurs-append k (reverse xs) (x ∷ [])) (ground (arith, occurs-reverse k xs))

occurs-keys :
    (k : Key) (d : List (Key × Unit {0}))
    → occurs k (map (λ e. e.0) d) ≡ is_some (Dict.get key_discrete k d)
unfolding occurs Dict.get
occurs-keys k [] = refl
occurs-keys k ((key, v) ∷ d) = ground (arith, occurs-keys k d)

-- The loop over a bucket visits exactly its keys.
pub occurs-candidates : (k : Key) (b : Option Bucket) → occurs k (candidates b) ≡ in_bucket b k
unfolding occurs
occurs-candidates k none = refl
occurs-candidates k (some (single key)) = refl
occurs-candidates k (some (many d)) = occurs-reverse k (map (λ e. e.0) d) ∙ occurs-keys k d

pub first_covering_sound :
    (keys : List Key) (o l : ℕ) (k : Key)
    → first_covering keys o l ≡ some k
    → (occurs k keys ≡ true) × (covers k o l ≡ true)
unfolding first_covering occurs
first_covering_sound [] o l k e = absurd (cc)
first_covering_sound (key ∷ keys) o l k e = elim (Bool-cases (covers key o l)) [
  | inl c ↦
      let same : key ≡ k = eq_of_some (rw c at e) in
      (if_pos (key_discrete key k) same _ _, rw (← same) c)
  | inr c ↦ ground (arith, first_covering_sound keys o l k)
]

pub first_covering_complete :
    (keys : List Key) (o l : ℕ) (k : Key)
    → occurs k keys ≡ true
    → covers k o l ≡ true
    → (k' : Key) × (first_covering keys o l ≡ some k')
unfolding first_covering occurs
first_covering_complete [] o l k e c = absurd (cc)
first_covering_complete (key ∷ keys) o l k e c = elim (Bool-cases (covers key o l)) [
  | inl hit ↦ (key, rw hit)
  | inr skip ↦ elim (key_discrete key k) [
    | yes same ↦ absurd (false_true (sym skip ∙ rw same c))
    | no other ↦
        rw skip (first_covering_complete keys o l k (rw (if_neg (key_discrete key k) other) at e) c)
  ]
]
  where
    false_true : false ≡ true → ⊥
    false_true p = cc

pub or_else-some : (x y : Option Key) (k : Key) → or_else x y ≡ some k → (x ≡ some k) ⊎ (y ≡ some k)
or_else-some none y k e = inr e
or_else-some (some x) y k e = inl e

pub or_else_found :
    (x y : Option Key)
    → ((k : Key) × (x ≡ some k)) ⊎ ((k : Key) × (y ≡ some k))
    → (k : Key) × (or_else x y ≡ some k)
or_else_found (some x) y h = (x, refl)
or_else_found none y (inl (k, e)) = absurd (cc)
or_else_found none y (inr h) = h
