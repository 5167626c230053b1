-- ===== src/Ranges/Placing.antt =====
-- core/io.py, `coalesce_ranges`: where one range goes, and that the fetches only grow.
use opencodecs.Common.{
  ℕ, zero, suc, ◌-◌, ◌≤◌, ◌<◌, List, [], ◌∷◌, ◌++◌, Option, none, some, ◌≡◌, inl, inr,
}
use opencodecs.Common.{refl, arith, length, get_elem?, set, Bool-cases, sym}
use opencodecs.Common.{get_elem?-set_self, get_elem?-set_ne, ap, ℕ_discrete, ◌∙◌}
use opencodecs.Common.{ltb, ltb→lt, some_pair}
use mathlib.Core.Path.{subst}
use opencodecs.Ranges.{Range, Fetch, joins, extend, place}
use opencodecs.Ranges.{new_fetch}

-- The fetches of `after` are those of `before`, at the same places and perhaps longer, and more.
unfoldable pub Grows : List Range → List Range → Type 0
Grows before after =
    (m start n : ℕ)
    → get_elem? before m ≡ some (start, n)
    → (k : ℕ) × (get_elem? after m ≡ some (start, k)) × (n ≤ k)

-- The current fetch is listed under its index, and starts at or before `lo`.
abbrev IsCurrent : Fetch → ℕ → List Range → Type 0
IsCurrent f lo merged =
    (get_elem? merged f.index ≡ some (f.start, f.stop - f.start))
    × (f.start ≤ lo)
    × (f.start ≤ f.stop)

abbrev pub IsValid : Option Fetch → ℕ → List Range → Type 0
IsValid none lo merged = Unit
IsValid (some f) lo merged = IsCurrent f lo merged

Grows-refl : (merged : List Range) → Grows merged merged
unfolding Grows
Grows-refl merged m start n e = (n, e, omega arith)

pub IsValid-later :
    (current : Option Fetch) (lo hi : ℕ) (merged : List Range)
    → lo ≤ hi
    → IsValid current lo merged
    → IsValid current hi merged
IsValid-later none lo hi merged h v = tt
IsValid-later (some f) lo hi merged h v = (v.0, omega (arith, v.1), v.2)

get_elem?-append :
    {A : Type 0} (xs : List A) (m : ℕ) (a : A) (ys : List A)
    → get_elem? xs m ≡ some a
    → get_elem? (xs ++ ys) m ≡ some a
get_elem?-append [] m a ys h = ground arith
get_elem?-append (x ∷ xs) zero a ys h = h
get_elem?-append (x ∷ xs) (suc m) a ys h = get_elem?-append xs m a ys h

get_elem?-append_length :
    {A : Type 0} (xs : List A) (a : A) → get_elem? (xs ++ (a ∷ [])) (length xs) ≡ some a
get_elem?-append_length [] a = refl
get_elem?-append_length (x ∷ xs) a = get_elem?-append_length xs a

pub get_elem?-bound :
    {A : Type 0} (xs : List A) (m : ℕ) (a : A) → get_elem? xs m ≡ some a → m < length xs
get_elem?-bound [] m a h = ground arith
get_elem?-bound (x ∷ xs) zero a h = omega arith
get_elem?-bound (x ∷ xs) (suc m) a h = omega (arith, get_elem?-bound xs m a h)

-- What `place` gives: a current fetch that reaches from `off` or before to `end` or behind.
abbrev pub Placed : List Range → ℕ → ℕ → Fetch × List Range → Type 0
Placed merged off end p = Grows merged p.1 × IsCurrent p.0 off p.1 × (end ≤ p.0.stop)

new_fetch-Placed :
    (merged : List Range) (off end : ℕ)
    → off ≤ end
    → Placed merged off end (new_fetch merged off end)
unfolding Grows
new_fetch-Placed merged off end h = (
  λ m start n e. (n, get_elem?-append merged m (start, n) ((off, end - off) ∷ []) e, omega arith),
  (get_elem?-append_length merged (off, end - off), omega arith, h),
  omega arith,
)

set-Grows :
    (merged : List Range) (m start n k : ℕ)
    → get_elem? merged m ≡ some (start, n)
    → n ≤ k
    → Grows merged (set merged m (start, k))
unfolding Grows
set-Grows merged m start n k e h j s l g = elim (ℕ_discrete m j) [
  | yes p ↦
      let same : some (start, n) ≡ some (s, l) = sym e ∙ ap (get_elem? merged) p ∙ g in
      (
        k,
        subst (λ i. get_elem? (set merged m (start, k)) i ≡ some (s, k)) p
            (get_elem?-set_self merged m (start, k) (get_elem?-bound merged m (start, n) e)
              ∙ ap (λ z. some (z, k)) (some_pair same).0),
        omega (arith, (some_pair same).1),
      )
  | no p ↦ (l, get_elem?-set_ne merged (start, k) p ∙ g, omega arith)
]

extend-Placed :
    (f : Fetch) (merged : List Range) (off end : ℕ)
    → IsCurrent f off merged
    → Placed merged off end (extend f merged end)
unfolding extend
extend-Placed f merged off end h = elim (Bool-cases (ltb f.stop end)) [
  | inl e ↦ rw e (
    set-Grows merged f.index f.start (f.stop - f.start) (end - f.start) h.0
        (omega (arith, ltb→lt f.stop end e)),
    (
      get_elem?-set_self merged f.index (f.start, end - f.start)
          (get_elem?-bound merged f.index (f.start, f.stop - f.start) h.0),
      h.1,
      omega (arith, ltb→lt f.stop end e),
    ),
    omega arith,
  )
  | inr e ↦ rw e (Grows-refl merged, h, ground arith)
]

pub place-Placed :
    (gap limit : ℕ) (current : Option Fetch) (merged : List Range) (off end : ℕ)
    → IsValid current off merged
    → off ≤ end
    → Placed merged off end (place gap limit current merged off end)
unfolding place
place-Placed gap limit none merged off end h l = new_fetch-Placed merged off end l
place-Placed gap limit (some f) merged off end h l = elim (Bool-cases (joins gap limit f off end)) [
  | inl e ↦ rw e (extend-Placed f merged off end h)
  | inr e ↦ rw e (new_fetch-Placed merged off end l)
]
