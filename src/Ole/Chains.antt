-- ===== src/Ole/Chains.antt =====
-- src/opencodecs/_ole2.py, `_read_chain`: the chains of the file allocation table.
use opencodecs.Common.{ℕ, zero, suc, ◌-◌, ◌<◌, ◌≤◌, List, [], ◌∷◌, false, ◌≡◌, ◌≢◌, inl, inr}
use opencodecs.Common.{
  some, ◌==◌, ==_iff, if◌then◌else◌, length, get_elem?, arith, sym, ◌∙◌, ap, refl, Bool-cases,
}
use opencodecs.Ole.{end_of_chain, member}

-- From a sector with `n` bytes missing, the table leads through the sectors to `next`, where `left`
-- bytes are missing: each sector is needed, and the table names the sector after it.
pub data Leads (fat : List ℕ) (size : ℕ) : ℕ → ℕ → List ℕ → ℕ → ℕ → Type 0 where
  here : (n sect : ℕ) → Leads fat size n sect [] n sect
  there :
      (n sect t : ℕ) (l : List ℕ) (left next : ℕ)
      → 0 < n
      → sect ≢ end_of_chain
      → get_elem? fat sect ≡ some t
      → Leads fat size (n - size) t l left next
      → Leads fat size n sect (sect ∷ l) left next

-- The sectors stand in neither list twice, nor in both.
pub data Fresh : List ℕ → List ℕ → Type 0 where
  done : (seen : List ℕ) → Fresh seen []
  next :
      (seen : List ℕ) (s : ℕ) (l : List ℕ)
      → member s seen ≡ false
      → Fresh (s ∷ seen) l
      → Fresh seen (s ∷ l)

-- Places of a table of `n` entries, none twice.
pub data IsPlaces (n : ℕ) : List ℕ → Type 0 where
  empty : IsPlaces n []
  also : (s : ℕ) (l : List ℕ) → s < n → member s l ≡ false → IsPlaces n l → IsPlaces n (s ∷ l)

without : ℕ → List ℕ → List ℕ
without n [] = []
without n (x ∷ l) = if x == n then l else x ∷ without n l

length-without : (n : ℕ) (l : List ℕ) → length l ≤ suc (length (without n l))
unfolding without
length-without n [] = omega arith
length-without n (x ∷ l) = let rest = length-without n l in ground arith

member-without : (s n : ℕ) (l : List ℕ) → member s l ≡ false → member s (without n l) ≡ false
unfolding member without
member-without s n [] h = refl
member-without s n (x ∷ l) h = let rest = member-without s n l in ground arith

-- Without the last place and with no repetition, the places are those of a shorter table.
all-below : (n : ℕ) (l : List ℕ) → member n l ≡ false → IsPlaces (suc n) l → IsPlaces n l
unfolding member
all-below n [] h p = empty
all-below n (s ∷ l) h (also _ _ lt new p) =
    also s l (ground arith) new (all-below n l (ground arith) p)

without-IsPlaces : (n : ℕ) (l : List ℕ) → IsPlaces (suc n) l → IsPlaces n (without n l)
unfolding without member
without-IsPlaces n [] p = empty
without-IsPlaces n (s ∷ l) (also _ _ lt new p) = elim (Bool-cases (s == n)) [
  | inl z ↦
      let at : s ≡ n = (==_iff s n).0 z in
      rw z (all-below n l (sym (ap (λ t. member t l) at) ∙ new) p)
  | inr z ↦
      let lower : s < n = ground arith in
      rw z (also s (without n l) lower (member-without s n l new) (without-IsPlaces n l p))
]

-- No more places than entries.
pub length-IsPlaces : (n : ℕ) (l : List ℕ) → IsPlaces n l → length l ≤ n
length-IsPlaces n [] p = omega arith
length-IsPlaces zero (s ∷ l) (also _ _ lt new p) = absurd (omega arith)
length-IsPlaces (suc n) (s ∷ l) p = omega (
  arith,
  length-without n (s ∷ l),
  length-IsPlaces n (without n (s ∷ l)) (without-IsPlaces n (s ∷ l) p),
)
