-- ===== src/Ole/Walks.antt =====
-- src/opencodecs/_ole2.py, `_read_chain`: the walk through the table, on every table.
use opencodecs.Common.{
  ℕ, zero, suc, ◌+◌, ◌-◌, ◌<◌, ◌≤◌, List, [], ◌∷◌, true, false, ◌||◌, ◌≡◌, ◌≢◌, ◌⊎◌, inl, inr,
}
use opencodecs.Common.{
  some, ◌==◌, length, get_elem?, take, arith, sym, ◌∙◌, ap, refl, Bool-cases, Option-cases,
  get_elem?-bound, get_elem?-past,
}
use opencodecs.Common.Result.{Result, ok, raise, ◌>>=◌}
use opencodecs.Ole.{
  OleError, fat_cycle, past_fat, end_of_chain, member, walk, read_chain, read_sectors,
}
use opencodecs.Ole.Directory.{sectors_bytes}
use opencodecs.Ole.Runs.{read_sectors-bytes, take-empty}
use opencodecs.Ole.Chains.{
  Leads, here, there, Fresh, done, next, IsPlaces, empty, also, length-IsPlaces,
}

-- What the walk gives: the sectors that hold the bytes, or the whole chain where it ends before; or
-- that the chain comes back to a sector, or that it leaves the table, with bytes still missing.
pub data Walked (fat : List ℕ) (size n sect : ℕ) (seen : List ℕ)
    : Result OleError (List ℕ) → Type 0 where
  found :
      (sectors : List ℕ) (left after : ℕ)
      → Leads fat size n sect sectors left after
      → Fresh seen sectors
      → (left ≡ 0) ⊎ (after ≡ end_of_chain)
      → Walked fat size n sect seen (ok sectors)
  again :
      (sectors : List ℕ) (left after : ℕ)
      → Leads fat size n sect sectors left after
      → Fresh seen sectors
      → 0 < left
      → after ≢ end_of_chain
      → (member after sectors ≡ true) ⊎ (member after seen ≡ true)
      → Walked fat size n sect seen (raise fat_cycle)
  outside :
      (sectors : List ℕ) (left after : ℕ)
      → Leads fat size n sect sectors left after
      → Fresh seen sectors
      → 0 < left
      → after ≢ end_of_chain
      → length fat ≤ after
      → Walked fat size n sect seen (raise past_fat)

member-tail : (x y : ℕ) (l : List ℕ) → member x l ≡ true → member x (y ∷ l) ≡ true
unfolding member
member-tail x y l h = ground arith

pub member-cons :
    (x y : ℕ) (l m : List ℕ)
    → (member x l ≡ true) ⊎ (member x (y ∷ m) ≡ true)
    → (member x (y ∷ l) ≡ true) ⊎ (member x m ≡ true)
unfolding member
member-cons x y l m (inl h) = inl (ground arith)
member-cons x y l m (inr h) = ground arith

-- One more sector in front.
longer :
    (fat : List ℕ) (size n sect t : ℕ) (seen : List ℕ) (r : Result OleError (List ℕ))
    → 0 < n
    → sect ≢ end_of_chain
    → get_elem? fat sect ≡ some t
    → member sect seen ≡ false
    → Walked fat size (n - size) t (sect ∷ seen) r
    → Walked fat size n sect seen (r >>= λ rest. ok (sect ∷ rest))
longer fat size n sect t seen r more inner at new (found sectors left after leads fresh end) =
    found (sect ∷ sectors) left after (there n sect t sectors left after more inner at leads)
      (next seen sect sectors new fresh) end
longer fat size n sect t seen r more inner at new
      (again sectors left after leads fresh missing goes back) =
    again (sect ∷ sectors) left after (there n sect t sectors left after more inner at leads)
      (next seen sect sectors new fresh) missing goes (member-cons after sect sectors seen back)
longer fat size n sect t seen r more inner at new
      (outside sectors left after leads fresh missing goes past) =
    outside (sect ∷ sectors) left after (there n sect t sectors left after more inner at leads)
      (next seen sect sectors new fresh) missing goes past

-- The rounds are those of a table whose places are not all seen, so that they are enough.
pub walk-Walked :
    (fat : List ℕ) (size rounds n sect : ℕ) (seen : List ℕ)
    → rounds + length seen ≡ suc (length fat)
    → IsPlaces (length fat) seen
    → Walked fat size n sect seen (walk fat size rounds n sect seen)
unfolding walk
walk-Walked fat size zero n sect seen enough places =
    absurd (omega (arith, length-IsPlaces (length fat) seen places))
walk-Walked fat size (suc rounds) n sect seen enough places =
    elim (Bool-cases (n == 0 || sect == end_of_chain)) [
      | inl z ↦ rw z (found [] n sect (here n sect) (done seen) (ground arith))
      | inr z ↦
          let more : 0 < n = ground arith in
          let inner : sect ≢ end_of_chain = ground arith in
          elim (Bool-cases (member sect seen)) [
            | inl back ↦
                rw (z, back) (again [] n sect (here n sect) (done seen) more inner (inr back))
            | inr new ↦ elim (Option-cases (get_elem? fat sect)) [
              | inl gone ↦
                  rw (z, new, gone)
                    (outside [] n sect (here n sect) (done seen) more inner
                      (get_elem?-past fat sect gone))
              | inr (t, at) ↦
                  rw (z, new, at)
                    (longer fat size n sect t seen _ more inner at new (
                      walk-Walked fat size rounds (n - size) t (sect ∷ seen) (omega arith)
                        (also sect seen (get_elem?-bound fat sect at) new places)))
            ]
          ]
    ]

-- A chain that gives the bytes is walked to its end.
walk-Leads :
    (fat : List ℕ) (size rounds n sect : ℕ) (seen sectors : List ℕ) (left after : ℕ)
    → rounds + length seen ≡ suc (length fat)
    → IsPlaces (length fat) seen
    → Leads fat size n sect sectors left after
    → Fresh seen sectors
    → (left ≡ 0) ⊎ (after ≡ end_of_chain)
    → walk fat size rounds n sect seen ≡ ok sectors
unfolding walk
walk-Leads fat size zero n sect seen sectors left after enough places leads fresh end =
    absurd (omega (arith, length-IsPlaces (length fat) seen places))
walk-Leads fat size (suc rounds) n sect seen [] left after enough places (here _ _) fresh end =
    let stop : n == 0 || sect == end_of_chain ≡ true = ground arith in rw stop refl
walk-Leads fat size (suc rounds) n sect seen (_ ∷ sectors) left after enough places
      (there _ _ t _ _ _ more inner at leads) (next _ _ _ new fresh) end =
    let go : n == 0 || sect == end_of_chain ≡ false = ground arith in
    rw (go, new, at)
      (ap (λ r. r >>= λ rest. ok (sect ∷ rest))
        (walk-Leads fat size rounds (n - size) t (sect ∷ seen) sectors left after (omega arith)
          (also sect seen (get_elem?-bound fat sect at) new places) leads fresh end))

-- What reading a stream of `n` bytes from a sector may give.
pub data Follows (file fat : List ℕ) (size start n : ℕ) : Result OleError (List ℕ) → Type 0 where
  read :
      (sectors : List ℕ) (left after : ℕ)
      → Leads fat size n start sectors left after
      → Fresh [] sectors
      → (left ≡ 0) ⊎ (after ≡ end_of_chain)
      → Follows file fat size start n (ok (take n (sectors_bytes file size sectors)))
  cycle :
      (sectors : List ℕ) (left after : ℕ)
      → Leads fat size n start sectors left after
      → Fresh [] sectors
      → 0 < left
      → after ≢ end_of_chain
      → member after sectors ≡ true
      → Follows file fat size start n (raise fat_cycle)
  past :
      (sectors : List ℕ) (left after : ℕ)
      → Leads fat size n start sectors left after
      → Fresh [] sectors
      → 0 < left
      → after ≢ end_of_chain
      → length fat ≤ after
      → Follows file fat size start n (raise past_fat)

read_all-bytes :
    (file : List ℕ) (size n : ℕ) (r : Result OleError (List ℕ))
    → (r >>= λ sectors. ok (read_sectors file size n sectors))
      ≡ (r >>= λ sectors. ok (take n (sectors_bytes file size sectors)))
read_all-bytes file size n (ok sectors) = ap ok (read_sectors-bytes file size n sectors)
read_all-bytes file size n (raise e) = refl

walk-nothing :
    (fat : List ℕ) (size rounds n start : ℕ)
    → n == 0 || start == end_of_chain ≡ true
    → walk fat size (suc rounds) n start [] ≡ ok []
unfolding walk
walk-nothing fat size rounds n start h = rw h refl

no_sectors : (file : List ℕ) (size n : ℕ) → [] ≡ take n (sectors_bytes file size [])
unfolding sectors_bytes
no_sectors file size n = sym (take-empty n)

-- The early return is what the loop does.
pub read_chain-walk :
    (file fat : List ℕ) (size start n : ℕ)
    → read_chain file fat size start n ≡ (
        walk fat size (suc (length fat)) n start [] >>= λ sectors.
        ok (take n (sectors_bytes file size sectors)))
unfolding read_chain
read_chain-walk file fat size start n = elim (Bool-cases (n == 0 || start == end_of_chain)) [
  | inl z ↦ rw (z, walk-nothing fat size (length fat) n start z) (ap ok (no_sectors file size n))
  | inr z ↦ rw z (read_all-bytes file size n (walk fat size (suc (length fat)) n start []))
]

Walked-Follows :
    (file fat : List ℕ) (size start n : ℕ) (r : Result OleError (List ℕ))
    → Walked fat size n start [] r
    → Follows file fat size start n (r >>= λ sectors. ok (take n (sectors_bytes file size sectors)))
unfolding member
Walked-Follows file fat size start n r (found sectors left after leads fresh end) =
    read sectors left after leads fresh end
Walked-Follows file fat size start n r (again sectors left after leads fresh missing goes back) =
    cycle sectors left after leads fresh missing goes (ground arith)
Walked-Follows file fat size start n r (outside sectors left after leads fresh missing goes far) =
    past sectors left after leads fresh missing goes far

-- What reading a stream gives, on every file, table, start and length.
pub read_chain-Follows :
    (file fat : List ℕ) (size start n : ℕ)
    → Follows file fat size start n (read_chain file fat size start n)
read_chain-Follows file fat size start n = rw (read_chain-walk file fat size start n) (
    Walked-Follows file fat size start n _
      (walk-Walked fat size (suc (length fat)) n start [] (omega arith) empty))

-- A chain whose sectors are all needed and met once, and that holds the bytes or ends before them,
-- is read: the result is the bytes of its sectors in the order of the chain, cut to the length.
pub read_chain-Leads :
    (file fat : List ℕ) (size start n : ℕ) (sectors : List ℕ) (left after : ℕ)
    → Leads fat size n start sectors left after
    → Fresh [] sectors
    → (left ≡ 0) ⊎ (after ≡ end_of_chain)
    → read_chain file fat size start n ≡ ok (take n (sectors_bytes file size sectors))
read_chain-Leads file fat size start n sectors left after leads fresh end =
    read_chain-walk file fat size start n
    ∙ ap (λ r. r >>= λ l. ok (take n (sectors_bytes file size l)))
        (walk-Leads fat size (suc (length fat)) n start [] sectors left after (omega arith) empty
          leads fresh end)
