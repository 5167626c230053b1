-- ===== src/Ole/Errors.antt =====
-- src/opencodecs/_ole2.py, `_read_chain`: the errors of the walk.
use opencodecs.Common.{
  ℕ, zero, suc, ◌+◌, ◌-◌, ◌<◌, ◌≤◌, List, [], ◌∷◌, true, false, ◌||◌, ◌≡◌, ◌≢◌, ◌⊎◌, ◌↔◌, inl, inr,
}
use opencodecs.Common.{
  none, ◌==◌, length, get_elem?, arith, ◌∙◌, ap, refl, get_elem?-bound, take, Option-cases,
}
use opencodecs.Common.Result.{Result, ok, raise, ◌>>=◌}
use opencodecs.Ole.{
  OleError, fat_cycle, past_fat, fat_limit, end_of_chain, member, walk, read_chain,
}
use opencodecs.Ole.Directory.{sectors_bytes}
use opencodecs.Ole.Chains.{Leads, here, there, Fresh, next, IsPlaces, empty, also, length-IsPlaces}
use opencodecs.Ole.Walks.{Follows, read, cycle, past, read_chain-Follows, read_chain-walk}

-- From the start the table leads through the sectors, none twice, to `after`, which is not the end of
-- the chain, with bytes still missing.
abbrev pub Misses : List ℕ → ℕ → ℕ → ℕ → List ℕ → ℕ → ℕ → Type 0
Misses fat size start n sectors left after =
    Leads fat size n start sectors left after
    × Fresh [] sectors
    × (0 < left)
    × (after ≢ end_of_chain)

-- The chain comes back to one of its sectors, with bytes missing.
pub Cycles : List ℕ → ℕ → ℕ → ℕ → Type 0
Cycles fat size start n =
    (sectors : List ℕ) × (left : ℕ) × (after : ℕ) × (Misses fat size start n sectors left after)
    × (member after sectors ≡ true)

-- The chain leads past the table, with bytes missing.
pub Strays : List ℕ → ℕ → ℕ → ℕ → Type 0
Strays fat size start n =
    (sectors : List ℕ) × (left : ℕ) × (after : ℕ) × (Misses fat size start n sectors left after)
    × (length fat ≤ after)

-- The errors of the walk, told apart.
code_of : Result OleError (List ℕ) → ℕ
code_of (raise fat_cycle) = 1
code_of (raise past_fat) = 2
code_of (raise fat_limit) = 3
code_of r = 0

Follows-Cycles :
    (file fat : List ℕ) (size start n : ℕ) (r : Result OleError (List ℕ))
    → Follows file fat size start n r
    → r ≡ raise fat_cycle
    → Cycles fat size start n
unfolding code_of Cycles
Follows-Cycles file fat size start n _ (read l left after leads fresh end) e =
    absurd (ground (arith, ap code_of e))
Follows-Cycles file fat size start n _ (cycle l left after leads fresh missing goes back) e =
    (l, left, after, (leads, fresh, missing, goes), back)
Follows-Cycles file fat size start n _ (past l left after leads fresh missing goes far) e =
    absurd (ground (arith, ap code_of e))

Follows-Strays :
    (file fat : List ℕ) (size start n : ℕ) (r : Result OleError (List ℕ))
    → Follows file fat size start n r
    → r ≡ raise past_fat
    → Strays fat size start n
unfolding code_of Strays
Follows-Strays file fat size start n _ (read l left after leads fresh end) e =
    absurd (ground (arith, ap code_of e))
Follows-Strays file fat size start n _ (cycle l left after leads fresh missing goes back) e =
    absurd (ground (arith, ap code_of e))
Follows-Strays file fat size start n _ (past l left after leads fresh missing goes far) e =
    (l, left, after, (leads, fresh, missing, goes), far)

Follows-no_limit :
    (file fat : List ℕ) (size start n : ℕ) (r : Result OleError (List ℕ))
    → Follows file fat size start n r
    → r ≢ raise fat_limit
unfolding code_of
Follows-no_limit file fat size start n _ (read l left after leads fresh end) e =
    ground (arith, ap code_of e)
Follows-no_limit file fat size start n _ (cycle l left after leads fresh missing goes back) e =
    ground (arith, ap code_of e)
Follows-no_limit file fat size start n _ (past l left after leads fresh missing goes far) e =
    ground (arith, ap code_of e)

-- What the walk does where the chain misses bytes: it comes to `after`, and fails there.
module _ (fat : List ℕ) (size : ℕ) (error : OleError) where
  -- The walk fails at a sector, whatever bytes are missing and rounds left.
  FailsAt : ℕ → List ℕ → Type 0
  FailsAt after seen =
      (rounds left : ℕ)
      → IsPlaces (length fat) seen
      → 0 < left
      → after ≢ end_of_chain
      → walk fat size (suc rounds) left after seen ≡ raise error

  -- The sectors, the last of them first, and those seen before.
  passed : List ℕ → List ℕ → List ℕ
  passed [] seen = seen
  passed (s ∷ l) seen = passed l (s ∷ seen)

  walk-fails :
      (rounds n sect : ℕ) (seen sectors : List ℕ) (left after : ℕ)
      → rounds + length seen ≡ suc (length fat)
      → IsPlaces (length fat) seen
      → Leads fat size n sect sectors left after
      → Fresh seen sectors
      → 0 < left
      → after ≢ end_of_chain
      → FailsAt after (passed sectors seen)
      → walk fat size rounds n sect seen ≡ raise error
  unfolding walk FailsAt passed
  walk-fails zero n sect seen sectors left after enough places leads fresh missing goes fails =
      absurd (omega (arith, length-IsPlaces (length fat) seen places))
  walk-fails (suc rounds) n sect seen [] left after enough places (here _ _) fresh missing goes
        fails =
      fails rounds n places missing goes
  walk-fails (suc rounds) n sect seen (_ ∷ l) left after enough places
        (there _ _ t _ _ _ more inner at leads) (next _ _ _ new fresh) missing goes fails =
      let go : n == 0 || sect == end_of_chain ≡ false = ground arith in
      rw (go, new, at)
        (ap (λ r. r >>= λ rest. ok (sect ∷ rest))
          (walk-fails rounds (n - size) t (sect ∷ seen) l left after (omega arith)
            (also sect seen (get_elem?-bound fat sect at) new places) leads fresh missing goes
            fails))

member-passed :
    (fat : List ℕ) (size : ℕ) (error : OleError) (x : ℕ) (sectors seen : List ℕ)
    → (member x sectors ≡ true) ⊎ (member x seen ≡ true)
    → member x (passed fat size error sectors seen) ≡ true
unfolding member passed
member-passed fat size error x [] seen h = ground arith
member-passed fat size error x (s ∷ l) seen h =
    member-passed fat size error x l (s ∷ seen) (ground arith)

back-FailsAt :
    (fat : List ℕ) (size after : ℕ) (seen : List ℕ)
    → member after seen ≡ true
    → FailsAt fat size fat_cycle after seen
unfolding FailsAt walk
back-FailsAt fat size after seen back rounds left places missing goes =
    let go : left == 0 || after == end_of_chain ≡ false = ground arith in rw (go, back) refl

-- A sector past the table is none that the walk has passed.
far-new : (n far : ℕ) (l : List ℕ) → IsPlaces n l → n ≤ far → member far l ≡ false
unfolding member
far-new n far [] p h = refl
far-new n far (s ∷ l) (also _ _ lt new p) h = let rest = far-new n far l p h in ground arith

no_entry : (fat : List ℕ) (i : ℕ) → length fat ≤ i → get_elem? fat i ≡ none
no_entry fat i h = elim (Option-cases (get_elem? fat i)) [
  | inl gone ↦ gone
  | inr (x, at) ↦ absurd (omega (arith, get_elem?-bound fat i at))
]

far-FailsAt :
    (fat : List ℕ) (size after : ℕ) (seen : List ℕ)
    → length fat ≤ after
    → FailsAt fat size past_fat after seen
unfolding FailsAt walk
far-FailsAt fat size after seen far rounds left places missing goes =
    let go : left == 0 || after == end_of_chain ≡ false = ground arith in
    let new : member after seen ≡ false = far-new (length fat) after seen places far in
    let gone : get_elem? fat after ≡ none = no_entry fat after far in rw (go, new, gone) refl

module _ (file fat : List ℕ) (size start n : ℕ) where
  read_chain-fails :
      (error : OleError) (sectors : List ℕ) (left after : ℕ)
      → Misses fat size start n sectors left after
      → FailsAt fat size error after (passed fat size error sectors [])
      → read_chain file fat size start n ≡ raise error
  read_chain-fails error sectors left after (leads, fresh, missing, goes) fails =
      read_chain-walk file fat size start n
      ∙ ap (λ r. r >>= λ l. ok (take n (sectors_bytes file size l)))
          (walk-fails fat size error (suc (length fat)) n start [] sectors left after (omega arith)
            empty leads fresh missing goes fails)

  Cycles-raise : Cycles fat size start n → read_chain file fat size start n ≡ raise fat_cycle
  unfolding Cycles
  Cycles-raise (sectors, left, after, misses, back) =
      read_chain-fails fat_cycle sectors left after misses (
        back-FailsAt fat size after (passed fat size fat_cycle sectors [])
          (member-passed fat size fat_cycle after sectors [] (inl back)))

  Strays-raise : Strays fat size start n → read_chain file fat size start n ≡ raise past_fat
  unfolding Strays
  Strays-raise (sectors, left, after, misses, far) =
      read_chain-fails past_fat sectors left after misses
        (far-FailsAt fat size after (passed fat size past_fat sectors []) far)

-- Reading a stream, on every file, table, start and length: a cycle is reported exactly where the chain
-- comes back to a sector that it has passed, with bytes still missing; a chain that leaves the
-- table is reported exactly where it leads past the last entry, with bytes still missing; and the
-- limit of the rounds is never met.
pub read_chain-errors :
    (file fat : List ℕ) (size start n : ℕ)
    → ((read_chain file fat size start n ≡ raise fat_cycle) ↔ Cycles fat size start n)
      × ((read_chain file fat size start n ≡ raise past_fat) ↔ Strays fat size start n)
      × (read_chain file fat size start n ≢ raise fat_limit)
read_chain-errors file fat size start n =
    let follows = read_chain-Follows file fat size start n in
    (
      (Follows-Cycles file fat size start n _ follows, Cycles-raise file fat size start n),
      (Follows-Strays file fat size start n _ follows, Strays-raise file fat size start n),
      Follows-no_limit file fat size start n _ follows,
    )
