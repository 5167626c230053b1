-- ===== src/Ole/Wholes.antt =====
-- src/opencodecs/_ole2.py, `_read_chain`: chains whose sectors the file holds.
use opencodecs.Common.{ℕ, ◌+◌, ◌-◌, ◌*◌, ◌≤◌, List, [], ◌∷◌, ◌≡◌, inl, refl, arith}
use opencodecs.Common.{length, take, drop, length-take, length-drop, length-append}
use opencodecs.Common.Result.{ok}
use opencodecs.Ole.{read_sector, read_chain}
use opencodecs.Ole.Directory.{sectors_bytes}
use opencodecs.Ole.Chains.{Leads, here, there, Fresh}
use opencodecs.Ole.Walks.{read_chain-Leads}

-- The file, a header of the size of a sector and then the sectors, has room for each of these.
unfoldable pub AllWhole : List ℕ → ℕ → List ℕ → Type 0
AllWhole file size [] = Unit
AllWhole file size (s ∷ l) = ((s + 2) * size ≤ length file) × AllWhole file size l

pub length-read_sector :
    (file : List ℕ) (size s : ℕ)
    → (s + 2) * size ≤ length file
    → length (read_sector file size s) ≡ size
unfolding read_sector
length-read_sector file size s whole = omega (
  arith,
  length-take (size + s * size + size - (size + s * size)) (drop (size + s * size) file),
  length-drop (size + s * size) file,
)

pub length-sectors_bytes :
    (file : List ℕ) (size : ℕ) (l : List ℕ)
    → AllWhole file size l
    → length (sectors_bytes file size l) ≡ length l * size
unfolding sectors_bytes AllWhole
length-sectors_bytes file size [] h = omega arith
length-sectors_bytes file size (s ∷ l) h = omega (
  arith,
  length-append (read_sector file size s) (sectors_bytes file size l),
  length-read_sector file size s h.0,
  length-sectors_bytes file size l h.1,
)

-- The sectors that a chain leads through hold what is missing no more.
pub Leads-room :
    (fat : List ℕ) (size n sect : ℕ) (l : List ℕ) (left after : ℕ)
    → Leads fat size n sect l left after
    → n ≤ length l * size + left
Leads-room fat size n sect [] left after (here _ _) = omega arith
Leads-room fat size n sect (_ ∷ l) left after (there _ _ t _ _ _ more inner at leads) =
    omega (arith, Leads-room fat size (n - size) t l left after leads)

-- A chain that holds the length, whose sectors are all needed, met once and in the file, is read
-- without an error: the result has just this length, and is the start of the bytes of the sectors, one
-- sector after the other in the order of the chain.
pub read_chain-whole :
    (file fat : List ℕ) (size start n : ℕ) (sectors : List ℕ) (after : ℕ)
    → Leads fat size n start sectors 0 after
    → Fresh [] sectors
    → AllWhole file size sectors
    → (bytes : List ℕ) × (read_chain file fat size start n ≡ ok bytes)
      × (length bytes ≡ n)
      × (bytes ≡ take n (sectors_bytes file size sectors))
read_chain-whole file fat size start n sectors after leads fresh whole =
    let all = sectors_bytes file size sectors in
    (
      take n all,
      read_chain-Leads file fat size start n sectors 0 after leads fresh (inl refl),
      omega (
        arith,
        length-take n all,
        length-sectors_bytes file size sectors whole,
        Leads-room fat size n start sectors 0 after leads,
      ),
      refl,
    )
