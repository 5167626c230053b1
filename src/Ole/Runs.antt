-- ===== src/Ole/Runs.antt =====
-- src/opencodecs/_ole2.py, `_read_chain`: one read for a run of sectors, against one for each sector.
use opencodecs.Common.{
  ℕ, zero, suc, ◌+◌, ◌-◌, ◌*◌, List, [], ◌∷◌, ◌++◌, ◌≡◌, refl, ◌==◌, ==_iff, take, drop, arith, sym,
  ◌∙◌, ap, append_assoc, append-nil, Bool-cases, inl, inr,
}
use opencodecs.Ole.{read_at, sector_offset, read_sector, read_runs, read_sectors}
use opencodecs.Ole.Directory.{sectors_bytes}

pub take-empty : (n : ℕ) → take {A = ℕ} n [] ≡ []
take-empty zero = refl
take-empty (suc n) = refl

drop-empty : (n : ℕ) → drop {A = ℕ} n [] ≡ []
drop-empty zero = refl
drop-empty (suc n) = refl

take-split : (m n : ℕ) (l : List ℕ) → take (m + n) l ≡ take m l ++ take n (drop m l)
take-split zero n l = let e : 0 + n ≡ n = omega arith in ap (λ t. take t l) e
take-split (suc m) n [] =
    let e : suc m + n ≡ suc (m + n) = omega arith in
    ap (λ t. take {A = ℕ} t []) e ∙ sym (take-empty n)
take-split (suc m) n (x ∷ l) =
    let e : suc m + n ≡ suc (m + n) = omega arith in
    ap (λ t. take t (x ∷ l)) e ∙ ap (λ t. x ∷ t) (take-split m n l)

drop-drop : (m n : ℕ) (l : List ℕ) → drop n (drop m l) ≡ drop (m + n) l
drop-drop zero n l = let e : n ≡ 0 + n = omega arith in ap (λ t. drop t l) e
drop-drop (suc m) n [] = drop-empty n ∙ sym (drop-empty (suc m + n))
drop-drop (suc m) n (x ∷ l) =
    let e : suc (m + n) ≡ suc m + n = omega arith in drop-drop m n l ∙ ap (λ t. drop t (x ∷ l)) e

-- Two reads side by side are one, at the end of the file too.
read_at-split :
    (file : List ℕ) (offset m n : ℕ)
    → read_at file offset (m + n) ≡ read_at file offset m ++ read_at file (offset + m) n
read_at-split file offset m n =
    let a : offset + (m + n) - offset ≡ m + n = omega arith in
    let b : offset + m - offset ≡ m = omega arith in
    let c : offset + m + n - (offset + m) ≡ n = omega arith in
    rw (a, b, c)
      (take-split m n (drop offset file)
        ∙ ap (λ l. take m (drop offset file) ++ take n l) (drop-drop offset m file))

read_runs-sectors_bytes :
    (file : List ℕ) (size start count : ℕ) (sectors : List ℕ)
    → read_runs file size start count sectors
      ≡ read_at file (sector_offset size start) (count * size) ++ sectors_bytes file size sectors
unfolding read_runs sectors_bytes read_sector
read_runs-sectors_bytes file size start count [] = sym (append-nil _)
read_runs-sectors_bytes file size start count (s ∷ sectors) =
    elim (Bool-cases (s == start + count)) [
      | inl z ↦
          let at : s ≡ start + count = (==_iff s (start + count)).0 z in
          let shared : size + start * size + count * size ≡ size + (start + count) * size =
            omega arith in
          let place : sector_offset size start + count * size ≡ sector_offset size s =
            shared ∙ ap (λ t. size + t * size) (sym at) in
          let more : (count + 1) * size ≡ count * size + size = omega arith in
          rw z (
            read_runs-sectors_bytes file size start (count + 1) sectors
            ∙ ap (λ n. read_at file (sector_offset size start) n ++ sectors_bytes file size sectors)
                more
            ∙ ap (λ l. l ++ sectors_bytes file size sectors)
                (read_at-split file (sector_offset size start) (count * size) size
                  ∙ ap
                      (λ o.
                        read_at file (sector_offset size start) (count * size)
                        ++ read_at file o size)
                      place)
            ∙ append_assoc (read_at file (sector_offset size start) (count * size))
                (read_at file (sector_offset size s) size) (sectors_bytes file size sectors))
      | inr z ↦
          let one : 1 * size ≡ size = omega arith in
          rw z (
            ap (λ l. read_at file (sector_offset size start) (count * size) ++ l)
              (read_runs-sectors_bytes file size s 1 sectors
                ∙ ap (λ n. read_at file (sector_offset size s) n ++ sectors_bytes file size sectors)
                    one))
    ]

-- The reads of whole runs give the bytes of the sectors in their order, cut to the length.
pub read_sectors-bytes :
    (file : List ℕ) (size n : ℕ) (sectors : List ℕ)
    → read_sectors file size n sectors ≡ take n (sectors_bytes file size sectors)
unfolding read_sectors sectors_bytes read_sector
read_sectors-bytes file size n [] = sym (take-empty n)
read_sectors-bytes file size n (s ∷ sectors) =
    let one : 1 * size ≡ size = omega arith in
    ap (take n) (
      read_runs-sectors_bytes file size s 1 sectors
      ∙ ap (λ m. read_at file (sector_offset size s) m ++ sectors_bytes file size sectors) one)
