-- ===== src/Ole/Starts.antt =====
-- src/opencodecs/_ole2.py, `read_stream`: a whole stream, and its start.
use opencodecs.Common.{
  ℕ, zero, suc, ◌≤◌, ◌<◌, min, List, [], ◌∷◌, true, false, ◌≡◌, refl, sym, ap, ◌∙◌, arith,
}
use opencodecs.Common.{none, some, ltb, length, take, length-take}
use opencodecs.Common.Result.{ok}
use opencodecs.Ole.{read_chain}
use opencodecs.Ole.Directory.{OleDirEntry, sectors_bytes}
use opencodecs.Ole.Streams.{
  OleReader, find_stream, mini_loop, read_mini_chain, read_entry, read_stream, get_size,
}
use opencodecs.Ole.Chains.{Leads, Fresh}
use opencodecs.Ole.Wholes.{AllWhole, Leads-room, length-sectors_bytes}
use opencodecs.Ole.Prefixes.{read_chain-start}
use opencodecs.Ole.MiniPrefixes.{
  AllMinis, minis_bytes, take-all, length-minis_bytes, mini_loop-start,
}

-- The bytes of a stream as the tables and the file have them. A stream from the cutoff on lies in
-- sectors of the file, a smaller one in mini sectors; its chain holds its size, and each sector of
-- the chain is there.
pub data Stored (r : OleReader) (e : OleDirEntry) : List ℕ → Type 0 where
  large :
      (sectors : List ℕ) (after : ℕ)
      → r.header.mini_cutoff ≤ e.size
      → Leads r.fat r.header.sector_size e.size e.start_sect sectors 0 after
      → Fresh [] sectors
      → AllWhole r.file r.header.sector_size sectors
      → Stored r e (take e.size (sectors_bytes r.file r.header.sector_size sectors))
  small :
      (minis : List ℕ) (after : ℕ)
      → e.size < r.header.mini_cutoff
      → 0 < r.header.mini_sector_size
      → Leads r.minifat r.header.mini_sector_size e.size e.start_sect minis 0 after
      → AllMinis r.mini_stream r.header.mini_sector_size minis
      → Stored r e (take e.size (minis_bytes r.mini_stream r.header.mini_sector_size minis))

take-min : (n m : ℕ) (l : List ℕ) → take n (take m l) ≡ take (min n m) l
take-min zero m l = let e : min 0 m ≡ 0 = omega arith in rw e refl
take-min (suc n) zero l = let e : min (suc n) 0 ≡ 0 = omega arith in rw e refl
take-min (suc n) (suc m) [] = let e : min (suc n) (suc m) ≡ suc (min n m) = omega arith in rw e refl
take-min (suc n) (suc m) (x ∷ l) =
    let e : min (suc n) (suc m) ≡ suc (min n m) = omega arith in
    rw e (ap (λ t. x ∷ t) (take-min n m l))

module _ (r : OleReader) (e : OleDirEntry) where
  read_small :
      (n : ℕ)
      → ltb e.size r.header.mini_cutoff ≡ true
      → read_entry r e n
        ≡ mini_loop n r.minifat r.mini_stream r.header.mini_sector_size n e.start_sect
  unfolding read_entry read_mini_chain
  read_small n h = rw h refl

  read_large :
      (n : ℕ)
      → ltb e.size r.header.mini_cutoff ≡ false
      → read_entry r e n ≡ read_chain r.file r.fat r.header.sector_size e.start_sect n
  unfolding read_entry
  read_large n h = rw h refl

  read_entry-Stored :
      (bytes : List ℕ) (n : ℕ)
      → Stored r e bytes
      → read_entry r e (min n e.size) ≡ ok (take n bytes)
  read_entry-Stored _ n (large sectors after above leads fresh whole) =
      read_large (min n e.size) (ground arith)
      ∙ read_chain-start r.file r.fat r.header.sector_size e.start_sect e.size (min n e.size)
          sectors after leads fresh whole (omega arith)
      ∙ ap ok (sym (take-min n e.size (sectors_bytes r.file r.header.sector_size sectors)))
  read_entry-Stored _ n (small minis after below positive leads whole) =
      read_small (min n e.size) (ground arith)
      ∙ mini_loop-start (min n e.size) r.minifat r.mini_stream r.header.mini_sector_size e.size
          (min n e.size) e.start_sect minis 0 after positive leads refl whole (omega arith)
          (omega arith)
      ∙ ap ok (sym (take-min n e.size (minis_bytes r.mini_stream r.header.mini_sector_size minis)))

  length-Stored : (bytes : List ℕ) → Stored r e bytes → length bytes ≡ e.size
  length-Stored _ (large sectors after above leads fresh whole) = omega (
    arith,
    length-take e.size (sectors_bytes r.file r.header.sector_size sectors),
    length-sectors_bytes r.file r.header.sector_size sectors whole,
    Leads-room r.fat r.header.sector_size e.size e.start_sect sectors 0 after leads,
  )
  length-Stored _ (small minis after below positive leads whole) = omega (
    arith,
    length-take e.size (minis_bytes r.mini_stream r.header.mini_sector_size minis),
    length-minis_bytes r.mini_stream r.header.mini_sector_size minis whole,
    Leads-room r.minifat r.header.mini_sector_size e.size e.start_sect minis 0 after leads,
  )

-- The first stream entry of a name, whose bytes are stored: its chain holds its size, and each sector
-- of the chain is in the file and comes once, or, for a size below the cutoff, each mini sector, of
-- at least one byte, is in the mini stream. Then the size that is told is the number of these bytes;
-- without a length all of them are read, and with a length as many of the first ones, or all if there
-- are fewer.
pub read_stream-Stored :
    (r : OleReader) (name : List ℕ) (e : OleDirEntry) (bytes : List ℕ)
    → find_stream r.directory name ≡ some e
    → Stored r e bytes
    → (get_size r name ≡ ok (length bytes))
      × (read_stream r name none ≡ ok bytes)
      × ((n : ℕ) → read_stream r name (some n) ≡ ok (take n bytes))
unfolding get_size read_stream
read_stream-Stored r name e bytes at stored =
    let size = length-Stored r e bytes stored in
    (
      rw (at, get_size) (ap ok (sym size)),
      rw (at, read_stream) (whole size),
      λ n. rw (at, read_stream) (read_entry-Stored r e bytes n stored),
    )
  where
    whole : length bytes ≡ e.size → read_entry r e e.size ≡ ok bytes
    whole size =
        let same : min e.size e.size ≡ e.size = omega arith in
        ap (read_entry r e) (sym same)
        ∙ read_entry-Stored r e bytes e.size stored
        ∙ ap ok (take-all e.size bytes (omega (arith, size)))
