-- ===== src/Ole.antt =====
-- src/opencodecs/_ole2.py: compound files. The sectors of a stream, along the chain that the file
-- allocation table gives. The file is its bytes.
pub mod Tables
pub mod Directory
pub mod Streams
pub mod Runs
pub mod Chains
pub mod Walks
pub mod Errors
pub mod Wholes
pub mod Rounds
pub mod Prefixes
pub mod MiniPrefixes
pub mod Starts
mod Tests
use opencodecs.Common.{ℕ, zero, suc, ◌+◌, ◌-◌, ◌*◌, List, [], ◌∷◌, ◌++◌, Bool, true, false, ◌||◌}
use opencodecs.Common.{none, some, ◌==◌, if◌then◌else◌, length, take, get_elem?}
use opencodecs.Common.Bytes.{slice}
use opencodecs.Common.Result.{Result, ok, raise, ◌>>=◌}

-- One constructor for each place that raises.
pub data OleError : Type 0 where
  bad_magic bad_byte_order fat_cycle past_fat fat_limit dir_limit : OleError
  mini_past_fat mini_short no_stream no_root struct_error : OleError

abbrev pub end_of_chain : ℕ
end_of_chain = 0xFFFFFFFE

abbrev pub free_sector : ℕ
free_sector = 0xFFFFFFFF

-- `DataSource.read_at`, which gives less at the end of the file.
abbrev pub read_at : List ℕ → ℕ → ℕ → List ℕ
read_at file offset n = slice file offset (offset + n)

-- `_sector_offset` and `_read_sector`
abbrev pub sector_offset : ℕ → ℕ → ℕ
sector_offset size sector = size + sector * size

unfoldable pub read_sector : List ℕ → ℕ → ℕ → List ℕ
read_sector file size sector = read_at file (sector_offset size sector) size

unfoldable pub member : ℕ → List ℕ → Bool
member x [] = false
member x (y ∷ ys) = x == y || member x ys

-- The first pass of `_read_chain`: the sectors from `sect` on that hold `remaining` bytes, where the
-- loop has `rounds` rounds left.
unfoldable pub walk : List ℕ → ℕ → ℕ → ℕ → ℕ → List ℕ → Result OleError (List ℕ)
walk fat size zero remaining sect seen = raise fat_limit
walk fat size (suc rounds) remaining sect seen =
    if remaining == 0 || sect == end_of_chain
    then ok []
    else if member sect seen
    then raise fat_cycle
    else elim (get_elem? fat sect) [
      | none ↦ raise past_fat
      | some next ↦
          walk fat size rounds (remaining - size) next (sect ∷ seen) >>= λ rest. ok (sect ∷ rest)
    ]

-- The second pass: one read for each run of consecutive sectors.
unfoldable pub read_runs : List ℕ → ℕ → ℕ → ℕ → List ℕ → List ℕ
read_runs file size start count [] = read_at file (sector_offset size start) (count * size)
read_runs file size start count (s ∷ sectors) =
    let longer = read_runs file size start (count + 1) sectors in
    let next = read_runs file size s 1 sectors in
    if s == start + count
    then longer
    else read_at file (sector_offset size start) (count * size) ++ next

unfoldable pub read_sectors : List ℕ → ℕ → ℕ → List ℕ → List ℕ
read_sectors file size n [] = []
read_sectors file size n (s ∷ sectors) = take n (read_runs file size s 1 sectors)

-- `_read_chain`
unfoldable pub read_chain : List ℕ → List ℕ → ℕ → ℕ → ℕ → Result OleError (List ℕ)
read_chain file fat size start n =
    if n == 0 || start == end_of_chain
    then ok []
    else walk fat size (suc (length fat)) n start [] >>= λ sectors.
        ok (read_sectors file size n sectors)
