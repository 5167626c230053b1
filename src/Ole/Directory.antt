-- ===== src/Ole/Directory.antt =====
-- src/opencodecs/_ole2.py: `_read_directory`.
use opencodecs.Common.{ℕ, zero, suc, ◌+◌, ◌-◌, ◌*◌, ◌/◌, ◌^◌, List, [], ◌∷◌, ◌++◌, Bool, ◌&&◌, ◌||◌}
use opencodecs.Common.{none, some, ltb, leb, ◌==◌, if◌then◌else◌, length, take, drop, get_elem?}
use opencodecs.Common.Int.{ℤ, pos, ◌-ℤ◌}
use opencodecs.Common.Result.{Result, ok, raise, ◌>>=◌, or_raise}
use opencodecs.Ole.{OleError, dir_limit, struct_error, end_of_chain, read_sector, member}
use opencodecs.Ole.Tables.{Header, word_at, half_at}

-- `OleDirEntry`; a name is its code points.
pub record OleDirEntry : Type 0 where
  pub name : List ℕ
  pub obj_type : ℕ
  pub left_id : ℤ
  pub right_id : ℤ
  pub child_id : ℤ
  pub start_sect : ℕ
  pub size : ℕ

-- The sectors of the directory; a loop in the chain, or a sector past the table, ends it.
unfoldable pub dir_walk : List ℕ → ℕ → ℕ → List ℕ → Result OleError (List ℕ)
dir_walk fat zero sect seen = raise dir_limit
dir_walk fat (suc rounds) sect seen =
    if sect == end_of_chain || member sect seen then ok [] else elim (get_elem? fat sect) [
      | none ↦ ok []
      | some next ↦ dir_walk fat rounds next (sect ∷ seen) >>= λ rest. ok (sect ∷ rest)
    ]

unfoldable pub sectors_bytes : List ℕ → ℕ → List ℕ → List ℕ
sectors_bytes file size [] = []
sectors_bytes file size (s ∷ sectors) = read_sector file size s ++ sectors_bytes file size sectors

abbrev pub is_high : ℕ → Bool
is_high unit = leb 0xD800 unit && ltb unit 0xDC00

abbrev pub is_low : ℕ → Bool
is_low unit = leb 0xDC00 unit && ltb unit 0xE000

abbrev pub replaced : ℕ
replaced = 0xFFFD

-- The decoder, where `high` is a high surrogate that waits for its other half, or 0.
unfoldable pub utf16_from : ℕ → List ℕ → List ℕ
utf16_from high [] = if high == 0 then [] else replaced ∷ []
utf16_from high (a ∷ []) = replaced ∷ []
utf16_from high (a ∷ b ∷ l) =
    let unit = a + 256 * b in
    let waits = utf16_from unit l in
    let rest = utf16_from 0 l in
    let fresh = if is_high unit then waits else (if is_low unit then replaced else unit) ∷ rest in
    let pair = (0x10000 + (high - 0xD800) * 1024 + (unit - 0xDC00)) ∷ rest in
    if high == 0 then fresh else if is_low unit then pair else replaced ∷ fresh

-- `bytes.decode("utf-16-le", errors="replace")`
unfoldable pub utf16 : List ℕ → List ℕ
utf16 l = utf16_from 0 l

-- `<i`
abbrev pub signed : ℕ → ℤ
signed n = if ltb n 0x80000000 then pos n else pos n -ℤ pos 0x100000000

abbrev pub invalid_entry : OleDirEntry
invalid_entry = record {
  name = [];
  obj_type = 0;
  left_id = pos 0 -ℤ pos 1;
  right_id = pos 0 -ℤ pos 1;
  child_id = pos 0 -ℤ pos 1;
  start_sect = 0;
  size = 0;
}

unfoldable pub valid_entry : List ℕ → ℕ → Result OleError OleDirEntry
valid_entry entry obj_type = do
  name_len ← half_at entry 0x40
  left ← word_at entry 0x44
  right ← word_at entry 0x48
  child ← word_at entry 0x4C
  start ← word_at entry 0x74
  size_lo ← word_at entry 0x78
  size_hi ← word_at entry 0x7C
  ok (record {
    name = if ltb name_len 2 then [] else utf16 (take (name_len - 2) entry);
    obj_type = obj_type;
    left_id = signed left;
    right_id = signed right;
    child_id = signed child;
    start_sect = start;
    size = size_lo + size_hi * 2 ^ 32;
  })

unfoldable pub dir_entry : List ℕ → Result OleError OleDirEntry
dir_entry entry = or_raise struct_error (get_elem? entry 0x42) >>= λ obj_type.
    if obj_type == 0 then ok invalid_entry else valid_entry entry obj_type

-- The first `n` entries, of 128 bytes each.
unfoldable pub dir_entries : ℕ → List ℕ → Result OleError (List OleDirEntry)
dir_entries zero buf = ok []
dir_entries (suc n) buf = do
  entry ← dir_entry (take 128 buf)
  rest ← dir_entries n (drop 128 buf)
  ok (entry ∷ rest)

-- `_read_directory`
unfoldable pub read_directory : List ℕ → Header → List ℕ → Result OleError (List OleDirEntry)
read_directory file h fat = do
  sectors ← dir_walk fat (suc (length fat)) h.first_dir_sect []
  let buf = sectors_bytes file h.sector_size sectors in dir_entries (length buf / 128) buf
