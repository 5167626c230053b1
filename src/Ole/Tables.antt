-- ===== src/Ole/Tables.antt =====
-- src/opencodecs/_ole2.py: `_parse_header`, `_read_fat` and `_read_minifat`.
use opencodecs.Common.{
  ℕ, zero, suc, ◌+◌, ◌-◌, ◌*◌, ◌/◌, ◌^◌, List, [], ◌∷◌, ◌++◌, Bool, true, false, ◌&&◌, ◌||◌,
}
use opencodecs.Common.{ltb, leb, ◌==◌, if◌then◌else◌, length, take, drop}
use opencodecs.Common.Bytes.{unpack_words, u32_word}
use opencodecs.Common.Result.{Result, ok, raise, ◌>>=◌}
use opencodecs.Ole.{
  OleError, bad_magic, bad_byte_order, struct_error, end_of_chain, free_sector, read_at,
  read_sector, read_chain,
}

-- `struct.unpack_from` of `n` 32-bit words from the start; of one word and of one half word at a place.
unfoldable pub words : ℕ → List ℕ → Result OleError (List ℕ)
words n buf = if leb (4 * n) (length buf) then ok (unpack_words n buf) else raise struct_error

unfoldable pub first_word : List ℕ → ℕ
first_word (a ∷ b ∷ c ∷ d ∷ l) = u32_word a b c d
first_word _ = 0

unfoldable pub word_at : List ℕ → ℕ → Result OleError ℕ
word_at buf at =
    if leb (at + 4) (length buf) then ok (first_word (drop at buf)) else raise struct_error

unfoldable pub first_half : List ℕ → ℕ
first_half (a ∷ b ∷ l) = a + 256 * b
first_half _ = 0

unfoldable pub half_at : List ℕ → ℕ → Result OleError ℕ
half_at buf at =
    if leb (at + 2) (length buf) then ok (first_half (drop at buf)) else raise struct_error

-- The fields of the header that are used.
pub record Header : Type 0 where
  pub sector_size : ℕ
  pub mini_sector_size : ℕ
  pub n_fat_sectors : ℕ
  pub first_dir_sect : ℕ
  pub mini_cutoff : ℕ
  pub first_mini_fat : ℕ
  pub n_mini_fat : ℕ
  pub first_difat : ℕ
  pub n_difat : ℕ
  pub header_difat : List ℕ

unfoldable pub same_bytes : List ℕ → List ℕ → Bool
same_bytes [] [] = true
same_bytes (a ∷ xs) (b ∷ ys) = a == b && same_bytes xs ys
same_bytes _ _ = false

abbrev pub ole_magic : List ℕ
ole_magic = 0xD0 ∷ 0xCF ∷ 0x11 ∷ 0xE0 ∷ 0xA1 ∷ 0xB1 ∷ 0x1A ∷ 0xE1 ∷ []

unfoldable pub header_fields : List ℕ → Result OleError Header
header_fields header = do
  shift ← half_at header 30
  mini_shift ← half_at header 32
  n_fat ← word_at header 44
  first_dir ← word_at header 48
  cutoff ← word_at header 56
  first_mini ← word_at header 60
  n_mini ← word_at header 64
  first_difat ← word_at header 68
  n_difat ← word_at header 72
  difat ← words 109 (drop 76 header)
  ok (record {
    sector_size = 2 ^ shift;
    mini_sector_size = 2 ^ mini_shift;
    n_fat_sectors = n_fat;
    first_dir_sect = first_dir;
    mini_cutoff = cutoff;
    first_mini_fat = first_mini;
    n_mini_fat = n_mini;
    first_difat = first_difat;
    n_difat = n_difat;
    header_difat = difat;
  })

-- `_parse_header`: the first format reads the two shifts with the byte order.
unfoldable pub parse_header : List ℕ → Result OleError Header
parse_header file =
    let header = read_at file 0 512 in
    if same_bytes (take 8 header) ole_magic
    then (do
      _shift ← half_at header 32
      order ← half_at header 28
      if order == 0xFFFE then header_fields header else raise bad_byte_order)
    else raise bad_magic

-- `fat_sectors.append(s)` for the entries, up to `n` of them.
unfoldable pub collect : ℕ → List ℕ → List ℕ → List ℕ
collect n found [] = found
collect n found (s ∷ entries) =
    let found' = if s == free_sector then found else found ++ (s ∷ []) in
    let more = collect n found' entries in if leb n (length found') then found' else more

-- The loop over the DIFAT sectors, with `rounds` rounds left; a size below a word makes no format.
unfoldable pub difat_loop : List ℕ → Header → ℕ → ℕ → List ℕ → Result OleError (List ℕ)
difat_loop file h zero difat found = ok found
difat_loop file h (suc rounds) difat found =
    if difat == end_of_chain
    then ok found
    else if ltb h.sector_size 4
    then raise struct_error
    else words (h.sector_size / 4 - 1) (read_sector file h.sector_size difat) >>= λ entries.
        word_at (read_sector file h.sector_size difat) ((h.sector_size / 4 - 1) * 4) >>= λ next.
        difat_loop file h rounds next (collect h.n_fat_sectors found entries)

-- The entries of the sectors of the table.
unfoldable pub table : List ℕ → ℕ → List ℕ → Result OleError (List ℕ)
table file size [] = ok []
table file size (s ∷ sectors) = do
  entries ← words (size / 4) (read_sector file size s)
  rest ← table file size sectors
  ok (entries ++ rest)

-- `_read_fat`
unfoldable pub read_fat : List ℕ → Header → Result OleError (List ℕ)
read_fat file h = do
  sectors ← difat_loop file h h.n_difat h.first_difat (collect h.n_fat_sectors [] h.header_difat)
  table file h.sector_size sectors

-- `_read_minifat`
unfoldable pub read_minifat : List ℕ → Header → List ℕ → Result OleError (List ℕ)
read_minifat file h fat =
    if h.first_mini_fat == end_of_chain || h.n_mini_fat == 0 then ok [] else (do
      buf ← read_chain file fat h.sector_size h.first_mini_fat (h.n_mini_fat * h.sector_size)
      words (length buf / 4) buf)
