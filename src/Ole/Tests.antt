-- ===== src/Ole/Tests.antt =====
-- src/opencodecs/_ole2.py: a small compound file, and chains in small tables.
use opencodecs.Common.{
  ℕ, List, [], ◌∷◌, ◌++◌, none, some, ◌≡◌, ◌≢◌, ◌↔◌, refl, replicate, take, length, arith,
}
use opencodecs.Common.Int.{◌-ℤ◌}
use opencodecs.Common.Bytes.{u32_word, unpack_words}
use opencodecs.Common.Result.{Result, ok, raise, ◌>>=◌}
use opencodecs.Ole.{
  OleError, end_of_chain, fat_cycle, past_fat, fat_limit, bad_magic, read_chain, walk, read_sectors,
  read_runs, read_sector, member,
}
use opencodecs.Ole.Tables.{
  ole_magic, parse_header, header_fields, same_bytes, half_at, first_half, word_at, first_word,
  words, difat_loop, collect, table, read_fat, read_minifat,
}
use opencodecs.Ole.Directory.{
  read_directory, dir_walk, sectors_bytes, dir_entries, dir_entry, valid_entry, utf16, utf16_from,
}
use opencodecs.Ole.Streams.{
  OleReader, get_size, open_ole, read_root, list_streams, names, read_stream, find_stream,
  read_entry, mini_loop,
}
use opencodecs.Ole.Starts.{Stored, large, read_stream-Stored}
use opencodecs.Ole.Wholes.{AllWhole, read_chain-whole}
use opencodecs.Ole.Errors.{Cycles, Strays, read_chain-errors}
use opencodecs.Ole.Streams.{read_mini_chain}
use opencodecs.Ole.Directory.{OleDirEntry, invalid_entry}
use opencodecs.Ole.Chains.{Leads, here, there, Fresh, done, next}

-- Sectors of two bytes after a header of two.
abbrev small_file : List ℕ
small_file = 0 ∷ 0 ∷ 1 ∷ 2 ∷ 3 ∷ 4 ∷ 5 ∷ 6 ∷ []

abbrev small_table : List ℕ
small_table = 2 ∷ 0 ∷ end_of_chain ∷ []

chain_read : read_chain small_file small_table 2 1 5 ≡ ok (3 ∷ 4 ∷ 1 ∷ 2 ∷ 5 ∷ [])
unfolding read_chain walk member read_sectors read_runs
chain_read = refl

-- The chain ends before the length, and no error tells it.
chain_short : read_chain small_file small_table 2 0 9 ≡ ok (1 ∷ 2 ∷ 5 ∷ 6 ∷ [])
unfolding read_chain walk member read_sectors read_runs
chain_short = refl

chain_cycle : read_chain small_file (1 ∷ 0 ∷ []) 2 0 9 ≡ raise fat_cycle
unfolding read_chain walk member
chain_cycle = refl

chain_past : read_chain small_file (1 ∷ 7 ∷ []) 2 0 9 ≡ raise past_fat
unfolding read_chain walk member
chain_past = refl

mini_read :
    mini_loop 5 (1 ∷ end_of_chain ∷ []) (10 ∷ 11 ∷ 12 ∷ 13 ∷ 14 ∷ []) 3 5 0
    ≡ ok (10 ∷ 11 ∷ 12 ∷ 13 ∷ 14 ∷ [])
unfolding mini_loop
mini_read = refl

-- The mini stream is shorter than its table says.
mini_lost : mini_loop 5 (1 ∷ end_of_chain ∷ []) (10 ∷ 11 ∷ 12 ∷ []) 3 5 0 ≡ ok (10 ∷ 11 ∷ 12 ∷ [])
unfolding mini_loop
mini_lost = refl

surrogates : utf16 (0x3D ∷ 0xD8 ∷ 0 ∷ 0xDE ∷ 65 ∷ 0 ∷ []) ≡ 0x1F600 ∷ 65 ∷ []
unfolding utf16 utf16_from
surrogates = refl

abbrev word : ℕ → List ℕ
word n = n ∷ 0 ∷ 0 ∷ 0 ∷ []

abbrev chain_end : List ℕ
chain_end = 0xFE ∷ 0xFF ∷ 0xFF ∷ 0xFF ∷ []

-- A table in sector 0, the directory in sector 1, and a stream of three bytes in sector 2.
abbrev ole_file : List ℕ
ole_file =
    ole_magic
    ++ replicate 16 0
    ++ (62 ∷ 0 ∷ 3 ∷ 0 ∷ 0xFE ∷ 0xFF ∷ 9 ∷ 0 ∷ 6 ∷ 0 ∷ [])
    ++ replicate 6 0
    ++ word 0
    ++ word 1
    ++ word 1
    ++ word 0
    ++ word 0
    ++ chain_end
    ++ word 0
    ++ chain_end
    ++ word 0
    ++ word 0
    ++ replicate 432 255
    ++ (0xFD ∷ 0xFF ∷ 0xFF ∷ 0xFF ∷ [])
    ++ chain_end
    ++ chain_end
    ++ replicate 500 255
    ++ (82 ∷ replicate 63 0)
    ++ (4 ∷ 0 ∷ 5 ∷ 0 ∷ [])
    ++ replicate 48 255
    ++ chain_end
    ++ replicate 8 0
    ++ (65 ∷ replicate 63 0)
    ++ (4 ∷ 0 ∷ 2 ∷ 0 ∷ [])
    ++ replicate 48 255
    ++ word 2
    ++ word 3
    ++ word 0
    ++ replicate 256 0
    ++ (97 ∷ 98 ∷ 99 ∷ replicate 509 0)

opened : Result OleError OleReader
unfolding open_ole read_root parse_header header_fields same_bytes half_at first_half word_at
    first_word words difat_loop collect table read_fat read_minifat read_sector read_directory
    dir_walk member sectors_bytes dir_entries dir_entry valid_entry utf16 utf16_from read_chain walk
    read_sectors read_runs u32_word unpack_words
opened = open_ole ole_file

stream_read : (opened >>= λ r. read_stream r (65 ∷ []) none) ≡ ok (97 ∷ 98 ∷ 99 ∷ [])
unfolding opened read_stream find_stream read_entry
stream_read = refl

stream_start : (opened >>= λ r. read_stream r (65 ∷ []) (some 2)) ≡ ok (97 ∷ 98 ∷ [])
unfolding opened read_stream find_stream read_entry
stream_start = refl

stream_names : (opened >>= λ r. ok (list_streams r)) ≡ ok ((65 ∷ []) ∷ [])
unfolding opened names
stream_names = refl

stream_size : (opened >>= λ r. get_size r (65 ∷ [])) ≡ ok 3
unfolding opened get_size find_stream
stream_size = refl

not_ole : open_ole small_file ≡ raise bad_magic
unfolding open_ole parse_header same_bytes
not_ole = refl

read_chain-errors_example :
    ((read_chain small_file (1 ∷ 0 ∷ []) 2 0 9 ≡ raise fat_cycle) ↔ Cycles (1 ∷ 0 ∷ []) 2 0 9)
    × ((read_chain small_file (1 ∷ 0 ∷ []) 2 0 9 ≡ raise past_fat) ↔ Strays (1 ∷ 0 ∷ []) 2 0 9)
    × (read_chain small_file (1 ∷ 0 ∷ []) 2 0 9 ≢ raise fat_limit)
read_chain-errors_example = read_chain-errors small_file (1 ∷ 0 ∷ []) 2 0 9

second_sector : Leads small_table 2 5 1 (1 ∷ 0 ∷ 2 ∷ []) 0 end_of_chain
second_sector =
    there 5 1 0 (0 ∷ 2 ∷ []) 0 end_of_chain (omega arith) (λ e. absurd (omega arith)) refl
      (there 3 0 2 (2 ∷ []) 0 end_of_chain (omega arith) (λ e. absurd (omega arith)) refl
        (there 1 2 end_of_chain [] 0 end_of_chain (omega arith) (λ e. absurd (omega arith)) refl
          (here 0 end_of_chain)))

all_new : Fresh [] (1 ∷ 0 ∷ 2 ∷ [])
unfolding member
all_new =
    next [] 1 (0 ∷ 2 ∷ []) refl
      (next (1 ∷ []) 0 (2 ∷ []) refl (next (0 ∷ 1 ∷ []) 2 [] refl (done (2 ∷ 0 ∷ 1 ∷ []))))

small_whole : AllWhole small_file 2 (1 ∷ 0 ∷ 2 ∷ [])
unfolding AllWhole
small_whole = (omega arith, (omega arith, (omega arith, tt)))

read_chain-whole_example :
    (bytes : List ℕ) × (read_chain small_file small_table 2 1 5 ≡ ok bytes)
    × (length bytes ≡ 5)
    × (bytes ≡ take 5 (sectors_bytes small_file 2 (1 ∷ 0 ∷ 2 ∷ [])))
read_chain-whole_example =
    read_chain-whole small_file small_table 2 1 5 (1 ∷ 0 ∷ 2 ∷ []) end_of_chain second_sector
      all_new small_whole

-- A reader with a stream of two bytes in a mini sector.
abbrev mini_reader : OleReader
mini_reader = record {
  file = small_file;
  header = record {
    sector_size = 2;
    mini_sector_size = 2;
    n_fat_sectors = 1;
    first_dir_sect = 0;
    mini_cutoff = 3;
    first_mini_fat = 0;
    n_mini_fat = 1;
    first_difat = end_of_chain;
    n_difat = 0;
    header_difat = [];
  };
  fat = small_table;
  minifat = end_of_chain ∷ [];
  directory = record invalid_entry { name = 66 ∷ []; obj_type = 2; start_sect = 0; size = 2 } ∷ [];
  mini_stream = 8 ∷ 9 ∷ [];
}

-- The reader of the compound file, and the entry of its stream.
reader_of : Result OleError OleReader → OleReader
reader_of (ok r) = r
reader_of (raise e) = mini_reader

ole_reader : OleReader
unfolding reader_of opened
ole_reader = reader_of opened

stream_entry : OleDirEntry
stream_entry = record invalid_entry { name = 65 ∷ []; obj_type = 2; start_sect = 2; size = 3 }

ole_reader-opened : open_ole ole_file ≡ ok ole_reader
unfolding ole_reader open_ole
ole_reader-opened = refl

stream_found : find_stream ole_reader.directory (65 ∷ []) ≡ some stream_entry
unfolding ole_reader stream_entry find_stream ◌-ℤ◌
stream_found = refl

stream_sectors : Leads ole_reader.fat 512 3 2 (2 ∷ []) 0 end_of_chain
unfolding ole_reader
stream_sectors =
    there 3 2 end_of_chain [] 0 end_of_chain (omega arith) (λ e. absurd (omega arith)) refl
      (here 0 end_of_chain)

stream_whole : AllWhole ole_file 512 (2 ∷ [])
unfolding AllWhole
stream_whole = (omega arith, tt)

sector_new : Fresh [] (2 ∷ [])
unfolding member
sector_new = next [] 2 [] refl (done (2 ∷ []))

stream_bytes : List ℕ
stream_bytes = take 3 (sectors_bytes ole_file 512 (2 ∷ []))

stream-Stored : Stored ole_reader stream_entry stream_bytes
unfolding ole_reader stream_entry stream_bytes
stream-Stored = large (2 ∷ []) end_of_chain (omega arith) stream_sectors sector_new stream_whole

read_stream-Stored_example :
    (get_size ole_reader (65 ∷ []) ≡ ok (length stream_bytes))
    × (read_stream ole_reader (65 ∷ []) none ≡ ok stream_bytes)
    × ((n : ℕ) → read_stream ole_reader (65 ∷ []) (some n) ≡ ok (take n stream_bytes))
read_stream-Stored_example =
    read_stream-Stored ole_reader (65 ∷ []) stream_entry stream_bytes stream_found stream-Stored

mini_start : read_stream mini_reader (66 ∷ []) (some 1) ≡ ok (8 ∷ [])
unfolding read_stream find_stream same_bytes read_entry read_mini_chain mini_loop
mini_start = refl
