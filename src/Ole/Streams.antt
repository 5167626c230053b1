-- ===== src/Ole/Streams.antt =====
-- src/opencodecs/_ole2.py: `OleReader`, its streams and `_read_mini_chain`.
use opencodecs.Common.{ℕ, zero, suc, ◌+◌, ◌-◌, ◌*◌, min, List, [], ◌∷◌, ◌++◌, Bool, ◌&&◌, not}
use opencodecs.Common.{Option, none, some, ltb, ◌==◌, if◌then◌else◌, length, take, get_elem?}
use opencodecs.Common.Bytes.{slice}
use opencodecs.Common.Result.{Result, ok, raise, ◌>>=◌}
use opencodecs.Ole.{
  OleError, mini_past_fat, mini_short, no_stream, no_root, end_of_chain, read_chain,
}
use opencodecs.Ole.Tables.{Header, same_bytes, parse_header, read_fat, read_minifat}
use opencodecs.Ole.Directory.{OleDirEntry, read_directory}

-- The state that `OleReader.__init__` builds.
pub record OleReader : Type 0 where
  pub file : List ℕ
  pub header : Header
  pub fat : List ℕ
  pub minifat : List ℕ
  pub directory : List OleDirEntry
  pub mini_stream : List ℕ

-- The mini stream, of the root entry.
unfoldable pub read_root : List ℕ → Header → List ℕ → List OleDirEntry → Result OleError (List ℕ)
read_root file h fat [] = raise no_root
read_root file h fat (root ∷ entries) =
    if root.size == 0 then ok [] else read_chain file fat h.sector_size root.start_sect root.size

-- `OleReader.__init__`
unfoldable pub open_ole : List ℕ → Result OleError OleReader
open_ole file = do
  h ← parse_header file
  fat ← read_fat file h
  minifat ← read_minifat file h fat
  directory ← read_directory file h fat
  mini_stream ← read_root file h fat directory
  ok (record {
    file = file;
    header = h;
    fat = fat;
    minifat = minifat;
    directory = directory;
    mini_stream = mini_stream;
  })

abbrev pub is_stream : OleDirEntry → Bool
is_stream e = e.obj_type == 2

-- `list_streams`
unfoldable pub names : List OleDirEntry → List (List ℕ)
names [] = []
names (e ∷ entries) =
    let rest = names entries in
    if is_stream e && not (length e.name == 0) then e.name ∷ rest else rest

abbrev pub list_streams : OleReader → List (List ℕ)
list_streams r = names r.directory

-- The first stream of a name.
unfoldable pub find_stream : List OleDirEntry → List ℕ → Option OleDirEntry
find_stream [] name = none
find_stream (e ∷ entries) name =
    let rest = find_stream entries name in
    if is_stream e && same_bytes e.name name then some e else rest

-- `get_size`
unfoldable pub get_size : OleReader → List ℕ → Result OleError ℕ
get_size r name = elim (find_stream r.directory name) [
  | none ↦ raise no_stream
  | some e ↦ ok e.size
]

-- The loop of `_read_mini_chain`, whose rounds each take a byte at least, as a size is positive.
unfoldable pub mini_loop : ℕ → List ℕ → List ℕ → ℕ → ℕ → ℕ → Result OleError (List ℕ)
mini_loop zero minifat stream size remaining sect =
    if remaining == 0 then ok [] else raise mini_short
mini_loop (suc fuel) minifat stream size remaining sect =
    if remaining == 0
    then ok []
    else if sect == end_of_chain
    then raise mini_short
    else elim (get_elem? minifat sect) [
      | none ↦ raise mini_past_fat
      | some next ↦
          mini_loop fuel minifat stream size (remaining - min size remaining) next >>= λ rest.
          ok (take (min size remaining) (slice stream (sect * size) (sect * size + size)) ++ rest)
    ]

-- `_read_mini_chain`
unfoldable pub read_mini_chain : OleReader → ℕ → ℕ → Result OleError (List ℕ)
read_mini_chain r start n = mini_loop n r.minifat r.mini_stream r.header.mini_sector_size n start

-- `read_stream`, with the `length` that is asked for.
unfoldable pub read_entry : OleReader → OleDirEntry → ℕ → Result OleError (List ℕ)
read_entry r e n =
    if ltb e.size r.header.mini_cutoff
    then read_mini_chain r e.start_sect n
    else read_chain r.file r.fat r.header.sector_size e.start_sect n

unfoldable pub read_stream : OleReader → List ℕ → Option ℕ → Result OleError (List ℕ)
read_stream r name asked = elim (find_stream r.directory name) [
  | none ↦ raise no_stream
  | some e ↦ read_entry r e (elim asked [ none ↦ e.size | some n ↦ min n e.size ])
]
