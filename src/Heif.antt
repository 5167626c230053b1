-- ===== src/Heif.antt =====
-- backends/_heifbox.py: the boxes of HEIF and AVIF files, and the coded data in them.
pub mod Bytes
pub mod Prefixed
pub mod Gets
pub mod Fields
pub mod Made
pub mod Config
pub mod Items
pub mod Kinds
pub mod Parse
pub mod Laid
pub mod Handled
pub mod Located
pub mod Entered
pub mod ReadBack
pub mod Packed
pub mod Properties
pub mod Writable
pub mod Sizes
pub mod Written
pub mod Single
pub mod Placed
pub mod Sized
pub mod Colored
pub mod RoundTrip
mod WriteTests
pub mod Writer
pub mod Reasons
mod Tests
use opencodecs.Common.{
  ℕ, zero, suc, ◌+◌, ◌-◌, ◌*◌, ◌/◌, ◌%◌, ◌^◌, List, [], ◌∷◌, ◌++◌, Bool, true, false, ◌||◌,
}
use opencodecs.Common.{
  Option, none, some, ltb, leb, ◌==◌, if◌then◌else◌, length, take, drop, get_elem?,
}
use opencodecs.Common.Bytes.{slice, join}
use opencodecs.Bitstreams.Reader.{Reader, pure, fail, position, ◌>>=◌, ◌>>◌, times}
use opencodecs.Heif.Bytes.{from_be, byte, be, chunk, uint}
use mathlib.Core.Option

-- `(type, payload start, box end)`
abbrev pub Box : Type 0
Box = List ℕ × ℕ × ℕ

-- The size and the head of a box; `none` where a long size is cut off.
unfoldable pub box_size : List ℕ → ℕ → ℕ → Option (ℕ × ℕ)
box_size bytes pos end =
    let size = from_be 0 (slice bytes pos (pos + 4)) in
    if size == 1
    then if ltb end (pos + 16)
      then none
      else some (from_be 0 (slice bytes (pos + 8) (pos + 16)), 16)
    else if size == 0
    then some (end - pos, 8)
    else some (size, 8)

-- The loop of `boxes`, for an `end` within the data; a box takes eight bytes at least.
unfoldable pub boxes_loop : ℕ → List ℕ → ℕ → ℕ → List Box
boxes_loop zero bytes pos end = []
boxes_loop (suc fuel) bytes pos end =
    if leb (pos + 8) end
    then elim (box_size bytes pos end) [
      | none ↦ []
      | some (size, head) ↦
          let rest = boxes_loop fuel bytes (pos + size) end in
          if ltb size head || ltb end (pos + size)
          then []
          else (slice bytes (pos + 4) (pos + 8), pos + head, pos + size) ∷ rest
    ]
    else []

-- `boxes`
unfoldable pub boxes : List ℕ → ℕ → ℕ → List Box
boxes bytes start end = boxes_loop (end - start) bytes start end

-- One round of `length_prefixed_to_annexb`; `none` is the ValueError.
unfoldable pub prefixed_unit : ℕ → List ℕ → Option (List ℕ × List ℕ)
prefixed_unit length_size l =
    let size = from_be 0 (take length_size l) in
    let behind = drop length_size l in
    if ltb (length behind) size then none else some (take size behind, drop size behind)

-- The loop on the bytes that are left. A round takes a byte at least, as the length size is positive.
unfoldable pub annexb_loop : ℕ → ℕ → List ℕ → Option (List ℕ)
annexb_loop zero length_size l = some []
annexb_loop (suc fuel) length_size l =
    if leb length_size (length l)
    then elim (prefixed_unit length_size l) [
      | none ↦ none
      | some (unit, rest) ↦
          Option.map (λ out. (0 ∷ 0 ∷ 0 ∷ 1 ∷ unit) ++ out) (annexb_loop fuel length_size rest)
    ]
    else some []

-- `length_prefixed_to_annexb`
unfoldable pub length_prefixed_to_annexb : List ℕ → ℕ → Option (List ℕ)
length_prefixed_to_annexb payload length_size =
    annexb_loop (suc (length payload)) length_size payload

-- The result of `hvcc`.
pub record Hvcc : Type 0 where
  pub chroma : ℕ
  pub luma_bits : ℕ
  pub chroma_bits : ℕ
  pub length_size : ℕ
  pub nals : List (List ℕ)

unfoldable pub hvcc_nal : Reader (List ℕ)
hvcc_nal = do size ← be 2; chunk size

unfoldable pub hvcc_array : ℕ → Reader (List (List ℕ))
hvcc_array end = do
  chunk 1
  n ← be 2
  nals ← times n hvcc_nal
  at ← position
  if ltb end at then fail else pure nals

-- The fields at fixed places, from the byte 16 of the box on.
unfoldable pub hvcc_fields : ℕ → Reader Hvcc
hvcc_fields end = do
  chroma ← byte
  luma ← byte
  chroma_depth ← byte
  chunk 2
  sizes ← byte
  count ← byte
  arrays ← times count (hvcc_array end)
  pure (record {
    chroma = chroma % 4;
    luma_bits = 8 + luma % 8;
    chroma_bits = 8 + chroma_depth % 8;
    length_size = sizes % 4 + 1;
    nals = join arrays;
  })

-- `hvcc`; `none` is a ValueError, an IndexError or a struct.error.
unfoldable pub hvcc : List ℕ → ℕ → ℕ → Option Hvcc
hvcc bytes start end =
    if ltb end (start + 23)
    then none
    else Option.map (λ r. r.0) (hvcc_fields end bytes (start + 16))
