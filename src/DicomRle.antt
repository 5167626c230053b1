-- ===== src/DicomRle.antt =====
-- src/opencodecs/_dicomrle_codec.py: the DICOM RLE container, a 64-byte header of offsets and up to
-- 15 PackBits segments, one for each byte plane. How an array is split into planes is not here.
pub mod Layout
pub mod RoundTrip
mod Tests
use opencodecs.Common.{
  ℕ, zero, suc, ◌+◌, ◌-◌, ◌^◌, List, [], ◌∷◌, ◌++◌, Bool, true, false, ◌&&◌, ◌||◌,
}
use opencodecs.Common.{Option, none, some, ltb, leb, if◌then◌else◌, length, take, replicate, map}
use opencodecs.Common.Result.{Result, ok, raise, ◌>>=◌, or_raise}
use opencodecs.Common.Bytes.{pack_words, unpack_words, slice, join}
use opencodecs.PackBits.{encode, packbits_decode}

-- Where the source raises, in the order of the checks.
pub data RleError : Type 0 where
  too_many_segments offset_too_large : RleError
  short_header bad_count bad_offsets bad_segment too_many_planes too_few_planes : RleError

-- `header_words[1 + i] = offset; offset += len(e)`
pub offsets_from : ℕ → List (List ℕ) → List ℕ
offsets_from offset [] = []
offsets_from offset (e ∷ encoded) = offset ∷ offsets_from (offset + length e) encoded

abbrev pub header_words : List (List ℕ) → List ℕ
header_words encoded =
    length encoded ∷ (offsets_from 64 encoded ++ replicate (15 - length encoded) 0)

-- What `struct.pack("<16I", ...)` accepts.
pub all_u32 : List ℕ → Bool
all_u32 [] = true
all_u32 (w ∷ words) = ltb w (2 ^ 32) && all_u32 words

-- The header and the segments behind it.
pub container : List (List ℕ) → Result RleError (List ℕ)
container encoded =
    if all_u32 (header_words encoded)
    then ok (pack_words (header_words encoded) ++ join encoded)
    else raise offset_too_large

-- `_encode_dicomrle`, from the byte planes of the array on.
pub encode_planes : List (List ℕ) → Result RleError (List ℕ)
encode_planes segments =
    if ltb 15 (length segments) then raise too_many_segments else container (map encode segments)

-- `any(a >= b for a, b in zip(offsets, offsets[1:]))`
pub not_increasing : List ℕ → Bool
not_increasing (a ∷ b ∷ offsets) = leb b a || not_increasing (b ∷ offsets)
not_increasing _ = false

abbrev pub last_of : ℕ → List ℕ → ℕ
last_of a [] = a
last_of a (b ∷ l) = last_of b l

pub invalid_offsets : ℕ → List ℕ → Bool
invalid_offsets size [] = false
invalid_offsets size (a ∷ offsets) =
    ltb a 64 || (ltb size (last_of a offsets) || not_increasing (a ∷ offsets))

-- `buf[boundaries[i]:boundaries[i + 1]]` for each segment.
pub pieces : List ℕ → List ℕ → List (List ℕ)
pieces buf (a ∷ b ∷ boundaries) = slice buf a b ∷ pieces buf (b ∷ boundaries)
pieces buf _ = []

-- The loop of `_assemble_dicomrle_array` over the segments, which are decoded as it goes: `room` is
-- how many planes the array still takes.
pub read_planes : ℕ → ℕ → List (List ℕ) → Result RleError (List (List ℕ))
read_planes plane zero [] = ok []
read_planes plane (suc room) [] = raise too_few_planes
read_planes plane zero (p ∷ ps) = do
  segment ← or_raise bad_segment (packbits_decode p (some plane))
  raise too_many_planes
read_planes plane (suc room) (p ∷ ps) = do
  segment ← or_raise bad_segment (packbits_decode p (some plane))
  rest ← read_planes plane room ps
  ok (segment ∷ rest)

-- What `_decode_dicomrle` does with the 16 words of the header; there are always 16.
pub read_segments : List ℕ → ℕ → ℕ → List ℕ → Result RleError (List (List ℕ))
read_segments buf plane planes [] = raise short_header
read_segments buf plane planes (count ∷ fields) =
    let offsets = take count fields in
    if ltb count 1 || ltb 15 count
    then raise bad_count
    else if invalid_offsets (length buf) offsets
    then raise bad_offsets
    else read_planes plane planes (pieces buf (offsets ++ (length buf ∷ [])))

-- `_decode_dicomrle`, down to the byte planes of the array: `plane` bytes each, `planes` of them.
pub decode_planes : List ℕ → ℕ → ℕ → Result RleError (List (List ℕ))
decode_planes buf plane planes =
    if ltb (length buf) 64
    then raise short_header
    else read_segments buf plane planes (unpack_words 16 buf)
