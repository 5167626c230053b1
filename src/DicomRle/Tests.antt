-- ===== src/DicomRle/Tests.antt =====
-- Concrete runs of the DICOM RLE container, and its theorems at concrete inputs.
use opencodecs.Common.{ℕ, ◌≡◌, refl, arith, List, [], ◌∷◌, ◌++◌}
use opencodecs.Common.Bytes.{join, u32_bytes, u32_word, pack_words, unpack_words}
use opencodecs.Common.Result.{ok, raise}
use opencodecs.PackBits
use opencodecs.DicomRle.{bad_offsets, offsets_from, header_words, all_u32, container, encode_planes}
use opencodecs.DicomRle.{not_increasing, invalid_offsets, pieces, read_planes, read_segments}
use opencodecs.DicomRle.{decode_planes}
use opencodecs.DicomRle.RoundTrip.{padded, decode-padded, decode-encode_planes}

program : Unit {0}
unfolding u32_bytes u32_word pack_words unpack_words offsets_from all_u32 container encode_planes
    not_increasing invalid_offsets pieces read_planes read_segments decode_planes
program = tt

abbrev segments : List (List ℕ × List ℕ)
segments = (1 ∷ 1 ∷ [], 0 ∷ []) ∷ (2 ∷ 3 ∷ [], []) ∷ []

abbrev file : List ℕ
file = pack_words (header_words (padded segments)) ++ join (padded segments)

file-container : container (padded segments) ≡ ok file
unfolding program PackBits.encode PackBits.encode_loop PackBits.same_run PackBits.literal_run
    PackBits.triple
file-container = refl

-- An empty plane in a container of two gives two equal offsets, which the decoder refuses.
empty_planes :
    (encode_planes ([] ∷ [] ∷ []) ≡ ok (pack_words (header_words ([] ∷ [] ∷ []))))
    × (decode_planes (pack_words (header_words ([] ∷ [] ∷ []))) 0 2 ≡ raise bad_offsets)
unfolding program PackBits.encode PackBits.encode_loop
empty_planes = (refl, refl)

decode-padded_example : decode_planes file 2 2 ≡ ok ((1 ∷ 1 ∷ []) ∷ (2 ∷ 3 ∷ []) ∷ [])
decode-padded_example =
    decode-padded segments file 2 (omega arith) (omega arith) (omega arith) (refl, (refl, tt))
      file-container

decode-encode_planes_example :
    (buf : List ℕ) × (encode_planes ((1 ∷ 1 ∷ []) ∷ (2 ∷ 3 ∷ []) ∷ []) ≡ ok buf)
    × (decode_planes buf 2 2 ≡ ok ((1 ∷ 1 ∷ []) ∷ (2 ∷ 3 ∷ []) ∷ []))
unfolding PackBits.encode PackBits.encode_loop PackBits.same_run PackBits.literal_run
    PackBits.triple
decode-encode_planes_example =
    decode-encode_planes ((1 ∷ 1 ∷ []) ∷ (2 ∷ 3 ∷ []) ∷ []) 2 (omega arith) (omega arith)
      (omega arith) (refl, (refl, tt)) (omega arith)
