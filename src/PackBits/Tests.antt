-- ===== src/PackBits/Tests.antt =====
-- Concrete runs of the PackBits coder, and its theorems at concrete inputs.
use opencodecs.Common.{ℕ, ◌+◌, ◌/◌, ◌≤◌, ◌≡◌, refl, List, [], ◌∷◌, ◌++◌, none, some, length}
use opencodecs.PackBits.{same_run, triple, literal_run, encode_loop, encode, decode_loop}
use opencodecs.PackBits.{packbits_decode_dicom, packbits_decode}
use opencodecs.PackBits.Decode.{decode-encode_padded, decode-encode}
use opencodecs.PackBits.Size.{length-encode}

program : Unit {0}
unfolding same_run triple literal_run encode_loop encode decode_loop packbits_decode_dicom
    packbits_decode
program = tt

abbrev plane : List ℕ
plane = 5 ∷ 6 ∷ 7 ∷ 7 ∷ 7 ∷ 7 ∷ 8 ∷ []

encode-plane : encode plane ≡ 1 ∷ 5 ∷ 6 ∷ 253 ∷ 7 ∷ 0 ∷ 8 ∷ []
unfolding program
encode-plane = refl

-- A replicate header with nothing behind it, and a no-op byte.
decode_pad : packbits_decode_dicom (128 ∷ 0 ∷ 9 ∷ 200 ∷ []) none ≡ 9 ∷ []
unfolding program
decode_pad = refl

decode_short : packbits_decode (0 ∷ 9 ∷ []) (some 2) ≡ none
unfolding program
decode_short = refl

decode-encode_padded_example :
    packbits_decode_dicom (encode plane ++ (0 ∷ [])) (some (length plane)) ≡ plane
decode-encode_padded_example = decode-encode_padded plane (0 ∷ [])

decode-encode_example : packbits_decode_dicom (encode plane) none ≡ plane
decode-encode_example = decode-encode plane

length-encode_example : length (encode plane) ≤ length plane + (length plane + 127) / 128
length-encode_example = length-encode plane
