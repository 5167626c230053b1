-- ===== src/DicomRle/RoundTrip.antt =====
-- Decoding a DICOM RLE container gives back the byte planes that were encoded.
use opencodecs.Common.{ℕ, zero, suc, ◌+◌, ◌-◌, ◌≤◌, ◌<◌, ◌^◌, ◌≡◌, refl, ap, ◌∙◌, sym, arith}
use opencodecs.Common.{List, [], ◌∷◌, ◌++◌, true, map, some}
use opencodecs.Common.{length, take, replicate, length-append, append-nil, Bool-cases}
use opencodecs.Common.{length-replicate, inl, inr, length-map}
use opencodecs.Common.Bytes.{join, AllWords, pack_words, unpack_words}
use opencodecs.Common.Bytes.{unpack_words-pack_words, length-pack_words, take-append}
use opencodecs.Common.Result.{ok}
use opencodecs.PackBits.{encode, packbits_decode}
use opencodecs.PackBits.Decode.{packbits_decode-padded, encode_nonempty}
use opencodecs.DicomRle.{offsets_from, header_words, all_u32, container, encode_planes}
use opencodecs.DicomRle.{pieces, read_planes, read_segments, decode_planes}
use opencodecs.DicomRle.Layout.{NonEmpty, offsets_valid, pieces-offsets, length-offsets_from}

-- A segment of the file: the encoded plane with the pad bytes that a writer may put behind it.
abbrev pub padded : List (List ℕ × List ℕ) → List (List ℕ)
padded [] = []
padded ((plane, pad) ∷ segments) = (encode plane ++ pad) ∷ padded segments

abbrev pub planes_of : List (List ℕ × List ℕ) → List (List ℕ)
planes_of [] = []
planes_of ((plane, pad) ∷ segments) = plane ∷ planes_of segments

-- Every plane has `size` bytes.
abbrev pub AllOfSize : ℕ → List (List ℕ × List ℕ) → Type 0
AllOfSize size [] = Unit
AllOfSize size ((plane, pad) ∷ segments) = (length plane ≡ size) × AllOfSize size segments

read_planes-padded :
    (size : ℕ) (segments : List (List ℕ × List ℕ))
    → AllOfSize size segments
    → read_planes size (length segments) (padded segments) ≡ ok (planes_of segments)
unfolding read_planes
read_planes-padded size [] h = refl
read_planes-padded size ((plane, pad) ∷ segments) h =
    let decoded : packbits_decode (encode plane ++ pad) (some size) ≡ some plane =
      rw (← h.0) (packbits_decode-padded plane pad) in
    rw (decoded, read_planes-padded size segments h.1)

padded-NonEmpty :
    (size : ℕ) (segments : List (List ℕ × List ℕ))
    → 0 < size
    → AllOfSize size segments
    → NonEmpty (padded segments)
padded-NonEmpty size [] pos h = tt
padded-NonEmpty size ((plane, pad) ∷ segments) pos h = (
  omega (arith, h.0, encode_nonempty plane, length-append (encode plane) pad),
  padded-NonEmpty size segments pos h.1,
)

all_u32-AllWords : (words : List ℕ) → all_u32 words ≡ true → AllWords words
unfolding all_u32
all_u32-AllWords [] h = tt
all_u32-AllWords (w ∷ words) h = (ground arith, all_u32-AllWords words (ground arith))

length-padded : (segments : List (List ℕ × List ℕ)) → length (padded segments) ≡ length segments
length-padded [] = refl
length-padded ((plane, pad) ∷ segments) = ap suc (length-padded segments)

-- Reading any container of 1 to 15 parts that are not empty comes down to reading its parts.
decode-container :
    (parts : List (List ℕ)) (buf : List ℕ) (size planes : ℕ)
    → 1 ≤ length parts
    → length parts ≤ 15
    → NonEmpty parts
    → container parts ≡ ok buf
    → decode_planes buf size planes ≡ read_planes size planes parts
unfolding container decode_planes read_segments
decode-container parts buf size planes lo hi full e = elim (Bool-cases (all_u32 words)) [
  | inl fits ↦
      let same : pack_words words ++ join parts ≡ buf = ground (arith, fits, e) in
      rw (← same, unpacked fits, sized, starts)
        (ground (arith, offsets_valid parts (64 + length (join parts)) full refl, sliced))
  | inr large ↦ absurd (ground arith)
]
  where
    words : List ℕ
    words = header_words parts

    count : length words ≡ 16
    count = omega (
      arith,
      length-append (offsets_from 64 parts) (replicate (15 - length parts) 0),
      length-replicate {A = ℕ} (15 - length parts) 0,
      length-offsets_from 64 parts,
    )

    unpacked : all_u32 words ≡ true → unpack_words 16 (pack_words words ++ join parts) ≡ words
    unpacked fits =
        rw (← count) (unpack_words-pack_words words (join parts) (all_u32-AllWords words fits))

    sized : length (pack_words words ++ join parts) ≡ 64 + length (join parts)
    sized =
        omega (arith, length-append (pack_words words) (join parts), length-pack_words words, count)

    starts :
        take (length parts) (offsets_from 64 parts ++ replicate (15 - length parts) 0)
        ≡ offsets_from 64 parts
    starts = take-append _ _ (length parts) (sym (length-offsets_from 64 parts))

    sliced :
        pieces
          (pack_words words ++ join parts)
          (offsets_from 64 parts ++ ((64 + length (join parts)) ∷ []))
        ≡ parts
    sliced =
        pieces-offsets (pack_words words) 64 parts (omega (arith, length-pack_words words, count))

all_u32-append :
    (xs ys : List ℕ) → all_u32 xs ≡ true → all_u32 ys ≡ true → all_u32 (xs ++ ys) ≡ true
unfolding all_u32
all_u32-append [] ys h k = k
all_u32-append (x ∷ xs) ys h k = ground (arith, all_u32-append xs ys)

all_u32-zeros : (n : ℕ) → all_u32 (replicate n 0) ≡ true
unfolding all_u32
all_u32-zeros zero = refl
all_u32-zeros (suc n) = all_u32-zeros n

all_u32-offsets :
    (offset : ℕ) (parts : List (List ℕ))
    → offset + length (join parts) < 2 ^ 32
    → all_u32 (offsets_from offset parts) ≡ true
unfolding all_u32 offsets_from
all_u32-offsets offset [] h = refl
all_u32-offsets offset (p ∷ parts) h =
    ground (arith, length-append p (join parts), all_u32-offsets (offset + length p) parts)

-- The header can be written if the container stays below 4 GiB.
container_total :
    (parts : List (List ℕ))
    → length parts ≤ 15
    → 64 + length (join parts) < 2 ^ 32
    → (buf : List ℕ) × (container parts ≡ ok buf)
unfolding container all_u32
container_total parts few small =
    let rest =
      all_u32-append (offsets_from 64 parts) (replicate (15 - length parts) 0)
        (all_u32-offsets 64 parts small) (all_u32-zeros (15 - length parts)) in
    (pack_words (header_words parts) ++ join parts, ground (arith, rest))

-- One to fifteen planes of one positive size: a container whose segments are their encodings, each
-- with any padding behind it, decodes to these planes, if it is made without an error.
pub decode-padded :
    (segments : List (List ℕ × List ℕ)) (buf : List ℕ) (size : ℕ)
    → 1 ≤ length segments
    → length segments ≤ 15
    → 0 < size
    → AllOfSize size segments
    → container (padded segments) ≡ ok buf
    → decode_planes buf size (length segments) ≡ ok (planes_of segments)
decode-padded segments buf size lo hi pos all e =
    decode-container (padded segments) buf size (length segments)
      (omega (arith, length-padded segments)) (omega (arith, length-padded segments))
      (padded-NonEmpty size segments pos all) e
    ∙ read_planes-padded size segments all

abbrev pub unpadded : List (List ℕ) → List (List ℕ × List ℕ)
unpadded [] = []
unpadded (plane ∷ planes) = (plane, []) ∷ unpadded planes

padded-unpadded : (planes : List (List ℕ)) → padded (unpadded planes) ≡ map encode planes
padded-unpadded [] = refl
padded-unpadded (plane ∷ planes) = rw (append-nil (encode plane), padded-unpadded planes)

planes_of-unpadded : (planes : List (List ℕ)) → planes_of (unpadded planes) ≡ planes
planes_of-unpadded [] = refl
planes_of-unpadded (plane ∷ planes) = ap (◌∷◌ plane) (planes_of-unpadded planes)

length-unpadded : (planes : List (List ℕ)) → length (unpadded planes) ≡ length planes
length-unpadded [] = refl
length-unpadded (plane ∷ planes) = ap suc (length-unpadded planes)

-- 1 to 15 byte planes of one positive size, whose container stays below 4 GiB, are encoded without an
-- error, and decoding what was written returns exactly those planes.
pub decode-encode_planes :
    (planes : List (List ℕ)) (size : ℕ)
    → 1 ≤ length planes
    → length planes ≤ 15
    → 0 < size
    → AllOfSize size (unpadded planes)
    → 64 + length (join (map encode planes)) < 2 ^ 32
    → (buf : List ℕ) × (encode_planes planes ≡ ok buf)
      × (decode_planes buf size (length planes) ≡ ok planes)
decode-encode_planes planes size lo hi pos all small =
    let (buf, written) =
      container_total (map encode planes) (omega (arith, length-map planes encode)) small in
    (
      buf,
      unfold encode_planes in ground (arith, written),
      rw (planes_of-unpadded planes, length-unpadded planes) at
          (decode-padded (unpadded planes) buf size (omega (arith, length-unpadded planes))
            (omega (arith, length-unpadded planes)) pos all (rw (padded-unpadded planes) written)),
    )
