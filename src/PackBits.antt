-- ===== src/PackBits.antt =====
-- src/opencodecs/_dicomrle_codec.py: the PackBits coder of a DICOM RLE segment. A byte is a number
-- below 256 and a buffer a list of bytes; the index `i` of the source is the list that is left.
pub mod Encode
pub mod Decode
pub mod Size
mod Tests
use opencodecs.Common.{
  ℕ, zero, suc, ◌+◌, ◌-◌, ◌%◌, ◌<◌, List, [], ◌∷◌, ◌++◌, Bool, true, false, ◌&&◌,
}
use opencodecs.Common.{
  Option, none, some, ltb, leb, ◌==◌, if◌then◌else◌, length, take, drop, replicate,
}

abbrev pub IsByte : ℕ → Type 0
IsByte b = b < 256

abbrev pub AllBytes : List ℕ → Type 0
AllBytes [] = Unit
AllBytes (b ∷ bs) = IsByte b × AllBytes bs

-- `while j < n and j - i < 128 and buf[j] == buf[i]`: the bytes equal to `x`, `room` at most.
unfoldable pub same_run : ℕ → ℕ → List ℕ → ℕ
same_run zero x l = 0
same_run (suc room) x [] = 0
same_run (suc room) x (y ∷ l) = if y == x then suc (same_run room x l) else 0

-- `j + 2 < n and buf[j] == buf[j + 1] == buf[j + 2]`
unfoldable pub triple : List ℕ → Bool
triple (a ∷ b ∷ c ∷ l) = a == b && b == c
triple _ = false

-- `while j < n and j - i < 128` with its `break`: the bytes before three equal ones.
unfoldable pub literal_run : ℕ → List ℕ → ℕ
literal_run zero l = 0
literal_run (suc room) [] = 0
literal_run (suc room) (y ∷ l) =
    let rest = suc (literal_run room l) in if triple (y ∷ l) then 0 else rest

-- The loop of `_packbits_encode`, one packet a round. A round takes a byte at least.
unfoldable pub encode_loop : ℕ → List ℕ → List ℕ
encode_loop fuel [] = []
encode_loop zero (x ∷ l) = []
encode_loop (suc fuel) (x ∷ l) =
    let run_len = suc (same_run 127 x l) in
    let lit_len = suc (literal_run 127 l) in
    let after_run = (257 - run_len) % 256 ∷ (x ∷ encode_loop fuel (drop run_len (x ∷ l))) in
    let after_literal =
      (lit_len - 1) ∷ (take lit_len (x ∷ l) ++ encode_loop fuel (drop lit_len (x ∷ l))) in
    if leb 3 run_len then after_run else after_literal

-- `_packbits_encode`
unfoldable pub encode : List ℕ → List ℕ
encode buf = encode_loop (length buf) buf

-- `limit < 0 or len(out) < limit`, for an `expected_size` that may be None.
abbrev pub wants_more : Option ℕ → List ℕ → Bool
wants_more none out = true
wants_more (some limit) out = ltb (length out) limit

-- The loop of `packbits_decode_dicom`. A round takes a byte at least.
unfoldable pub decode_loop : ℕ → Option ℕ → List ℕ → List ℕ → List ℕ
decode_loop fuel limit [] out = out
decode_loop zero limit (h ∷ l) out = out
decode_loop (suc fuel) limit (h ∷ l) out =
    let skip = decode_loop fuel limit l out in
    let literal = decode_loop fuel limit (drop (h + 1) l) (out ++ take (h + 1) l) in
    let copies : List ℕ = elim l [
      | [] ↦ out
      | b ∷ l' ↦ decode_loop fuel limit l' (out ++ replicate (257 - h) b)
    ] in
    if wants_more limit out
    then (if h == 128 then skip else if ltb h 128 then literal else copies)
    else out

-- `del out[limit:]`
abbrev pub cut : Option ℕ → List ℕ → List ℕ
cut none out = out
cut (some limit) out = if ltb limit (length out) then take limit out else out

unfoldable pub packbits_decode_dicom : List ℕ → Option ℕ → List ℕ
packbits_decode_dicom buf limit = cut limit (decode_loop (length buf) limit buf [])

-- `_packbits_decode` with an expected size; `none` is its ValueError.
unfoldable pub packbits_decode : List ℕ → Option ℕ → Option (List ℕ)
packbits_decode buf none = some (packbits_decode_dicom buf none)
packbits_decode buf (some size) =
    let out = packbits_decode_dicom buf (some size) in if length out == size then some out else none
