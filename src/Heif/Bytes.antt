-- ===== src/Heif/Bytes.antt =====
-- backends/_heifbox.py: numbers in bytes, most significant first, and readers of them.
use opencodecs.Common.{
  ℕ, zero, suc, ◌+◌, ◌*◌, ◌/◌, ◌%◌, ◌^◌, ◌<◌, List, [], ◌∷◌, none, some, ◌≡◌, refl, leb,
  if◌then◌else◌, length, get_elem?, arith, sym, ◌∙◌, ap,
}
use opencodecs.Common.Bytes.{slice}
use opencodecs.Bitstreams.Reader.{Reader}
use mathlib.Core.Option
use native.Mathlib.Nat.{pow-suc, div-div-eq-div-mul, div-eq_of_lt}

-- `int.from_bytes(b, "big")`, with what was read before in front.
unfoldable pub from_be : ℕ → List ℕ → ℕ
from_be value [] = value
from_be value (b ∷ l) = from_be (value * 256 + b) l

-- `data[at]`, with the place behind it.
unfoldable pub byte : Reader ℕ
byte bytes at = Option.map (λ b. (b, at + 1)) (get_elem? bytes at)

-- `struct.unpack_from` of one number of `n` bytes; `none` is the error past the end.
unfoldable pub be : ℕ → Reader ℕ
be n bytes at =
    if leb (at + n) (length bytes) then some (from_be 0 (slice bytes at (at + n)), at + n) else none

-- `data[at:at + n]`
unfoldable pub chunk : ℕ → Reader (List ℕ)
chunk n bytes at = some (slice bytes at (at + n), at + n)

-- `_uint`
unfoldable pub uint : ℕ → Reader ℕ
uint n bytes at = some (from_be 0 (slice bytes at (at + n)), at + n)

-- A number in `n` bytes.
unfoldable pub be_bytes : ℕ → ℕ → List ℕ
be_bytes zero value = []
be_bytes (suc n) value = value / 256 ^ n % 256 ∷ be_bytes n value

pub length-be_bytes : (n value : ℕ) → length (be_bytes n value) ≡ n
unfolding be_bytes
length-be_bytes zero value = refl
length-be_bytes (suc n) value = ap suc (length-be_bytes n value)

-- With the digits above in front, the bytes read as the number.
from_be-digits : (n value : ℕ) → from_be (value / 256 ^ n) (be_bytes n value) ≡ value
unfolding from_be be_bytes
from_be-digits zero value = omega arith
from_be-digits (suc n) value =
    let q : value / 256 ^ suc n ≡ value / 256 ^ n / 256 =
      ap (λ (t : ℕ). value / t) (pow-suc 256 n) ∙ sym (div-div-eq-div-mul value (256 ^ n) 256) in
    let step : value / 256 ^ suc n * 256 + value / 256 ^ n % 256 ≡ value / 256 ^ n =
      omega (arith, q) in
    ap (λ t. from_be t (be_bytes n value)) step ∙ from_be-digits n value

pub from_be-be_bytes : (n value : ℕ) → value < 256 ^ n → from_be 0 (be_bytes n value) ≡ value
from_be-be_bytes n value h =
    ap (λ t. from_be t (be_bytes n value)) (sym (div-eq_of_lt h)) ∙ from_be-digits n value
