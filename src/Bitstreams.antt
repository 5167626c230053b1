-- ===== src/Bitstreams.antt =====
-- src/opencodecs/backends/_bitstreams.py: the byte and bit codes of HEVC and AV1 headers, namely
-- emulation prevention, the bit reader and writer, exp-Golomb numbers, LEB128 and the OBU split.
pub mod Emulation
pub mod Golomb
pub mod Leb128
pub mod Reader
pub mod Moves
pub mod Local
pub mod Packing
pub mod Prints
pub mod Hevc
pub mod Rewrite
pub mod Obus
pub mod Annexb
pub mod Records
pub mod Av1
mod Tests
pub mod HeaderTests
use opencodecs.Common.{
  ℕ, zero, suc, ◌+◌, ◌-◌, ◌*◌, ◌/◌, ◌%◌, ◌^◌, List, [], ◌∷◌, ◌++◌, Bool, true, false,
}
use opencodecs.Common.{
  ◌&&◌, Option, none, some, ltb, leb, ◌==◌, if◌then◌else◌, length, drop, replicate, get_elem?,
}
use opencodecs.Common.Bits.{bit_length}
use mathlib.Core.Option

-- The loop of `rbsp` from a count of zero bytes on: emulation prevention bytes are dropped.
pub rbsp_from : ℕ → List ℕ → List ℕ
rbsp_from run [] = []
rbsp_from run (b ∷ l) =
    let kept = b ∷ rbsp_from (if b == 0 then run + 1 else 0) l in
    let skipped = rbsp_from 0 l in if leb 2 run && b == 3 then skipped else kept

-- `rbsp`: the payload behind the two header bytes.
pub rbsp : List ℕ → List ℕ
rbsp nal = rbsp_from 0 (drop 2 nal)

-- The loop of `_ebsp` from a count of zero bytes on.
pub ebsp_from : ℕ → List ℕ → List ℕ
ebsp_from run [] = []
ebsp_from run (b ∷ l) =
    let guarded = leb 2 run && leb b 3 in
    let run' = if guarded then 0 else run in
    let rest = b ∷ ebsp_from (if b == 0 then run' + 1 else 0) l in
    if guarded then 3 ∷ rest else rest

-- `_ebsp`
pub ebsp : List ℕ → List ℕ
ebsp payload = ebsp_from 0 payload

-- `(self.data[self.pos >> 3] >> (7 - (self.pos & 7))) & 1`; `none` is the IndexError past the end.
pub bit_at : List ℕ → ℕ → Option ℕ
bit_at bytes at = Option.map (λ byte. byte / 2 ^ (7 - at % 8) % 2) (get_elem? bytes (at / 8))

-- The loop of `_Bits.u`: the value so far, and the position behind the bits.
pub u_from : ℕ → ℕ → List ℕ → ℕ → Option (ℕ × ℕ)
u_from zero value bytes at = some (value, at)
u_from (suc n) value bytes at = elim (bit_at bytes at) [
  | none ↦ none
  | some bit ↦ u_from n (value * 2 + bit) bytes (at + 1)
]

-- `_Bits.u`
abbrev pub u : ℕ → List ℕ → ℕ → Option (ℕ × ℕ)
u n bytes at = u_from n 0 bytes at

-- `while self.u(1) == 0` of `_Bits.ue`: the zero bits counted, and the position behind the one bit.
-- `none` is the IndexError, or the ValueError after more than 31; `room` is how many are left of them.
pub zero_prefix : ℕ → List ℕ → ℕ → Option (ℕ × ℕ)
zero_prefix zero bytes at = elim (u 1 bytes at) [
  | none ↦ none
  | some (bit, at') ↦ if bit == 0 then none else some (0, at')
]
zero_prefix (suc room) bytes at = elim (u 1 bytes at) [
  | none ↦ none
  | some (bit, at') ↦
      let more = Option.map (λ p. (suc p.0, p.1)) (zero_prefix room bytes at') in
      if bit == 0 then more else some (0, at')
]

-- `_Bits.ue`
pub ue : List ℕ → ℕ → Option (ℕ × ℕ)
ue bytes at = elim (zero_prefix 31 bytes at) [
  | none ↦ none
  | some (count, at') ↦ Option.map (λ p. (2 ^ count - 1 + p.0, p.1)) (u count bytes at')
]

-- The bits that `_BitWriter.u` appends: `n` of the value, most significant first.
pub bits_of : ℕ → ℕ → List ℕ
bits_of zero value = []
bits_of (suc n) value = value / 2 ^ n % 2 ∷ bits_of n value

-- A chunk of up to `n` bits as a number, filled with zero bits at the end.
pub chunk_value : ℕ → List ℕ → ℕ
chunk_value zero bits = 0
chunk_value (suc n) [] = 0
chunk_value (suc n) (b ∷ bits) = b * 2 ^ n + chunk_value n bits

-- `_BitWriter.tobytes`: the loop, and the call; a round takes a bit at least.
pub tobytes_loop : ℕ → List ℕ → List ℕ
tobytes_loop fuel [] = []
tobytes_loop zero (b ∷ bits) = []
tobytes_loop (suc fuel) (b ∷ bits) =
    chunk_value 8 (b ∷ bits) ∷ tobytes_loop fuel (drop 8 (b ∷ bits))

pub tobytes : List ℕ → List ℕ
tobytes bits = tobytes_loop (length bits) bits

-- `_ue_bits`
pub ue_bits : ℕ → List ℕ
ue_bits value = let n = bit_length (value + 1) in replicate (n - 1) 0 ++ bits_of n (value + 1)

-- `_leb128`: the value and the bytes behind it; `rounds` is what is left of `range(8)`. `none` is the
-- ValueError, or the IndexError past the end.
pub leb128_from : ℕ → ℕ → ℕ → List ℕ → Option (ℕ × List ℕ)
leb128_from zero value shift l = none
leb128_from (suc rounds) value shift [] = none
leb128_from (suc rounds) value shift (byte ∷ l) =
    let value' = value + byte % 128 * 2 ^ shift in
    let more = leb128_from rounds value' (shift + 7) l in
    if ltb byte 128 then some (value', l) else more

pub read_leb128 : List ℕ → Option (ℕ × List ℕ)
read_leb128 l = leb128_from 8 0 0 l

-- `leb128`; `fuel` bounds the rounds, and one for each bit of the value is enough.
pub leb128_loop : ℕ → ℕ → List ℕ
leb128_loop zero value = []
leb128_loop (suc fuel) value =
    let rest = leb128_loop fuel (value / 128) in
    if value / 128 == 0 then value % 128 ∷ [] else (value % 128 + 128) ∷ rest

pub leb128 : ℕ → List ℕ
leb128 value = leb128_loop (suc value) value
