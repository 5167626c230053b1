-- ===== src/Packints.antt =====
-- src/opencodecs/_packints_codec.py: the layouts of packed integers, the paired layout of bit order
-- ">", and how many samples a buffer holds. The bit streams of the other layouts are not here.
pub mod Paired
mod Tests
use opencodecs.Common.{ℕ, zero, suc, ◌+◌, ◌*◌, ◌-◌, ◌/◌, ◌%◌, ◌^◌, List, [], ◌∷◌, Bool, true, false}
use opencodecs.Common.{◌&&◌, ◌||◌, Option, none, some, ltb, leb, ◌==◌, if◌then◌else◌, length, not}
use mathlib.Core.Option

-- `None`, "<", ">" and any other value of `bitorder`.
pub data BitOrder : Type 0 where
  msb_first lsb_first paired unknown : BitOrder

-- `_check_layout`, for a `runlen` that is not negative: whether it returns.
pub check_layout : ℕ → ℕ → BitOrder → Bool
check_layout bps runlen msb_first = leb 1 bps && leb bps 64
check_layout bps runlen lsb_first = leb 1 bps && leb bps 64 && runlen == 0
check_layout bps runlen paired = leb 1 bps && leb bps 64 && runlen == 0 && (bps == 10 || bps == 12)
check_layout bps runlen unknown = false

-- Two samples in three bytes, `low` bits of each in the middle one, whose two parts do not overlap.
pub pack_pair : ℕ → ℕ → ℕ → List ℕ → List ℕ
pack_pair low p q rest = (p / 2 ^ low) ∷ (q % 2 ^ low * 16 + p % 2 ^ low) ∷ (q / 2 ^ low) ∷ rest

-- `_pack_paired`; `none` is its ValueError for an odd count.
pub pack_paired : List ℕ → ℕ → Option (List ℕ)
pack_paired [] bps = some []
pack_paired (p ∷ []) bps = none
pack_paired (p ∷ q ∷ values) bps =
    Option.map (pack_pair (bps - 8) (p % 2 ^ bps) (q % 2 ^ bps)) (pack_paired values bps)

-- `int(flat.max()) >> bitspersample`
pub all_fit : ℕ → List ℕ → Bool
all_fit bps [] = true
all_fit bps (v ∷ values) = v / 2 ^ bps == 0 && all_fit bps values

-- `_bitpack` with bit order ">"; `none` is a ValueError. `itemsize` is the size of a sample in memory.
pub bitpack_paired : List ℕ → ℕ → ℕ → ℕ → Option (List ℕ)
bitpack_paired values itemsize bps runlen =
    if check_layout bps runlen paired
    then (if ltb bps (itemsize * 8) && not (all_fit bps values)
        then none
        else pack_paired values bps)
    else none

-- The samples of each three bytes.
pub unpack_pairs : ℕ → ℕ → List ℕ → List ℕ
unpack_pairs zero low buf = []
unpack_pairs (suc n) low (a ∷ m ∷ b ∷ buf) =
    (a * 2 ^ low + m % 2 ^ low) ∷ (b * 2 ^ low + m / 16 % 2 ^ low) ∷ unpack_pairs n low buf
unpack_pairs (suc n) low buf = []

-- `_unpack_paired`, where the dtype holds every sample; `none` is a ValueError.
pub unpack_paired : List ℕ → ℕ → ℕ → Option (List ℕ)
unpack_paired buf bps n_elements =
    if n_elements % 2 == 0 && leb (n_elements / 2 * 3) (length buf)
    then some (unpack_pairs (n_elements / 2) (bps - 8) buf)
    else none

abbrev pub run_bytes : ℕ → ℕ → ℕ
run_bytes runlen bps = (runlen * bps + 7) / 8

-- `_sample_count`
pub sample_count : ℕ → ℕ → ℕ → BitOrder → ℕ
sample_count nbytes bps runlen paired = nbytes / 3 * 2
sample_count nbytes bps zero order = nbytes * 8 / bps
sample_count nbytes bps (suc r) order = nbytes / run_bytes (suc r) bps * suc r
