-- ===== src/Packints/Tests.antt =====
-- Runs of src/opencodecs/_packints_codec.py, and the theorems at concrete inputs.
use opencodecs.Common.{ℕ, List, [], ◌∷◌, ◌++◌, ◌*◌, ◌≡◌, inr, refl, none, some, arith, length}
use opencodecs.Packints.{
  bitpack_paired, pack_paired, pack_pair, all_fit, check_layout, unpack_paired, sample_count,
  msb_first, run_bytes,
}
use opencodecs.Packints.Paired.{AllBelow, unpack_paired-bitpack_paired}

abbrev two_samples : List ℕ
two_samples = 2748 ∷ 291 ∷ []

two_samples_packed : bitpack_paired two_samples 2 12 0 ≡ some (171 ∷ 60 ∷ 18 ∷ [])
unfolding bitpack_paired pack_paired pack_pair all_fit check_layout
two_samples_packed = refl

too_large : bitpack_paired two_samples 2 10 0 ≡ none
unfolding bitpack_paired all_fit check_layout
too_large = refl

unpack_paired-bitpack_paired_example :
    (bytes : List ℕ) × (bitpack_paired two_samples 2 12 0 ≡ some bytes)
    × AllBelow 256 bytes
    × (length bytes * 2 ≡ length two_samples * 3)
    × ((pad : List ℕ) → unpack_paired (bytes ++ pad) 12 (length two_samples) ≡ some two_samples)
unpack_paired-bitpack_paired_example =
    unpack_paired-bitpack_paired two_samples 2 12 (inr refl) (omega arith, (omega arith, tt)) refl

-- 3 samples of 12 bits take 5 bytes, with 4 bits of padding.
samples_counted : sample_count 5 12 0 msb_first ≡ 3
unfolding sample_count
samples_counted = refl

-- Two runs of 3 samples, each from a byte on.
runs_counted : sample_count (2 * run_bytes 3 12) 12 3 msb_first ≡ 6
unfolding sample_count
runs_counted = refl
