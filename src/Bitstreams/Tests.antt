-- ===== src/Bitstreams/Tests.antt =====
-- Concrete runs of the bitstream codes, and their theorems at concrete inputs.
use opencodecs.Common.{◌+◌, ◌≡◌, refl, arith, [], ◌∷◌, ◌++◌, false, some, none, length}
use opencodecs.Common.Bits.{bit_length}
use opencodecs.Bitstreams.{
  rbsp_from, rbsp, ebsp_from, ebsp, bit_at, u_from, zero_prefix, ue, bits_of,
}
use opencodecs.Bitstreams.{chunk_value, tobytes_loop, tobytes, ue_bits, leb128_from, read_leb128}
use opencodecs.Bitstreams.{leb128_loop, leb128}
use opencodecs.Bitstreams.Emulation.{rbsp-ebsp, has_start_code, no_start_code}
use opencodecs.Bitstreams.Golomb.{ue-ue_bits}
use opencodecs.Bitstreams.Leb128.{read_leb128-leb128}

program : Unit {0}
unfolding bit_length rbsp_from rbsp ebsp_from ebsp bit_at u_from zero_prefix ue bits_of chunk_value
    tobytes_loop tobytes ue_bits leb128_from read_leb128 leb128_loop leb128 has_start_code
program = tt

escaped : ebsp (0 ∷ 0 ∷ 1 ∷ 0 ∷ 0 ∷ 0 ∷ []) ≡ 0 ∷ 0 ∷ 3 ∷ 1 ∷ 0 ∷ 0 ∷ 3 ∷ 0 ∷ []
unfolding program
escaped = refl

golomb_four : tobytes (ue_bits 4) ≡ 0x28 ∷ []
unfolding program
golomb_four = refl

leb128_300 : leb128 300 ≡ 0xac ∷ 2 ∷ []
unfolding program
leb128_300 = refl

-- Nine bytes with the continuation bit are refused.
leb128_long : read_leb128 (128 ∷ 128 ∷ 128 ∷ 128 ∷ 128 ∷ 128 ∷ 128 ∷ 128 ∷ 1 ∷ []) ≡ none
unfolding program
leb128_long = refl

rbsp-ebsp_example : rbsp (66 ∷ 1 ∷ ebsp (0 ∷ 0 ∷ 3 ∷ 0 ∷ 0 ∷ 0 ∷ [])) ≡ 0 ∷ 0 ∷ 3 ∷ 0 ∷ 0 ∷ 0 ∷ []
rbsp-ebsp_example = rbsp-ebsp 66 1 (0 ∷ 0 ∷ 3 ∷ 0 ∷ 0 ∷ 0 ∷ [])

no_start_code_example : has_start_code 0 (ebsp (0 ∷ 0 ∷ 1 ∷ 0 ∷ 0 ∷ [])) ≡ false
no_start_code_example = no_start_code (0 ∷ 0 ∷ 1 ∷ 0 ∷ 0 ∷ [])

ue-ue_bits_example : ue (0x28 ∷ []) 0 ≡ some (4, 0 + length (ue_bits 4))
unfolding program
ue-ue_bits_example =
    ue-ue_bits 4 (0x28 ∷ []) 0 (omega arith) (refl, (refl, (refl, (refl, (refl, tt)))))

read_leb128-leb128_example : read_leb128 (leb128 300 ++ (7 ∷ [])) ≡ some (300, 7 ∷ [])
read_leb128-leb128_example = read_leb128-leb128 300 (7 ∷ []) (omega arith)
