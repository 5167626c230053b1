-- ===== src/Bitstreams/Records.antt =====
-- backends/_bitstreams.py: `hvcc_record` and `av1c_record`, the configuration boxes of containers.
use opencodecs.Common.{ℕ, ◌+◌, ◌-◌, ◌*◌, ◌/◌, ◌%◌, ◌^◌, List, [], ◌∷◌, ◌++◌}
use opencodecs.Common.{Option, none, some, ltb, ◌==◌, if◌then◌else◌, length, get_elem?}
use opencodecs.Common.Bytes.{slice}
use opencodecs.Bitstreams.{rbsp}
use opencodecs.Bitstreams.Hevc.Sps.{Sps, hevc_sps}
use opencodecs.Bitstreams.Av1.{SequenceHeader}
use mathlib.Core.Option

-- `struct.pack(">H", n)`, `struct.pack(">I", n)` and `bytes([n])`; `none` is the error out of range.
unfoldable pub pack_u16 : ℕ → Option (List ℕ)
pack_u16 n = if ltb n 65536 then some (n / 256 ∷ n % 256 ∷ []) else none

unfoldable pub pack_u32 : ℕ → Option (List ℕ)
pack_u32 n =
    if ltb n (2 ^ 32)
    then some (n / 16777216 ∷ n / 65536 % 256 ∷ n / 256 % 256 ∷ n % 256 ∷ [])
    else none

unfoldable pub pack_u8 : ℕ → Option (List ℕ)
pack_u8 n = if ltb n 256 then some (n ∷ []) else none

infixr 5 ◌++?◌
abbrev pub ◌++?◌ : Option (List ℕ) → Option (List ℕ) → Option (List ℕ)
none ++? q = none
some xs ++? q = Option.map (λ ys. xs ++ ys) q

-- `0xFC | n` and `0xF8 | n`
unfoldable pub or_fc : ℕ → ℕ
or_fc n = n / 256 * 256 + 252 + n % 4

unfoldable pub or_f8 : ℕ → ℕ
or_f8 n = n / 256 * 256 + 248 + n % 8

unfoldable pub box : List ℕ → List ℕ → Option (List ℕ)
box kind body = pack_u32 (8 + length body) ++? some (kind ++ body)

-- An array of one NAL unit.
unfoldable pub nal_array : ℕ → List ℕ → Option (List ℕ)
nal_array kind nal =
    some ((128 + kind) ∷ []) ++? (pack_u16 1 ++? (pack_u16 (length nal) ++? some nal))

-- `hvcC`
abbrev pub hvcc : List ℕ
hvcc = 104 ∷ 118 ∷ 99 ∷ 67 ∷ []

-- The body in front of the arrays; `first` is the first byte of the SPS.
unfoldable pub hvcc_head : List ℕ → ℕ → Sps → Option (List ℕ)
hvcc_head payload first info =
    some (1 ∷ slice payload 1 13)
    ++? (pack_u16 0xF000
        ++? (some (252 ∷ [])
            ++? (pack_u8 (or_fc info.head.chroma)
                ++? (pack_u8 (or_f8 (info.head.luma_bits - 8))
                    ++? (pack_u8 (or_f8 (info.head.chroma_bits - 8))
                        ++? (pack_u16 0
                            ++? some (((first / 2 % 8 + 1) * 8 + first % 2 * 4 + 3) ∷ 3 ∷ [])))))))

-- `hvcc_record`
unfoldable pub hvcc_record : List ℕ → List ℕ → List ℕ → Option (List ℕ)
hvcc_record vps sps pps = elim (hevc_sps sps) [
  | none ↦ none
  | some info ↦ elim (get_elem? (rbsp sps) 0) [
    | none ↦ none
    | some first ↦
        elim (hvcc_head (rbsp sps) first info
          ++? (nal_array 32 vps ++? (nal_array 33 sps ++? nal_array 34 pps))) [
            | none ↦ none
            | some body ↦ box hvcc body
          ]
  ]
]

-- `av1C`
abbrev pub av1c : List ℕ
av1c = 97 ∷ 118 ∷ 49 ∷ 67 ∷ []

-- `av1c_record`, of a header that was read, whose fields do not overlap.
unfoldable pub av1c_record : SequenceHeader → List ℕ → Option (List ℕ)
av1c_record info sequence_header_obu = box av1c (
    129
    ∷ (info.start.profile * 32 + info.start.level)
    ∷ (info.start.tier * 128
        + (if ltb 8 info.bits then 1 else 0) * 64
        + (if info.bits == 12 then 1 else 0) * 32
        + info.mono * 16
        + info.subsampling.0 * 8
        + info.subsampling.1 * 4
        + info.sample_position)
    ∷ 0
    ∷ sequence_header_obu)
