-- ===== src/Bitstreams/Av1.antt =====
-- backends/_bitstreams.py, AV1: `av1_sequence_header`, `av1_set_color` and `av1c_record`.
pub mod Front
pub mod Fields
pub mod Ranged
pub mod Config
pub mod Local
pub mod Positions
pub mod Recolor
pub mod SetColor
use opencodecs.Common.{
  ℕ, zero, suc, ◌+◌, ◌-◌, ◌*◌, ◌/◌, ◌%◌, List, [], ◌∷◌, ◌++◌, Bool, true, false, ◌&&◌, not,
}
use opencodecs.Common.{Option, none, some, ltb, ◌==◌, if◌then◌else◌, length, drop, get_elem?}
use opencodecs.Common.Bytes.{slice}
use opencodecs.Bitstreams.{u, bits_of, tobytes, leb128}
use opencodecs.Bitstreams.Reader.{Reader, pure, ◌>>=◌, if_flag}
use opencodecs.Bitstreams.Hevc.Sps.{Color, description}
use opencodecs.Bitstreams.Av1.Front.{Start, start}
use mathlib.Core.Option

-- The result of `av1_sequence_header`: the fields in front of the color configuration, and it.
pub record SequenceHeader : Type 0 where
  pub start : Start
  pub bits : ℕ
  pub mono : ℕ
  pub color : Color
  pub subsampling : ℕ × ℕ
  pub sample_position : ℕ
  pub separate_uv : ℕ
  pub film_grain : ℕ

-- The bit depth.
unfoldable pub depth : ℕ → Reader ℕ
depth profile = do
  high ← u 1
  if high == 0
      then pure 8
      else if profile == 2
      then (do twelve ← u 1; pure (if twelve == 0 then 10 else 12))
      else pure 10

-- Subsampling and sample position, where the color is no identity.
unfoldable pub sampling : ℕ → ℕ → Reader (ℕ × ℕ)
sampling profile bits =
    if profile == 0
    then pure (1, 1)
    else if profile == 1
    then pure (0, 0)
    else if bits == 12
    then (do sx ← u 1; sy ← if sx == 0 then pure 0 else u 1; pure (sx, sy))
    else pure (1, 0)

abbrev pub both : ℕ × ℕ → Bool
both (sx, sy) = not (sx == 0) && not (sy == 0)

unfoldable pub position_of : ℕ × ℕ → Reader ℕ
position_of s = if both s then u 2 else pure 0

abbrev pub identity : ℕ × ℕ × ℕ → Bool
identity (cp, tc, mc) = cp == 1 && tc == 13 && mc == 0

-- Full range, subsampling and sample position of a color that is described.
unfoldable pub ranged : ℕ → ℕ → ℕ → ℕ × ℕ × ℕ → Reader (Bool × (ℕ × ℕ) × ℕ)
ranged profile bits mono color =
    if not (mono == 0)
    then (do full ← u 1; pure (not (full == 0), (1, 1), 0))
    else if identity color
    then pure (true, (0, 0), 0)
    else (do
      full ← u 1
      s ← sampling profile bits
      position ← position_of s
      pure (not (full == 0), s, position))

unfoldable pub color_config : Start → Reader SequenceHeader
color_config start = do
  bits ← depth start.profile
  mono ← if start.profile == 1 then pure 0 else u 1
  (cp, tc, mc) ← if_flag (2, 2, 2) description
  (full, s, position) ← ranged start.profile bits mono (cp, tc, mc)
  separate ← if mono == 0 then u 1 else pure 0
  film_grain ← u 1
  pure (record {
    start = start;
    bits = bits;
    mono = mono;
    color = (cp, tc, mc, full);
    subsampling = s;
    sample_position = position;
    separate_uv = separate;
    film_grain = film_grain;
  })

unfoldable pub sequence : Reader SequenceHeader
sequence = do head ← start; color_config head

-- `av1_sequence_header`
unfoldable pub av1_sequence_header : List ℕ → Option SequenceHeader
av1_sequence_header payload = Option.map (λ r. r.0) (sequence payload 0)

-- The parts of a color configuration, as `av1_set_color` writes them.
unfoldable pub depth_bits : ℕ → ℕ → List ℕ
depth_bits profile bits =
    (if ltb 8 bits then 1 else 0)
    ∷ (if profile == 2 && ltb 8 bits then (if bits == 12 then 1 else 0) ∷ [] else [])

unfoldable pub sampling_bits : ℕ → ℕ → ℕ × ℕ → List ℕ
sampling_bits profile bits (sx, sy) =
    if profile == 2 && bits == 12
    then bits_of 1 sx ++ (if sx == 0 then [] else bits_of 1 sy)
    else []

unfoldable pub position_bits : ℕ × ℕ → ℕ → List ℕ
position_bits s position = if both s then bits_of 2 position else []

unfoldable pub ranged_bits : SequenceHeader → Bool → List ℕ
ranged_bits info full =
    (if full then 1 else 0)
    ∷ (sampling_bits info.start.profile info.bits info.subsampling
        ++ position_bits info.subsampling info.sample_position)

unfoldable pub color_bits : SequenceHeader → Color → List ℕ
color_bits info (cp, tc, mc, full) =
    depth_bits info.start.profile info.bits
    ++ ((if info.start.profile == 1 then [] else 0 ∷ [])
        ++ ((1 ∷ (bits_of 8 cp ++ (bits_of 8 tc ++ bits_of 8 mc)))
            ++ (ranged_bits info full
                ++ (bits_of 1 info.separate_uv ++ bits_of 1 info.film_grain))))

-- The header and the extension byte, the size and the payload.
unfoldable pub join_obu : ℕ → List ℕ → List ℕ → List ℕ
join_obu header obu payload =
    header
    ∷ ((if header / 4 % 2 == 0 then [] else slice obu 1 2) ++ (leb128 (length payload) ++ payload))

-- `av1_set_color`; `none` is a ValueError or an IndexError.
unfoldable pub av1_set_color : List ℕ → ℕ → Color → Option (List ℕ)
av1_set_color obu payload_at (cp, tc, mc, full) = elim (av1_sequence_header (drop payload_at obu)) [
  | none ↦ none
  | some info ↦ elim (u info.start.color_config_at (drop payload_at obu) 0) [
    | none ↦ none
    | some (copied, at) ↦ elim (get_elem? obu 0) [
      | none ↦ none
      | some header ↦
          if not (info.mono == 0)
          then none
          else if identity (cp, tc, mc)
          then none
          else some (
              join_obu header obu (
                tobytes (
                  bits_of info.start.color_config_at copied
                  ++ (color_bits info (cp, tc, mc, full) ++ (1 ∷ [])))))
    ]
  ]
]
