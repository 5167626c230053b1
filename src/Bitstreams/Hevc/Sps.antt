-- ===== src/Bitstreams/Hevc/Sps.antt =====
-- backends/_bitstreams.py, HEVC: `hevc_sps`.
use opencodecs.Common.{ℕ, ◌+◌, List, Bool, true, false}
use opencodecs.Common.{Option, none, some, ◌==◌, if◌then◌else◌, not}
use opencodecs.Bitstreams.{u, ue, rbsp}
use opencodecs.Bitstreams.Reader.{Reader, pure, position, ◌>>=◌, ◌>>◌, skip, times, if_flag}
use opencodecs.Bitstreams.Hevc.{profile_tier_level, scaling_list_data, hrd_parameters}
use opencodecs.Bitstreams.Hevc.Sets.{ref_sets}
use mathlib.Core.Option

-- What stands in front of the VUI, with the positions in `at`.
pub record Head : Type 0 where
  pub layers : ℕ
  pub chroma : ℕ
  pub width : ℕ
  pub height : ℕ
  pub luma_bits : ℕ
  pub chroma_bits : ℕ
  pub dpb : List (ℕ × ℕ × ℕ)
  pub dpb_at : ℕ × ℕ
  pub rps_at : ℕ × ℕ
  pub vui_at : ℕ

-- `(primaries, transfer, matrix, full_range)`
abbrev pub Color : Type 0
Color = ℕ × ℕ × ℕ × Bool

-- The result of `hevc_sps`; the positions of the VUI are there if it is.
pub record Sps : Type 0 where
  pub head : Head
  pub vui : Color
  pub signal_at : Option (ℕ × ℕ)
  pub hrd_at : Option (ℕ × ℕ)

unfoldable pub ues : ℕ → Reader (Unit {0})
ues n = do times n ue; pure tt

unfoldable pub dpb_sizes : Reader (ℕ × ℕ × ℕ)
dpb_sizes = do a ← ue; b ← ue; c ← ue; pure (a, b, c)

-- Sizes, chroma format and bit depths: layers, chroma, width, height, luma and chroma bits.
unfoldable pub sps_sizes : Reader (ℕ × ℕ × ℕ × ℕ × ℕ × ℕ)
sps_sizes = do
  skip 4
  layers ← u 3
  skip 1
  profile_tier_level layers
  ue
  chroma ← ue
  if chroma == 3 then skip 1 else pure tt
  width ← ue
  height ← ue
  if_flag tt (ues 4)
  luma ← ue
  chroma_depth ← ue
  pure (layers, chroma, width, height, 8 + luma, 8 + chroma_depth)

-- Block sizes, scaling lists, loop filters and PCM.
unfoldable pub sps_tools : Reader (Unit {0})
sps_tools = do
  ues 6
  if_flag tt (if_flag tt scaling_list_data)
  skip 1
  skip 1
  if_flag tt (do skip 4; skip 4; ues 2; skip 1)

unfoldable pub long_term : ℕ → Reader (Unit {0})
long_term log2_max_poc_lsb = do n ← ue; times n (do skip log2_max_poc_lsb; skip 1); pure tt

unfoldable pub sps_head : Reader Head
sps_head = do
  (layers, chroma, width, height, luma, chroma_depth) ← sps_sizes
  lsb ← ue
  ordering ← u 1
  dpb_start ← position
  dpb ← times (if ordering == 0 then 1 else layers + 1) dpb_sizes
  dpb_end ← position
  sps_tools
  rps ← position
  count ← ue
  ref_sets count none
  rps_end ← position
  if_flag tt (long_term (lsb + 4))
  skip 1
  skip 1
  vui_at ← position
  pure (record {
    layers = layers;
    chroma = chroma;
    width = width;
    height = height;
    luma_bits = luma;
    chroma_bits = chroma_depth;
    dpb = dpb;
    dpb_at = (dpb_start, dpb_end);
    rps_at = (rps, rps_end);
    vui_at = vui_at;
  })

-- Up to the video signal type: the fields, and whether there is a VUI.
unfoldable pub sps_front : Reader (Head × Bool)
sps_front = do
  head ← sps_head
  vui ← u 1
  if vui == 0 then pure (head, false) else (do
    if_flag tt (do idc ← u 8; if idc == 255 then skip 32 else pure tt)
    if_flag tt (skip 1)
    pure (head, true))

abbrev pub unspecified : Color
unspecified = (2, 2, 2, false)

-- The color description of a video signal type, and the signal type itself.
unfoldable pub description : Reader (ℕ × ℕ × ℕ)
description = do cp ← u 8; tc ← u 8; mc ← u 8; pure (cp, tc, mc)

unfoldable pub video_signal : Reader Color
video_signal = if_flag unspecified (do
  skip 3
  full ← u 1
  (cp, tc, mc) ← if_flag (2, 2, 2) description
  pure (cp, tc, mc, not (full == 0)))

-- Behind the video signal type: the positions of the HRD parameters, if the timing is there.
unfoldable pub vui_rest : ℕ → Reader (Option (ℕ × ℕ))
vui_rest layers = do
  if_flag tt (ues 2)
  skip 3
  if_flag tt (ues 4)
  if_flag none (do
    skip 64
    if_flag tt (ues 1)
    hrd ← position
    if_flag tt (hrd_parameters layers)
    hrd_end ← position
    pure (some (hrd, hrd_end)))

unfoldable pub sps_back : Head → Reader Sps
sps_back head = do
  start ← position
  color ← video_signal
  end ← position
  hrd ← vui_rest head.layers
  pure (record { head = head; vui = color; signal_at = some (start, end); hrd_at = hrd })

abbrev pub without_vui : Head → Sps
without_vui head = record { head = head; vui = unspecified; signal_at = none; hrd_at = none }

unfoldable pub sps : Reader Sps
sps = do (head, vui) ← sps_front; if vui then sps_back head else pure (without_vui head)

-- `hevc_sps`
unfoldable pub hevc_sps : List ℕ → Option Sps
hevc_sps nal = Option.map (λ r. r.0) (sps (rbsp nal) 0)
