-- ===== src/Bitstreams/Av1/Front.antt =====
-- backends/_bitstreams.py, `av1_sequence_header`: the fields in front of the color configuration.
use opencodecs.Common.{ℕ, ◌+◌, ◌*◌}
use opencodecs.Common.{ltb, ◌==◌, if◌then◌else◌, length}
use opencodecs.Bitstreams.{u, zero_prefix}
use opencodecs.Bitstreams.Reader.{Reader, pure, position, ◌>>=◌, ◌>>◌, skip, times, if_flag}

pub record Start : Type 0 where
  pub profile : ℕ
  pub still : ℕ
  pub reduced : ℕ
  pub level : ℕ
  pub tier : ℕ
  pub width : ℕ
  pub height : ℕ
  pub color_config_at : ℕ

-- `while r.u(1) == 0`, which the end of the bytes stops.
unfoldable pub leading_zeros : Reader ℕ
leading_zeros bytes at = zero_prefix (8 * length bytes) bytes at

-- Timing info: `decoder_model` and `buffer_delay_bits`.
unfoldable pub timing_info : Reader (ℕ × ℕ)
timing_info =
    if_flag (0, 0)
      (do
        skip 32
        skip 32
        if_flag tt (do zeros ← leading_zeros; skip zeros)
        model ← u 1
        if model == 0
            then pure (0, 0)
            else (do bits ← u 5; skip 32; skip 5; skip 5; pure (model, bits + 1)))

-- An operating point: its level and tier.
unfoldable pub operating_point : ℕ → ℕ → ℕ → Reader (ℕ × ℕ)
operating_point model delay_bits initial = do
  skip 12
  level ← u 5
  tier ← if ltb 7 level then u 1 else pure 0
  if model == 0 then pure tt else if_flag tt (skip (2 * delay_bits + 1))
  if initial == 0 then pure tt else if_flag tt (skip 4)
  pure (level, tier)

-- The level and tier of the first operating point.
unfoldable pub operating_points : Reader (ℕ × ℕ)
operating_points = do
  (model, delay_bits) ← timing_info
  initial ← u 1
  more ← u 5
  first ← operating_point model delay_bits initial
  times more (operating_point model delay_bits initial)
  pure first

-- `force_sct` and the fields around it.
unfoldable pub frame_tools : Reader (Unit {0})
frame_tools = do
  skip 4
  order_hint ← u 1
  if order_hint == 0 then pure tt else skip 2
  chosen ← u 1
  force_sct ← if chosen == 0 then u 1 else pure 2
  if force_sct == 0 then pure tt else (do any ← u 1; if any == 0 then skip 1 else pure tt)
  if order_hint == 0 then pure tt else skip 3

unfoldable pub start : Reader Start
start = do
  profile ← u 3
  still ← u 1
  reduced ← u 1
  (level, tier) ← if reduced == 0 then operating_points else (do level ← u 5; pure (level, 0))
  width_bits ← u 4
  height_bits ← u 4
  width ← u (width_bits + 1)
  height ← u (height_bits + 1)
  if reduced == 0 then if_flag tt (do skip 4; skip 3) else pure tt
  skip 3
  if reduced == 0 then frame_tools else pure tt
  skip 3
  at ← position
  pure (record {
    profile = profile;
    still = still;
    reduced = reduced;
    level = level;
    tier = tier;
    width = width + 1;
    height = height + 1;
    color_config_at = at;
  })
