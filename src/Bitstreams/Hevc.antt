-- ===== src/Bitstreams/Hevc.antt =====
-- backends/_bitstreams.py, HEVC: the fields of a sequence parameter set.
pub mod Sets
pub mod Sps
pub mod Local
pub mod Front
use opencodecs.Common.{ℕ, zero, suc, ◌+◌, ◌-◌, ◌*◌, ◌^◌, min, List, [], ◌∷◌, Bool, true, false}
use opencodecs.Common.{◌||◌, ◌&&◌, not, Option, none, some, ltb, leb, ◌==◌, if◌then◌else◌}
use opencodecs.Bitstreams.{u, ue}
use opencodecs.Bitstreams.Reader.{
  Reader, pure, fail, position, ◌>>=◌, ◌>>◌, skip, times, if_flag, se,
}

-- `_profile_tier_level`
unfoldable pub sub_layer_flags : Reader (ℕ × ℕ)
sub_layer_flags = do profile ← u 1; level ← u 1; pure (profile, level)

unfoldable pub sub_layers : List (ℕ × ℕ) → Reader (Unit {0})
sub_layers [] = pure tt
sub_layers ((profile, level) ∷ present) = do
  if profile == 0 then pure tt else skip 88
  if level == 0 then pure tt else skip 8
  sub_layers present

unfoldable pub profile_tier_level : ℕ → Reader (Unit {0})
profile_tier_level layers = do
  skip 96
  present ← times layers sub_layer_flags
  if layers == 0 then pure tt else skip (2 * (8 - layers))
  sub_layers present

-- One scaling list, of the size class `size_id`.
unfoldable pub scaling_list : ℕ → Reader (Unit {0})
scaling_list size_id = do
  own ← u 1
  if own == 0 then (do ue; pure tt) else (do
    if ltb 1 size_id then (do se; pure tt) else pure tt
    times (min 64 (2 ^ (4 + 2 * size_id))) se
    pure tt)

-- `_scaling_list_data`
unfoldable pub scaling_list_data : Reader (Unit {0})
scaling_list_data = do
  times 6 (scaling_list 0)
  times 6 (scaling_list 1)
  times 6 (scaling_list 2)
  times 2 (scaling_list 3)
  pure tt

-- One CPB entry of `_hrd_parameters`.
unfoldable pub cpb_entry : ℕ → Reader (Unit {0})
cpb_entry sub_pic = do ue; ue; if sub_pic == 0 then pure tt else (do ue; ue; pure tt); skip 1

-- What `_hrd_parameters` reads for one sub-layer; `kinds` is `nal + vcl`.
unfoldable pub hrd_layer : ℕ → ℕ → Reader (Unit {0})
hrd_layer kinds sub_pic = do
  general ← u 1
  fixed ← if general == 0 then u 1 else pure general
  low_delay ← if fixed == 0 then u 1 else (do ue; pure 0)
  count ← if low_delay == 0 then (do k ← ue; pure (k + 1)) else pure 1
  times kinds (times count (cpb_entry sub_pic))
  pure tt

-- The part of `_hrd_parameters` that is there for NAL or VCL parameters: `sub_pic`.
unfoldable pub hrd_common : ℕ → Reader ℕ
hrd_common kinds = if kinds == 0 then pure 0 else (do
  sub_pic ← u 1
  if sub_pic == 0 then pure tt else skip 19
  skip 8
  if sub_pic == 0 then pure tt else skip 4
  skip 15
  pure sub_pic)

-- `_hrd_parameters`
unfoldable pub hrd_parameters : ℕ → Reader (Unit {0})
hrd_parameters layers = do
  nal ← u 1
  vcl ← u 1
  sub_pic ← hrd_common (nal + vcl)
  times (layers + 1) (hrd_layer (nal + vcl) sub_pic)
  pure tt
