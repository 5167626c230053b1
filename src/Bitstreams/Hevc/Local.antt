-- ===== src/Bitstreams/Hevc/Local.antt =====
-- backends/_bitstreams.py, HEVC: the parts of a sequence parameter set, read at two places.
use opencodecs.Common.{ℕ, zero, suc, List, [], ◌∷◌, Option, none, some, ◌==◌, if◌then◌else◌}
use opencodecs.Common.Int.{ℤ}
use opencodecs.Bitstreams.Reader.{pure, skip, ◌>>◌}
use opencodecs.Bitstreams.Moves.{Places, IsLocal, IsLocal-bind}
use opencodecs.Bitstreams.Local.{local_rules}
use opencodecs.Bitstreams.Hevc.{
  sub_layer_flags, sub_layers, profile_tier_level, scaling_list, scaling_list_data, cpb_entry,
  hrd_layer, hrd_common, hrd_parameters,
}
use opencodecs.Bitstreams.Hevc.Sets.{
  use_flag, predicted_set, explicit, explicit_set, ref_set, ref_sets, RefSet,
}

module _ (places : Places) where
  IsLocal-sub_layer_flags : IsLocal places sub_layer_flags
  unfolding sub_layer_flags
  IsLocal-sub_layer_flags = search local_rules

  IsLocal-sub_layers : (present : List (ℕ × ℕ)) → IsLocal places (sub_layers present)
  unfolding sub_layers
  IsLocal-sub_layers [] = search local_rules
  IsLocal-sub_layers ((p, l) ∷ present) =
      IsLocal-bind places (if p == 0 then pure tt else skip 88)
        (λ _. (if l == 0 then pure tt else skip 8) >> sub_layers present) (search local_rules)
        (λ _.
          IsLocal-bind places (if l == 0 then pure tt else skip 8) (λ _. sub_layers present)
            (search local_rules) (λ _. IsLocal-sub_layers present))

  pub IsLocal-profile_tier_level : (layers : ℕ) → IsLocal places (profile_tier_level layers)
  unfolding profile_tier_level
  IsLocal-profile_tier_level layers =
      search (local_rules, IsLocal-sub_layer_flags, IsLocal-sub_layers)

  IsLocal-scaling_list : (size_id : ℕ) → IsLocal places (scaling_list size_id)
  unfolding scaling_list
  IsLocal-scaling_list size_id = search local_rules depth 9

  pub IsLocal-scaling_list_data : IsLocal places scaling_list_data
  unfolding scaling_list_data
  IsLocal-scaling_list_data = search (local_rules, IsLocal-scaling_list) depth 9

  IsLocal-cpb_entry : (sub_pic : ℕ) → IsLocal places (cpb_entry sub_pic)
  unfolding cpb_entry
  IsLocal-cpb_entry sub_pic = search local_rules depth 9

  IsLocal-hrd_layer : (kinds sub_pic : ℕ) → IsLocal places (hrd_layer kinds sub_pic)
  unfolding hrd_layer
  IsLocal-hrd_layer kinds sub_pic = search (local_rules, IsLocal-cpb_entry) depth 9

  IsLocal-hrd_common : (kinds : ℕ) → IsLocal places (hrd_common kinds)
  unfolding hrd_common
  IsLocal-hrd_common kinds = search local_rules depth 12

  pub IsLocal-hrd_parameters : (layers : ℕ) → IsLocal places (hrd_parameters layers)
  unfolding hrd_parameters
  IsLocal-hrd_parameters layers =
      search (local_rules, IsLocal-hrd_common, IsLocal-hrd_layer) depth 9

  IsLocal-predicted_set : (before : RefSet) → IsLocal places (predicted_set before)
  unfolding predicted_set use_flag
  IsLocal-predicted_set (s0, s1) = search local_rules depth 9

  IsLocal-explicit : (step : ℤ → ℕ → ℤ) (n : ℕ) (poc : ℤ) → IsLocal places (explicit step n poc)
  unfolding explicit
  IsLocal-explicit step zero poc = search local_rules
  IsLocal-explicit step (suc n) poc = search (local_rules, IsLocal-explicit step n) depth 9

  IsLocal-explicit_set : IsLocal places explicit_set
  unfolding explicit_set
  IsLocal-explicit_set = search (local_rules, IsLocal-explicit) depth 9

  IsLocal-ref_set : (before : Option RefSet) → IsLocal places (ref_set before)
  unfolding ref_set
  IsLocal-ref_set none = IsLocal-explicit_set
  IsLocal-ref_set (some before) = search (local_rules, IsLocal-explicit_set, IsLocal-predicted_set)

  pub IsLocal-ref_sets :
      (count : ℕ) (before : Option RefSet) → IsLocal places (ref_sets count before)
  unfolding ref_sets
  IsLocal-ref_sets zero before = search local_rules
  IsLocal-ref_sets (suc count) before =
      search (local_rules, IsLocal-ref_set, IsLocal-ref_sets count)
