-- ===== src/Bitstreams/Hevc/Front.antt =====
-- backends/_bitstreams.py, `hevc_sps`: what is read in front of the video signal type, and behind it,
-- at two places.
use opencodecs.Common.{Bool, true, false, ℕ, Option, none, some, ◌==◌, if◌then◌else◌}
use opencodecs.Bitstreams.{u}
use opencodecs.Bitstreams.Reader.{Reader, pure, skip, ◌>>=◌, ◌>>◌, position, if_flag}
use opencodecs.Bitstreams.Moves.{
  Places, in_place, anywhere, Moves, IsLocal, IsLocal-then, Moves-bind, Moves-pure, Moves-position,
  IsLocal-position,
}
use opencodecs.Bitstreams.Local.{local_rules}
use opencodecs.Bitstreams.Hevc.Local.{
  IsLocal-profile_tier_level, IsLocal-scaling_list_data, IsLocal-hrd_parameters, IsLocal-ref_sets,
}
use opencodecs.Bitstreams.Hevc.{hrd_parameters}
use opencodecs.Bitstreams.Hevc.Sps.{
  ues, dpb_sizes, sps_sizes, sps_tools, long_term, sps_head, sps_front, vui_rest,
}

IsLocal-ues : (places : Places) (n : ℕ) → IsLocal places (ues n)
unfolding ues
IsLocal-ues places n = search local_rules

IsLocal-sps_sizes : (places : Places) → IsLocal places sps_sizes
unfolding sps_sizes
IsLocal-sps_sizes places =
    search (local_rules, IsLocal-profile_tier_level, IsLocal-ues) depth 20 fits 3000

IsLocal-sps_tools : (places : Places) → IsLocal places sps_tools
unfolding sps_tools
IsLocal-sps_tools places =
    search (local_rules, IsLocal-scaling_list_data, IsLocal-ues) depth 20 fits 3000

IsLocal-long_term : (places : Places) (n : ℕ) → IsLocal places (long_term n)
unfolding long_term
IsLocal-long_term places n = search local_rules depth 9

pub IsLocal-dpb_sizes : (places : Places) → IsLocal places dpb_sizes
unfolding dpb_sizes
IsLocal-dpb_sizes places = search local_rules depth 9

IsLocal-sps_head : IsLocal in_place sps_head
unfolding sps_head
IsLocal-sps_head =
    search
      (
        local_rules, IsLocal-position, IsLocal-sps_sizes, IsLocal-sps_tools, IsLocal-long_term,
        IsLocal-dpb_sizes, IsLocal-ref_sets,
      )
      depth 40 fits 5000

pub IsLocal-sps_front : IsLocal in_place sps_front
unfolding sps_front
IsLocal-sps_front = search (local_rules, IsLocal-sps_head) depth 20 fits 3000

-- The positions that `vui_rest` gives move with it.
abbrev pub Any : Option (ℕ × ℕ) → Option (ℕ × ℕ) → Type 0
Any a b = Unit

then-Any :
    {A : Type 0} (p : Reader A) (f : A → Reader (Option (ℕ × ℕ)))
    → IsLocal anywhere p
    → ((a : A) → Moves anywhere Any (f a) (f a))
    → Moves anywhere Any (p >>= f) (p >>= f)
then-Any p f = IsLocal-then anywhere Any p f f

flag-Any :
    (p : Reader (Option (ℕ × ℕ)))
    → Moves anywhere Any p p
    → Moves anywhere Any (if_flag none p) (if_flag none p)
unfolding if_flag
flag-Any p h =
    then-Any (u 1) (λ b. if b == 0 then pure none else p) (search local_rules)
      (λ b. either (b == 0) p h)
  where
    either :
        (b : Bool) (q : Reader (Option (ℕ × ℕ)))
        → Moves anywhere Any q q
        → Moves anywhere Any (if b then pure none else q) (if b then pure none else q)
    either true q k = Moves-pure anywhere Any none none tt
    either false q k = k

abbrev hrd_end : ℕ → ℕ → Reader (Option (ℕ × ℕ))
hrd_end layers start = do
  if_flag tt (hrd_parameters layers)
  end ← position
  pure (some (start, end))

hrd_end-Moves : (layers a b : ℕ) → Moves anywhere Any (hrd_end layers a) (hrd_end layers b)
hrd_end-Moves layers a b =
    IsLocal-then anywhere Any (if_flag tt (hrd_parameters layers))
      (λ _. position >>= (λ end. pure (some (a, end))))
      (λ _. position >>= (λ end. pure (some (b, end))))
      (search (local_rules, IsLocal-hrd_parameters))
      (λ _.
        Moves-bind anywhere (λ m n. Unit) Any position (λ end. pure (some (a, end)))
          (λ end. pure (some (b, end))) (λ m. tt) (Moves-position anywhere)
          (λ m n r. Moves-pure anywhere Any (some (a, m)) (some (b, n)) tt))

abbrev timing : ℕ → Reader (Option (ℕ × ℕ))
timing layers = do skip 64; if_flag tt (ues 1); hrd ← position; hrd_end layers hrd

timing-Moves : (layers : ℕ) → Moves anywhere Any (timing layers) (timing layers)
timing-Moves layers =
    then-Any (skip 64) (λ _. if_flag tt (ues 1) >> (position >>= hrd_end layers))
      (search local_rules)
      (λ _.
        then-Any (if_flag tt (ues 1)) (λ _. position >>= hrd_end layers)
          (search (local_rules, IsLocal-ues))
          (λ _.
            Moves-bind anywhere (λ m n. Unit) Any position (hrd_end layers) (hrd_end layers)
              (λ m. tt) (Moves-position anywhere) (λ m n r. hrd_end-Moves layers m n)))

pub vui_rest-Moves : (layers : ℕ) → Moves anywhere Any (vui_rest layers) (vui_rest layers)
unfolding vui_rest
vui_rest-Moves layers =
    then-Any (if_flag tt (ues 2))
      (λ _. skip 3 >> (if_flag tt (ues 4) >> if_flag none (timing layers)))
      (search (local_rules, IsLocal-ues))
      (λ _.
        then-Any (skip 3) (λ _. if_flag tt (ues 4) >> if_flag none (timing layers))
          (search local_rules)
          (λ _.
            then-Any (if_flag tt (ues 4)) (λ _. if_flag none (timing layers))
              (search (local_rules, IsLocal-ues))
              (λ _. flag-Any (timing layers) (timing-Moves layers))))
