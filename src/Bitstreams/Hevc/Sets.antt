-- ===== src/Bitstreams/Hevc/Sets.antt =====
-- backends/_bitstreams.py, HEVC: `_short_term_ref_pic_sets`.
use opencodecs.Common.{ℕ, zero, suc, ◌+◌, List, [], ◌∷◌, ◌++◌, Bool, ◌&&◌, ◌||◌, not}
use opencodecs.Common.{Option, none, some, ltb, ◌==◌, if◌then◌else◌, length, take, drop}
use opencodecs.Common.Int.{ℤ, pos, negsuc, ◌+ℤ◌, ◌-ℤ◌, ltb_ℤ}
use opencodecs.Bitstreams.{u, ue}
use opencodecs.Bitstreams.Reader.{Reader, pure, fail, ◌>>=◌, ◌>>◌, times}
use mathlib.Core.List.{reverse}

-- The negative and the positive deltas of a set.
abbrev pub RefSet : Type 0
RefSet = List ℤ × List ℤ

unfoldable pub zip : List ℤ → List ℕ → List (ℤ × ℕ)
zip [] use_flags = []
zip (d ∷ ds) [] = []
zip (d ∷ ds) (b ∷ bs) = (d, b) ∷ zip ds bs

-- The deltas moved by `delta_rps` that have the sign asked for and are used.
unfoldable pub moved : (ℤ → Bool) → ℤ → List (ℤ × ℕ) → List ℤ
moved wanted delta [] = []
moved wanted delta ((d, b) ∷ l) =
    let rest = moved wanted delta l in
    if wanted (d +ℤ delta) && not (b == 0) then (d +ℤ delta) ∷ rest else rest

abbrev pub is_neg : ℤ → Bool
is_neg d = ltb_ℤ d (pos 0)

abbrev pub is_pos : ℤ → Bool
is_pos d = ltb_ℤ (pos 0) d

-- `use[n]` for the last of the flags.
unfoldable pub own_delta : (ℤ → Bool) → ℤ → List ℕ → List ℤ
own_delta wanted delta (b ∷ []) = if wanted delta && not (b == 0) then delta ∷ [] else []
own_delta wanted delta _ = []

-- A set predicted from the one before it, by the flags in `use`.
unfoldable pub predicted : RefSet → ℤ → List ℕ → RefSet
predicted (s0, s1) delta flags =
    let u0 = zip s0 (take (length s0) flags) in
    let u1 = zip s1 (take (length s1) (drop (length s0) flags)) in
    let own = drop (length s0 + length s1) flags in
    (
      moved is_neg delta (reverse u1) ++ (own_delta is_neg delta own ++ moved is_neg delta u0),
      moved is_pos delta (reverse u0) ++ (own_delta is_pos delta own ++ moved is_pos delta u1),
    )

unfoldable pub use_flag : Reader ℕ
use_flag = do used ← u 1; if used == 0 then u 1 else pure 1

unfoldable pub predicted_set : RefSet → Reader RefSet
predicted_set (s0, s1) = do
  sign ← u 1
  k ← ue
  flags ← times (length s0 + length s1 + 1) use_flag
  pure (predicted (s0, s1) (if sign == 0 then pos (k + 1) else negsuc k) flags)

-- The loop over explicit deltas, from `poc` on and in the direction of `step`.
unfoldable pub explicit : (ℤ → ℕ → ℤ) → ℕ → ℤ → Reader (List ℤ)
explicit step zero poc = pure []
explicit step (suc n) poc = do
  k ← ue
  u 1
  rest ← explicit step n (step poc (k + 1))
  pure (step poc (k + 1) ∷ rest)

unfoldable pub explicit_set : Reader RefSet
explicit_set = do
  n_neg ← ue
  n_pos ← ue
  if ltb 16 n_neg || ltb 16 n_pos then fail else (do
    neg ← explicit (λ poc k. poc -ℤ pos k) n_neg (pos 0)
    above ← explicit (λ poc k. poc +ℤ pos k) n_pos (pos 0)
    pure (neg, above))

-- The set at an index, by the one before it.
unfoldable pub ref_set : Option RefSet → Reader RefSet
ref_set none = explicit_set
ref_set (some before) = do b ← u 1; if b == 0 then explicit_set else predicted_set before

unfoldable pub ref_sets : ℕ → Option RefSet → Reader (List RefSet)
ref_sets zero before = pure []
ref_sets (suc count) before = do
  set ← ref_set before
  rest ← ref_sets count (some set)
  pure (set ∷ rest)
