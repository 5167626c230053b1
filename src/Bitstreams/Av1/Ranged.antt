-- ===== src/Bitstreams/Av1/Ranged.antt =====
-- backends/_bitstreams.py, AV1: range, subsampling and sample position of a color configuration.
use opencodecs.Common.{
  ℕ, List, ◌∷◌, ◌++◌, Bool, true, false, not, some, ◌≡◌, refl, ◌==◌, if◌then◌else◌, some_pair,
}
use mathlib.Core.Path.{subst}
use opencodecs.Bitstreams.{u}
use opencodecs.Bitstreams.Reader.{Reader, pure, ◌>>=◌}
use opencodecs.Bitstreams.Moves.{bind-cases}
use opencodecs.Bitstreams.Prints.{Prints, Prints-bind, Prints-map, Prints-bit}
use opencodecs.Bitstreams.Av1.{
  sampling, sampling_bits, position_of, position_bits, identity, ranged,
}
use opencodecs.Bitstreams.Av1.Fields.{sampling-Prints, position_of-Prints}

-- The range and what follows it, for a color that is no identity.
abbrev plain_rest : ℕ → ℕ → ℕ → ℕ × ℕ → Reader (Bool × (ℕ × ℕ) × ℕ)
plain_rest profile bits full s = do position ← position_of s; pure (not (full == 0), s, position)

abbrev pub plain : ℕ → ℕ → Reader (Bool × (ℕ × ℕ) × ℕ)
plain profile bits = do full ← u 1; s ← sampling profile bits; plain_rest profile bits full s

pub plain-Prints :
    (profile bits : ℕ) (bytes : List ℕ) (at : ℕ) (r : Bool × (ℕ × ℕ) × ℕ) (at' : ℕ) (full : Bool)
    → ((bits == 12) ≡ true → (profile == 2) ≡ true)
    → plain profile bits bytes at ≡ some (r, at')
    → Prints
        (plain profile bits)
        (full, r.1, r.2)
        ((if full then 1 else 0) ∷ (sampling_bits profile bits r.1 ++ position_bits r.1 r.2))
unfolding pure
plain-Prints profile bits bytes at r at' full c h =
    let (old, m, e, h1) =
      bind-cases (u 1) (λ old. do s ← sampling profile bits; plain_rest profile bits old s) bytes at
        (r, at') h in
    let (s, m1, e1, h2) =
      bind-cases (sampling profile bits) (plain_rest profile bits old) bytes m (r, at') h1 in
    let (position, m2, e2, h3) =
      bind-cases (position_of s) (λ position. pure (not (old == 0), s, position)) bytes m1 (r, at')
        h2 in
    subst
      (λ (t : Bool × (ℕ × ℕ) × ℕ).
        Prints (plain profile bits) (full, t.1, t.2)
          ((if full then 1 else 0) ∷ (sampling_bits profile bits t.1 ++ position_bits t.1 t.2)))
      (some_pair h3).0
      (go full (sampling-Prints profile bits bytes m s m1 c e1)
        (position_of-Prints s bytes m1 position m2 e2))
  where
    go :
        (full : Bool) {s : ℕ × ℕ} {position : ℕ}
        → Prints (sampling profile bits) s (sampling_bits profile bits s)
        → Prints (position_of s) position (position_bits s position)
        → Prints
            (plain profile bits)
            (full, s, position)
            ((if full then 1 else 0) ∷ (sampling_bits profile bits s ++ position_bits s position))
    go true {s = s} p q =
        Prints-bind (λ full. do s ← sampling profile bits; plain_rest profile bits full s)
          (Prints-bit 1)
          (Prints-bind (plain_rest profile bits 1) p
            (Prints-map (λ position. (true, s, position)) q))
    go false {s = s} p q =
        Prints-bind (λ full. do s ← sampling profile bits; plain_rest profile bits full s)
          (Prints-bit 0)
          (Prints-bind (plain_rest profile bits 0) p
            (Prints-map (λ position. (false, s, position)) q))

pub ranged-plain :
    (profile bits mono : ℕ) (color : ℕ × ℕ × ℕ)
    → (mono == 0) ≡ true
    → identity color ≡ false
    → ranged profile bits mono color ≡ plain profile bits
unfolding ranged
ranged-plain profile bits mono color h k = rw (h, k) refl
