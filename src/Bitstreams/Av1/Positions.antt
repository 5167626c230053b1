-- ===== src/Bitstreams/Av1/Positions.antt =====
-- backends/_bitstreams.py, `av1_sequence_header`: `color_config_at`.
use opencodecs.Common.{ℕ, List, some, ◌≡◌, refl, sym, ◌∙◌, ap, some_pair}
use opencodecs.Bitstreams.Reader.{Reader, pure, position, ◌>>=◌}
use opencodecs.Bitstreams.Moves.{bind-cases}
use opencodecs.Bitstreams.Av1.Front.{Start, start}

-- What holds of the result of a run and the position behind it.
record Ends {A : Type 0} (p : Reader A) (Q : A → ℕ → Type 0) : Type 0 where
  pub ends : (bytes : List ℕ) (at : ℕ) (a : A) (at' : ℕ) → p bytes at ≡ some (a, at') → Q a at'

Ends-bind :
    {A B : Type 0} (p : Reader A) (f : A → Reader B) (Q : B → ℕ → Type 0)
    → ((a : A) → Ends (f a) Q)
    → Ends (p >>= f) Q
Ends-bind p f Q h = record {
  ends = λ bytes at b end run.
      let (a, m, _, rest) = bind-cases p f bytes at (b, end) run in (h a).ends bytes m b end rest;
}

Ends-position :
    (f : ℕ → Start)
    → ((n : ℕ) → (f n).color_config_at ≡ n)
    → Ends (position >>= (λ at. pure (f at))) (λ s at. s.color_config_at ≡ at)
unfolding position pure
Ends-position f h = record {
  ends = λ bytes at s end run.
      let (a, m, e, rest) = bind-cases position (λ at. pure (f at)) bytes at (s, end) run in
      let (x, y) = some_pair e in
      let (z, w) = some_pair rest in
      ap (λ (t : Start). t.color_config_at) (sym z) ∙ h a ∙ sym x ∙ y ∙ w;
}

start-Ends : Ends start (λ s at. s.color_config_at ≡ at)
unfolding start
start-Ends = search (Ends-bind, Ends-position, refl) depth 40 fits 3000

pub start-ends :
    (bytes : List ℕ) (at : ℕ) (s : Start) (at' : ℕ)
    → start bytes at ≡ some (s, at')
    → s.color_config_at ≡ at'
start-ends bytes at s at' h = start-Ends.ends bytes at s at' h
