-- ===== src/Bitstreams/Reader.antt =====
-- backends/_bitstreams.py: code that reads fields from a `_Bits` one after the other.
use opencodecs.Common.{ℕ, zero, suc, ◌+◌, ◌/◌, ◌%◌, List, [], ◌∷◌}
use opencodecs.Common.{Option, none, some, ◌==◌, if◌then◌else◌}
use opencodecs.Common.Int.{ℤ, pos, ◌-ℤ◌}
use opencodecs.Bitstreams.{u, ue}

-- The bytes and the position, to a value and the position behind it; `none` is an exception.
abbrev pub Reader : Type 0 → Type 0
Reader A = List ℕ → ℕ → Option (A × ℕ)

unfoldable pub pure : {A : Type 0} → A → Reader A
pure a bytes at = some (a, at)

unfoldable pub fail : {A : Type 0} → Reader A
fail bytes at = none

-- `r.pos`
unfoldable pub position : Reader ℕ
position bytes at = some (at, at)

infixl 1 ◌>>=◌ ◌>>◌
unfoldable pub ◌>>=◌ : {A B : Type 0} → Reader A → (A → Reader B) → Reader B
◌>>=◌ p f bytes at = elim (p bytes at) [ none ↦ none | some (a, at') ↦ f a bytes at' ]

abbrev pub ◌>>◌ : {A B : Type 0} → Reader A → Reader B → Reader B
p >> q = p >>= λ _. q

-- `r.u(n)` with its value unused.
unfoldable pub skip : ℕ → Reader (Unit {0})
skip n = do u n; pure tt

-- `for _ in range(n): ...`
unfoldable pub times : {A : Type 0} → ℕ → Reader A → Reader (List A)
times zero p = pure []
times (suc n) p = do x ← p; xs ← times n p; pure (x ∷ xs)

-- `if r.u(1): ...`
unfoldable pub if_flag : {A : Type 0} → A → Reader A → Reader A
if_flag other p = do b ← u 1; if b == 0 then pure other else p

-- `_Bits.se`
unfoldable pub se : Reader ℤ
se = do k ← ue; pure (if k % 2 == 0 then pos 0 -ℤ pos (k / 2) else pos ((k + 1) / 2))
