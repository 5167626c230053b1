-- ===== src/Common/Result.antt =====
-- Results of code that can raise.
use mathlib.Core.Option.{Option, none, some}

pub data Result {ℓ} (E A : Type ℓ) : Type ℓ where
  ok : A → Result E A
  raise : E → Result E A

infixl 5 ◌>>=◌
abbrev pub ◌>>=◌ {ℓ} : {E A B : Type ℓ} → Result E A → (A → Result E B) → Result E B
ok a >>= f = f a
raise e >>= f = raise e

-- An Option whose `none` is one error.
abbrev pub or_raise {ℓ} : {E A : Type ℓ} → E → Option A → Result E A
or_raise e none = raise e
or_raise e (some a) = ok a
