-- ===== src/Bitstreams/Local.antt =====
-- backends/_bitstreams.py: `_Bits.u`, `_Bits.ue`, `_Bits.se` and the loops over them, at two places.
use opencodecs.Common.{ℕ, zero, suc, ◌+◌, ◌-◌, ◌*◌, ◌^◌, List, [], Bool, true, false, ◌≡◌}
use opencodecs.Common.{refl, arith, ◌==◌, if◌then◌else◌, sym, Option-cases, inl, inr, Bool-cases}
use mathlib.Core.Option
use opencodecs.Bitstreams.{bit_at, u_from, u, zero_prefix, ue}
use opencodecs.Bitstreams.Reader.{Reader, pure, fail, ◌>>=◌, skip, times, if_flag, se}
use opencodecs.Bitstreams.Moves.{
  Places, Moves, IsLocal, IsLocal-bind, IsLocal-pure, IsLocal-fail, IsLocal-bit, IsLocal-ext, bit,
}

-- The readers of fields, as binds of readers of one bit.
u_from-bind :
    (n value : ℕ) (bytes : List ℕ) (at : ℕ)
    → u_from (suc n) value bytes at ≡ (bit >>= (λ b. u_from n (value * 2 + b))) bytes at
unfolding u_from bit ◌>>=◌
u_from-bind n value bytes at = elim (Option-cases (bit_at bytes at)) [
  | inl e ↦ rw (e, ◌>>=◌, bit, u_from) refl
  | inr (b, e) ↦ rw (e, ◌>>=◌, bit, u_from) refl
]

bind-pure :
    {A B : Type 0} (p : Reader A) (f : A → B) (bytes : List ℕ) (at : ℕ)
    → (p >>= (λ a. pure (f a))) bytes at ≡ Option.map (λ r. (f r.0, r.1)) (p bytes at)
unfolding ◌>>=◌ pure
bind-pure p f bytes at = elim (Option-cases (p bytes at)) [
  | inl e ↦ rw (e, ◌>>=◌) refl
  | inr (b, e) ↦ rw (e, ◌>>=◌) refl
]

one_more : ℕ → ℕ → Reader ℕ
one_more zero b = if b == 0 then fail else pure 0
one_more (suc room) b = if b == 0 then (do k ← zero_prefix room; pure (suc k)) else pure 0

zero_prefix-bind :
    (room : ℕ) (bytes : List ℕ) (at : ℕ)
    → zero_prefix room bytes at ≡ (u 1 >>= one_more room) bytes at
unfolding zero_prefix one_more ◌>>=◌ pure fail
zero_prefix-bind zero bytes at = elim (Option-cases (u 1 bytes at)) [
  | inl e ↦ rw (e, ◌>>=◌, zero_prefix) refl
  | inr (b, e) ↦ rw (e, ◌>>=◌, zero_prefix) (ground arith)
]
zero_prefix-bind (suc room) bytes at = elim (Option-cases (u 1 bytes at)) [
  | inl e ↦ rw (e, ◌>>=◌, zero_prefix) refl
  | inr (b, e) ↦
      rw (e, ◌>>=◌, zero_prefix)
        (elim (Bool-cases (b.0 == 0)) [
          | inl z ↦ rw z (sym (bind-pure (zero_prefix room) suc bytes b.1))
          | inr z ↦ rw z refl
        ])
]

ue-bind :
    (bytes : List ℕ) (at : ℕ)
    → ue bytes at ≡ (do count ← zero_prefix 31; v ← u count; pure (2 ^ count - 1 + v)) bytes at
unfolding ue ◌>>=◌ pure
ue-bind bytes at = elim (Option-cases (zero_prefix 31 bytes at)) [
  | inl e ↦ rw (e, ◌>>=◌, ue) refl
  | inr (b, e) ↦ rw (e, ◌>>=◌, ue) (sym (bind-pure (u b.0) (λ v. 2 ^ b.0 - 1 + v) bytes b.1))
]

module _ (places : Places) where
  pub IsLocal-if :
      {A : Type 0} (b : Bool) (p q : Reader A)
      → IsLocal places p
      → IsLocal places q
      → IsLocal places (if b then p else q)
  IsLocal-if true p q hp hq = hp
  IsLocal-if false p q hp hq = hq

  IsLocal-u_from : (n value : ℕ) → IsLocal places (u_from n value)
  IsLocal-u_from zero value = unfold u_from pure in IsLocal-pure places value
  IsLocal-u_from (suc n) value =
      IsLocal-ext places (u_from (suc n) value) (bit >>= (λ b. u_from n (value * 2 + b)))
        (u_from-bind n value)
        (IsLocal-bind places bit (λ b. u_from n (value * 2 + b)) (IsLocal-bit places)
          (λ b. IsLocal-u_from n (value * 2 + b)))

  pub IsLocal-u : (n : ℕ) → IsLocal places (u n)
  IsLocal-u n = IsLocal-u_from n 0

  pub IsLocal-zero_prefix : (room : ℕ) → IsLocal places (zero_prefix room)
  unfolding one_more
  IsLocal-zero_prefix zero =
      IsLocal-ext places (zero_prefix zero) (u 1 >>= one_more zero) (zero_prefix-bind zero) (
        IsLocal-bind places (u 1) (one_more zero) (IsLocal-u 1)
          (λ b. IsLocal-if (b == 0) fail (pure 0) (IsLocal-fail places ℕ) (IsLocal-pure places 0)))
  IsLocal-zero_prefix (suc room) =
      IsLocal-ext places (zero_prefix (suc room)) (u 1 >>= one_more (suc room))
        (zero_prefix-bind (suc room))
        (IsLocal-bind places (u 1) (one_more (suc room)) (IsLocal-u 1) (λ b.
          IsLocal-if (b == 0) (zero_prefix room >>= (λ k. pure (suc k))) (pure 0)
            (IsLocal-bind places (zero_prefix room) (λ k. pure (suc k)) (IsLocal-zero_prefix room)
              (λ k. IsLocal-pure places (suc k)))
            (IsLocal-pure places 0)))

  pub IsLocal-ue : IsLocal places ue
  IsLocal-ue =
      IsLocal-ext places ue (do count ← zero_prefix 31; v ← u count; pure (2 ^ count - 1 + v))
        ue-bind (search (IsLocal-bind places, IsLocal-zero_prefix, IsLocal-u, IsLocal-pure places))

  pub IsLocal-skip : (n : ℕ) → IsLocal places (skip n)
  unfolding skip
  IsLocal-skip n = search (IsLocal-bind places, IsLocal-u, IsLocal-pure places)

  pub IsLocal-times :
      {A : Type 0} (n : ℕ) (p : Reader A) → IsLocal places p → IsLocal places (times n p)
  unfolding times
  IsLocal-times zero p h = IsLocal-pure places []
  IsLocal-times (suc n) p h =
      search (IsLocal-bind places, h, IsLocal-times n p h, IsLocal-pure places)

  pub IsLocal-if_flag :
      {A : Type 0} (other : A) (p : Reader A) → IsLocal places p → IsLocal places (if_flag other p)
  unfolding if_flag
  IsLocal-if_flag other p h =
      IsLocal-bind places (u 1) (λ b. if b == 0 then pure other else p) (IsLocal-u 1)
        (λ b. IsLocal-if (b == 0) (pure other) p (IsLocal-pure places other) h)

  pub IsLocal-se : IsLocal places se
  unfolding se
  IsLocal-se = search (IsLocal-bind places, IsLocal-ue, IsLocal-pure places)

pub ruleset local_rules = (
  IsLocal-bind, IsLocal-pure, IsLocal-fail, IsLocal-u, IsLocal-ue, IsLocal-se, IsLocal-if,
  IsLocal-skip, IsLocal-times, IsLocal-if_flag,
)
