-- ===== src/Bitstreams/Prints.antt =====
-- backends/_bitstreams.py: fields that are written so that a reader gets them back.
use opencodecs.Common.{ℕ, zero, suc, ◌+◌, ◌*◌, ◌/◌, ◌^◌, ◌<◌, List, [], ◌∷◌, ◌++◌, some, ◌≡◌}
use opencodecs.Common.{
  refl, arith, length, length-append, append-nil, ap, sym, ◌∙◌, some_pair, Option-cases, inl, inr,
}
use mathlib.Core.Path.{subst}
use mathlib.Core.Option.{none-ne-some}
use native.Mathlib.Nat.{pow-suc, div-div-eq-div-mul, lt-div-mul-add}
use opencodecs.Common.Bits.{pow_two_pos}
use opencodecs.Bitstreams.{bit_at, u_from, u, bits_of}
use opencodecs.Bitstreams.Golomb.{Reads, Reads-append, u-bits_of, u-one, length-bits_of}
use opencodecs.Bitstreams.Reader.{Reader, pure, ◌>>=◌}
use opencodecs.Bitstreams.Moves.{bind-some, pair_cong}

-- Where the bits `w` stand, the reader gives `v` and moves behind them.
pub record Prints {A : Type 0} (p : Reader A) (v : A) (w : List ℕ) : Type 0 where
  pub read : (bytes : List ℕ) (at : ℕ) → Reads bytes at w → p bytes at ≡ some (v, at + length w)

pub Prints-bind :
    {A B : Type 0} {p : Reader A} (f : A → Reader B) {a : A} {b : B} {w w' : List ℕ}
    → Prints p a w
    → Prints (f a) b w'
    → Prints (p >>= f) b (w ++ w')
Prints-bind {p = p} f {w = w} {w' = w'} h k = record {
  read = λ bytes at reads.
      let (first, second) = Reads-append bytes at w w' reads in
      bind-some p f bytes at (h.read bytes at first)
      ∙ k.read bytes (at + length w) second
      ∙ pair_cong refl (omega (arith, length-append w w'));
}

pub Prints-pure : {A : Type 0} (a : A) → Prints (pure a) a []
unfolding pure
Prints-pure a = record { read = λ bytes at reads. pair_cong refl (omega arith) }

pub Prints-map :
    {A B : Type 0} {p : Reader A} (f : A → B) {a : A} {w : List ℕ}
    → Prints p a w
    → Prints (p >>= (λ a. pure (f a))) (f a) w
Prints-map {p = p} f {a = a} {w = w} h =
    subst (Prints (p >>= (λ a. pure (f a))) (f a)) (append-nil w)
      (Prints-bind (λ a. pure (f a)) h (Prints-pure (f a)))

pub Prints-u : (n value : ℕ) → value < 2 ^ n → Prints (u n) value (bits_of n value)
Prints-u n value small = record {
  read = λ bytes at reads.
      u-bits_of n value bytes at small reads
      ∙ pair_cong refl (omega (arith, length-bits_of n value));
}

pub Prints-bit : (bit : ℕ) → Prints (u 1) bit (bit ∷ [])
Prints-bit bit = record { read = λ bytes at reads. u-one bytes at bit reads.0 }

bit_at-small : (bytes : List ℕ) (at bit : ℕ) → bit_at bytes at ≡ some bit → bit < 2
unfolding bit_at
bit_at-small bytes at bit h = ground arith

-- The bits of a number that was read are the bits that it was read from.
pub u_from-bits :
    (n high : ℕ) (bytes : List ℕ) (at value at' : ℕ)
    → u_from n high bytes at ≡ some (value, at')
    → (value / 2 ^ n ≡ high) × (at' ≡ at + n) × Reads bytes at (bits_of n value)
unfolding u_from bits_of
u_from-bits zero high bytes at value at' h =
    let (e, q) = some_pair h in (omega arith, omega arith, tt)
u_from-bits (suc n) high bytes at value at' h = elim (Option-cases (bit_at bytes at)) [
  | inl e ↦ absurd (none-ne-some (value, at') (rw (e, u_from) at h))
  | inr (bit, e) ↦
      let small = bit_at-small bytes at bit e in
      let (top, end, reads) =
        u_from-bits n (high * 2 + bit) bytes (at + 1) value at' (rw (e, u_from) at h) in
      (
        ap (λ (t : ℕ). value / t) (pow-suc 2 n)
            ∙ sym (div-div-eq-div-mul value (2 ^ n) 2)
            ∙ ap (λ (t : ℕ). t / 2) top
            ∙ omega arith,
        omega arith,
        (e ∙ ap some (omega arith), reads),
      )
]

-- A field that was read fits its bits.
pub u-small :
    (n : ℕ) (bytes : List ℕ) (at value at' : ℕ) → u n bytes at ≡ some (value, at') → value < 2 ^ n
u-small n bytes at value at' h =
    let (top, _, _) = u_from-bits n 0 bytes at value at' h in
    omega (arith, lt-div-mul-add {a = value} (pow_two_pos n), ap (λ (t : ℕ). t * 2 ^ n) top)
