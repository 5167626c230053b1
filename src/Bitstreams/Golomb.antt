-- ===== src/Bitstreams/Golomb.antt =====
-- The bit reader against the bit writer: fixed-width fields and exp-Golomb numbers.
use opencodecs.Common.{
  ℕ, zero, suc, ◌+◌, ◌-◌, ◌*◌, ◌/◌, ◌%◌, ◌^◌, ◌≤◌, ◌<◌, ◌≡◌, refl, ap, ◌∙◌, arith,
}
use opencodecs.Common.{
  List, [], ◌∷◌, ◌++◌, some, length, replicate, length-append, length-replicate,
}
use opencodecs.Common.Bits.{
  bit_length, lt-pow-bit_length, pow_two_pos, pow-bit_length-le, mod_split, bit_length_pos,
}
use native.Mathlib.Nat.{pow-suc, div-add-mod, mod-eq_of_lt, add-zero, pow-le-pow_right}
use native.Mathlib.Nat.{le-div_iff_mul-le, div-lt_iff_lt-mul}
use native.Mathlib.Decide.{dec_lt}
use mathlib.Core.Option
use opencodecs.Bitstreams.{bit_at, u_from, u, zero_prefix, ue, bits_of, ue_bits}

-- The bits stand in the data from position `at` on.
abbrev pub Reads : List ℕ → ℕ → List ℕ → Type 0
Reads bytes at [] = Unit
Reads bytes at (b ∷ bits) = (bit_at bytes at ≡ some b) × Reads bytes (at + 1) bits

pair_eq : {a b c d : ℕ} → a ≡ c → b ≡ d → ◌≡◌ {A = ℕ × ℕ} (a, b) (c, d)
pair_eq p q = λ i. (p i, q i)

u_from_step :
    (n high : ℕ) (bytes : List ℕ) (at bit : ℕ)
    → bit_at bytes at ≡ some bit
    → u_from (suc n) high bytes at ≡ u_from n (high * 2 + bit) bytes (at + 1)
unfolding u_from
u_from_step n high bytes at bit h = rw (h, u_from)

-- The value of the low `n` bits, with what was read before in front of them.
u_from-bits_of :
    (n value high : ℕ) (bytes : List ℕ) (at : ℕ)
    → Reads bytes at (bits_of n value)
    → u_from n high bytes at ≡ some (high * 2 ^ n + value % 2 ^ n, at + n)
unfolding u_from bits_of
u_from-bits_of zero value high bytes at h = ap some (pair_eq (omega arith) (omega arith))
u_from-bits_of (suc n) value high bytes at h =
    u_from_step n high bytes at (value / 2 ^ n % 2) h.0
    ∙ u_from-bits_of n value (high * 2 + value / 2 ^ n % 2) bytes (at + 1) h.1
    ∙ ap some (
        pair_eq
          (omega (
            arith,
            mod_split value (2 ^ n) (pow_two_pos n),
            ap (λ (t : ℕ). value % t) (pow-suc 2 n),
            ap (λ (t : ℕ). high * t) (pow-suc 2 n),
          ))
          (omega arith))

-- A field of `n` bits is read back, and the position moves behind it.
pub u-bits_of :
    (n value : ℕ) (bytes : List ℕ) (at : ℕ)
    → value < 2 ^ n
    → Reads bytes at (bits_of n value)
    → u n bytes at ≡ some (value, at + n)
u-bits_of n value bytes at small h =
    u_from-bits_of n value 0 bytes at h ∙ ap some (pair_eq (omega (arith, mod-eq_of_lt small)) refl)

pub length-bits_of : (n value : ℕ) → length (bits_of n value) ≡ n
unfolding bits_of
length-bits_of zero value = refl
length-bits_of (suc n) value = ap suc (length-bits_of n value)

pub Reads-append :
    (bytes : List ℕ) (at : ℕ) (xs ys : List ℕ)
    → Reads bytes at (xs ++ ys)
    → Reads bytes at xs × Reads bytes (at + length xs) ys
Reads-append bytes at [] ys h = (tt, rw (add-zero at) h)
Reads-append bytes at (x ∷ xs) ys h =
    let (a, b) = Reads-append bytes (at + 1) xs ys h.1 in
    let e : at + suc (length xs) ≡ at + 1 + length xs = omega arith in ((h.0, a), rw e b)

pub u-one :
    (bytes : List ℕ) (at bit : ℕ) → bit_at bytes at ≡ some bit → u 1 bytes at ≡ some (bit, at + 1)
u-one bytes at bit h =
    u_from_step 0 0 bytes at bit h ∙ unfold u_from in ap some (pair_eq (omega arith) refl)

zero_prefix-zeros :
    (k room : ℕ) (bytes : List ℕ) (at : ℕ)
    → k ≤ room
    → Reads bytes at (replicate k 0)
    → bit_at bytes (at + k) ≡ some 1
    → zero_prefix room bytes at ≡ some (k, at + k + 1)
unfolding zero_prefix
zero_prefix-zeros zero zero bytes at h r one =
    let e : at + 0 ≡ at = omega arith in rw (e, u-one bytes at 1 (rw e at one), zero_prefix)
zero_prefix-zeros zero (suc room) bytes at h r one =
    let e : at + 0 ≡ at = omega arith in rw (e, u-one bytes at 1 (rw e at one), zero_prefix)
zero_prefix-zeros (suc k) zero bytes at h r one = absurd (omega arith)
zero_prefix-zeros (suc k) (suc room) bytes at h r one =
    let e : at + suc k ≡ at + 1 + k = omega arith in
    rw (e, u-one bytes at 0 r.0, zero_prefix)
      (rw (zero_prefix-zeros k room bytes (at + 1) (omega arith) r.1 (rw e at one)))

exponent_small : (k : ℕ) → 2 ^ k < 2 ^ 32 → k ≤ 31
exponent_small k h = elim (dec_lt 31 k) [
  | yes big ↦ absurd (omega (arith, pow-le-pow_right {n = 2} (omega arith) {i = 32} {j = k} big))
  | no small ↦ omega arith
]

-- The leading bit of `w`, which has `k + 1` bits, and the rest of it.
top_bit :
    (k w : ℕ) → 2 ^ k ≤ w → w < 2 ^ suc k → (w / 2 ^ k % 2 ≡ 1) × (2 ^ k - 1 + w % 2 ^ k + 1 ≡ w)
top_bit k w lo hi =
    let q : w / 2 ^ k ≡ 1 = omega (
      arith,
      (le-div_iff_mul-le {x = 1} {y = w} (pow_two_pos k)).1 (omega arith),
      (div-lt_iff_lt-mul {x = w} {y = 2} (pow_two_pos k)).1 (omega (arith, pow-suc 2 k)),
    ) in
    (rw q, omega (arith, pow_two_pos k, div-add-mod w (2 ^ k), ap (λ (t : ℕ). 2 ^ k * t) q))

-- The number of zero bits in front of an exp-Golomb number.
abbrev prefix : ℕ → ℕ
prefix value = bit_length (value + 1) - 1

prefix_bounds :
    (value : ℕ)
    → (bit_length (value + 1) ≡ suc (prefix value))
      × (2 ^ prefix value ≤ value + 1)
      × (value + 1 < 2 ^ suc (prefix value))
prefix_bounds value =
    let e : value + 1 ≡ suc value = omega arith in
    let n : bit_length (suc value) ≡ suc (bit_length (suc value) - 1) =
      omega (arith, bit_length_pos value) in
    rw e (
      n,
      omega (
        arith,
        pow-bit_length-le value,
        ap (λ (t : ℕ). 2 ^ t) n,
        pow-suc 2 (bit_length (suc value) - 1),
      ),
      omega (arith, lt-pow-bit_length (suc value), ap (λ (t : ℕ). 2 ^ t) n),
    )

ue_bits_shape :
    (value : ℕ)
    → ue_bits value ≡ replicate (prefix value) 0 ++ (1 ∷ bits_of (prefix value) (value + 1))
unfolding ue_bits bits_of
ue_bits_shape value =
    let (n, lo, hi) = prefix_bounds value in
    ap (λ (t : ℕ). replicate (prefix value) 0 ++ bits_of t (value + 1)) n
    ∙ ap (λ (b : ℕ). replicate (prefix value) 0 ++ (b ∷ bits_of (prefix value) (value + 1)))
        (top_bit (prefix value) (value + 1) lo hi).0

-- An exp-Golomb number below 2 ^ 32 - 1 is read back from its bits, and the position moves behind
-- them: with at most 31 leading zeros the reader's guard does not fire.
pub ue-ue_bits :
    (value : ℕ) (bytes : List ℕ) (at : ℕ)
    → value + 1 < 2 ^ 32
    → Reads bytes at (ue_bits value)
    → ue bytes at ≡ some (value, at + length (ue_bits value))
unfolding ue
ue-ue_bits value bytes at small r =
    let k = prefix value in
    let (n, lo, hi) = prefix_bounds value in
    let (zs, ones) =
      Reads-append bytes at (replicate k 0) (1 ∷ bits_of k (value + 1))
        (rw (ue_bits_shape value) at r) in
    let start : at + length (replicate {A = ℕ} k 0) ≡ at + k =
      omega (arith, length-replicate {A = ℕ} k 0) in
    let marked : bit_at bytes (at + k) ≡ some 1 = rw start at ones.0 in
    let rest : Reads bytes (at + k + 1) (bits_of k (value + 1)) = rw start at ones.1 in
    let field = u_from-bits_of k (value + 1) 0 bytes (at + k + 1) rest in
    rw (zero_prefix-zeros k 31 bytes at (exponent_small k (omega arith)) zs marked, ue)
      (rw (field, Option.map)
        (ap some (
          pair_eq (omega (arith, (top_bit k (value + 1) lo hi).1, pow_two_pos k)) (
            omega (
              arith,
              ap (λ (t : List ℕ). length t) (ue_bits_shape value),
              length-append (replicate k 0) (1 ∷ bits_of k (value + 1)),
              length-replicate {A = ℕ} k 0,
              length-bits_of k (value + 1),
            )))))
