-- ===== src/Common/Bits.antt =====
-- `int.bit_length` and the powers of two.
use Prim.Native.Nat.{ℕ, zero, suc, ◌+◌, ◌*◌, ◌%◌, ◌/◌, ◌^◌, ◌≤◌, ◌<◌}
use native.Mathlib.Omega.{arith}
use native.Mathlib.Nat.{mod-lt, div-add-mod, add-mul-mod_self_left, mod-eq_of_lt}
use native.Mathlib.Nat.{
  pow-suc, div-mul-le_self, lt-div-mul-add, le-div_iff_mul-le, div-lt_iff_lt-mul,
}
use mathlib.Core.Path.{◌≡◌, ap, ◌∙◌}
use mathlib.Core.Logic.{◌⊎◌}

-- The binary digits of `n`, counted; `fuel` is at least `n`.
bit_length_fuel : ℕ → ℕ → ℕ
bit_length_fuel zero n = 0
bit_length_fuel (suc fuel) zero = 0
bit_length_fuel (suc fuel) (suc n) = suc (bit_length_fuel fuel (suc n / 2))

unfoldable pub bit_length : ℕ → ℕ
unfolding bit_length_fuel
bit_length n = bit_length_fuel n n

bit_length_fuel_bound : (fuel n : ℕ) → n ≤ fuel → n < 2 ^ bit_length_fuel fuel n
unfolding bit_length_fuel
bit_length_fuel_bound zero n h = omega arith
bit_length_fuel_bound (suc fuel) zero h = omega arith
bit_length_fuel_bound (suc fuel) (suc n) h = omega (
  arith,
  bit_length_fuel_bound fuel (suc n / 2) (omega arith),
  pow-suc 2 (bit_length_fuel fuel (suc n / 2)),
)

-- A number lies below the power of two of its bit length.
pub lt-pow-bit_length : (n : ℕ) → n < 2 ^ bit_length n
unfolding bit_length
lt-pow-bit_length n = bit_length_fuel_bound n n (omega arith)

pub pow_two_pos : (s : ℕ) → 1 ≤ 2 ^ s
pow_two_pos zero = omega arith
pow_two_pos (suc s) = omega (arith, pow_two_pos s, pow-suc 2 s)

-- An interval no longer than `w` that starts at `s` can reach only into the block of `s` and the next.
pub block_neighbor :
    (s o w : ℕ) → 0 < w → s ≤ o → o ≤ s + w → (s / w ≡ o / w) ⊎ (suc (s / w) ≡ o / w)
block_neighbor s o w pos lo hi =
    near (s / w) (o / w) ((le-div_iff_mul-le pos).1 (omega (arith, div-mul-le_self s w))) (
      (div-lt_iff_lt-mul {x = o} {y = suc (suc (s / w))} pos).1
        (omega (arith, lt-div-mul-add {a = s} pos)))
  where
    near : (a b : ℕ) → a ≤ b → b < suc (suc a) → (a ≡ b) ⊎ (suc a ≡ b)
    near a b p q = ground arith

-- One more binary digit of a remainder.
pub mod_split : (v w : ℕ) → 0 < w → v % (w * 2) ≡ v / w % 2 * w + v % w
mod_split v w pos =
    let r = v / w % 2 * w + v % w in
    let small : r < w * 2 = below (v / w % 2) (v % w) (omega arith) (mod-lt v pos) in
    let split : v ≡ r + w * 2 * (v / w / 2) =
      omega (arith, div-add-mod v w, ap (λ (t : ℕ). t * w) (div-add-mod (v / w) 2)) in
    ap (λ (t : ℕ). t % (w * 2)) split
    ∙ add-mul-mod_self_left r (w * 2) (v / w / 2)
    ∙ mod-eq_of_lt small
  where
    below : (b m : ℕ) → b < 2 → m < w → b * w + m < w * 2
    below zero m h k = omega arith
    below (suc zero) m h k = omega arith
    below (suc (suc b)) m h k = absurd (omega arith)

bit_length_fuel_low : (fuel n : ℕ) → suc n ≤ fuel → 2 ^ bit_length_fuel fuel (suc n) ≤ suc n * 2
unfolding bit_length_fuel
bit_length_fuel_low zero n h = absurd (omega arith)
bit_length_fuel_low (suc fuel) zero h = go fuel
  where
    go : (f : ℕ) → 2 ^ suc (bit_length_fuel f (1 / 2)) ≤ 2
    go zero = omega arith
    go (suc f) = omega arith
bit_length_fuel_low (suc fuel) (suc n) h =
    let e : suc (suc n) / 2 ≡ suc (n / 2) = omega arith in
    rw e (
      omega (
        arith,
        bit_length_fuel_low fuel (n / 2) (omega arith),
        pow-suc 2 (bit_length_fuel fuel (suc (n / 2))),
      ))

-- The bit length is the least: half of the power is not above the number.
pub pow-bit_length-le : (n : ℕ) → 2 ^ bit_length (suc n) ≤ suc n * 2
unfolding bit_length
pow-bit_length-le n = bit_length_fuel_low (suc n) n (omega arith)

-- A positive number has a bit.
pub bit_length_pos : (n : ℕ) → 0 < bit_length (suc n)
unfolding bit_length bit_length_fuel
bit_length_pos n = omega arith
