-- ===== src/Bitstreams/Leb128.antt =====
-- LEB128: `_leb128` reads back what `leb128` writes.
use opencodecs.Common.{◌∷◌, [], length, Bool-cases, inl, inr, some_pair, ltb, ◌<◌, ◌%◌, ◌^◌}
use mathlib.Core.Option.{none-ne-some}
use opencodecs.Common.{ℕ, zero, suc, ◌+◌, ◌*◌, ◌/◌, ◌%◌, ◌^◌, ◌<◌, ◌≡◌, ap, ◌∙◌, arith}
use opencodecs.Common.{List, ◌++◌, some}
use opencodecs.Bitstreams.{leb128_from, read_leb128, leb128_loop, leb128}
use native.Mathlib.Nat.{div-add-mod, pow-suc}
use native.Mathlib.Numerals.{towards_suc}

shift_seven : (s : ℕ) → 2 ^ (s + 7) ≡ 128 * 2 ^ s
shift_seven s = simp towards_suc (omega arith)

-- The lowest group of seven bits and the rest, both from bit `s` on.
split_group : (v s : ℕ) → v * 2 ^ s ≡ v % 128 * 2 ^ s + v / 128 * 2 ^ (s + 7)
split_group v s = omega (
  arith,
  ap (λ (t : ℕ). t * 2 ^ s) (div-add-mod v 128),
  ap (λ (t : ℕ). v / 128 * t) (shift_seven s),
)

leb128_from-loop :
    (rounds fuel v value shift : ℕ) (rest : List ℕ)
    → v < 128 ^ rounds
    → v < fuel
    → 0 < rounds
    → leb128_from rounds value shift (leb128_loop fuel v ++ rest)
      ≡ some (value + v * 2 ^ shift, rest)
unfolding leb128_from leb128_loop
leb128_from-loop zero fuel v value shift rest small enough pos = absurd (omega arith)
leb128_from-loop (suc rounds) zero v value shift rest small enough pos = absurd (omega arith)
leb128_from-loop (suc zero) (suc fuel) v value shift rest small enough pos = ground arith
leb128_from-loop (suc (suc rounds)) (suc fuel) v value shift rest small enough pos =
    let less : v / 128 < 128 ^ suc rounds = omega (arith, pow-suc 128 (suc rounds)) in
    ground (
      arith,
      less,
      split_group v shift,
      leb128_from-loop (suc rounds) fuel (v / 128) (value + v % 128 * 2 ^ shift) (shift + 7) rest,
    )

-- A value below 2 ** 56, which takes at most 8 bytes, is read back from what `leb128` writes, and the
-- bytes behind it are left.
pub read_leb128-leb128 :
    (value : ℕ) (rest : List ℕ)
    → value < 2 ^ 56
    → read_leb128 (leb128 value ++ rest) ≡ some (value, rest)
unfolding read_leb128 leb128
read_leb128-leb128 value rest small =
    leb128_from-loop 8 (suc value) value 0 0 rest (omega arith) (omega arith) (omega arith)
    ∙ ap (λ (v : ℕ). some (v, rest)) (omega arith)

leb128_from-shorter :
    (rounds value shift : ℕ) (l : List ℕ) (number : ℕ) (behind : List ℕ)
    → leb128_from rounds value shift l ≡ some (number, behind)
    → length behind < length l
unfolding leb128_from
leb128_from-shorter zero value shift l number behind h = absurd (none-ne-some (number, behind) h)
leb128_from-shorter (suc rounds) value shift [] number behind h =
    absurd (none-ne-some (number, behind) h)
leb128_from-shorter (suc rounds) value shift (byte ∷ l) number behind h =
    elim (Bool-cases (ltb byte 128)) [
      | inl z ↦ omega (arith, ap length (some_pair (rw z at h)).1)
      | inr z ↦ omega (
        arith,
        leb128_from-shorter rounds (value + byte % 128 * 2 ^ shift) (shift + 7) l number behind
            (rw z at h),
      )
    ]

-- A number takes a byte at least.
pub read_leb128-shorter :
    (l : List ℕ) (number : ℕ) (behind : List ℕ)
    → read_leb128 l ≡ some (number, behind)
    → length behind < length l
unfolding read_leb128
read_leb128-shorter l number behind h = leb128_from-shorter 8 0 0 l number behind h
