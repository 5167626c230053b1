-- ===== src/Bitstreams/Av1/Local.antt =====
-- backends/_bitstreams.py, `av1_sequence_header`: what is read in front of the color configuration,
-- at two places.
use opencodecs.Common.{
  ℕ, zero, suc, ◌+◌, ◌-◌, ◌*◌, ◌/◌, ◌≤◌, ◌<◌, List, some, ◌≡◌, refl, true, false, ◌==◌, length,
  arith, sym, ◌∙◌, some_pair, Option-cases, Bool-cases, inl, inr, get_elem?, get_elem?-bound,
}
use mathlib.Core.Path.{subst}
use mathlib.Core.Option.{none-ne-some}
use opencodecs.Bitstreams.{u_from, u, bit_at, zero_prefix}
use opencodecs.Bitstreams.Moves.{Places, in_place, Moves, IsLocal, pair_cong, IsLocal-position}
use opencodecs.Bitstreams.Local.{IsLocal-zero_prefix, local_rules}
use opencodecs.Bitstreams.Av1.Front.{
  leading_zeros, timing_info, operating_point, operating_points, frame_tools, start,
}

pub bit-place :
    (bytes : List ℕ) (at bit at' : ℕ)
    → u 1 bytes at ≡ some (bit, at')
    → (at' ≡ at + 1) × (at < 8 * length bytes)
unfolding u_from bit_at
bit-place bytes at bit at' h = elim (Option-cases (get_elem? bytes (at / 8))) [
  | inl e ↦ absurd (none-ne-some (bit, at') (rw (e, u_from, bit_at) at h))
  | inr (byte, e) ↦
      let place = (some_pair (rw (e, u_from, bit_at) at h)).1 in
      (omega arith, omega (arith, get_elem?-bound bytes (at / 8) e))
]

zero_prefix-stop :
    (m : ℕ) (bytes : List ℕ) (at bit at' : ℕ)
    → u 1 bytes at ≡ some (bit, at')
    → (bit == 0) ≡ false
    → zero_prefix m bytes at ≡ some (0, at')
unfolding zero_prefix
zero_prefix-stop zero bytes at bit at' e z = rw (e, z, zero_prefix) refl
zero_prefix-stop (suc m) bytes at bit at' e z = rw (e, z, zero_prefix) refl

zero_prefix-more :
    (m : ℕ) (bytes : List ℕ) (at bit at' count end : ℕ)
    → u 1 bytes at ≡ some (bit, at')
    → (bit == 0) ≡ true
    → zero_prefix m bytes at' ≡ some (count, end)
    → zero_prefix (suc m) bytes at ≡ some (suc count, end)
unfolding zero_prefix
zero_prefix-more m bytes at bit at' count end e z h = rw (e, z, h, zero_prefix) refl

-- A count is found with any room for it, and lies within the bytes.
abbrev Found : List ℕ → ℕ → ℕ → ℕ → Type 0
Found bytes at count at' =
    (at + count < 8 * length bytes)
    × ((m : ℕ) → count ≤ m → zero_prefix m bytes at ≡ some (count, at'))

stop-Found :
    (n : ℕ) (bytes : List ℕ) (at count at' bit a1 : ℕ)
    → zero_prefix n bytes at ≡ some (count, at')
    → u 1 bytes at ≡ some (bit, a1)
    → (bit == 0) ≡ false
    → Found bytes at count at'
stop-Found n bytes at count at' bit a1 h e z =
    let (c, q) = some_pair (sym (zero_prefix-stop n bytes at bit a1 e z) ∙ h) in
    let (_, room) = bit-place bytes at bit a1 e in
    (omega arith, λ m l. zero_prefix-stop m bytes at bit a1 e z ∙ pair_cong c q)

more-Found :
    (bytes : List ℕ) (at bit a1 fewer end : ℕ)
    → u 1 bytes at ≡ some (bit, a1)
    → (bit == 0) ≡ true
    → Found bytes a1 fewer end
    → Found bytes at (suc fewer) end
more-Found bytes at bit a1 fewer end e z (room, again) =
    let (place, _) = bit-place bytes at bit a1 e in (omega arith, enough)
  where
    enough : (m : ℕ) → suc fewer ≤ m → zero_prefix m bytes at ≡ some (suc fewer, end)
    enough zero l = absurd (omega arith)
    enough (suc m) l = zero_prefix-more m bytes at bit a1 fewer end e z (again m (omega arith))

zero_prefix-Found :
    (n : ℕ) (bytes : List ℕ) (at count at' : ℕ)
    → zero_prefix n bytes at ≡ some (count, at')
    → Found bytes at count at'
unfolding zero_prefix
zero_prefix-Found zero bytes at count at' h = elim (Option-cases (u 1 bytes at)) [
  | inl e ↦ absurd (none-ne-some (count, at') (rw (e, zero_prefix) at h))
  | inr ((bit, a1), e) ↦ elim (Bool-cases (bit == 0)) [
    | inl z ↦ absurd (none-ne-some (count, at') (rw (e, z, zero_prefix) at h))
    | inr z ↦ stop-Found zero bytes at count at' bit a1 h e z
  ]
]
zero_prefix-Found (suc n) bytes at count at' h = elim (Option-cases (u 1 bytes at)) [
  | inl e ↦ absurd (none-ne-some (count, at') (rw (e, zero_prefix) at h))
  | inr ((bit, a1), e) ↦ elim (Bool-cases (bit == 0)) [
    | inl z ↦ elim (Option-cases (zero_prefix n bytes a1)) [
      | inl k ↦ absurd (none-ne-some (count, at') (rw (e, z, k, zero_prefix) at h))
      | inr ((fewer, end), k) ↦
          let (c, q) = some_pair (sym (zero_prefix-more n bytes at bit a1 fewer end e z k) ∙ h) in
          subst (λ (p : ℕ × ℕ). Found bytes at p.0 p.1) (λ i. (c i, q i))
            (more-Found bytes at bit a1 fewer end e z (zero_prefix-Found n bytes a1 fewer end k))
    ]
    | inr z ↦ stop-Found (suc n) bytes at count at' bit a1 h e z
  ]
]

IsLocal-leading_zeros : (places : Places) → IsLocal places leading_zeros
unfolding leading_zeros Moves
IsLocal-leading_zeros places = record {
  moves = λ bytes at count at' h.
      let (le, moved) =
        (IsLocal-zero_prefix places (8 * length bytes)).moves bytes at count at' h in
      (
        le,
        λ bytes2 at2 near same.
            let (count2, again, e) = moved bytes2 at2 near same in
            let (room, any) =
              zero_prefix-Found (8 * length bytes) bytes2 at2 count2 (at2 + (at' - at)) again in
            (count2, any (8 * length bytes2) (omega arith), e),
      );
}

module _ (places : Places) where
  IsLocal-timing_info : IsLocal places timing_info
  unfolding timing_info
  IsLocal-timing_info = search (local_rules, IsLocal-leading_zeros) depth 20 fits 3000

  IsLocal-operating_point : (a b c : ℕ) → IsLocal places (operating_point a b c)
  unfolding operating_point
  IsLocal-operating_point a b c = search local_rules depth 20 fits 3000

  IsLocal-operating_points : IsLocal places operating_points
  unfolding operating_points
  IsLocal-operating_points =
      search (local_rules, IsLocal-timing_info, IsLocal-operating_point) depth 20 fits 3000

  IsLocal-frame_tools : IsLocal places frame_tools
  unfolding frame_tools
  IsLocal-frame_tools = search local_rules depth 20 fits 3000

pub IsLocal-start : IsLocal in_place start
unfolding start
IsLocal-start =
    search (local_rules, IsLocal-position, IsLocal-operating_points, IsLocal-frame_tools) depth 40
      fits 5000
