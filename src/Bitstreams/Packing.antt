-- ===== src/Bitstreams/Packing.antt =====
-- backends/_bitstreams.py: bits in bytes. `_BitWriter.tobytes` against `_Bits.u`.
use opencodecs.Common.{
  ℕ, zero, suc, ◌+◌, ◌-◌, ◌*◌, ◌/◌, ◌%◌, ◌^◌, ◌≤◌, ◌<◌, List, [], ◌∷◌, some, ◌≡◌,
}
use opencodecs.Common.{
  refl, arith, length, drop, get_elem?, get_or, length-drop, sym, ◌∙◌, ap, dec_lt,
}
use opencodecs.Bitstreams.Golomb.{Reads}
use opencodecs.Bitstreams.{bit_at, bits_of, chunk_value, tobytes_loop, tobytes}

abbrev pub AllBits : List ℕ → Type 0
AllBits [] = Unit
AllBits (b ∷ bits) = (b < 2) × AllBits bits

pub bits_of-AllBits : (n value : ℕ) → AllBits (bits_of n value)
unfolding bits_of
bits_of-AllBits zero value = tt
bits_of-AllBits (suc n) value = (omega arith, bits_of-AllBits n value)

-- A chunk has its bits at their places, and zero bits where it ends early.
chunk_digits :
    (bits : List ℕ)
    → chunk_value 8 bits
      ≡ get_or bits 0 0 * 128
        + get_or bits 1 0 * 64
        + get_or bits 2 0 * 32
        + get_or bits 3 0 * 16
        + get_or bits 4 0 * 8
        + get_or bits 5 0 * 4
        + get_or bits 6 0 * 2
        + get_or bits 7 0
unfolding chunk_value
chunk_digits [] = refl
chunk_digits (a ∷ []) = omega arith
chunk_digits (a ∷ b ∷ []) = omega arith
chunk_digits (a ∷ b ∷ c ∷ []) = omega arith
chunk_digits (a ∷ b ∷ c ∷ d ∷ []) = omega arith
chunk_digits (a ∷ b ∷ c ∷ d ∷ e ∷ []) = omega arith
chunk_digits (a ∷ b ∷ c ∷ d ∷ e ∷ f ∷ []) = omega arith
chunk_digits (a ∷ b ∷ c ∷ d ∷ e ∷ f ∷ g ∷ []) = omega arith
chunk_digits (a ∷ b ∷ c ∷ d ∷ e ∷ f ∷ g ∷ h ∷ l) = omega arith

get_or-bit : (bits : List ℕ) (i : ℕ) → AllBits bits → get_or bits i 0 < 2
get_or-bit [] i h = omega arith
get_or-bit (b ∷ bits) zero h = h.0
get_or-bit (b ∷ bits) (suc i) h = get_or-bit bits i h.1

digit :
    (v a b c d e f g h at : ℕ)
    → v ≡ a * 128 + b * 64 + c * 32 + d * 16 + e * 8 + f * 4 + g * 2 + h
    → AllBits (a ∷ b ∷ c ∷ d ∷ e ∷ f ∷ g ∷ h ∷ [])
    → at < 8
    → v / 2 ^ (7 - at) % 2 ≡ get_or (a ∷ b ∷ c ∷ d ∷ e ∷ f ∷ g ∷ h ∷ []) at 0
digit v a b c d e f g h zero s bits l = omega arith
digit v a b c d e f g h (suc zero) s bits l = omega arith
digit v a b c d e f g h (suc (suc zero)) s bits l = omega arith
digit v a b c d e f g h (suc (suc (suc zero))) s bits l = omega arith
digit v a b c d e f g h (suc (suc (suc (suc zero)))) s bits l = omega arith
digit v a b c d e f g h (suc (suc (suc (suc (suc zero))))) s bits l = omega arith
digit v a b c d e f g h (suc (suc (suc (suc (suc (suc zero)))))) s bits l = omega arith
digit v a b c d e f g h (suc (suc (suc (suc (suc (suc (suc zero))))))) s bits l = omega arith
digit v a b c d e f g h (suc (suc (suc (suc (suc (suc (suc (suc at)))))))) s bits l =
    absurd (omega arith)

first_eight :
    (bits : List ℕ) (at : ℕ)
    → at < 8
    → get_or
        (get_or bits 0 0
          ∷ get_or bits 1 0
          ∷ get_or bits 2 0
          ∷ get_or bits 3 0
          ∷ get_or bits 4 0
          ∷ get_or bits 5 0
          ∷ get_or bits 6 0
          ∷ get_or bits 7 0
          ∷ [])
        at
        0
      ≡ get_or bits at 0
first_eight bits zero h = refl
first_eight bits (suc zero) h = refl
first_eight bits (suc (suc zero)) h = refl
first_eight bits (suc (suc (suc zero))) h = refl
first_eight bits (suc (suc (suc (suc zero)))) h = refl
first_eight bits (suc (suc (suc (suc (suc zero))))) h = refl
first_eight bits (suc (suc (suc (suc (suc (suc zero)))))) h = refl
first_eight bits (suc (suc (suc (suc (suc (suc (suc zero))))))) h = refl
first_eight bits (suc (suc (suc (suc (suc (suc (suc (suc at)))))))) h = absurd (omega arith)

chunk_bit :
    (bits : List ℕ) (at : ℕ)
    → AllBits bits
    → at < 8
    → chunk_value 8 bits / 2 ^ (7 - at) % 2 ≡ get_or bits at 0
chunk_bit bits at h l =
    digit (chunk_value 8 bits) (get_or bits 0 0) (get_or bits 1 0) (get_or bits 2 0)
      (get_or bits 3 0) (get_or bits 4 0) (get_or bits 5 0) (get_or bits 6 0) (get_or bits 7 0) at
      (chunk_digits bits)
      (
        get_or-bit bits 0 h,
        (
          get_or-bit bits 1 h,
          (
            get_or-bit bits 2 h,
            (
              get_or-bit bits 3 h,
              (
                get_or-bit bits 4 h,
                (get_or-bit bits 5 h, (get_or-bit bits 6 h, (get_or-bit bits 7 h, tt))),
              ),
            ),
          ),
        ),
      )
      l
    ∙ first_eight bits at l

pub drop-AllBits : (n : ℕ) (bits : List ℕ) → AllBits bits → AllBits (drop n bits)
drop-AllBits zero bits h = h
drop-AllBits (suc n) [] h = tt
drop-AllBits (suc n) (b ∷ bits) h = drop-AllBits n bits h.1

get_or-drop : (n i : ℕ) (bits : List ℕ) → get_or (drop n bits) i 0 ≡ get_or bits (n + i) 0
get_or-drop zero i bits = ap (λ k. get_or bits k 0) (omega arith)
get_or-drop (suc n) i [] = refl
get_or-drop (suc n) i (b ∷ bits) =
    get_or-drop n i bits ∙ ap (λ k. get_or (b ∷ bits) k 0) {x = suc (n + i)} (omega arith)

get_or-get_elem? :
    (bits : List ℕ) (i : ℕ) → i < length bits → some (get_or bits i 0) ≡ get_elem? bits i
get_or-get_elem? [] i h = elim h [ ]
get_or-get_elem? (b ∷ bits) zero h = refl
get_or-get_elem? (b ∷ bits) (suc i) h = get_or-get_elem? bits i (omega arith)

bit_at-head :
    (byte : ℕ) (bytes : List ℕ) (at : ℕ)
    → at < 8
    → bit_at (byte ∷ bytes) at ≡ some (byte / 2 ^ (7 - at) % 2)
unfolding bit_at
bit_at-head byte bytes at h =
    let q : at / 8 ≡ 0 = omega arith in let r : at % 8 ≡ at = omega arith in rw (q, r) refl

pub bit_at-tail :
    (byte : ℕ) (bytes : List ℕ) (at : ℕ) → bit_at (byte ∷ bytes) (8 + at) ≡ bit_at bytes at
unfolding bit_at
bit_at-tail byte bytes at =
    let q : (8 + at) / 8 ≡ suc (at / 8) = omega arith in
    let r : (8 + at) % 8 ≡ at % 8 = omega arith in rw (q, r) refl

tobytes_loop-bit :
    (fuel : ℕ) (bits : List ℕ) (at : ℕ)
    → length bits ≤ fuel
    → at < length bits
    → AllBits bits
    → bit_at (tobytes_loop fuel bits) at ≡ some (get_or bits at 0)
unfolding tobytes_loop
tobytes_loop-bit fuel [] at f l h = elim l [ ]
tobytes_loop-bit zero (b ∷ bits) at f l h = absurd (omega arith)
tobytes_loop-bit (suc fuel) (b ∷ bits) at f l h = elim (dec_lt at 8) [
  | yes s ↦
      bit_at-head (chunk_value 8 (b ∷ bits)) (tobytes_loop fuel (drop 8 (b ∷ bits))) at s
      ∙ ap some (chunk_bit (b ∷ bits) at h s)
  | no s ↦
      let e : at ≡ 8 + (at - 8) = omega arith in
      let n : length (drop 8 (b ∷ bits)) ≡ length (b ∷ bits) - 8 = length-drop 8 (b ∷ bits) in
      ap (bit_at (chunk_value 8 (b ∷ bits) ∷ tobytes_loop fuel (drop 8 (b ∷ bits)))) e
      ∙ bit_at-tail (chunk_value 8 (b ∷ bits)) (tobytes_loop fuel (drop 8 (b ∷ bits))) (at - 8)
      ∙ tobytes_loop-bit fuel (drop 8 (b ∷ bits)) (at - 8) (omega (arith, n)) (omega (arith, n))
          (drop-AllBits 8 (b ∷ bits) h)
      ∙ ap some (get_or-drop 8 (at - 8) (b ∷ bits))
      ∙ ap (λ k. some (get_or (b ∷ bits) k 0)) (sym e)
]

-- The reader finds every bit of the writer at its place.
pub bit_at-tobytes :
    (bits : List ℕ) (at : ℕ)
    → AllBits bits
    → at < length bits
    → bit_at (tobytes bits) at ≡ get_elem? bits at
unfolding tobytes
bit_at-tobytes bits at h l =
    tobytes_loop-bit (length bits) bits at (omega arith) l h ∙ get_or-get_elem? bits at l

pub Reads-bits :
    (bytes : List ℕ) (at : ℕ) (bits : List ℕ)
    → ((i : ℕ) → i < length bits → bit_at bytes (at + i) ≡ get_elem? bits i)
    → Reads bytes at bits
Reads-bits bytes at [] h = tt
Reads-bits bytes at (b ∷ bits) h = (
  ap (bit_at bytes) (omega arith) ∙ h 0 (omega arith),
  Reads-bits bytes (at + 1) bits (λ i l. ap (bit_at bytes) (omega arith) ∙ h (suc i) (omega arith)),
)

-- The bits that a `_BitWriter` has collected are read back, each at its place, from its bytes.
pub Reads-tobytes : (bits : List ℕ) → AllBits bits → Reads (tobytes bits) 0 bits
Reads-tobytes bits h =
    Reads-bits (tobytes bits) 0 bits
      (λ i l. ap (bit_at (tobytes bits)) (omega arith) ∙ bit_at-tobytes bits i h l)
