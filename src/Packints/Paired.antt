-- ===== src/Packints/Paired.antt =====
-- _packints_codec.py: unpacking paired samples undoes packing them.
use opencodecs.Common.{
  ℕ, suc, ◌+◌, ◌*◌, ◌-◌, ◌/◌, ◌%◌, ◌^◌, ◌<◌, List, [], ◌∷◌, ◌++◌, ◌⊎◌, inl, inr,
}
use opencodecs.Common.{
  ◌≡◌, refl, arith, Option, none, some, length, true, false, ltb, leb, ◌==◌, length-append, ap, ◌∙◌,
  ap, if_true,
}
use mathlib.Core.Path.{subst}
use opencodecs.Common.{sym, Bool, ◌&&◌, if◌then◌else◌}
use native.Mathlib.Nat.{div-eq_of_lt}
use opencodecs.Packints.{
  check_layout, pack_pair, pack_paired, all_fit, bitpack_paired, unpack_pairs, unpack_paired,
  paired,
}

-- Every sample is below `2 ** bps`.
abbrev pub AllBelow : ℕ → List ℕ → Type 0
AllBelow limit [] = Unit
AllBelow limit (v ∷ values) = (v < limit) × AllBelow limit values

IsPacked : ℕ → List ℕ → Type 0
IsPacked bps values =
    (bytes : List ℕ) × (pack_paired values bps ≡ some bytes)
    × AllBelow 256 bytes
    × (length bytes * 2 ≡ length values * 3)
    × ((pad : List ℕ) → unpack_pairs (length values / 2) (bps - 8) (bytes ++ pad) ≡ values)

cons_pair :
    {a b c d : ℕ} {l r : List ℕ} → a ≡ c → b ≡ d → l ≡ r → ◌≡◌ {A = List ℕ} (a ∷ b ∷ l) (c ∷ d ∷ r)
cons_pair p q s = λ i. p i ∷ q i ∷ s i

half_suc : (n : ℕ) → suc (suc n) / 2 ≡ suc (n / 2)
half_suc n = omega arith

ten_step :
    (p q : ℕ) (values : List ℕ)
    → p < 1024
    → q < 1024
    → IsPacked 10 values
    → IsPacked 10 (p ∷ q ∷ values)
unfolding IsPacked pack_paired pack_pair unpack_pairs
ten_step p q values hp hq (bytes, e, below, len, back) = (
  pack_pair 2 (p % 1024) (q % 1024) bytes,
  rw e refl,
  (omega arith, (omega arith, (omega arith, below))),
  omega (arith, len),
  λ pad. rw (half_suc (length values)) (cons_pair (omega arith) (omega arith) (back pad)),
)

twelve_step :
    (p q : ℕ) (values : List ℕ)
    → p < 4096
    → q < 4096
    → IsPacked 12 values
    → IsPacked 12 (p ∷ q ∷ values)
unfolding IsPacked pack_paired pack_pair unpack_pairs
twelve_step p q values hp hq (bytes, e, below, len, back) = (
  pack_pair 4 (p % 4096) (q % 4096) bytes,
  rw e refl,
  (omega arith, (omega arith, (omega arith, below))),
  omega (arith, len),
  λ pad. rw (half_suc (length values)) (cons_pair (omega arith) (omega arith) (back pad)),
)

nil-IsPacked : (bps : ℕ) → IsPacked bps []
unfolding IsPacked pack_paired unpack_pairs
nil-IsPacked bps = ([], refl, tt, omega arith, λ pad. refl)

ten-IsPacked : (values : List ℕ) → AllBelow 1024 values → length values % 2 ≡ 0 → IsPacked 10 values
ten-IsPacked [] h even = nil-IsPacked 10
ten-IsPacked (p ∷ []) h even = absurd (omega arith)
ten-IsPacked (p ∷ q ∷ values) h even =
    ten_step p q values h.0 h.1.0 (ten-IsPacked values h.1.1 (omega arith))

twelve-IsPacked :
    (values : List ℕ) → AllBelow 4096 values → length values % 2 ≡ 0 → IsPacked 12 values
twelve-IsPacked [] h even = nil-IsPacked 12
twelve-IsPacked (p ∷ []) h even = absurd (omega arith)
twelve-IsPacked (p ∷ q ∷ values) h even =
    twelve_step p q values h.0 h.1.0 (twelve-IsPacked values h.1.1 (omega arith))

all_fit-AllBelow :
    (bps : ℕ) (values : List ℕ) → AllBelow (2 ^ bps) values → all_fit bps values ≡ true
unfolding all_fit
all_fit-AllBelow bps [] h = refl
all_fit-AllBelow bps (v ∷ values) h = rw (div-eq_of_lt h.0, all_fit-AllBelow bps values h.1) refl

-- The bytes of a packed list, unpacked with any bytes behind them.
Returns : List ℕ → ℕ → ℕ → Type 0
Returns values itemsize bps =
    (bytes : List ℕ) × (bitpack_paired values itemsize bps 0 ≡ some bytes)
    × AllBelow 256 bytes
    × (length bytes * 2 ≡ length values * 3)
    × ((pad : List ℕ) → unpack_paired (bytes ++ pad) bps (length values) ≡ some values)

enough :
    (n k l m : ℕ) → n % 2 ≡ 0 → k * 2 ≡ n * 3 → m ≡ k + l → (n % 2 == 0 && leb (n / 2 * 3) m) ≡ true
enough n k l m even len s = ground arith

IsPacked-Returns :
    (values : List ℕ) (itemsize bps : ℕ)
    → check_layout bps 0 paired ≡ true
    → all_fit bps values ≡ true
    → length values % 2 ≡ 0
    → IsPacked bps values
    → Returns values itemsize bps
unfolding IsPacked Returns bitpack_paired unpack_paired
IsPacked-Returns values itemsize bps c f even (bytes, e, below, len, back) = (
  bytes,
  rw (c, f) (no_check (ltb bps (itemsize * 8)) (pack_paired values bps) ∙ e),
  below,
  len,
  λ pad.
      let size : length (bytes ++ pad) ≡ length bytes + length pad = length-append bytes pad in
      if_true (length values % 2 == 0 && leb (length values / 2 * 3) (length (bytes ++ pad))) _ none
        (enough (length values) (length bytes) (length pad) (length (bytes ++ pad)) even len size)
      ∙ ap some (back pad),
)
  where
    no_check : (b : Bool) (r : Option (List ℕ)) → (if b && false then none else r) ≡ r
    no_check true r = refl
    no_check false r = refl

-- An even number of samples below `2 ** bps`, of 10 or 12 bits, is packed in layout ">" without an
-- error, in three bytes for two samples, and unpacking gives the samples back, whatever bytes follow.
pub unpack_paired-bitpack_paired :
    (values : List ℕ) (itemsize bps : ℕ)
    → (bps ≡ 10) ⊎ (bps ≡ 12)
    → AllBelow (2 ^ bps) values
    → length values % 2 ≡ 0
    → (bytes : List ℕ) × (bitpack_paired values itemsize bps 0 ≡ some bytes)
      × AllBelow 256 bytes
      × (length bytes * 2 ≡ length values * 3)
      × ((pad : List ℕ) → unpack_paired (bytes ++ pad) bps (length values) ≡ some values)
unfolding Returns
unpack_paired-bitpack_paired values itemsize bps (inl e) =
    subst (λ b. AllBelow (2 ^ b) values → length values % 2 ≡ 0 → Returns values itemsize b) (sym e)
      (λ h even.
        IsPacked-Returns values itemsize 10 (unfold check_layout in refl)
          (all_fit-AllBelow 10 values h) even (ten-IsPacked values h even))
unpack_paired-bitpack_paired values itemsize bps (inr e) =
    subst (λ b. AllBelow (2 ^ b) values → length values % 2 ≡ 0 → Returns values itemsize b) (sym e)
      (λ h even.
        IsPacked-Returns values itemsize 12 (unfold check_layout in refl)
          (all_fit-AllBelow 12 values h) even (twelve-IsPacked values h even))
