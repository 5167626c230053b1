-- ===== src/Bitstreams/Av1/Fields.antt =====
-- backends/_bitstreams.py, AV1: the parts of a color configuration, as they are written and read.
use opencodecs.Common.{
  ℕ, ◌<◌, List, [], ◌∷◌, ◌++◌, Bool, true, false, ◌&&◌, some, ◌≡◌, ◌⊎◌, inl, inr, refl, ltb, ◌==◌,
  if◌then◌else◌, arith, ==_iff, sym, ◌∙◌, some_pair, Bool-cases,
}
use mathlib.Core.Path.{subst}
use mathlib.Core.Bool.{true≢false}
use opencodecs.Bitstreams.{u, bits_of}
use opencodecs.Bitstreams.Reader.{Reader, pure, ◌>>=◌}
use opencodecs.Bitstreams.Moves.{bind-cases}
use opencodecs.Bitstreams.Prints.{
  Prints, Prints-bind, Prints-map, Prints-pure, Prints-u, Prints-bit, u-small,
}
use opencodecs.Bitstreams.Hevc.Sps.{description}
use opencodecs.Bitstreams.Av1.{
  depth, depth_bits, sampling, sampling_bits, both, position_of, position_bits,
}

abbrev twelve_bit : Reader ℕ
twelve_bit = do twelve ← u 1; pure (if twelve == 0 then 10 else 12)

abbrev depth_rest : Bool → Bool → Reader ℕ
depth_rest low two = if low then pure 8 else (if two then twelve_bit else pure 10)

abbrev depth_rest_bits : Bool → ℕ → List ℕ
depth_rest_bits two bits =
    (if ltb 8 bits then 1 else 0)
    ∷ (if two && ltb 8 bits then (if bits == 12 then 1 else 0) ∷ [] else [])

-- The depths that are read.
depth_values :
    (low two : Bool) (bytes : List ℕ) (at bits at' : ℕ)
    → depth_rest low two bytes at ≡ some (bits, at')
    → (bits ≡ 8) ⊎ ((bits ≡ 10) ⊎ ((bits ≡ 12) × (two ≡ true)))
unfolding pure
depth_values true two bytes at bits at' h = inl (sym (some_pair h).0)
depth_values false false bytes at bits at' h = inr (inl (sym (some_pair h).0))
depth_values false true bytes at bits at' h =
    let (twelve, m, _, k) =
      bind-cases (u 1) (λ twelve. pure (if twelve == 0 then 10 else 12)) bytes at (bits, at') h in
    elim (Bool-cases (twelve == 0)) [
      | inl z ↦ inr (inl (sym (some_pair k).0 ∙ rw z refl))
      | inr z ↦ inr (inr (sym (some_pair k).0 ∙ rw z refl, refl))
    ]

high_bit :
    (two : Bool) {bit bits : ℕ} {w : List ℕ}
    → Prints (depth_rest (bit == 0) two) bits w
    → Prints (u 1 >>= λ high. depth_rest (high == 0) two) bits (bit ∷ w)
high_bit two {bit = bit} h = Prints-bind (λ high. depth_rest (high == 0) two) (Prints-bit bit) h

twelve_bit-Prints : (bit : ℕ) → Prints twelve_bit (if bit == 0 then 10 else 12) (bit ∷ [])
twelve_bit-Prints bit =
    Prints-bind (λ twelve. pure (if twelve == 0 then 10 else 12)) (Prints-bit bit)
      (Prints-pure (if bit == 0 then 10 else 12))

depth_rest-Prints :
    (two : Bool) (bits : ℕ)
    → (bits ≡ 8) ⊎ ((bits ≡ 10) ⊎ ((bits ≡ 12) × (two ≡ true)))
    → Prints (u 1 >>= λ high. depth_rest (high == 0) two) bits (depth_rest_bits two bits)
depth_rest-Prints false bits (inl e) = rw e (high_bit false (Prints-pure 8))
depth_rest-Prints true bits (inl e) = rw e (high_bit true (Prints-pure 8))
depth_rest-Prints false bits (inr (inl e)) = rw e (high_bit false (Prints-pure 10))
depth_rest-Prints true bits (inr (inl e)) = rw e (high_bit true (twelve_bit-Prints 0))
depth_rest-Prints false bits (inr (inr e)) = ground arith
depth_rest-Prints true bits (inr (inr e)) = rw e.0 (high_bit true (twelve_bit-Prints 1))

twelve_two :
    (two : Bool) (bits : ℕ)
    → (bits ≡ 8) ⊎ ((bits ≡ 10) ⊎ ((bits ≡ 12) × (two ≡ true)))
    → (bits == 12) ≡ true
    → two ≡ true
twelve_two two bits (inl e) h = absurd (true≢false (sym (rw e at h)))
twelve_two two bits (inr (inl e)) h = absurd (true≢false (sym (rw e at h)))
twelve_two two bits (inr (inr e)) h = e.1

-- A depth that was read is written as it reads; 12 bits are of profile 2.
pub depth-Prints :
    (profile : ℕ) (bytes : List ℕ) (at bits at' : ℕ)
    → depth profile bytes at ≡ some (bits, at')
    → Prints (depth profile) bits (depth_bits profile bits)
      × ((bits == 12) ≡ true → (profile == 2) ≡ true)
unfolding depth depth_bits
depth-Prints profile bytes at bits at' h =
    let (high, m, _, k) =
      bind-cases (u 1) (λ high. depth_rest (high == 0) (profile == 2)) bytes at (bits, at') h in
    let values = depth_values (high == 0) (profile == 2) bytes m bits at' k in
    (depth_rest-Prints (profile == 2) bits values, twelve_two (profile == 2) bits values)

pub description-Prints :
    (cp tc mc : ℕ)
    → cp < 256
    → tc < 256
    → mc < 256
    → Prints description (cp, tc, mc) (bits_of 8 cp ++ (bits_of 8 tc ++ bits_of 8 mc))
unfolding description
description-Prints cp tc mc a b c =
    Prints-bind (λ cp. do tc ← u 8; mc ← u 8; pure (cp, tc, mc)) (Prints-u 8 cp a)
      (Prints-bind (λ tc. do mc ← u 8; pure (cp, tc, mc)) (Prints-u 8 tc b)
        (Prints-map (λ mc. (cp, tc, mc)) (Prints-u 8 mc c)))

abbrev chroma : Reader (ℕ × ℕ)
chroma = do sx ← u 1; sy ← if sx == 0 then pure 0 else u 1; pure (sx, sy)

abbrev chroma_bits : ℕ × ℕ → List ℕ
chroma_bits (sx, sy) = bits_of 1 sx ++ (if sx == 0 then [] else bits_of 1 sy)

vertical-Prints :
    (flat : Bool) (bytes : List ℕ) (at sy at' : ℕ)
    → (if flat then pure 0 else u 1) bytes at ≡ some (sy, at')
    → Prints (if flat then pure 0 else u 1) sy (if flat then [] else bits_of 1 sy)
unfolding pure
vertical-Prints true bytes at sy at' h =
    subst (λ t. Prints (pure 0) t []) (some_pair h).0 (Prints-pure 0)
vertical-Prints false bytes at sy at' h = Prints-u 1 sy (u-small 1 bytes at sy at' h)

chroma-Prints :
    (bytes : List ℕ) (at : ℕ) (s : ℕ × ℕ) (at' : ℕ)
    → chroma bytes at ≡ some (s, at')
    → Prints chroma s (chroma_bits s)
unfolding pure
chroma-Prints bytes at s at' h =
    let (sx, m, e, h1) =
      bind-cases (u 1) (λ sx. do sy ← if sx == 0 then pure 0 else u 1; pure (sx, sy)) bytes at
        (s, at') h in
    let (sy, m1, e1, h2) =
      bind-cases (if sx == 0 then pure 0 else u 1) (λ sy. pure (sx, sy)) bytes m (s, at') h1 in
    subst (λ t. Prints chroma t (chroma_bits t)) (some_pair h2).0
      (Prints-bind (λ sx. do sy ← if sx == 0 then pure 0 else u 1; pure (sx, sy))
        (Prints-u 1 sx (u-small 1 bytes at sx m e))
        (Prints-map (λ sy. (sx, sy)) (vertical-Prints (sx == 0) bytes m sy m1 e1)))

abbrev sampling_rest : Bool → Bool → Bool → Reader (ℕ × ℕ)
sampling_rest zero_p one_p deep =
    if zero_p
    then pure (1, 1)
    else if one_p
    then pure (0, 0)
    else if deep
    then chroma
    else pure (1, 0)

sampling_rest-Prints :
    (zero_p one_p two deep : Bool) (bytes : List ℕ) (at : ℕ) (s : ℕ × ℕ) (at' : ℕ)
    → (zero_p ≡ true → two ≡ false)
    → (one_p ≡ true → two ≡ false)
    → (deep ≡ true → two ≡ true)
    → sampling_rest zero_p one_p deep bytes at ≡ some (s, at')
    → Prints (sampling_rest zero_p one_p deep) s (if two && deep then chroma_bits s else [])
unfolding pure
sampling_rest-Prints true one_p two deep bytes at s at' a b c h =
    rw (a refl) (subst (λ t. Prints (pure (1, 1)) t []) (some_pair h).0 (Prints-pure (1, 1)))
sampling_rest-Prints false true two deep bytes at s at' a b c h =
    rw (b refl) (subst (λ t. Prints (pure (0, 0)) t []) (some_pair h).0 (Prints-pure (0, 0)))
sampling_rest-Prints false false two true bytes at s at' a b c h =
    rw (c refl) (chroma-Prints bytes at s at' h)
sampling_rest-Prints false false true false bytes at s at' a b c h =
    subst (λ t. Prints (pure (1, 0)) t []) (some_pair h).0 (Prints-pure (1, 0))
sampling_rest-Prints false false false false bytes at s at' a b c h =
    subst (λ t. Prints (pure (1, 0)) t []) (some_pair h).0 (Prints-pure (1, 0))

not_two : (profile k : ℕ) → k < 2 → (profile == k) ≡ true → (profile == 2) ≡ false
not_two profile k l h = ground (arith, ==_iff profile k, ==_iff profile 2)

pub sampling-Prints :
    (profile bits : ℕ) (bytes : List ℕ) (at : ℕ) (s : ℕ × ℕ) (at' : ℕ)
    → ((bits == 12) ≡ true → (profile == 2) ≡ true)
    → sampling profile bits bytes at ≡ some (s, at')
    → Prints (sampling profile bits) s (sampling_bits profile bits s)
unfolding sampling sampling_bits
sampling-Prints profile bits bytes at s at' c h =
    sampling_rest-Prints (profile == 0) (profile == 1) (profile == 2) (bits == 12) bytes at s at'
      (not_two profile 0 (omega arith)) (not_two profile 1 (omega arith)) c h

pub position_of-Prints :
    (s : ℕ × ℕ) (bytes : List ℕ) (at position at' : ℕ)
    → position_of s bytes at ≡ some (position, at')
    → Prints (position_of s) position (position_bits s position)
unfolding position_of position_bits pure
position_of-Prints s bytes at position at' h = go (both s) h
  where
    go :
        (two : Bool)
        → (if two then u 2 else pure 0) bytes at ≡ some (position, at')
        → Prints (if two then u 2 else pure 0) position (if two then bits_of 2 position else [])
    go true k = Prints-u 2 position (u-small 2 bytes at position at' k)
    go false k = subst (λ t. Prints (pure 0) t []) (some_pair k).0 (Prints-pure 0)
