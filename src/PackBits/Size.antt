-- ===== src/PackBits/Size.antt =====
-- How much `encode` can grow a buffer.
use opencodecs.Common.{ℕ, zero, suc, ◌+◌, ◌-◌, ◌/◌, ◌≤◌, ◌<◌, ◌≡◌, ◌∙◌, arith}
use opencodecs.Common.{List, [], ◌∷◌, true, leb, if◌then◌else◌}
use opencodecs.Common.{length, take, drop, Bool-cases, inl, inr, length-append, length-take, ◌⊎◌}
use opencodecs.Common.{length-drop}
use opencodecs.PackBits.{same_run, literal_run, triple, encode_loop, encode}
use opencodecs.PackBits.Encode.{same_run_bounds, literal_run_bounds}
use opencodecs.PackBits.Encode.{encode_loop-run, encode_loop-literal}

-- 3 if three equal bytes come next, 0 otherwise.
abbrev ahead : List ℕ → ℕ
ahead l = if triple l then 3 else 0

-- 1 if three equal bytes come next, 0 otherwise.
abbrev spare : List ℕ → ℕ
spare l = if triple l then 1 else 0

-- A literal run stops at 128 bytes, at the end, or before three equal bytes.
literal_run_stops :
    (room : ℕ) (l : List ℕ)
    → literal_run room l < room
    → 0 < length (drop (literal_run room l) l)
    → triple (drop (literal_run room l) l) ≡ true
unfolding literal_run
literal_run_stops zero l h k = absurd (omega arith)
literal_run_stops (suc room) [] h k = absurd (omega arith)
literal_run_stops (suc room) (y ∷ l) h k = elim (Bool-cases (triple (y ∷ l))) [
  | inl t ↦ rw t t
  | inr f ↦ rw f (literal_run_stops room l (ground arith) (ground arith))
]

-- Three equal bytes come next exactly when a run packet is written.
triple-same_run : (x : ℕ) (l : List ℕ) → triple (x ∷ l) ≡ leb 3 (suc (same_run 127 x l))
unfolding triple same_run
triple-same_run x [] = ground arith
triple-same_run x (y ∷ []) = ground arith
triple-same_run x (y ∷ z ∷ l) = ground arith

-- What is spent on a buffer, with one byte to spare when a run comes first.
abbrev Fits : ℕ → List ℕ → Type 0
Fits size buf = size + spare buf ≤ length buf + (length buf - ahead buf + 127) / 128

-- The arithmetic of a run packet and of a literal packet, over the lengths.
run_size :
    (n k size s a : ℕ)
    → 2 ≤ n
    → n ≤ k
    → size + s ≤ (k - n) + (k - n - a + 127) / 128
    → suc (suc size) + 1 ≤ suc k + (suc k - 3 + 127) / 128
run_size n k size s a lo hi h = omega arith

literal_size :
    (m k size s a : ℕ)
    → m ≤ 127
    → m ≤ k
    → size + s ≤ (k - m) + (k - m - a + 127) / 128
    → (m ≡ k) ⊎ ((m ≡ 127) ⊎ ((s ≡ 1) × (a ≡ 3)))
    → suc (suc (m + size)) + 0 ≤ suc k + (suc k - 0 + 127) / 128
literal_size m k size s a room hi h (inl e) = omega arith
literal_size m k size s a room hi h (inr (inl e)) = omega arith
literal_size m k size s a room hi h (inr (inr (p, q))) = omega arith

encode_loop-Fits : (g : ℕ) (buf : List ℕ) → length buf ≤ g → Fits (length (encode_loop g buf)) buf
encode_loop-Fits g [] h = unfold encode_loop triple in omega arith
encode_loop-Fits zero (x ∷ l) h = absurd (omega arith)
encode_loop-Fits (suc g) (x ∷ l) h = elim (Bool-cases (leb 3 (suc n))) [
  | inl long ↦
      rw (encode_loop-run g x l long, triple-same_run x l ∙ long)
        (run_size n (length l) (length (encode_loop g (drop n l))) (spare (drop n l))
          (ahead (drop n l)) (ground arith) (same_run_bounds 127 x l).1
          (rw (length-drop n l) at
            (encode_loop-Fits g (drop n l) (omega (arith, length-drop n l)))))
  | inr short ↦
      let size = length-append (take m l) (encode_loop g (drop m l)) in
      let part : length (take m l) ≡ m =
        omega (arith, length-take m l, (literal_run_bounds 127 l).1) in
      rw (encode_loop-literal g x l short, triple-same_run x l ∙ short, size, part)
        (literal_size m (length l) (length (encode_loop g (drop m l))) (spare (drop m l))
          (ahead (drop m l)) (literal_run_bounds 127 l).0 (literal_run_bounds 127 l).1
          (rw (length-drop m l) at (encode_loop-Fits g (drop m l) (omega (arith, length-drop m l))))
          stops)
]
  where
    n : ℕ
    n = same_run 127 x l

    m : ℕ
    m = literal_run 127 l

    stops : (m ≡ length l) ⊎ ((m ≡ 127) ⊎ ((spare (drop m l) ≡ 1) × (ahead (drop m l) ≡ 3)))
    stops = elim (Bool-cases (triple (drop m l))) [
      | inl t ↦ inr (inr (rw t, rw t))
      | inr f ↦ ground (arith, literal_run_stops 127 l, literal_run_bounds 127 l, length-drop m l)
    ]

-- `encode` adds at most one byte for each 128 bytes begun.
pub length-encode : (buf : List ℕ) → length (encode buf) ≤ length buf + (length buf + 127) / 128
unfolding encode
length-encode buf = omega (arith, encode_loop-Fits (length buf) buf (omega arith))
