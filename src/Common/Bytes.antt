-- ===== src/Common/Bytes.antt =====
-- Little-endian 32-bit words, slices and joins of byte lists.
use opencodecs.Common.{ℕ, zero, suc, ◌+◌, ◌-◌, ◌*◌, ◌/◌, ◌%◌, ◌^◌, ◌<◌, ◌≡◌, refl, ap, arith}
use opencodecs.Common.{List, [], ◌∷◌, ◌++◌, length, take, drop}

-- `struct.pack("<I", w)` for a word below 2 ** 32, and back.
unfoldable pub u32_bytes : ℕ → List ℕ
u32_bytes w = w % 256 ∷ w / 256 % 256 ∷ w / 65536 % 256 ∷ w / 16777216 % 256 ∷ []

unfoldable pub u32_word : ℕ → ℕ → ℕ → ℕ → ℕ
u32_word a b c d = a + 256 * b + 65536 * c + 16777216 * d

pub u32_word-bytes :
    (w : ℕ)
    → w < 2 ^ 32
    → u32_word (w % 256) (w / 256 % 256) (w / 65536 % 256) (w / 16777216 % 256) ≡ w
unfolding u32_word
u32_word-bytes w h = omega arith

-- `struct.pack` and `struct.unpack` of a row of words; `unpack_words n` reads `n` of them.
unfoldable pub pack_words : List ℕ → List ℕ
pack_words [] = []
pack_words (w ∷ ws) = u32_bytes w ++ pack_words ws

unfoldable pub unpack_words : ℕ → List ℕ → List ℕ
unpack_words zero l = []
unpack_words (suc n) (a ∷ b ∷ c ∷ d ∷ l) = u32_word a b c d ∷ unpack_words n l
unpack_words (suc n) _ = []

abbrev pub AllWords : List ℕ → Type 0
AllWords [] = Unit
AllWords (w ∷ ws) = (w < 2 ^ 32) × AllWords ws

pub unpack_words-pack_words :
    (ws rest : List ℕ) → AllWords ws → unpack_words (length ws) (pack_words ws ++ rest) ≡ ws
unfolding unpack_words pack_words u32_bytes
unpack_words-pack_words [] rest h = refl
unpack_words-pack_words (w ∷ ws) rest h =
    rw (u32_word-bytes w h.0, unpack_words-pack_words ws rest h.1)

pub length-pack_words : (ws : List ℕ) → length (pack_words ws) ≡ 4 * length ws
unfolding pack_words u32_bytes
length-pack_words [] = omega arith
length-pack_words (w ∷ ws) = omega (arith, length-pack_words ws)

-- `buf[a:b]` for `0 <= a` and `0 <= b`.
abbrev pub slice : List ℕ → ℕ → ℕ → List ℕ
slice buf a b = take (b - a) (drop a buf)

-- `b"".join(parts)`
abbrev pub join {ℓ} : {A : Type ℓ} → List (List A) → List A
join [] = []
join (p ∷ ps) = p ++ join ps

pub take-append : (xs ys : List ℕ) (n : ℕ) → n ≡ length xs → take n (xs ++ ys) ≡ xs
take-append [] ys n h = rw h
take-append (x ∷ xs) ys n h = rw h (ap (◌∷◌ x) (take-append xs ys (length xs) refl))

pub drop-append : (xs ys : List ℕ) (n : ℕ) → n ≡ length xs → drop n (xs ++ ys) ≡ ys
drop-append [] ys n h = rw h
drop-append (x ∷ xs) ys n h = rw h (drop-append xs ys (length xs) refl)

-- The middle of three parts, by its offsets.
pub slice-append :
    (front mid back : List ℕ) (a b : ℕ)
    → a ≡ length front
    → b ≡ length front + length mid
    → slice (front ++ (mid ++ back)) a b ≡ mid
slice-append front mid back a b p q =
    rw (drop-append front (mid ++ back) a p) (take-append mid back (b - a) (omega arith))
