-- ===== src/Ole/MiniPrefixes.antt =====
-- src/opencodecs/_ole2.py, `_read_mini_chain`: the chain of a small stream, and its start.
use opencodecs.Common.{
  ℕ, zero, suc, ◌+◌, ◌-◌, ◌*◌, ◌≤◌, ◌<◌, min, List, [], ◌∷◌, ◌++◌, false, ◌≡◌, inl, inr, refl, ap,
  ◌∙◌, arith,
}
use opencodecs.Common.{
  some, leb, ◌==◌, length, take, drop, get_elem?, length-take, length-drop, length-append,
  Bool-cases,
}
use opencodecs.Common.Bytes.{slice}
use opencodecs.Common.Result.{ok, ◌>>=◌}
use opencodecs.Ole.{end_of_chain}
use opencodecs.Ole.Streams.{mini_loop}
use opencodecs.Ole.Chains.{Leads, here, there}
use opencodecs.Ole.Prefixes.{take-over}

pub take-all : (n : ℕ) (l : List ℕ) → length l ≤ n → take n l ≡ l
take-all zero [] h = refl
take-all zero (x ∷ l) h = absurd (omega arith)
take-all (suc n) [] h = refl
take-all (suc n) (x ∷ l) h = ap (λ t. x ∷ t) (take-all n l (omega arith))

-- The mini stream has room for each of these mini sectors.
unfoldable pub AllMinis : List ℕ → ℕ → List ℕ → Type 0
AllMinis stream size [] = Unit
AllMinis stream size (s ∷ l) = ((s + 1) * size ≤ length stream) × AllMinis stream size l

-- The bytes of the mini sectors, one behind the other.
unfoldable pub minis_bytes : List ℕ → ℕ → List ℕ → List ℕ
minis_bytes stream size [] = []
minis_bytes stream size (s ∷ l) =
    slice stream (s * size) (s * size + size) ++ minis_bytes stream size l

length-mini_sector :
    (stream : List ℕ) (size s : ℕ)
    → (s + 1) * size ≤ length stream
    → length (slice stream (s * size) (s * size + size)) ≡ size
length-mini_sector stream size s whole = omega (
  arith,
  length-take (s * size + size - s * size) (drop (s * size) stream),
  length-drop (s * size) stream,
)

pub length-minis_bytes :
    (stream : List ℕ) (size : ℕ) (l : List ℕ)
    → AllMinis stream size l
    → length (minis_bytes stream size l) ≡ length l * size
unfolding minis_bytes AllMinis
length-minis_bytes stream size [] h = omega arith
length-minis_bytes stream size (s ∷ l) h = omega (
  arith,
  length-append (slice stream (s * size) (s * size + size)) (minis_bytes stream size l),
  length-mini_sector stream size s h.0,
  length-minis_bytes stream size l h.1,
)

-- What a mini sector and the rest give, of which `n` bytes are missing.
part_of :
    (n size : ℕ) (s rest : List ℕ)
    → length s ≡ size
    → take (min size n) s ++ take (n - min size n) rest ≡ take n (s ++ rest)
part_of n size s rest whole = elim (Bool-cases (leb size n)) [
  | inl z ↦
      let under : size ≤ n = ground arith in
      let a : min size n ≡ size = omega arith in
      let all : take size s ≡ s = take-all size s (omega (arith, whole)) in
      let first : take n s ≡ s = take-all n s (omega (arith, whole)) in
      rw (a, all, take-over n s rest, first, whole) refl
  | inr z ↦
      let over : n < size = ground arith in
      let a : min size n ≡ n = omega arith in
      let no_more : n - n ≡ 0 = omega arith in
      let no_rest : n - length s ≡ 0 = omega (arith, whole) in
      rw (a, no_more, take-over n s rest, no_rest) refl
]

step-read :
    (fuel : ℕ) (minifat stream : List ℕ) (size n sect after : ℕ)
    → n == 0 ≡ false
    → sect == end_of_chain ≡ false
    → get_elem? minifat sect ≡ some after
    → mini_loop (suc fuel) minifat stream size n sect ≡ (
        mini_loop fuel minifat stream size (n - min size n) after >>= λ rest.
        ok (take (min size n) (slice stream (sect * size) (sect * size + size)) ++ rest))
unfolding mini_loop
step-read fuel minifat stream size n sect after more inner at = rw (more, inner, at) refl

-- A mini chain that holds `m` bytes gives its first `n`, without an error.
pub mini_loop-start :
    (fuel : ℕ) (minifat stream : List ℕ) (size m n sect : ℕ) (l : List ℕ) (left after : ℕ)
    → 0 < size
    → Leads minifat size m sect l left after
    → left ≡ 0
    → AllMinis stream size l
    → n ≤ m
    → n ≤ fuel
    → mini_loop fuel minifat stream size n sect ≡ ok (take n (minis_bytes stream size l))
unfolding mini_loop AllMinis minis_bytes
mini_loop-start zero minifat stream size m n sect l left after positive leads end whole le enough =
    let nothing : n ≡ 0 = omega arith in rw nothing refl
mini_loop-start (suc fuel) minifat stream size m zero sect l left after positive leads end whole le
      enough =
    refl
mini_loop-start (suc fuel) minifat stream size m (suc n) sect [] left after positive (here _ _) end
      whole le enough =
    absurd (omega arith)
mini_loop-start (suc fuel) minifat stream size m (suc n) sect (_ ∷ l) left after positive
      (there _ _ t _ _ _ more inner at leads) end whole le enough =
    let go : suc n == 0 ≡ false = ground arith in
    let live : sect == end_of_chain ≡ false = ground arith in
    let s = slice stream (sect * size) (sect * size + size) in
    let rest =
      mini_loop-start fuel minifat stream size (m - size) (suc n - min size (suc n)) t l left after
        positive leads end whole.1 (omega arith) (omega arith) in
    step-read fuel minifat stream size (suc n) sect t go live at
    ∙ ap (λ r. r >>= λ rest. ok (take (min size (suc n)) s ++ rest)) rest
    ∙ ap ok (
        part_of (suc n) size s (minis_bytes stream size l)
          (length-mini_sector stream size sect whole.0))
