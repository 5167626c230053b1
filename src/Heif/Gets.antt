-- ===== src/Heif/Gets.antt =====
-- backends/_heifbox.py: bytes that a reader of fields takes one after the other.
use opencodecs.Common.{
  ℕ, suc, ◌+◌, ◌^◌, ◌≤◌, ◌<◌, List, [], ◌∷◌, ◌++◌, true, some, ◌≡◌, refl, leb, length,
  get_elem?-append_right, leb-true, arith, sym, ◌∙◌, ap, length-append, append_assoc, append-nil,
}
use opencodecs.Common.Bytes.{slice-append}
use mathlib.Core.Path.{subst}
use mathlib.Core.Option
use opencodecs.Bitstreams.Reader.{Reader, pure, ◌>>=◌, times}
use opencodecs.Bitstreams.Moves.{bind-some, pair_cong}
use opencodecs.Heif.Bytes.{from_be, byte, be, chunk, be_bytes, length-be_bytes, from_be-be_bytes}

-- Where the bytes `w` stand, and end within the limit, the reader gives `v` and moves behind them.
pub record Gets (limit : ℕ) {A : Type 0} (p : Reader A) (v : A) (w : List ℕ) : Type 0 where
  pub read :
      (front back : List ℕ)
      → length front + length w ≤ limit
      → p (front ++ (w ++ back)) (length front) ≡ some (v, length front + length w)

module _ (limit : ℕ) where
  pub Gets-bind :
      {A B : Type 0} {p : Reader A} (f : A → Reader B) {a : A} {b : B} {w w' : List ℕ}
      → Gets limit p a w
      → Gets limit (f a) b w'
      → Gets limit (p >>= f) b (w ++ w')
  Gets-bind {p = p} f {a = a} {b = b} {w = w} {w' = w'} h k = record {
    read = λ front back fits.
        let n = length-append w w' in
        let m : length (front ++ w) ≡ length front + length w = length-append front w in
        let shape : front ++ ((w ++ w') ++ back) ≡ front ++ (w ++ (w' ++ back)) =
          ap (λ l. front ++ l) (append_assoc w w' back) in
        let again : (front ++ w) ++ (w' ++ back) ≡ front ++ (w ++ (w' ++ back)) =
          append_assoc front w (w' ++ back) in
        let second : f a (front ++ (w ++ (w' ++ back))) (length front + length w)
            ≡ some (b, length (front ++ w) + length w') =
          sym (λ i. f a (again i) (m i)) ∙ k.read (front ++ w) back (omega (arith, n, m)) in
        ap (λ l. (p >>= f) l (length front)) shape
        ∙ bind-some p f (front ++ (w ++ (w' ++ back))) (length front)
            (h.read front (w' ++ back) (omega (arith, n)))
        ∙ second
        ∙ pair_cong refl (omega (arith, n, m));
  }

  pub Gets-pure : {A : Type 0} (a : A) → Gets limit (pure a) a []
  unfolding pure
  Gets-pure a = record { read = λ front back fits. pair_cong refl (omega arith) }

  pub Gets-map :
      {A B : Type 0} {p : Reader A} (f : A → B) {a : A} {w : List ℕ}
      → Gets limit p a w
      → Gets limit (p >>= (λ a. pure (f a))) (f a) w
  Gets-map {p = p} f {a = a} {w = w} h =
      subst (Gets limit (p >>= (λ a. pure (f a))) (f a)) (append-nil w)
        (Gets-bind (λ a. pure (f a)) h (Gets-pure (f a)))

  pub Gets-byte : (b : ℕ) → Gets limit byte b (b ∷ [])
  unfolding byte
  Gets-byte b = record {
    read = λ front back fits.
        ap (Option.map (λ b. (b, length front + 1)))
          (get_elem?-append_right front (b ∷ back) 0 (length front) (omega arith));
  }

  pub Gets-chunk : (n : ℕ) (w : List ℕ) → length w ≡ n → Gets limit (chunk n) w w
  unfolding chunk
  Gets-chunk n w h = record {
    read = λ front back fits.
        pair_cong (slice-append front w back (length front) (length front + n) refl (omega arith))
          (omega arith);
  }

  pub Gets-be : (n value : ℕ) → value < 256 ^ n → Gets limit (be n) value (be_bytes n value)
  unfolding be
  Gets-be n value small = record {
    read = λ front back fits.
        let w = be_bytes n value in
        let k = length-be_bytes n value in
        let room : leb (length front + n) (length (front ++ (w ++ back))) ≡ true =
          leb-true (length front + n) (length (front ++ (w ++ back)))
            (omega (arith, k, length-append front (w ++ back), length-append w back)) in
        let bytes =
          slice-append front w back (length front) (length front + n) refl (omega (arith, k)) in
        let number = ap (from_be 0) bytes ∙ from_be-be_bytes n value small in
        rw (room, number) (pair_cong refl (omega (arith, k)));
  }

  pub Gets-times-zero : {A : Type 0} (p : Reader A) → Gets limit (times 0 p) [] []
  unfolding times
  Gets-times-zero p = Gets-pure []

  pub Gets-times-suc :
      {A : Type 0} {p : Reader A} (n : ℕ) {a : A} {rest : List A} {w ws : List ℕ}
      → Gets limit p a w
      → Gets limit (times n p) rest ws
      → Gets limit (times (suc n) p) (a ∷ rest) (w ++ ws)
  unfolding times
  Gets-times-suc {p = p} n {a = a} h k =
      Gets-bind (λ x. do xs ← times n p; pure (x ∷ xs)) h (Gets-map (λ xs. a ∷ xs) k)
