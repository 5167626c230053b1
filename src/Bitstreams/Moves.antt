-- ===== src/Bitstreams/Moves.antt =====
-- backends/_bitstreams.py: a reader at two places, or on other bytes, compared by the bits that it
-- consumes.
use opencodecs.Common.{ℕ, ◌+◌, ◌-◌, ◌≤◌, ◌<◌, List, Option, none, some, ◌≡◌}
use opencodecs.Common.{refl, arith, sym, ◌∙◌, Option-cases, inl, inr}
use opencodecs.Common.{some_pair}
use mathlib.Core.Path.{subst, fun_ext}
use mathlib.Core.Option
use native.Mathlib.Nat.{add-zero}
use opencodecs.Bitstreams.{bit_at}
use opencodecs.Bitstreams.Reader.{Reader, pure, fail, position, ◌>>=◌}

-- `n` bits are the same at two places.
unfoldable pub Same : List ℕ → ℕ → List ℕ → ℕ → ℕ → Type 0
Same bytes at bytes2 at2 n = (i : ℕ) → i < n → bit_at bytes (at + i) ≡ bit_at bytes2 (at2 + i)

-- The places that two runs may start at.
pub record Places : Type 1 where
  pub Near : ℕ → ℕ → Type 0
  pub shift : (m n k : ℕ) → Near m n → Near (m + k) (n + k)

abbrev pub anywhere : Places
anywhere = record { Near = λ m n. Unit; shift = λ m n k h. tt }

pub same_shift : (m n k : ℕ) → m ≡ n → m + k ≡ n + k
same_shift m n k h = omega arith

abbrev pub in_place : Places
in_place = record { Near = λ m n. m ≡ n; shift = same_shift }

module _ (places : Places) where
  open places use {Near, shift}

  -- What `p` reads, `q` reads where the bits are the same, with a result that `R` relates.
  unfoldable pub Moves : {A : Type 0} → (A → A → Type 0) → Reader A → Reader A → Type 0
  Moves {A} R p q =
      (bytes : List ℕ) (at : ℕ) (a : A) (at' : ℕ)
      → p bytes at ≡ some (a, at')
      → (at ≤ at')
        × ((bytes2 : List ℕ) (at2 : ℕ)
            → Near at at2
            → Same bytes at bytes2 at2 (at' - at)
            → (b : A) × (q bytes2 at2 ≡ some (b, at2 + (at' - at))) × R a b)

  -- The same result.
  pub record IsLocal {A : Type 0} (p : Reader A) : Type 0 where
    pub moves : Moves ◌≡◌ p p

pub pair_cong :
    {A : Type 0} {a b : A} {m n : ℕ}
    → a ≡ b
    → m ≡ n
    → ◌≡◌ {A = Option (A × ℕ)} (some (a, m)) (some (b, n))
pair_cong p q = λ i. some (p i, q i)

Same-take :
    (bytes : List ℕ) (at : ℕ) (bytes2 : List ℕ) (at2 n m : ℕ)
    → n ≤ m
    → Same bytes at bytes2 at2 m
    → Same bytes at bytes2 at2 n
unfolding Same
Same-take bytes at bytes2 at2 n m h s i l = s i (omega arith)

Same-drop :
    (bytes : List ℕ) (at : ℕ) (bytes2 : List ℕ) (at2 k n m : ℕ)
    → k + n ≤ m
    → Same bytes at bytes2 at2 m
    → Same bytes (at + k) bytes2 (at2 + k) n
unfolding Same
Same-drop bytes at bytes2 at2 k n m h s i l =
    let e : at + k + i ≡ at + (k + i) = omega arith in
    let e2 : at2 + k + i ≡ at2 + (k + i) = omega arith in rw (e, e2) (s (k + i) (omega arith))

none-some : {A : Type 0} {a : A} → none ≡ some a → ⊥
none-some k = ground arith

-- One bit.
unfoldable pub bit : Reader ℕ
bit bytes at = Option.map (λ b. (b, at + 1)) (bit_at bytes at)

-- A run of a bind is a run of its parts.
pub bind-cases :
    {A B : Type 0} (p : Reader A) (f : A → Reader B) (bytes : List ℕ) (at : ℕ) (r : B × ℕ)
    → (p >>= f) bytes at ≡ some r
    → (a : A) × (at' : ℕ) × (p bytes at ≡ some (a, at')) × (f a bytes at' ≡ some r)
unfolding ◌>>=◌
bind-cases p f bytes at r h = elim (Option-cases (p bytes at)) [
  | inl e ↦ absurd (none-some (rw (e, ◌>>=◌) at h))
  | inr (q, e) ↦ (q.0, q.1, e, rw (e, ◌>>=◌) at h)
]

pub bind-some :
    {A B : Type 0} (p : Reader A) (f : A → Reader B) (bytes : List ℕ) (at : ℕ) {a : A} {at' : ℕ}
    → p bytes at ≡ some (a, at')
    → (p >>= f) bytes at ≡ f a bytes at'
unfolding ◌>>=◌
bind-some p f bytes at e = rw (e, ◌>>=◌) refl

module _ (places : Places) where
  open places use {Near, shift}

  -- The second parts may differ where the relation of the first results allows it.
  pub Moves-bind :
      {A B : Type 0} (R : A → A → Type 0) (S : B → B → Type 0) (p : Reader A) (f g : A → Reader B)
      → ((a : A) → R a a)
      → Moves places R p p
      → ((a b : A) → R a b → Moves places S (f a) (g b))
      → Moves places S (p >>= f) (p >>= g)
  unfolding Moves
  Moves-bind R S p f g refl_R hp hf bytes at c end h =
      let (a, mid, e, k) = bind-cases p f bytes at (c, end) h in
      let (l, first) = hp bytes at a mid e in
      let (m, _) = hf a a (refl_R a) bytes mid c end k in
      (
        omega arith,
        λ bytes2 at2 near same.
            let d = mid - at in
            let from : at + d ≡ mid = omega arith in
            let (b, e2, ab) =
              first bytes2 at2 near
                (Same-take bytes at bytes2 at2 d (end - at) (omega arith) same) in
            let (c2, k2, cc2) =
              (hf a b ab bytes mid c end k).1 bytes2 (at2 + d)
                (subst (λ t. Near t (at2 + d)) from (shift at at2 d near))
                (subst (λ t. Same bytes t bytes2 (at2 + d) (end - mid)) from
                  (Same-drop bytes at bytes2 at2 d (end - mid) (end - at) (omega arith) same)) in
            (c2, bind-some p g bytes2 at2 e2 ∙ k2 ∙ pair_cong refl (omega arith), cc2),
      )

  pub IsLocal-then :
      {A B : Type 0} (S : B → B → Type 0) (p : Reader A) (f g : A → Reader B)
      → IsLocal places p
      → ((a : A) → Moves places S (f a) (g a))
      → Moves places S (p >>= f) (p >>= g)
  IsLocal-then S p f g hp hf =
      Moves-bind ◌≡◌ S p f g (λ a. refl) hp.moves
        (λ a b e. subst (λ t. Moves places S (f a) (g t)) e (hf a))

  pub IsLocal-bind :
      {A B : Type 0} (p : Reader A) (f : A → Reader B)
      → IsLocal places p
      → ((a : A) → IsLocal places (f a))
      → IsLocal places (p >>= f)
  IsLocal-bind p f hp hf = record { moves = IsLocal-then ◌≡◌ p f f hp (λ a. (hf a).moves) }

  pub Moves-ext :
      {A : Type 0} (S : A → A → Type 0) (p q : Reader A)
      → ((bytes : List ℕ) (at : ℕ) → p bytes at ≡ q bytes at)
      → Moves places S q q
      → Moves places S p p
  Moves-ext S p q h m =
      subst (λ r. Moves places S r r) (fun_ext (λ bytes. fun_ext (λ at. sym (h bytes at)))) m

  pub Moves-pure :
      {A : Type 0} (S : A → A → Type 0) (a b : A) → S a b → Moves places S (pure a) (pure b)
  unfolding Moves pure
  Moves-pure S a b r bytes at c end h =
      let (e, q) = some_pair h in
      (
        omega arith,
        λ bytes2 at2 near same. (b, pair_cong refl (omega arith), subst (λ t. S t b) e r),
      )

  pub IsLocal-pure : {A : Type 0} (a : A) → IsLocal places (pure a)
  IsLocal-pure a = record { moves = Moves-pure ◌≡◌ a a refl }

  pub IsLocal-fail : (A : Type 0) → IsLocal places (fail {A = A})
  unfolding Moves fail
  IsLocal-fail A = record { moves = λ bytes at c end h. ground arith }

  pub Moves-position : Moves places (λ m n. Unit) position position
  unfolding Moves position
  Moves-position bytes at c end h =
      let (e, q) = some_pair h in
      (omega arith, λ bytes2 at2 near same. (at2, pair_cong refl (omega arith), tt))

  bit-Moves : Moves places ◌≡◌ bit bit
  unfolding Moves bit Same
  bit-Moves bytes at c end h = elim (Option-cases (bit_at bytes at)) [
    | inl e ↦ absurd (none-some (rw e at h))
    | inr (b, e) ↦
        let (p, q) = some_pair (rw e at h) in
        (
          omega arith,
          λ bytes2 at2 near same.
              let z : bit_at bytes2 at2 ≡ some b =
                sym (rw (add-zero at, add-zero at2) at (same 0 (omega arith))) ∙ e in
              (c, rw z (pair_cong p (omega arith)), refl),
        )
  ]

  pub IsLocal-bit : IsLocal places bit
  IsLocal-bit = record { moves = bit-Moves }

  pub IsLocal-ext :
      {A : Type 0} (p q : Reader A)
      → ((bytes : List ℕ) (at : ℕ) → p bytes at ≡ q bytes at)
      → IsLocal places q
      → IsLocal places p
  IsLocal-ext p q h m = record { moves = Moves-ext ◌≡◌ p q h m.moves }

in_place-position : Moves in_place ◌≡◌ position position
unfolding Moves position
in_place-position bytes at c end h =
    let (e, q) = some_pair h in
    (omega arith, λ bytes2 at2 near same. (c, pair_cong (sym near ∙ e) (omega arith), refl))

-- A position that is read at the same place is the same.
pub IsLocal-position : IsLocal in_place position
IsLocal-position = record { moves = in_place-position }
