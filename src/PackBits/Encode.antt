-- ===== src/PackBits/Encode.antt =====
-- The packets that `encode` writes.
use opencodecs.Common.{ℕ, zero, suc, ◌-◌, ◌%◌, ◌≤◌, ◌≡◌, refl, arith}
use opencodecs.Common.{List, [], ◌∷◌, ◌++◌, true, false, leb}
use opencodecs.Common.{length, take, drop, replicate}
use opencodecs.PackBits.{same_run, literal_run, encode_loop}

-- A run is at most as long as the room and the list, and it is made of the one byte.
pub same_run_bounds :
    (room x : ℕ) (l : List ℕ) → (same_run room x l ≤ room) × (same_run room x l ≤ length l)
unfolding same_run
same_run_bounds zero x l = (omega arith, omega arith)
same_run_bounds (suc room) x [] = (omega arith, omega arith)
same_run_bounds (suc room) x (y ∷ l) = ground (arith, same_run_bounds room x l)

pub replicate-same_run :
    (room x : ℕ) (l : List ℕ) → replicate (same_run room x l) x ++ drop (same_run room x l) l ≡ l
unfolding same_run
replicate-same_run zero x l = refl
replicate-same_run (suc room) x [] = refl
replicate-same_run (suc room) x (y ∷ l) = ground (arith, replicate-same_run room x l)

pub literal_run_bounds :
    (room : ℕ) (l : List ℕ) → (literal_run room l ≤ room) × (literal_run room l ≤ length l)
unfolding literal_run
literal_run_bounds zero l = (omega arith, omega arith)
literal_run_bounds (suc room) [] = (omega arith, omega arith)
literal_run_bounds (suc room) (y ∷ l) = ground (arith, literal_run_bounds room l)

-- One round of the loop: a run of three or more, or a literal.
module _ (g x : ℕ) (l : List ℕ) where
  pub encode_loop-run :
      leb 3 (suc (same_run 127 x l)) ≡ true
      → encode_loop (suc g) (x ∷ l)
        ≡ (257 - suc (same_run 127 x l)) % 256 ∷ (x ∷ encode_loop g (drop (same_run 127 x l) l))
  unfolding encode_loop
  encode_loop-run h = rw h

  pub encode_loop-literal :
      leb 3 (suc (same_run 127 x l)) ≡ false
      → encode_loop (suc g) (x ∷ l)
        ≡ literal_run 127 l
          ∷ ((x ∷ take (literal_run 127 l) l) ++ encode_loop g (drop (literal_run 127 l) l))
  unfolding encode_loop
  encode_loop-literal h = rw h (ground arith)
