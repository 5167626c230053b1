-- ===== src/Bitstreams/Annexb.antt =====
-- backends/_bitstreams.py, HEVC: `split_annexb` and `nal_type`.
pub mod Splitting
use opencodecs.Common.{
  ℕ, zero, suc, ◌+◌, ◌-◌, ◌/◌, ◌%◌, List, [], ◌∷◌, ◌++◌, Bool, true, false, ◌&&◌,
}
use opencodecs.Common.{Option, ◌==◌, if◌then◌else◌, drop, get_elem?}
use opencodecs.Common.Bytes.{slice}
use mathlib.Core.Option

-- `nal_type`
unfoldable pub nal_type : List ℕ → Option ℕ
nal_type nal = Option.map (λ b. b / 2 % 64) (get_elem? nal 0)

-- Whether `b"\0\0\1"` stands here.
unfoldable pub code_here : List ℕ → Bool
code_here (a ∷ b ∷ c ∷ l) = a == 0 && b == 0 && c == 1
code_here _ = false

-- The positions behind the start codes, from the place `at` on; the search goes on behind a code that
-- was found, `wait` bytes further.
unfoldable pub starts : ℕ → ℕ → List ℕ → List ℕ
starts wait at [] = []
starts zero at (b ∷ l) =
    let found = (at + 3) ∷ starts 2 (at + 1) l in
    let missed = starts 0 (at + 1) l in if code_here (b ∷ l) then found else missed
starts (suc wait) at (b ∷ l) = starts wait (at + 1) l

-- `while nal.endswith(b"\0"): nal = nal[:-1]`
unfoldable pub strip_zeros : List ℕ → List ℕ
strip_zeros [] = []
strip_zeros (b ∷ l) = elim (strip_zeros l) [
  | [] ↦ if b == 0 then [] else b ∷ []
  | c ∷ k ↦ b ∷ c ∷ k
]

-- `if nal: out.append(nal)`
unfoldable pub keep : List ℕ → List (List ℕ) → List (List ℕ)
keep [] out = out
keep (b ∷ l) out = (b ∷ l) ∷ out

unfoldable pub units : List ℕ → List ℕ → List (List ℕ)
units stream [] = []
units stream (s ∷ []) = keep (drop s stream) []
units stream (s ∷ t ∷ rest) = keep (strip_zeros (slice stream s (t - 3))) (units stream (t ∷ rest))

-- `split_annexb`
unfoldable pub split_annexb : List ℕ → List (List ℕ)
split_annexb stream = units stream (starts 0 0 stream)
