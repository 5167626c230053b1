-- ===== src/Bitstreams/Emulation.antt =====
-- Emulation prevention: `rbsp` undoes `_ebsp`, and what `_ebsp` writes holds no start code.
use opencodecs.Common.{ℕ, ◌+◌, ◌≡◌, refl, arith, List, [], ◌∷◌}
use opencodecs.Common.{Bool, false, ltb, leb, ◌==◌, ◌&&◌, ◌||◌, if◌then◌else◌}
use opencodecs.Bitstreams.{rbsp_from, rbsp, ebsp_from, ebsp}

rbsp_from-ebsp_from : (run : ℕ) (payload : List ℕ) → rbsp_from run (ebsp_from run payload) ≡ payload
unfolding rbsp_from ebsp_from
rbsp_from-ebsp_from run [] = refl
rbsp_from-ebsp_from run (b ∷ l) =
    ground
      (arith, rbsp_from-ebsp_from (run + 1) l, rbsp_from-ebsp_from 1 l, rbsp_from-ebsp_from 0 l)

-- Removing the emulation prevention bytes of an escaped payload gives the payload back, for any
-- payload behind any two header bytes.
pub rbsp-ebsp : (h₀ h₁ : ℕ) (payload : List ℕ) → rbsp (h₀ ∷ h₁ ∷ ebsp payload) ≡ payload
unfolding rbsp ebsp
rbsp-ebsp h₀ h₁ payload = rbsp_from-ebsp_from 0 payload

-- Two zero bytes and then a byte below 3 stand somewhere in the stream. `run` zero bytes stand before it.
unfoldable pub has_start_code : ℕ → List ℕ → Bool
has_start_code run [] = false
has_start_code run (b ∷ l) =
    (leb 2 run && ltb b 3) || has_start_code (if b == 0 then run + 1 else 0) l

no_start_code_from :
    (run : ℕ) (payload : List ℕ) → has_start_code run (ebsp_from run payload) ≡ false
unfolding has_start_code ebsp_from
no_start_code_from run [] = refl
no_start_code_from run (b ∷ l) =
    ground (arith, no_start_code_from (run + 1) l, no_start_code_from 1 l, no_start_code_from 0 l)

-- An escaped payload never holds two zero bytes followed by a byte below 3, so no start code is
-- found in it.
pub no_start_code : (payload : List ℕ) → has_start_code 0 (ebsp payload) ≡ false
unfolding ebsp
no_start_code payload = no_start_code_from 0 payload
