-- ===== src/Bitstreams/Obus.antt =====
-- backends/_bitstreams.py, AV1: `split_obus`.
pub mod Splitting
use opencodecs.Common.{ℕ, zero, suc, ◌+◌, ◌-◌, ◌/◌, ◌%◌, List, [], ◌∷◌, ◌++◌, Bool, true, false}
use opencodecs.Common.{Option, none, some, ltb, ◌==◌, if◌then◌else◌, length, take, drop}
use opencodecs.Bitstreams.{read_leb128}
use mathlib.Core.Option

-- `(type, whole OBU bytes, payload start within it)`
abbrev pub Obu : Type 0
Obu = ℕ × List ℕ × ℕ

-- One round of the loop: the OBU, and the bytes behind it.
unfoldable pub next_obu : ℕ → List ℕ → Option (Obu × List ℕ)
next_obu header l = elim (read_leb128 (drop (header / 4 % 2) l)) [
  | none ↦ none
  | some (size, behind) ↦
      let payload = suc (length l) - length behind in
      let end = payload + size in
      if header / 2 % 2 == 0
      then none
      else if ltb (length behind) size
      then none
      else some ((header / 8 % 16, take end (header ∷ l), payload), drop end (header ∷ l))
]

-- The loop, on the bytes that are left; a round takes two of them at least.
unfoldable pub split_obus_loop : ℕ → List ℕ → Option (List Obu)
split_obus_loop fuel [] = some []
split_obus_loop zero (header ∷ l) = none
split_obus_loop (suc fuel) (header ∷ l) = elim (next_obu header l) [
  | none ↦ none
  | some (obu, rest) ↦ Option.map (◌∷◌ obu) (split_obus_loop fuel rest)
]

-- `split_obus`; `none` is a ValueError or an IndexError.
unfoldable pub split_obus : List ℕ → Option (List Obu)
split_obus stream = split_obus_loop (length stream) stream
