-- ===== src/RangeIndex/Tests.antt =====
-- Concrete runs of the range index, and its theorems at concrete inputs.
use opencodecs.Common.{◌+◌, ◌≤◌, ◌≡◌, refl, List, [], ◌∷◌, true, none}
use opencodecs.Common.{some, ℕ_discrete}
use opencodecs.Common.Dict
use opencodecs.Common.Bits.{bit_length}
use opencodecs.RangeIndex.{Key, many, key_discrete, with_key, add, collapse}
use opencodecs.RangeIndex.{
  without_key, write_group, discard, first_covering, in_group, covering, clear,
}
use opencodecs.RangeIndex.Filed.{IsFiled}
use opencodecs.RangeIndex.Sets.{
  Call, adds, discards, apply, run, in_set, run-IsFiled, covering-in_set,
}

program : Unit {0}
unfolding Dict.get Dict.put Dict.drop_key bit_length key_discrete with_key add collapse without_key
    write_group discard first_covering in_group covering clear apply run in_set ℕ_discrete
program = tt

abbrev calls : List Call
calls = adds (100, 60) ∷ discards (96, 64) ∷ adds (96, 64) ∷ adds (0, 8) ∷ []

-- Both ranges of width 64 start in the same bucket.
two_in_bucket :
    add (100, 60) (add (96, 64) [])
    ≡ (6, (1, many (((96, 64), tt) ∷ ((100, 60), tt) ∷ [])) ∷ []) ∷ []
unfolding program
two_in_bucket = refl

found_before : covering (run calls) 130 20 ≡ some (100, 60)
unfolding program
found_before = refl

not_found : covering (run calls) 96 20 ≡ none
unfolding program
not_found = refl

covering-in_set_example :
    (covering (run calls) 130 20 ≡ some (100, 60)
      → (in_set calls (100, 60) ≡ true) × (100 ≤ 130) × (130 + 20 ≤ 100 + 60))
    × (in_set calls (100, 60) ≡ true
        → 100 ≤ 130
        → 130 + 20 ≤ 100 + 60
        → (found : Key) × (covering (run calls) 130 20 ≡ some found))
covering-in_set_example = covering-in_set calls 130 20 (100, 60)

run-IsFiled_example : IsFiled (run calls)
run-IsFiled_example = run-IsFiled calls
