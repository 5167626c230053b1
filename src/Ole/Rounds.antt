-- ===== src/Ole/Rounds.antt =====
-- src/opencodecs/_ole2.py, `_read_directory` and `_read_mini_chain`: the rounds of their loops.
use opencodecs.Common.{
  ℕ, zero, suc, ◌+◌, ◌-◌, ◌≤◌, ◌<◌, min, List, [], ◌∷◌, false, ◌||◌, ◌≡◌, refl, inl, inr,
}
use opencodecs.Common.{◌==◌, length, get_elem?, get_elem?-bound, arith, Bool-cases, Option-cases}
use opencodecs.Common.Result.{ok}
use opencodecs.Ole.{end_of_chain, member}
use opencodecs.Ole.Chains.{IsPlaces, empty, also, length-IsPlaces, Fresh, done, next}
use opencodecs.Ole.Directory.{dir_walk}
use opencodecs.Ole.Streams.{mini_loop}

dir_walk-Fresh :
    (fat : List ℕ) (rounds sect : ℕ) (seen : List ℕ)
    → rounds + length seen ≡ suc (length fat)
    → IsPlaces (length fat) seen
    → (sectors : List ℕ) × (dir_walk fat rounds sect seen ≡ ok sectors) × Fresh seen sectors
unfolding dir_walk
dir_walk-Fresh fat zero sect seen enough places =
    absurd (omega (arith, length-IsPlaces (length fat) seen places))
dir_walk-Fresh fat (suc rounds) sect seen enough places =
    elim (Bool-cases (sect == end_of_chain || member sect seen)) [
      | inl z ↦ ([], rw z refl, done seen)
      | inr z ↦ elim (Option-cases (get_elem? fat sect)) [
        | inl gone ↦ ([], rw (z, gone) refl, done seen)
        | inr (t, at) ↦
            let new : member sect seen ≡ false = ground arith in
            let rest =
              dir_walk-Fresh fat rounds t (sect ∷ seen) (omega arith)
                (also sect seen (get_elem?-bound fat sect at) new places) in
            (sect ∷ rest.0, rw (z, at, rest.1) refl, next seen sect rest.0 new rest.2)
      ]
    ]

-- On every table and start the directory's chain is walked without an error, and no sector twice: the
-- limit of the rounds is never met.
pub dir_walk-total :
    (fat : List ℕ) (sect : ℕ)
    → (sectors : List ℕ) × (dir_walk fat (suc (length fat)) sect [] ≡ ok sectors) × Fresh [] sectors
dir_walk-total fat sect = dir_walk-Fresh fat (suc (length fat)) sect [] (omega arith) empty

-- Any number of rounds from the number of bytes on gives the same result.
pub mini_loop-fuel :
    (fuel more : ℕ) (minifat stream : List ℕ) (size remaining sect : ℕ)
    → 0 < size
    → remaining ≤ fuel
    → remaining ≤ more
    → mini_loop more minifat stream size remaining sect
      ≡ mini_loop fuel minifat stream size remaining sect
unfolding mini_loop
mini_loop-fuel zero zero minifat stream size remaining sect positive h k = refl
mini_loop-fuel zero (suc more) minifat stream size remaining sect positive h k =
    let e : remaining ≡ 0 = omega arith in rw e refl
mini_loop-fuel (suc fuel) zero minifat stream size remaining sect positive h k =
    let e : remaining ≡ 0 = omega arith in rw e refl
mini_loop-fuel (suc fuel) (suc more) minifat stream size remaining sect positive h k =
    elim (Bool-cases (remaining == 0)) [
      | inl z ↦ rw z refl
      | inr z ↦ elim (Option-cases (get_elem? minifat sect)) [
        | inl gone ↦ rw (z, gone) refl
        | inr (t, at) ↦
            let fewer : remaining - min size remaining ≤ fuel = ground arith in
            let less : remaining - min size remaining ≤ more = ground arith in
            rw
              (
                z,
                at,
                mini_loop-fuel fuel more minifat stream size (remaining - min size remaining) t
                    positive fewer less,
              )
              refl
      ]
    ]
