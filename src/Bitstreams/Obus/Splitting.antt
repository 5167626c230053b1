-- ===== src/Bitstreams/Obus/Splitting.antt =====
-- backends/_bitstreams.py: `split_obus` of OBUs that stand one behind the other.
use opencodecs.Common.{
  ℕ, zero, suc, ◌+◌, ◌-◌, ◌/◌, ◌%◌, ◌^◌, ◌<◌, ◌≤◌, List, [], ◌∷◌, ◌++◌, some, ◌≡◌, refl, length,
  drop, arith, sym, ◌∙◌, ap, map, length-append, append_assoc, ltb-false,
}
use opencodecs.Common.Bytes.{join, take-append, drop-append}
use opencodecs.Bitstreams.{leb128, read_leb128}
use opencodecs.Bitstreams.Leb128.{read_leb128-leb128}
use opencodecs.Bitstreams.Obus.{Obu, next_obu, split_obus_loop, split_obus}

-- A header byte, the extension and the payload.
abbrev pub UnitObu : Type 0
UnitObu = ℕ × List ℕ × List ℕ

-- What follows the header byte: the extension, the size and the payload.
abbrev pub obu_tail : List ℕ → List ℕ → List ℕ
obu_tail ext payload = ext ++ (leb128 (length payload) ++ payload)

abbrev pub obu_bytes : UnitObu → List ℕ
obu_bytes (header, ext, payload) = header ∷ obu_tail ext payload

abbrev pub payload_place : UnitObu → ℕ
payload_place (header, ext, payload) = suc (length ext + length (leb128 (length payload)))

abbrev pub obu_entry : UnitObu → Obu
obu_entry (header, ext, payload) = (
  header / 8 % 16,
  header ∷ obu_tail ext payload,
  suc (length ext + length (leb128 (length payload))),
)

-- The header has a size field, the extension is there if the header has it, and the size fits.
abbrev pub IsObu : UnitObu → Type 0
IsObu (header, ext, payload) =
    (header / 2 % 2 ≡ 1) × (length ext ≡ header / 4 % 2) × (length payload < 2 ^ 56)

abbrev pub AllObus : List UnitObu → Type 0
AllObus [] = Unit
AllObus (x ∷ xs) = IsObu x × AllObus xs

next_obu-tail :
    (header : ℕ) (ext payload rest : List ℕ)
    → header / 2 % 2 ≡ 1
    → length ext ≡ header / 4 % 2
    → length payload < 2 ^ 56
    → next_obu header (obu_tail ext payload ++ rest) ≡ some (obu_entry (header, ext, payload), rest)
unfolding next_obu
next_obu-tail header ext payload rest sized e small =
    let size = leb128 (length payload) in
    let tail = obu_tail ext payload in
    let whole = tail ++ rest in
    let shape : whole ≡ ext ++ (size ++ (payload ++ rest)) =
      append_assoc ext (size ++ payload) rest
      ∙ ap (λ l. ext ++ l) (append_assoc size payload rest) in
    let behind : drop (header / 4 % 2) whole ≡ size ++ (payload ++ rest) =
      ap (drop (header / 4 % 2)) shape
      ∙ drop-append ext (size ++ (payload ++ rest)) (header / 4 % 2) (sym e) in
    let read : read_leb128 (drop (header / 4 % 2) whole) ≡ some (length payload, payload ++ rest) =
      ap read_leb128 behind ∙ read_leb128-leb128 (length payload) (payload ++ rest) small in
    let n1 = length-append tail rest in
    let n2 = length-append ext (size ++ payload) in
    let n3 = length-append size payload in
    let n4 = length-append payload rest in
    let fits = ltb-false (length (payload ++ rest)) (length payload) (omega (arith, n4)) in
    let place : suc (length whole) - length (payload ++ rest) ≡ suc (length ext + length size) =
      omega (arith, n1, n2, n3, n4) in
    let end : suc (length ext + length size) + length payload ≡ length (header ∷ tail) =
      omega (arith, n1, n2, n3, n4) in
    rw (read, next_obu, sized, fits, place)
      (λ i. some (
        (header / 8 % 16, take-append (header ∷ tail) rest _ end i, suc (length ext + length size)),
        drop-append (header ∷ tail) rest _ end i,
      ))

split_obus_loop-join :
    (fuel : ℕ) (obus : List UnitObu)
    → AllObus obus
    → length (join (map obu_bytes obus)) ≤ fuel
    → split_obus_loop fuel (join (map obu_bytes obus)) ≡ some (map obu_entry obus)
unfolding split_obus_loop
split_obus_loop-join fuel [] h l = refl
split_obus_loop-join zero (x ∷ obus) h l = absurd (omega arith)
split_obus_loop-join (suc fuel) ((header, ext, payload) ∷ obus) h l =
    let rest = join (map obu_bytes obus) in
    let n = length-append (obu_tail ext payload) rest in
    let next = next_obu-tail header ext payload rest h.0.0 h.0.1 h.0.2 in
    let more = split_obus_loop-join fuel obus h.1 (omega (arith, n)) in
    rw (next, split_obus_loop, more) refl

-- OBUs with a size field, with the extension byte that the header announces and a payload below
-- 2 ** 56 bytes, one behind the other, are split into just these, each with its type, its bytes and
-- the place of its payload.
pub split_obus-join :
    (obus : List UnitObu)
    → AllObus obus
    → split_obus (join (map obu_bytes obus)) ≡ some (map obu_entry obus)
unfolding split_obus
split_obus-join obus h =
    split_obus_loop-join (length (join (map obu_bytes obus))) obus h (omega arith)
