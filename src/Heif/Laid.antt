-- ===== src/Heif/Laid.antt =====
-- src/opencodecs/backends/_heifbox.py: boxes that stand one behind the other, read by `boxes`.
use opencodecs.Common.{
  ℕ, zero, suc, ◌+◌, ◌-◌, ◌^◌, ◌≤◌, ◌<◌, List, [], ◌∷◌, ◌++◌, true, false, some, ◌≡◌, refl, ltb,
  leb, ◌==◌, length, leb-true, leb-false, ltb-false, arith, sym, ◌∙◌, ap, length-append,
  append_assoc,
}
use opencodecs.Common.Bytes.{slice, slice-append}
use opencodecs.Heif.{Box, box_size, boxes_loop, boxes}
use opencodecs.Heif.Bytes.{from_be, be_bytes, length-be_bytes, from_be-be_bytes}

-- A box as its type and its payload.
abbrev pub Part : Type 0
Part = List ℕ × List ℕ

-- What `_box` packs.
unfoldable pub box_bytes : List ℕ → List ℕ → List ℕ
box_bytes kind body = be_bytes 4 (8 + length body) ++ (kind ++ body)

unfoldable pub laid : List Part → List ℕ
laid [] = []
laid ((kind, body) ∷ parts) = box_bytes kind body ++ laid parts

-- The boxes from a place on.
unfoldable pub places : ℕ → List Part → List Box
places pos [] = []
places pos ((kind, body) ∷ parts) =
    (kind, pos + 8, pos + (8 + length body)) ∷ places (pos + (8 + length body)) parts

-- A type of four bytes, and a size that fits its field.
abbrev pub IsPart : List ℕ → List ℕ → Type 0
IsPart kind body = (length kind ≡ 4) × (8 + length body < 2 ^ 32)

abbrev pub AllParts : List Part → Type 0
AllParts [] = Unit
AllParts ((kind, body) ∷ parts) = IsPart kind body × AllParts parts

pub length-box_bytes :
    (kind body : List ℕ) → length kind ≡ 4 → length (box_bytes kind body) ≡ 8 + length body
unfolding box_bytes
length-box_bytes kind body four = omega (
  arith,
  length-append (be_bytes 4 (8 + length body)) (kind ++ body),
  length-be_bytes 4 (8 + length body),
  length-append kind body,
)

-- The size and the type, in front of the payload.
abbrev pub box_head : List ℕ → List ℕ → List ℕ
box_head kind body = be_bytes 4 (8 + length body) ++ kind

pub length-box_head : (kind body : List ℕ) → length kind ≡ 4 → length (box_head kind body) ≡ 8
length-box_head kind body four =
    omega (
      arith,
      length-append (be_bytes 4 (8 + length body)) kind,
      length-be_bytes 4 (8 + length body),
    )

pub box_bytes-head : (kind body : List ℕ) → box_bytes kind body ≡ box_head kind body ++ body
unfolding box_bytes
box_bytes-head kind body = simp append_assoc

-- The size in front of a box.
box_size-number :
    (bytes front rest : List ℕ) (n pos end : ℕ)
    → bytes ≡ front ++ (be_bytes 4 n ++ rest)
    → pos ≡ length front
    → 8 ≤ n
    → n < 2 ^ 32
    → box_size bytes pos end ≡ some (n, 8)
unfolding box_size
box_size-number bytes front rest n pos end shape place low high =
    let word : slice bytes pos (pos + 4) ≡ be_bytes 4 n =
      ap (λ l. slice l pos (pos + 4)) shape
      ∙ slice-append front (be_bytes 4 n) rest pos (pos + 4) place
          (omega (arith, length-be_bytes 4 n)) in
    let value : from_be 0 (slice bytes pos (pos + 4)) ≡ n =
      ap (from_be 0) word ∙ from_be-be_bytes 4 n high in
    let one : n == 1 ≡ false = ground arith in
    let none' : n == 0 ≡ false = ground arith in rw (value, one, none') refl

size_first :
    (front kind body tail back : List ℕ)
    → front ++ ((box_bytes kind body ++ tail) ++ back)
      ≡ front ++ (be_bytes 4 (8 + length body) ++ (kind ++ (body ++ (tail ++ back))))
unfolding box_bytes
size_first front kind body tail back = simp append_assoc

kind_first :
    (front kind body tail back : List ℕ)
    → front ++ ((box_bytes kind body ++ tail) ++ back)
      ≡ (front ++ be_bytes 4 (8 + length body)) ++ (kind ++ (body ++ (tail ++ back)))
unfolding box_bytes
kind_first front kind body tail back = simp append_assoc

rest_first :
    (front box tail back : List ℕ)
    → front ++ ((box ++ tail) ++ back) ≡ (front ++ box) ++ (tail ++ back)
rest_first front box tail back = simp append_assoc

pub boxes_loop-laid :
    (fuel : ℕ) (bytes front back : List ℕ) (parts : List Part) (pos end : ℕ)
    → AllParts parts
    → bytes ≡ front ++ (laid parts ++ back)
    → pos ≡ length front
    → end ≡ pos + length (laid parts)
    → length (laid parts) ≤ fuel
    → boxes_loop fuel bytes pos end ≡ places pos parts
unfolding boxes_loop laid places
boxes_loop-laid zero bytes front back [] pos end all shape place stop enough = refl
boxes_loop-laid (suc fuel) bytes front back [] pos end all shape place stop enough =
    let over : leb (pos + 8) end ≡ false = leb-false (pos + 8) end (omega arith) in rw over refl
boxes_loop-laid zero bytes front back ((kind, body) ∷ parts) pos end all shape place stop enough =
    absurd (
      omega (
        arith,
        length-append (box_bytes kind body) (laid parts),
        length-box_bytes kind body all.0.0,
      ))
boxes_loop-laid (suc fuel) bytes front back ((kind, body) ∷ parts) pos end all shape place stop
      enough =
    let n = 8 + length body in
    let size : length (box_bytes kind body) ≡ n = length-box_bytes kind body all.0.0 in
    let total : length (box_bytes kind body ++ laid parts) ≡ n + length (laid parts) =
      omega (arith, length-append (box_bytes kind body) (laid parts), size) in
    let inside : leb (pos + 8) end ≡ true = leb-true (pos + 8) end (omega (arith, total)) in
    let head : box_size bytes pos end ≡ some (n, 8) =
      box_size-number bytes front (kind ++ (body ++ (laid parts ++ back))) n pos end
        (shape ∙ size_first front kind body (laid parts) back) place (omega arith) all.0.1 in
    let long : ltb n 8 ≡ false = ltb-false n 8 (omega arith) in
    let fits : ltb end (pos + n) ≡ false = ltb-false end (pos + n) (omega (arith, total)) in
    let before : length (front ++ be_bytes 4 n) ≡ length front + 4 =
      omega (arith, length-append front (be_bytes 4 n), length-be_bytes 4 n) in
    let type_here : slice bytes (pos + 4) (pos + 8) ≡ kind =
      ap (λ l. slice l (pos + 4) (pos + 8)) (shape ∙ kind_first front kind body (laid parts) back)
      ∙ slice-append (front ++ be_bytes 4 n) kind (body ++ (laid parts ++ back)) (pos + 4) (pos + 8)
          (omega (arith, before)) (omega (arith, before, all.0.0)) in
    let rest : boxes_loop fuel bytes (pos + n) end ≡ places (pos + n) parts =
      boxes_loop-laid fuel bytes (front ++ box_bytes kind body) back parts (pos + n) end all.1
        (shape ∙ rest_first front (box_bytes kind body) (laid parts) back)
        (omega (arith, length-append front (box_bytes kind body), size)) (omega (arith, total))
        (omega (arith, total)) in
    rw (inside, head, long, fits, type_here, rest) refl

-- `boxes` reads back boxes that fill a range.
pub boxes-laid :
    (bytes front back : List ℕ) (parts : List Part) (start end : ℕ)
    → AllParts parts
    → bytes ≡ front ++ (laid parts ++ back)
    → start ≡ length front
    → end ≡ start + length (laid parts)
    → boxes bytes start end ≡ places start parts
unfolding boxes
boxes-laid bytes front back parts start end all shape place stop =
    boxes_loop-laid (end - start) bytes front back parts start end all shape place stop
      (omega arith)

laid-append : (parts more : List Part) → laid (parts ++ more) ≡ laid parts ++ laid more
unfolding laid
laid-append [] more = refl
laid-append ((kind, body) ∷ parts) more =
    ap (λ l. box_bytes kind body ++ l) (laid-append parts more)
    ∙ sym (append_assoc (box_bytes kind body) (laid parts) (laid more))

-- The bytes that boxes take.
abbrev pub total : List Part → ℕ
total [] = 0
total ((kind, body) ∷ parts) = 8 + length body + total parts

pub length-laid : (parts : List Part) → AllParts parts → length (laid parts) ≡ total parts
unfolding laid
length-laid [] all = refl
length-laid ((kind, body) ∷ parts) all = omega (
  arith,
  length-append (box_bytes kind body) (laid parts),
  length-box_bytes kind body all.0.0,
  length-laid parts all.1,
)

-- The payload of one of the boxes, between what is in front of it and what is behind.
pub part_here :
    (front back : List ℕ) (before after : List Part) (kind body : List ℕ)
    → front ++ (laid (before ++ ((kind, body) ∷ after)) ++ back)
      ≡ (front ++ (laid before ++ box_head kind body)) ++ (body ++ (laid after ++ back))
unfolding laid
part_here front back before after kind body =
    rw (laid-append before ((kind, body) ∷ after), box_bytes-head kind body) (simp append_assoc)

pub length-part_here :
    (front : List ℕ) (before : List Part) (kind body : List ℕ)
    → AllParts before
    → length kind ≡ 4
    → length (front ++ (laid before ++ box_head kind body)) ≡ length front + total before + 8
length-part_here front before kind body all four = omega (
  arith,
  length-append front (laid before ++ box_head kind body),
  length-append (laid before) (box_head kind body),
  length-laid before all,
  length-box_head kind body four,
)
