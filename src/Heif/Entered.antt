-- ===== src/Heif/Entered.antt =====
-- src/opencodecs/backends/_heifbox.py, `parse`: the boxes of `meta` that hold others or tables.
use opencodecs.Common.{
  ℕ, ◌+◌, ◌/◌, ◌%◌, ◌^◌, ◌<◌, List, [], ◌∷◌, ◌++◌, map, some, ◌≡◌, refl, length, get_elem?, arith,
  sym, ◌∙◌, ap, length-append, append_assoc, ℕ_discrete,
}
use opencodecs.Common.Dict
use opencodecs.Common.Bytes.{slice, slice-append}
use opencodecs.Heif.{boxes}
use opencodecs.Heif.Bytes.{be_bytes, length-be_bytes}
use opencodecs.Heif.Items.{Items, same_kind, parse_ipma}
use opencodecs.Heif.Kinds.{iinf_kind, infe_kind, iloc_kind, iprp_kind, ipco_kind, ipma_kind}
use opencodecs.Heif.Laid.{
  Part, box_bytes, laid, places, AllParts, boxes-laid, length-box_bytes, box_head, length-box_head,
  box_bytes-head,
}
use opencodecs.Heif.Located.{iloc_bytes, ipma_bytes, parse_iloc-written, parse_ipma-written}
use opencodecs.Heif.Handled.{first_byte, number-here}
use opencodecs.Heif.Parse.{each_box, item_type, infe_entry, iprp_entry, handle, handle_box}

-- The version and flags of a full box.
abbrev pub zero_head : List ℕ
zero_head = 0 ∷ 0 ∷ 0 ∷ 0 ∷ []

-- The entry of `iinf` for item 1.
abbrev pub infe_body : List ℕ → List ℕ
infe_body kind = 2 ∷ 0 ∷ 0 ∷ 0 ∷ (be_bytes 2 1 ++ (be_bytes 2 0 ++ (kind ++ (0 ∷ []))))

abbrev pub iinf_body : List ℕ → List ℕ
iinf_body kind = zero_head ++ (be_bytes 2 1 ++ laid ((infe_kind, infe_body kind) ∷ []))

abbrev pub iprp_body : List Part → List ℕ → List ℕ
iprp_body props marks = laid ((ipco_kind, laid props) ∷ (ipma_kind, ipma_bytes marks) ∷ [])

pub length-infe_body : (kind : List ℕ) → length kind ≡ 4 → length (infe_body kind) ≡ 13
length-infe_body kind four = omega (
  arith,
  length-append (be_bytes 2 1) (be_bytes 2 0 ++ (kind ++ (0 ∷ []))),
  length-append (be_bytes 2 0) (kind ++ (0 ∷ [])),
  length-append kind (0 ∷ []),
  length-be_bytes 2 1,
  length-be_bytes 2 0,
)

-- The entry, behind `front`.
infe_entry-written :
    (bytes front back kind : List ℕ) (s e : ℕ) (types : List (ℕ × List ℕ))
    → bytes ≡ front ++ (infe_body kind ++ back)
    → s ≡ length front
    → length kind ≡ 4
    → infe_entry bytes (infe_kind, s, e) types ≡ some (Dict.put ℕ_discrete 1 kind types)
unfolding infe_entry same_kind item_type
infe_entry-written bytes front back kind s e types shape place four =
    let version =
      first_byte bytes front
        (0 ∷ 0 ∷ 0 ∷ ((be_bytes 2 1 ++ (be_bytes 2 0 ++ (kind ++ (0 ∷ [])))) ++ back)) 2 s shape
        place in
    let id_shape : bytes
        ≡ (front ++ (2 ∷ 0 ∷ 0 ∷ 0 ∷ []))
          ++ (be_bytes 2 1 ++ (be_bytes 2 0 ++ (kind ++ (0 ∷ back)))) =
      shape ∙ simp append_assoc in
    let id =
      number-here bytes (front ++ (2 ∷ 0 ∷ 0 ∷ 0 ∷ [])) (be_bytes 2 0 ++ (kind ++ (0 ∷ back))) 2 1
        (s + 4) id_shape (omega (arith, length-append front (2 ∷ 0 ∷ 0 ∷ 0 ∷ []))) (omega arith) in
    let before = front ++ ((2 ∷ 0 ∷ 0 ∷ 0 ∷ []) ++ (be_bytes 2 1 ++ be_bytes 2 0)) in
    let size : length before ≡ length front + 8 = omega (
      arith,
      length-append front ((2 ∷ 0 ∷ 0 ∷ 0 ∷ []) ++ (be_bytes 2 1 ++ be_bytes 2 0)),
      length-append (be_bytes 2 1) (be_bytes 2 0),
      length-be_bytes 2 1,
      length-be_bytes 2 0,
    ) in
    let type_shape : bytes ≡ before ++ (kind ++ (0 ∷ back)) = shape ∙ simp append_assoc in
    let type_here : slice bytes (s + 8) (s + 8 + 4) ≡ kind =
      ap (λ l. slice l (s + 8) (s + 8 + 4)) type_shape
      ∙ slice-append before kind (0 ∷ back) (s + 8) (s + 8 + 4) (omega (arith, size))
          (omega (arith, size)) in
    rw (version, id, type_here) refl

-- A box starts with the first byte of its size.
box_first :
    (bytes front rest kind body : List ℕ) (at : ℕ)
    → bytes ≡ front ++ (box_bytes kind body ++ rest)
    → at ≡ length front
    → get_elem? bytes at ≡ some ((8 + length body) / 256 ^ 3 % 256)
unfolding box_bytes be_bytes
box_first bytes front rest kind body at shape place =
    first_byte bytes front _ ((8 + length body) / 256 ^ 3 % 256) at shape place

module _ (items : Items) (front back : List ℕ) (s e : ℕ) (place : s ≡ length front) where
  pub handle_box-iloc :
      (offset n : ℕ)
      → items.bytes ≡ front ++ ((zero_head ++ iloc_bytes offset n) ++ back)
      → offset < 2 ^ 32
      → n < 2 ^ 32
      → handle_box (iloc_kind, s, e) items
        ≡ some (record items { iloc = Dict.put ℕ_discrete 1 (0, (0 + offset, n) ∷ []) items.iloc })
  unfolding handle_box handle same_kind
  handle_box-iloc offset n shape x y =
      let version =
        first_byte items.bytes front (0 ∷ 0 ∷ 0 ∷ (iloc_bytes offset n ++ back)) 0 s shape place in
      let read =
        parse_iloc-written items.bytes (front ++ zero_head) back offset n s items.iloc
          (shape ∙ simp append_assoc) (omega (arith, length-append front zero_head)) x y in
      rw (version, read) refl

  pub handle_box-iinf :
      (kind : List ℕ)
      → items.bytes ≡ front ++ (iinf_body kind ++ back)
      → e ≡ s + length (iinf_body kind)
      → length kind ≡ 4
      → handle_box (iinf_kind, s, e) items
        ≡ some (record items { types = Dict.put ℕ_discrete 1 kind items.types })
  unfolding handle_box handle same_kind each_box places laid
  handle_box-iinf kind shape stop four =
      let parts = (infe_kind, infe_body kind) ∷ [] in
      let version =
        first_byte items.bytes front (0 ∷ 0 ∷ 0 ∷ ((be_bytes 2 1 ++ laid parts) ++ back)) 0 s shape
          place in
      let size : length (front ++ (zero_head ++ be_bytes 2 1)) ≡ length front + 6 =
        omega (arith, length-append front (zero_head ++ be_bytes 2 1), length-be_bytes 2 1) in
      let whole : length (be_bytes 2 1 ++ laid parts) ≡ 2 + length (laid parts) =
        omega (arith, length-append (be_bytes 2 1) (laid parts), length-be_bytes 2 1) in
      let inside : boxes items.bytes (s + 6) e ≡ places (s + 6) parts =
        boxes-laid items.bytes (front ++ (zero_head ++ be_bytes 2 1)) back parts (s + 6) e
          ((refl, omega (arith, length-infe_body kind four)), tt) (shape ∙ simp append_assoc)
          (omega (arith, size)) (omega (arith, whole)) in
      let before = front ++ (zero_head ++ (be_bytes 2 1 ++ box_head infe_kind (infe_body kind))) in
      let room : length before ≡ length front + 14 = omega (
        arith,
        length-append front (zero_head ++ (be_bytes 2 1 ++ box_head infe_kind (infe_body kind))),
        length-append (be_bytes 2 1) (box_head infe_kind (infe_body kind)),
        length-be_bytes 2 1,
        length-box_head infe_kind (infe_body kind) refl,
      ) in
      let entry =
        infe_entry-written items.bytes before back kind (s + 6 + 8)
          (s + 6 + (8 + length (infe_body kind))) items.types
          (shape ∙ rw (box_bytes-head infe_kind (infe_body kind)) (simp append_assoc))
          (omega (arith, room)) four in
      rw (version, inside, entry) refl

  pub handle_box-iprp :
      (props : List Part) (marks : List ℕ)
      → items.bytes ≡ front ++ (iprp_body props marks ++ back)
      → e ≡ s + length (iprp_body props marks)
      → AllParts props
      → 8 + length (laid props) < 2 ^ 32
      → 8 + length (ipma_bytes marks) < 2 ^ 32
      → items.assoc ≡ []
      → handle_box (iprp_kind, s, e) items
        ≡ some (record items {
          props = places (s + 8) props;
          assoc = (1, map (λ i. i % 128) marks) ∷ [];
        })
  unfolding handle_box handle same_kind each_box places iprp_entry laid
  handle_box-iprp props marks shape stop all x y fresh =
      let ipco = laid props in
      let ipma = ipma_bytes marks in
      let inside : boxes items.bytes s e ≡ places s ((ipco_kind, ipco) ∷ (ipma_kind, ipma) ∷ []) =
        boxes-laid items.bytes front back ((ipco_kind, ipco) ∷ (ipma_kind, ipma) ∷ []) s e
          ((refl, x), ((refl, y), tt)) shape place stop in
      let version =
        box_first items.bytes front (box_bytes ipma_kind ipma ++ back) ipco_kind ipco s
          (shape ∙ simp append_assoc) place in
      let inner_shape : front ++ (iprp_body props marks ++ back)
          ≡ (front ++ box_head ipco_kind ipco) ++ (ipco ++ (box_bytes ipma_kind ipma ++ back)) =
        rw (box_bytes-head ipco_kind ipco) (simp append_assoc) in
      let outer_shape : front ++ (iprp_body props marks ++ back)
          ≡ (front ++ (box_bytes ipco_kind ipco ++ box_head ipma_kind ipma)) ++ (ipma ++ back) =
        rw (box_bytes-head ipma_kind ipma) (simp append_assoc) in
      let first = front ++ box_head ipco_kind ipco in
      let first_size : length first ≡ s + 8 = omega (
        arith,
        length-append front (box_head ipco_kind ipco),
        length-box_head ipco_kind ipco refl,
      ) in
      let found : boxes items.bytes (s + 8) (s + (8 + length ipco)) ≡ places (s + 8) props =
        boxes-laid items.bytes first (box_bytes ipma_kind ipma ++ back) props (s + 8)
          (s + (8 + length ipco)) all (shape ∙ inner_shape) (sym first_size) (omega arith) in
      let second = front ++ (box_bytes ipco_kind ipco ++ box_head ipma_kind ipma) in
      let second_size : length second ≡ s + (8 + length ipco) + 8 = omega (
        arith,
        length-append front (box_bytes ipco_kind ipco ++ box_head ipma_kind ipma),
        length-append (box_bytes ipco_kind ipco) (box_head ipma_kind ipma),
        length-box_bytes ipco_kind ipco refl,
        length-box_head ipma_kind ipma refl,
      ) in
      let table : parse_ipma items.bytes (s + (8 + length ipco) + 8) items.assoc
          ≡ some ((1, map (λ i. i % 128) marks) ∷ []) =
        ap (parse_ipma items.bytes (s + (8 + length ipco) + 8)) fresh
        ∙ parse_ipma-written items.bytes second back marks (s + (8 + length ipco) + 8)
            (shape ∙ outer_shape) (sym second_size) in
      rw (version, inside, found, table) refl
