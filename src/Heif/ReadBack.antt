-- ===== src/Heif/ReadBack.antt =====
-- src/opencodecs/backends/_heifbox.py: `parse` of a file of three boxes with one item.
use opencodecs.Common.{
  ℕ, ◌+◌, ◌%◌, ◌^◌, ◌<◌, List, [], ◌∷◌, ◌++◌, map, some, none, ◌≡◌, refl, length, arith, sym, ◌∙◌,
  ap, length-append, append_assoc, append-nil, replicate,
}
use opencodecs.Common.Dict
use opencodecs.Heif.{Box, boxes}
use opencodecs.Heif.Bytes.{be_bytes}
use opencodecs.Heif.Items.{Items, same_kind}
use opencodecs.Heif.Kinds.{
  ftyp_kind, meta_kind, mdat_kind, hdlr_kind, pitm_kind, iinf_kind, iloc_kind, iprp_kind, pict_type,
}
use opencodecs.Heif.Laid.{
  Part, laid, places, AllParts, boxes-laid, box_head, part_here, length-part_here,
}
use opencodecs.Heif.Located.{iloc_bytes, ipma_bytes}
use opencodecs.Heif.Handled.{handle_box-hdlr, handle_box-pitm}
use opencodecs.Heif.Entered.{
  zero_head, iinf_body, iprp_body, handle_box-iloc, handle_box-iinf, handle_box-iprp,
}
use opencodecs.Heif.Parse.{◌>>?◌, each_box, handle_box, find_meta, new_items, parse}

abbrev pub hdlr_body : List ℕ
hdlr_body = zero_head ++ (zero_head ++ (pict_type ++ replicate 13 0))

abbrev pub pitm_body : List ℕ
pitm_body = zero_head ++ be_bytes 2 1

-- The boxes of `meta`, and of the file.
abbrev pub meta_parts : List ℕ → List Part → List ℕ → ℕ → ℕ → List Part
meta_parts kind props marks offset n =
    (hdlr_kind, hdlr_body)
    ∷ (pitm_kind, pitm_body)
    ∷ (iloc_kind, zero_head ++ iloc_bytes offset n)
    ∷ (iinf_kind, iinf_body kind)
    ∷ (iprp_kind, iprp_body props marks)
    ∷ []

abbrev pub file_parts : List ℕ → List Part → List ℕ → List Part
file_parts brands parts payload =
    (ftyp_kind, brands) ∷ (meta_kind, zero_head ++ laid parts) ∷ (mdat_kind, payload) ∷ []

-- What is known of the item.
abbrev pub one_item : List ℕ → List ℕ → List Box → List ℕ → ℕ → ℕ → Items
one_item bytes kind props idx offset n = record {
  bytes = bytes;
  primary = some 1;
  types = (1, kind) ∷ [];
  refs = [];
  props = props;
  assoc = (1, idx) ∷ [];
  iloc = (1, (0, (0 + offset, n) ∷ [])) ∷ [];
  idat = none;
}

-- The place of the properties, for boxes of `meta` from a place on.
abbrev pub props_at : List ℕ → ℕ → ℕ → ℕ → ℕ
props_at kind offset n pos =
    pos
    + (8 + length hdlr_body)
    + (8 + length pitm_body)
    + (8 + length (zero_head ++ iloc_bytes offset n))
    + (8 + length (iinf_body kind))
    + 8
    + 8

module _ (bytes kind : List ℕ) (props : List Part) (marks : List ℕ) (offset n : ℕ)
    (front back : List ℕ)
    (shape : bytes ≡ front ++ (laid (meta_parts kind props marks offset n) ++ back))
    (four : length kind ≡ 4) (low : offset < 2 ^ 32) (small : n < 2 ^ 32)
    (all_props : AllParts props) (all : AllParts (meta_parts kind props marks offset n))
    (x : 8 + length (laid props) < 2 ^ 32) (y : 8 + length (ipma_bytes marks) < 2 ^ 32) where
  parts-handled :
      (pos : ℕ)
      → pos ≡ length front
      → each_box handle_box (places pos (meta_parts kind props marks offset n)) (new_items bytes)
        ≡ some (
            one_item bytes kind
              (places (props_at kind offset n pos) props)
              (map (λ i. i % 128) marks)
              offset
              n)
  unfolding each_box places new_items Dict.put
  parts-handled pos place =
      let hdlr : Part = (hdlr_kind, hdlr_body) in
      let pitm : Part = (pitm_kind, pitm_body) in
      let iloc : Part = (iloc_kind, zero_head ++ iloc_bytes offset n) in
      let iinf : Part = (iinf_kind, iinf_body kind) in
      let iprp : Part = (iprp_kind, iprp_body props marks) in
      let before1 : List Part = [] in
      let before2 : List Part = hdlr ∷ [] in
      let before3 : List Part = hdlr ∷ pitm ∷ [] in
      let before4 : List Part = hdlr ∷ pitm ∷ iloc ∷ [] in
      let before5 : List Part = hdlr ∷ pitm ∷ iloc ∷ iinf ∷ [] in
      let start = new_items bytes in
      let named : Items = record start { primary = some 1 } in
      let located : Items = record named { iloc = (1, (0, (0 + offset, n) ∷ [])) ∷ [] } in
      let typed : Items = record located { types = (1, kind) ∷ [] } in
      let step1 : handle_box (hdlr_kind, pos + 8, pos + (8 + length hdlr_body)) start ≡ some start =
        handle_box-hdlr start (front ++ (laid before1 ++ box_head hdlr_kind hdlr_body)) back
          (pos + 8) (pos + (8 + length hdlr_body))
          (omega (arith, length-part_here front before1 hdlr_kind hdlr_body tt refl))
          ((0 ∷ 0 ∷ 0 ∷ (zero_head ++ (pict_type ++ replicate 13 0)))
            ++ (laid (pitm ∷ iloc ∷ iinf ∷ iprp ∷ []) ++ back))
          (shape
            ∙ part_here front back before1 (pitm ∷ iloc ∷ iinf ∷ iprp ∷ []) hdlr_kind hdlr_body) in
      let p2 = pos + (8 + length hdlr_body) in
      let p3 = p2 + (8 + length pitm_body) in
      let p4 = p3 + (8 + length (zero_head ++ iloc_bytes offset n)) in
      let p5 = p4 + (8 + length (iinf_body kind)) in
      let step2 : handle_box (pitm_kind, p2 + 8, p2 + (8 + length pitm_body)) start ≡ some named =
        handle_box-pitm start (front ++ (laid before2 ++ box_head pitm_kind pitm_body))
          (laid (iloc ∷ iinf ∷ iprp ∷ []) ++ back) (p2 + 8) (p2 + (8 + length pitm_body))
          (omega (arith, length-part_here front before2 pitm_kind pitm_body (all.0, tt) refl)) 1
          (omega arith)
          (shape ∙ part_here front back before2 (iloc ∷ iinf ∷ iprp ∷ []) pitm_kind pitm_body) in
      let step3 : handle_box (iloc_kind, p3 + 8, p3 + (8 + length iloc.1)) named ≡ some located =
        handle_box-iloc named (front ++ (laid before3 ++ box_head iloc_kind iloc.1))
          (laid (iinf ∷ iprp ∷ []) ++ back) (p3 + 8) (p3 + (8 + length iloc.1))
          (omega
            (arith, length-part_here front before3 iloc_kind iloc.1 (all.0, (all.1.0, tt)) refl))
          offset n (shape ∙ part_here front back before3 (iinf ∷ iprp ∷ []) iloc_kind iloc.1) low
          small in
      let step4 : handle_box (iinf_kind, p4 + 8, p4 + (8 + length (iinf_body kind))) located
          ≡ some typed =
        handle_box-iinf located (front ++ (laid before4 ++ box_head iinf_kind (iinf_body kind)))
          (laid (iprp ∷ []) ++ back) (p4 + 8) (p4 + (8 + length (iinf_body kind)))
          (omega (
            arith,
            length-part_here front before4 iinf_kind (iinf_body kind)
                (all.0, (all.1.0, (all.1.1.0, tt))) refl,
          ))
          kind (shape ∙ part_here front back before4 (iprp ∷ []) iinf_kind (iinf_body kind))
          (omega arith) four in
      let front5 = front ++ (laid before5 ++ box_head iprp_kind (iprp_body props marks)) in
      let shape5 = shape ∙ part_here front back before5 [] iprp_kind (iprp_body props marks) in
      let place5 : p5 + 8 ≡ length front5 = omega (
        arith,
        length-part_here front before5 iprp_kind (iprp_body props marks)
            (all.0, (all.1.0, (all.1.1.0, (all.1.1.1.0, tt)))) refl,
      ) in
      let step5 : handle_box (iprp_kind, p5 + 8, p5 + (8 + length (iprp_body props marks))) typed
          ≡ some (
              one_item bytes kind (places (p5 + 8 + 8) props) (map (λ i. i % 128) marks) offset n) =
        handle_box-iprp typed front5 (laid [] ++ back) (p5 + 8)
          (p5 + (8 + length (iprp_body props marks))) place5 props marks shape5 (omega arith)
          all_props x y refl in
      rw (step1, step2, step3, step4, step5) refl

-- Where the payload of the `meta` box is found.
parse-found :
    (bytes : List ℕ) (s e : ℕ) (found : List Box)
    → boxes bytes 0 (length bytes) ≡ found
    → find_meta found ≡ some (s, e)
    → parse bytes ≡ (
        each_box handle_box (boxes bytes (s + 4) e) (new_items bytes) >>? λ items.
        some (some items))
unfolding parse
parse-found bytes s e found h k =
    let both : find_meta (boxes bytes 0 (length bytes)) ≡ some (s, e) = ap find_meta h ∙ k in
    rw (both, parse) refl

-- The places of a file's payload and properties.
abbrev pub meta_at : List ℕ → ℕ
meta_at brands = 8 + length brands + 8 + 4

pub parse-file :
    (bytes brands kind payload : List ℕ) (props : List Part) (marks : List ℕ) (offset n : ℕ)
    → bytes ≡ laid (file_parts brands (meta_parts kind props marks offset n) payload)
    → AllParts (file_parts brands (meta_parts kind props marks offset n) payload)
    → AllParts (meta_parts kind props marks offset n)
    → AllParts props
    → 8 + length (laid props) < 2 ^ 32
    → 8 + length (ipma_bytes marks) < 2 ^ 32
    → length kind ≡ 4
    → offset < 2 ^ 32
    → n < 2 ^ 32
    → parse bytes
      ≡ some (
          some (
            one_item bytes kind
              (places (props_at kind offset n (meta_at brands)) props)
              (map (λ i. i % 128) marks)
              offset
              n))
unfolding parse find_meta same_kind places
parse-file bytes brands kind payload props marks offset n shape all_file all all_props x y four low
      small =
    let parts = meta_parts kind props marks offset n in
    let body = zero_head ++ laid parts in
    let whole : boxes bytes 0 (length bytes) ≡ places 0 (file_parts brands parts payload) =
      boxes-laid bytes [] [] (file_parts brands parts payload) 0 (length bytes) all_file
        (shape ∙ sym (append-nil _)) refl (omega (arith, ap length shape)) in
    let before : List Part = (ftyp_kind, brands) ∷ [] in
    let after : List Part = (mdat_kind, payload) ∷ [] in
    let front = (laid before ++ box_head meta_kind body) ++ zero_head in
    let place : length front ≡ 8 + length brands + 12 = omega (
      arith,
      length-append (laid before ++ box_head meta_kind body) zero_head,
      length-part_here [] before meta_kind body (all_file.0, tt) refl,
    ) in
    let inner : bytes ≡ front ++ (laid parts ++ (laid after ++ [])) =
      shape
      ∙ sym (append-nil _)
      ∙ part_here [] [] before after meta_kind body
      ∙ simp append_assoc in
    let size : length body ≡ 4 + length (laid parts) =
      omega (arith, length-append zero_head (laid parts)) in
    let held : boxes bytes (0 + (8 + length brands) + 8 + 4)
          (0 + (8 + length brands) + (8 + length body))
        ≡ places (0 + (8 + length brands) + 8 + 4) parts =
      boxes-laid bytes front (laid after ++ []) parts _ _ all inner (omega (arith, place))
        (omega (arith, size)) in
    let handled =
      parts-handled bytes kind props marks offset n front (laid after ++ []) inner four low small
        all_props all x y (0 + (8 + length brands) + 8 + 4) (omega (arith, place)) in
    let at : 0 + (8 + length brands) + 8 + 4 ≡ meta_at brands = omega arith in
    parse-found bytes (0 + (8 + length brands) + 8) (0 + (8 + length brands) + (8 + length body))
      (places 0 (file_parts brands parts payload)) whole refl
    ∙ rw (held, handled, at) refl
