-- ===== src/Heif/Handled.antt =====
-- src/opencodecs/backends/_heifbox.py, `parse`: what it takes from the boxes of a written file.
use opencodecs.Common.{
  ℕ, ◌+◌, ◌^◌, ◌<◌, List, [], ◌∷◌, ◌++◌, some, ◌≡◌, refl, length, get_elem?, get_elem?-append_right,
  arith, sym, ◌∙◌, ap, length-append, append_assoc,
}
use opencodecs.Bitstreams.Reader.{Reader}
use opencodecs.Heif.Bytes.{be, be_bytes}
use opencodecs.Heif.Gets.{Gets, Gets-be}
use opencodecs.Heif.Items.{Items, same_kind}
use opencodecs.Heif.Kinds.{hdlr_kind, pitm_kind}
use opencodecs.Heif.Parse.{number, handle, handle_box}

-- A reader in the middle of the bytes.
pub taken_here :
    {A : Type 0} (p : Reader A) (v : A) (w bytes front back : List ℕ) (at : ℕ)
    → Gets (length front + length w) p v w
    → bytes ≡ front ++ (w ++ back)
    → at ≡ length front
    → p bytes at ≡ some (v, length front + length w)
taken_here p v w bytes front back at g shape place =
    (λ i. p (shape i) (place i)) ∙ g.read front back (omega arith)

pub first_byte :
    (bytes front rest : List ℕ) (b at : ℕ)
    → bytes ≡ front ++ (b ∷ rest)
    → at ≡ length front
    → get_elem? bytes at ≡ some b
first_byte bytes front rest b at shape place =
    ap (λ l. get_elem? l at) shape ∙ get_elem?-append_right front (b ∷ rest) 0 at (omega arith)

pub number-here :
    (bytes front back : List ℕ) (n value at : ℕ)
    → bytes ≡ front ++ (be_bytes n value ++ back)
    → at ≡ length front
    → value < 256 ^ n
    → number bytes n at ≡ some value
number-here bytes front back n value at shape place small =
    rw
      (taken_here (be n) value (be_bytes n value) bytes front back at (Gets-be _ n value small)
        shape place)
      refl

-- Behind some bytes of the front.
behind : (bytes front w rest : List ℕ) → bytes ≡ front ++ (w ++ rest) → bytes ≡ (front ++ w) ++ rest
behind bytes front w rest shape = shape ∙ sym (append_assoc front w rest)

module _ (items : Items) (front back : List ℕ) (s e : ℕ) (place : s ≡ length front) where
  pub handle_box-hdlr :
      (rest : List ℕ)
      → items.bytes ≡ front ++ (0 ∷ rest)
      → handle_box (hdlr_kind, s, e) items ≡ some items
  unfolding handle_box handle same_kind
  handle_box-hdlr rest shape = rw (first_byte items.bytes front rest 0 s shape place) refl

  pub handle_box-pitm :
      (item : ℕ)
      → item < 65536
      → items.bytes ≡ front ++ ((0 ∷ 0 ∷ 0 ∷ 0 ∷ []) ++ (be_bytes 2 item ++ back))
      → handle_box (pitm_kind, s, e) items ≡ some (record items { primary = some item })
  unfolding handle_box handle same_kind
  handle_box-pitm item small shape =
      let version =
        first_byte items.bytes front (0 ∷ 0 ∷ 0 ∷ (be_bytes 2 item ++ back)) 0 s shape place in
      let id =
        number-here items.bytes (front ++ (0 ∷ 0 ∷ 0 ∷ 0 ∷ [])) back 2 item (s + 4)
          (behind items.bytes front (0 ∷ 0 ∷ 0 ∷ 0 ∷ []) (be_bytes 2 item ++ back) shape)
          (omega (arith, length-append front (0 ∷ 0 ∷ 0 ∷ 0 ∷ []))) small in
      rw (version, id) refl
