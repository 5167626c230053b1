-- ===== src/Heif/Located.antt =====
-- src/opencodecs/backends/_heifbox.py: the fields of `iloc` and `ipma` boxes that are written for one
-- item, read by `_parse_iloc` and `_parse_ipma`.
use opencodecs.Common.{
  ℕ, ◌+◌, ◌%◌, ◌^◌, ◌<◌, List, [], ◌∷◌, ◌++◌, map, some, ◌≡◌, refl, length, arith, ◌∙◌, ap,
  append-nil, ℕ_discrete,
}
use mathlib.Core.Path.{subst}
use opencodecs.Common.Dict
use opencodecs.Common.Bytes.{slice-append}
use opencodecs.Bitstreams.Reader.{Reader, pure, ◌>>=◌, times}
use opencodecs.Bitstreams.Moves.{pair_cong}
use opencodecs.Heif.Bytes.{from_be, uint, be_bytes, length-be_bytes, from_be-be_bytes}
use opencodecs.Heif.Gets.{
  Gets, Gets-bind, Gets-pure, Gets-map, Gets-byte, Gets-chunk, Gets-be, Gets-times-zero,
  Gets-times-suc,
}
use opencodecs.Heif.Items.{
  Location, Widths, has_method, iloc_extent, iloc_entry, iloc_entries, put_all, parse_iloc,
  ipma_index, ipma_entry, ipma_entries, extend_all, parse_ipma,
}
use opencodecs.Heif.Handled.{taken_here}

-- The widths that `write_single_item` writes.
abbrev widths : Widths
widths = record { version = 0; offset_size = 4; length_size = 4; base_size = 0; index_size = 0 }

-- The bytes of an `iloc` box behind its version, and of an `ipma` box.
abbrev pub iloc_bytes : ℕ → ℕ → List ℕ
iloc_bytes offset n =
    0x44
    ∷ 0
    ∷ (be_bytes 2 1
        ++ (be_bytes 2 1
            ++ (be_bytes 2 0 ++ (be_bytes 2 1 ++ (be_bytes 4 offset ++ be_bytes 4 n)))))

abbrev pub ipma_bytes : List ℕ → List ℕ
ipma_bytes marks = 0 ∷ 0 ∷ 0 ∷ 0 ∷ (be_bytes 4 1 ++ (be_bytes 2 1 ++ (length marks ∷ marks)))

module _ (limit : ℕ) where
  Gets-uint : (n value : ℕ) → value < 256 ^ n → Gets limit (uint n) value (be_bytes n value)
  unfolding uint
  Gets-uint n value small = record {
    read = λ front back fits.
        let k = length-be_bytes n value in
        let bytes =
          slice-append front (be_bytes n value) back (length front) (length front + n) refl
            (omega (arith, k)) in
        pair_cong (ap (from_be 0) bytes ∙ from_be-be_bytes n value small) (omega (arith, k));
  }

  -- A field of no bytes.
  Gets-nothing : Gets limit (uint 0) 0 []
  unfolding be_bytes
  Gets-nothing = Gets-uint 0 0 (omega arith)

  Gets-extent :
      (offset n : ℕ)
      → offset < 2 ^ 32
      → n < 2 ^ 32
      → Gets limit (iloc_extent widths 0) (0 + offset, n) (be_bytes 4 offset ++ be_bytes 4 n)
  unfolding iloc_extent
  Gets-extent offset n x y =
      Gets-bind limit (λ _. do offset ← uint 4; n ← uint 4; pure (0 + offset, n)) Gets-nothing
        (Gets-bind limit (λ offset. do n ← uint 4; pure (0 + offset, n)) (Gets-uint 4 offset x)
          (Gets-map limit (λ n. (0 + offset, n)) (Gets-uint 4 n y)))

  Gets-one :
      {A : Type 0} {p : Reader A} {a : A} {w : List ℕ}
      → Gets limit p a w
      → Gets limit (times 1 p) (a ∷ []) w
  Gets-one {p = p} {a = a} {w = w} g =
      subst (Gets limit (times 1 p) (a ∷ [])) (append-nil w)
        (Gets-times-suc limit 0 g (Gets-times-zero limit p))

  Gets-entry :
      (offset n : ℕ)
      → offset < 2 ^ 32
      → n < 2 ^ 32
      → Gets limit
          (iloc_entry widths)
          (1, (0, (0 + offset, n) ∷ []))
          (be_bytes 2 1 ++ (be_bytes 2 0 ++ (be_bytes 2 1 ++ (be_bytes 4 offset ++ be_bytes 4 n))))
  unfolding iloc_entry has_method
  Gets-entry offset n x y = Gets-bind limit _ (Gets-be limit 2 1 (omega arith)) (
      Gets-bind limit _ (Gets-pure limit 0) (
        Gets-bind limit _ (Gets-chunk limit 2 (be_bytes 2 0) (length-be_bytes 2 0)) (
          Gets-bind limit _ Gets-nothing (
            Gets-bind limit _ (Gets-be limit 2 1 (omega arith))
              (Gets-map limit (λ spans. (1, (0, spans))) (Gets-one (Gets-extent offset n x y)))))))

  Gets-iloc :
      (offset n : ℕ)
      → offset < 2 ^ 32
      → n < 2 ^ 32
      → Gets limit (iloc_entries 0) ((1, (0, (0 + offset, n) ∷ [])) ∷ []) (iloc_bytes offset n)
  unfolding iloc_entries has_method
  Gets-iloc offset n x y = Gets-bind limit _ (Gets-byte limit 0x44) (
      Gets-bind limit _ (Gets-byte limit 0)
        (Gets-bind limit _ (Gets-be limit 2 1 (omega arith)) (Gets-one (Gets-entry offset n x y))))

  Gets-index : (i : ℕ) → Gets limit (ipma_index 0) (i % 128) (i ∷ [])
  unfolding ipma_index
  Gets-index i = Gets-map limit (λ i. i % 128) (Gets-byte limit i)

  Gets-indices :
      (marks : List ℕ)
      → Gets limit (times (length marks) (ipma_index 0)) (map (λ i. i % 128) marks) marks
  Gets-indices [] = Gets-times-zero limit (ipma_index 0)
  Gets-indices (i ∷ marks) = Gets-times-suc limit (length marks) (Gets-index i) (Gets-indices marks)

  Gets-marks :
      (marks : List ℕ)
      → Gets limit
          (ipma_entry 0 0)
          (1, map (λ i. i % 128) marks)
          (be_bytes 2 1 ++ (length marks ∷ marks))
  unfolding ipma_entry
  Gets-marks marks = Gets-bind limit _ (Gets-be limit 2 1 (omega arith)) (
      Gets-bind limit _ (Gets-byte limit (length marks))
        (Gets-map limit (λ idx. (1, idx)) (Gets-indices marks)))

  Gets-ipma :
      (marks : List ℕ)
      → Gets limit ipma_entries ((1, map (λ i. i % 128) marks) ∷ []) (ipma_bytes marks)
  unfolding ipma_entries
  Gets-ipma marks = Gets-bind limit _ (Gets-byte limit 0) (
      Gets-bind limit _ (Gets-chunk limit 2 (0 ∷ 0 ∷ []) refl) (
        Gets-bind limit _ (Gets-byte limit 0)
          (Gets-bind limit _ (Gets-be limit 4 1 (omega arith)) (Gets-one (Gets-marks marks)))))

-- The location and the properties of the item.
pub parse_iloc-written :
    (bytes front back : List ℕ) (offset n s : ℕ) (iloc : List (ℕ × Location))
    → bytes ≡ front ++ (iloc_bytes offset n ++ back)
    → s + 4 ≡ length front
    → offset < 2 ^ 32
    → n < 2 ^ 32
    → parse_iloc bytes s 0 iloc ≡ some (Dict.put ℕ_discrete 1 (0, (0 + offset, n) ∷ []) iloc)
unfolding parse_iloc put_all
parse_iloc-written bytes front back offset n s iloc shape place x y =
    rw
      (taken_here (iloc_entries 0) _ (iloc_bytes offset n) bytes front back (s + 4)
        (Gets-iloc _ offset n x y) shape place)
      refl

pub parse_ipma-written :
    (bytes front back : List ℕ) (marks : List ℕ) (s : ℕ)
    → bytes ≡ front ++ (ipma_bytes marks ++ back)
    → s ≡ length front
    → parse_ipma bytes s [] ≡ some ((1, map (λ i. i % 128) marks) ∷ [])
unfolding parse_ipma extend_all Dict.get Dict.put
parse_ipma-written bytes front back marks s shape place =
    rw
      (taken_here ipma_entries _ (ipma_bytes marks) bytes front back s (Gets-ipma _ marks) shape
        place)
      refl
