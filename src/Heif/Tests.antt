-- ===== src/Heif/Tests.antt =====
-- Concrete runs of the boxes, and their theorems at concrete inputs.
use opencodecs.Common.{ℕ_discrete, ℕ, List, [], ◌∷◌, some, none, ◌≡◌, refl, arith, length}
use opencodecs.Common.Bytes.{join}
use opencodecs.Common.{map}
use opencodecs.Bitstreams.Annexb.{split_annexb, code_here}
use opencodecs.Bitstreams.Records.{hvcc_record}
use opencodecs.Bitstreams.HeaderTests.{small_sps, small_info, hevc_sps-small, rbsp-small}
use opencodecs.Heif.Bytes.{from_be, byte, be, chunk, be_bytes}
use opencodecs.Heif.Prefixed.{prefixed, length_prefixed_to_annexb-split_annexb}
use opencodecs.Heif.Config.{hvcc-hvcc_record}
use opencodecs.Heif.{
  box_size, boxes_loop, boxes, prefixed_unit, annexb_loop, length_prefixed_to_annexb, hvcc,
}
use opencodecs.Common.Dict
use opencodecs.Bitstreams.Reader.{pure, ◌>>=◌, times}
use opencodecs.Heif.Bytes.{uint}
use opencodecs.Heif.Items.{
  Items, has_method, iloc_extent, iloc_entry, iloc_entries, put_all, parse_iloc, ipma_index,
  ipma_entry, ipma_entries, extend_all, parse_ipma, same_kind, first_ref, references, property,
  first_of, property_of, extents_data, area, item_data, size,
}

program : Unit {0}
unfolding from_be byte be chunk be_bytes box_size boxes_loop boxes prefixed_unit annexb_loop
    length_prefixed_to_annexb pure ◌>>=◌ times uint has_method iloc_extent iloc_entry iloc_entries
    put_all parse_iloc ipma_index ipma_entry ipma_entries extend_all parse_ipma same_kind first_ref
    references property first_of property_of extents_data area item_data size Dict.get Dict.put
    ℕ_discrete
program = tt

-- An empty box, and a box of two bytes that runs to the end.
two_boxes :
    boxes
      (0 ∷ 0 ∷ 0 ∷ 8 ∷ 102 ∷ 114 ∷ 101 ∷ 101 ∷ 0 ∷ 0 ∷ 0 ∷ 0 ∷ 109 ∷ 100 ∷ 97 ∷ 116 ∷ 7 ∷ 9 ∷ [])
      0
      18
    ≡ (102 ∷ 114 ∷ 101 ∷ 101 ∷ [], 8, 8) ∷ (109 ∷ 100 ∷ 97 ∷ 116 ∷ [], 16, 18) ∷ []
unfolding program
two_boxes = refl

-- A box that runs past the end stops the walk.
box_past_end : boxes (0 ∷ 0 ∷ 0 ∷ 9 ∷ 102 ∷ 114 ∷ 101 ∷ 101 ∷ []) 0 8 ≡ []
unfolding program
box_past_end = refl

annexb_past_end : length_prefixed_to_annexb (0 ∷ 2 ∷ 7 ∷ []) 2 ≡ none
unfolding program
annexb_past_end = refl

abbrev two_nals : List (List ℕ)
two_nals = (38 ∷ 1 ∷ 128 ∷ []) ∷ (2 ∷ 1 ∷ []) ∷ []

length_prefixed_to_annexb-split_annexb_example :
    (stream : List ℕ) × (length_prefixed_to_annexb (join (map (prefixed 4) two_nals)) 4
      ≡ some stream)
    × (split_annexb stream ≡ two_nals)
unfolding program code_here
length_prefixed_to_annexb-split_annexb_example =
    length_prefixed_to_annexb-split_annexb 4 two_nals (omega arith) (
      (omega arith, (refl, (refl, (refl, tt))), refl),
      ((omega arith, (refl, (refl, tt)), refl), tt),
    )

hvcc-hvcc_record_example :
    (made : List ℕ) × (hvcc_record (64 ∷ 1 ∷ 12 ∷ []) small_sps (68 ∷ 1 ∷ []) ≡ some made)
    × (hvcc made 8 (length made)
        ≡ some (record {
          chroma = 1;
          luma_bits = 8;
          chroma_bits = 8;
          length_size = 4;
          nals = (64 ∷ 1 ∷ 12 ∷ []) ∷ small_sps ∷ (68 ∷ 1 ∷ []) ∷ [];
        }))
hvcc-hvcc_record_example =
    hvcc-hvcc_record (64 ∷ 1 ∷ 12 ∷ []) small_sps (68 ∷ 1 ∷ []) small_info hevc_sps-small rbsp-small
      (omega arith) (omega arith) (omega arith) (omega arith) (omega arith) (omega arith)
      (omega arith) (omega arith)

-- One item of one extent, with four bytes for offsets and lengths.
one_location :
    parse_iloc
      (0 ∷ 0 ∷ 0 ∷ 0 ∷ 0x44 ∷ 0 ∷ 0 ∷ 1 ∷ 0 ∷ 1 ∷ 0 ∷ 0 ∷ 0 ∷ 1 ∷ 0 ∷ 0 ∷ 0 ∷ 2 ∷ 0 ∷ 0 ∷ 0 ∷ 3
        ∷ [])
      0
      0
      []
    ≡ some ((1, (0, (2, 3) ∷ [])) ∷ [])
unfolding program
one_location = refl

iloc_cut_off : parse_iloc (0 ∷ 0 ∷ 0 ∷ 0 ∷ 0x44 ∷ 0 ∷ 0 ∷ 1 ∷ []) 0 0 [] ≡ none
unfolding program
iloc_cut_off = refl

-- An essential property and another one.
two_properties :
    parse_ipma (0 ∷ 0 ∷ 0 ∷ 0 ∷ 0 ∷ 0 ∷ 0 ∷ 1 ∷ 0 ∷ 1 ∷ 2 ∷ 0x81 ∷ 2 ∷ []) 0 []
    ≡ some ((1, 1 ∷ 2 ∷ []) ∷ [])
unfolding program
two_properties = refl

abbrev small_items : Items
small_items = record {
  bytes = 0 ∷ 0 ∷ 7 ∷ 8 ∷ 9 ∷ [];
  primary = none;
  types = [];
  refs = (100 ∷ 105 ∷ 109 ∷ 103 ∷ [], 1, 2 ∷ 3 ∷ []) ∷ [];
  props = [];
  assoc = [];
  iloc = (1, (0, (2, 3) ∷ [])) ∷ (2, (1, (0, 4) ∷ [])) ∷ (3, (0, (4, 2) ∷ [])) ∷ [];
  idat = some (1, 4);
}

item_one : item_data small_items 1 ≡ some (7 ∷ 8 ∷ 9 ∷ [])
unfolding program
item_one = refl

-- Four bytes in an `idat` of three, and two bytes at the last one of the file.
items_past_end : (item_data small_items 2 ≡ none) × (item_data small_items 3 ≡ none)
unfolding program
items_past_end = (refl, refl)

tiles_of_one : references small_items (100 ∷ 105 ∷ 109 ∷ 103 ∷ []) 1 ≡ 2 ∷ 3 ∷ []
unfolding program
tiles_of_one = refl

no_size : size small_items 1 ≡ some none
unfolding program
no_size = refl
