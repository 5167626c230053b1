-- ===== src/Heif/WriteTests.antt =====
-- src/opencodecs/backends/_heifbox.py: a small file written and read, and what boxes say of a picture.
use opencodecs.Common.{ℕ, List, [], ◌∷◌, true, false, some, none, ◌≡◌, refl, arith, ℕ_discrete}
use opencodecs.Common.Dict
use opencodecs.Common.Result.{ok, raise}
use opencodecs.Bitstreams.Reader.{pure, ◌>>=◌, times}
use opencodecs.Heif.{box_size, boxes_loop, boxes}
use opencodecs.Heif.Bytes.{from_be, byte, be, chunk, uint, be_bytes}
use opencodecs.Heif.Items.{
  Items, same_kind, property, first_of, property_of, extents_data, area, item_data, size,
}
use opencodecs.Heif.Items.{
  has_method, iloc_extent, iloc_entry, iloc_entries, put_all, parse_iloc, ipma_index, ipma_entry,
  ipma_entries, extend_all, parse_ipma,
}
use opencodecs.Heif.Kinds.{ispe_kind, clap_kind, irot_kind, auxl_kind}
use opencodecs.Heif.Laid.{Part, box_bytes}
use opencodecs.Heif.Parse.{
  each_box, item_type, infe_entry, iref_fields, iref_entry, iprp_entry, handle, handle_box,
  find_meta, new_items, parse,
}
use opencodecs.Heif.Reasons.{
  nclx_fields, nclx_of, nclx, clap_test, clap_is_identity, as_coded, rotated, cropped, is_rotated,
  is_cropped, transform_reason, until_nul, holds, is_alpha, alpha_in, has_alpha, grid_fields,
  grid_of, grid_layout,
}
use opencodecs.Heif.Writable.{IsWritable}
use opencodecs.Heif.Writer.{
  out_of_range, Picture, pack, pack_all, box, full, colr_nclx, ispe, pixi, icc_props, clap_props,
  first_props, plain, essential, marks, iprp, iloc, meta, file_of, write_single_item,
}
use opencodecs.Heif.RoundTrip.{parse-write_single_item}

program : Unit {0}
unfolding from_be byte be chunk uint be_bytes box_size boxes_loop boxes pure ◌>>=◌ times has_method
    iloc_extent iloc_entry iloc_entries put_all parse_iloc ipma_index ipma_entry ipma_entries
    extend_all parse_ipma same_kind property first_of property_of extents_data area item_data size
    Dict.get Dict.put ℕ_discrete each_box item_type infe_entry iref_fields iref_entry iprp_entry
    handle handle_box find_meta new_items parse nclx_fields nclx_of nclx clap_test clap_is_identity
    is_rotated is_cropped transform_reason until_nul holds is_alpha alpha_in has_alpha grid_fields
    grid_of grid_layout pack pack_all box full colr_nclx ispe pixi icc_props clap_props first_props
    plain essential marks iprp iloc meta file_of write_single_item box_bytes
program = tt

abbrev small_config : Part
small_config = (104 ∷ 118 ∷ 99 ∷ 67 ∷ [], 1 ∷ 2 ∷ [])

-- A picture of 64 by 48 with three channels of eight bits, and two bytes of coded data.
abbrev small_picture : Picture
small_picture = record {
  major = 104 ∷ 101 ∷ 105 ∷ 99 ∷ [];
  compatible = (109 ∷ 105 ∷ 102 ∷ 49 ∷ []) ∷ [];
  item_type = 104 ∷ 118 ∷ 99 ∷ 49 ∷ [];
  config = 0 ∷ 0 ∷ 0 ∷ 10 ∷ 104 ∷ 118 ∷ 99 ∷ 67 ∷ 1 ∷ 2 ∷ [];
  width = 64;
  height = 48;
  bits = 8;
  channels = 3;
  payload = 7 ∷ 9 ∷ [];
  nclx = (1, 13, 6, true);
  icc = [];
  clap = [];
}

small-IsWritable : IsWritable small_picture small_config []
unfolding program
small-IsWritable = record {
  config_box = refl;
  config_kind = refl;
  clap_box = refl;
  type_size = refl;
  width_small = omega arith;
  height_small = omega arith;
  channels_small = omega arith;
  bits_small = omega arith;
  nclx_small = (omega arith, omega arith, omega arith);
  fits = omega arith;
}

parse-write_single_item_example :
    (bytes : List ℕ) × (write_single_item small_picture ≡ ok bytes)
    × (found : Items) × (parse bytes ≡ some (some found))
    × (found.primary ≡ some 1)
    × (Dict.get ℕ_discrete 1 found.types ≡ some (104 ∷ 118 ∷ 99 ∷ 49 ∷ []))
    × (item_data found 1 ≡ some (7 ∷ 9 ∷ []))
    × (size found 1 ≡ some (some (64, 48)))
    × (nclx found 1 ≡ some (some (1, 13, 6, true)))
    × (has_alpha found 1 ≡ false)
unfolding program
parse-write_single_item_example =
    parse-write_single_item small_picture small_config [] small-IsWritable refl refl

too_wide : write_single_item (record small_picture { width = 0x100000000 }) ≡ raise out_of_range
unfolding program
too_wide = refl

no_meta : parse (0 ∷ 0 ∷ 0 ∷ 8 ∷ 102 ∷ 114 ∷ 101 ∷ 101 ∷ []) ≡ some none
unfolding program
no_meta = refl

-- Item 1 has the size 2 by 1 and is turned; item 2 is its alpha plane; item 3 is cropped.
abbrev turned_items : Items
turned_items = record {
  bytes =
      0 ∷ 0 ∷ 0 ∷ 0 ∷ 0 ∷ 0 ∷ 0 ∷ 2 ∷ 0 ∷ 0 ∷ 0 ∷ 1 ∷ 5 ∷ 0 ∷ 0 ∷ 0 ∷ 1 ∷ 0 ∷ 0 ∷ 0 ∷ 1 ∷ 0 ∷ 0 ∷ 0
      ∷ 1 ∷ 0 ∷ 0 ∷ 0 ∷ 1 ∷ 0 ∷ 0 ∷ 0 ∷ 0 ∷ 0 ∷ 0 ∷ 0 ∷ 1 ∷ 0 ∷ 0 ∷ 0 ∷ 0 ∷ 0 ∷ 0 ∷ 0 ∷ 1 ∷ 0 ∷ 0
      ∷ 2 ∷ 3 ∷ 0 ∷ 64 ∷ 0 ∷ 48 ∷ [];
  primary = some 1;
  types = [];
  refs = (auxl_kind, 2, 1 ∷ []) ∷ [];
  props = (ispe_kind, 0, 12) ∷ (irot_kind, 12, 13) ∷ (clap_kind, 13, 45) ∷ [];
  assoc = (1, 1 ∷ 2 ∷ []) ∷ (3, 1 ∷ 3 ∷ []) ∷ [];
  iloc = (4, (0, (45, 8) ∷ [])) ∷ [];
  idat = none;
}

is_turned : transform_reason turned_items 1 ≡ some rotated
unfolding program
is_turned = refl

is_cut : transform_reason turned_items 3 ≡ some cropped
unfolding program
is_cut = refl

as_it_is : transform_reason turned_items 2 ≡ some as_coded
unfolding program
as_it_is = refl

alpha_found : has_alpha turned_items 1 ≡ true
unfolding program
alpha_found = refl

no_alpha : has_alpha turned_items 3 ≡ false
unfolding program
no_alpha = refl

grid_found : grid_layout turned_items 4 ≡ some (3, 4, 64, 48)
unfolding program
grid_found = refl

urn_cut : until_nul (117 ∷ 114 ∷ 0 ∷ 110 ∷ []) ≡ 117 ∷ 114 ∷ []
unfolding program
urn_cut = refl
