-- ===== src/Bitstreams/HeaderTests.antt =====
-- Concrete runs of the parameter sets, sequence headers and streams, and their theorems at concrete
-- inputs.
use opencodecs.Common.{
  length, take, ◌≤◌, ◌<◌, ℕ, List, [], ◌∷◌, ◌++◌, true, false, some, none, ◌≡◌, refl, arith, map,
  drop, ◌+◌,
}
use opencodecs.Common.Bits.{bit_length}
use opencodecs.Common.Bytes.{join}
use opencodecs.Bitstreams.{
  rbsp_from, rbsp, ebsp_from, ebsp, bit_at, u_from, zero_prefix, ue, bits_of, chunk_value,
  tobytes_loop, tobytes, ue_bits, leb128_from, read_leb128, leb128_loop, leb128,
}
use opencodecs.Bitstreams.Reader.{pure, fail, position, ◌>>=◌, skip, times, if_flag, se}
use opencodecs.Bitstreams.Hevc.{
  sub_layer_flags, sub_layers, profile_tier_level, scaling_list, scaling_list_data, hrd_parameters,
}
use opencodecs.Bitstreams.Hevc.Sets.{ref_sets}
use opencodecs.Bitstreams.Hevc.Sps.{
  Head, Sps, ues, dpb_sizes, sps_sizes, sps_tools, long_term, sps_head, sps_front, description,
  video_signal, vui_rest, sps_back, sps, hevc_sps, unspecified,
}
use opencodecs.Bitstreams.Rewrite.{
  list_leb, edit_leb, insert_edit, sort_edits, apply_edits, data_bits, strip_stop, add_stop,
  rewrite_bits, dpb_bits, signal_bits, dpb_edit, signal_edit, rps_edit, hrd_edit, hevc_sps_rewrite,
  vps_sizes, hevc_vps_rewrite,
}
use opencodecs.Bitstreams.Rewrite.Bits.{payload_size}
use opencodecs.Bitstreams.Rewrite.Signal.{hevc_sps_rewrite-signal}
use opencodecs.Bitstreams.Obus.{Obu, next_obu, split_obus_loop, split_obus}
use opencodecs.Bitstreams.Obus.Splitting.{UnitObu, obu_bytes, obu_entry, split_obus-join}
use opencodecs.Bitstreams.Annexb.{
  nal_type, code_here, starts, strip_zeros, keep, units, split_annexb,
}
use opencodecs.Bitstreams.Annexb.Splitting.{Framed, framed, nals, split_annexb-join}
use opencodecs.Bitstreams.Av1.Front.{
  leading_zeros, timing_info, operating_point, operating_points, frame_tools, start,
}
use opencodecs.Bitstreams.Av1.{
  SequenceHeader, depth, sampling, position_of, ranged, color_config, sequence, av1_sequence_header,
  depth_bits, sampling_bits, position_bits, ranged_bits, color_bits, join_obu, av1_set_color,
}
use opencodecs.Bitstreams.Av1.Config.{recolored}
use opencodecs.Bitstreams.Av1.SetColor.{av1_set_color-recolored}
use opencodecs.Bitstreams.Records.{
  pack_u16, pack_u32, pack_u8, or_fc, or_f8, box, nal_array, hvcc_head, hvcc_record, av1c_record,
}

program : Unit {0}
unfolding bit_length rbsp_from rbsp ebsp_from ebsp bit_at u_from zero_prefix ue bits_of chunk_value
    tobytes_loop tobytes ue_bits leb128_from read_leb128 leb128_loop leb128 pure fail position ◌>>=◌
    skip times if_flag se sub_layer_flags sub_layers profile_tier_level scaling_list
    scaling_list_data hrd_parameters ref_sets ues dpb_sizes sps_sizes sps_tools long_term sps_head
    sps_front description video_signal vui_rest sps_back sps hevc_sps list_leb edit_leb insert_edit
    sort_edits apply_edits data_bits strip_stop add_stop rewrite_bits dpb_bits signal_bits dpb_edit
    signal_edit rps_edit hrd_edit hevc_sps_rewrite vps_sizes hevc_vps_rewrite payload_size next_obu
    split_obus_loop split_obus nal_type code_here starts strip_zeros keep units split_annexb
    leading_zeros timing_info operating_point operating_points frame_tools start depth sampling
    position_of ranged color_config sequence av1_sequence_header depth_bits sampling_bits
    position_bits ranged_bits color_bits join_obu av1_set_color recolored pack_u16 pack_u32 pack_u8
    or_fc or_f8 box nal_array hvcc_head hvcc_record av1c_record
program = tt

-- A picture of 16 by 8 samples, with a VUI without a video signal type.
abbrev pub small_sps : List ℕ
small_sps =
    66 ∷ 1 ∷ 1 ∷ 1 ∷ 96 ∷ 0 ∷ 0 ∷ 3 ∷ 0 ∷ 144 ∷ 0 ∷ 0 ∷ 3 ∷ 0 ∷ 0 ∷ 3 ∷ 0 ∷ 30 ∷ 160 ∷ 136 ∷ 151
    ∷ 255 ∷ 194 ∷ 32 ∷ 4 ∷ []

abbrev pub small_head : Head
small_head = record {
  layers = 0;
  chroma = 1;
  width = 16;
  height = 8;
  luma_bits = 8;
  chroma_bits = 8;
  dpb = (0, 0, 0) ∷ [];
  dpb_at = (129, 132);
  rps_at = (142, 143);
  vui_at = 146;
}

abbrev pub small_info : Sps
small_info = record {
  head = small_head;
  vui = unspecified;
  signal_at = some (149, 150);
  hrd_at = none;
}

small_sps-reads : sps (rbsp small_sps) 0 ≡ some (small_info, 156)
unfolding program
small_sps-reads = refl

pub hevc_sps-small : hevc_sps small_sps ≡ some small_info
unfolding program
hevc_sps-small = refl

-- The payload of the SPS has the 13 bytes of a profile.
pub rbsp-small : 13 ≤ length (rbsp small_sps)
unfolding program
rbsp-small = omega arith

small_sps-size : payload_size small_sps ≡ some 157
unfolding program
small_sps-size = refl

hevc_sps_rewrite-signal_example :
    (nal' : List ℕ) × (info' : Sps) × (hevc_sps_rewrite small_sps none
        (some (1, 13, 6, true))
        false
        false
      ≡ some nal')
    × (take 2 nal' ≡ take 2 small_sps)
    × ((i : ℕ) → i < 149 → bit_at (rbsp small_sps) i ≡ bit_at (rbsp nal') i)
    × ((i : ℕ)
        → 150 + i < 157
        → bit_at (rbsp small_sps) (150 + i) ≡ bit_at (rbsp nal') (149 + 30 + i))
    × (hevc_sps nal' ≡ some info')
    × (info'.head ≡ small_head)
    × (info'.vui ≡ (1, 13, 6, true))
    × (info'.signal_at ≡ some (149, 149 + 30))
hevc_sps_rewrite-signal_example =
    hevc_sps_rewrite-signal small_sps small_info 149 150 156 157 1 13 6 true small_sps-reads refl
      small_sps-size (omega arith) (omega arith) (omega arith) (omega arith)

-- A sequence header of a still image of 10 by 8 samples, without a color description.
abbrev still_obu : List ℕ
still_obu = 10 ∷ 6 ∷ 25 ∷ 12 ∷ 229 ∷ 192 ∷ 16 ∷ 128 ∷ []

abbrev still_info : SequenceHeader
still_info = record {
  start = record {
    profile = 0;
    still = 1;
    reduced = 1;
    level = 4;
    tier = 0;
    width = 10;
    height = 8;
    color_config_at = 32;
  };
  bits = 8;
  mono = 0;
  color = (2, 2, 2, true);
  subsampling = (1, 1);
  sample_position = 0;
  separate_uv = 0;
  film_grain = 0;
}

still_obu-reads : av1_sequence_header (25 ∷ 12 ∷ 229 ∷ 192 ∷ 16 ∷ 128 ∷ []) ≡ some still_info
unfolding program
still_obu-reads = refl

av1_set_color-recolored_example :
    (obu' : List ℕ) × (at : ℕ) × (av1_set_color still_obu 2 (1, 1, 1, false) ≡ some obu')
    × (split_obus obu' ≡ some ((1, obu', at) ∷ []))
    × (av1_sequence_header (drop at obu') ≡ some (recolored still_info (1, 1, 1, false)))
av1_set_color-recolored_example =
    av1_set_color-recolored still_obu 2 10 still_info 1 1 1 false still_obu-reads refl refl
      (omega arith) (omega arith) refl refl refl (omega arith) (omega arith) (omega arith)

-- A temporal delimiter, and a padding OBU with an extension byte.
abbrev two_obus : List UnitObu
two_obus = (18, [], []) ∷ (126, 8 ∷ [], 1 ∷ 2 ∷ 3 ∷ []) ∷ []

split_obus-join_example : split_obus (join (map obu_bytes two_obus)) ≡ some (map obu_entry two_obus)
split_obus-join_example =
    split_obus-join two_obus ((refl, refl, omega arith), ((refl, refl, omega arith), tt))

abbrev obu_stream : List ℕ
obu_stream = 18 ∷ 0 ∷ 126 ∷ 8 ∷ 3 ∷ 1 ∷ 2 ∷ 3 ∷ []

abbrev stream_entries : List Obu
stream_entries = (2, 18 ∷ 0 ∷ [], 2) ∷ (15, 126 ∷ 8 ∷ 3 ∷ 1 ∷ 2 ∷ 3 ∷ [], 3) ∷ []

obu_stream-split : split_obus obu_stream ≡ some stream_entries
unfolding program
obu_stream-split = refl

-- An OBU that runs past the stream is refused.
obu_past_end : split_obus (18 ∷ 1 ∷ []) ≡ none
unfolding program
obu_past_end = refl

-- A unit behind a start code of four bytes, and one behind a start code of three.
abbrev two_units : List Framed
two_units = (1, 66 ∷ 0 ∷ 0 ∷ 3 ∷ 1 ∷ 128 ∷ []) ∷ (0, 68 ∷ 1 ∷ []) ∷ []

split_annexb-join_example : split_annexb (join (map framed two_units)) ≡ nals two_units
unfolding program
split_annexb-join_example =
    split_annexb-join two_units
      (((refl, (refl, (refl, (refl, (refl, (refl, tt)))))), refl), (((refl, (refl, tt)), refl), tt))

nal_type-sps : nal_type small_sps ≡ some 33
unfolding program
nal_type-sps = refl

-- The configuration records: a box with the size in front.
av1c_still :
    av1c_record still_info [] ≡ some (0 ∷ 0 ∷ 0 ∷ 12 ∷ 97 ∷ 118 ∷ 49 ∷ 67 ∷ 129 ∷ 4 ∷ 12 ∷ 0 ∷ [])
unfolding program
av1c_still = refl

hvcc_small :
    hvcc_record [] small_sps []
    ≡ some (
        0
        ∷ 0
        ∷ 0
        ∷ 71
        ∷ 104
        ∷ 118
        ∷ 99
        ∷ 67
        ∷ 1
        ∷ 1
        ∷ 96
        ∷ 0
        ∷ 0
        ∷ 0
        ∷ 144
        ∷ 0
        ∷ 0
        ∷ 0
        ∷ 0
        ∷ 0
        ∷ 30
        ∷ 240
        ∷ 0
        ∷ 252
        ∷ 253
        ∷ 248
        ∷ 248
        ∷ 0
        ∷ 0
        ∷ 15
        ∷ 3
        ∷ 160
        ∷ 0
        ∷ 1
        ∷ 0
        ∷ 0
        ∷ 161
        ∷ 0
        ∷ 1
        ∷ 0
        ∷ 25
        ∷ (small_sps ++ (162 ∷ 0 ∷ 1 ∷ 0 ∷ 0 ∷ [])))
unfolding program
hvcc_small = refl
