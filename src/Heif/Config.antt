-- ===== src/Heif/Config.antt =====
-- backends/_heifbox.py, `hvcc`, against `hvcc_record` of backends/_bitstreams.py.
use opencodecs.Common.{
  ℕ, ◌+◌, ◌-◌, ◌*◌, ◌/◌, ◌%◌, ◌≤◌, ◌<◌, List, [], ◌∷◌, ◌++◌, false, some, ◌≡◌, refl, ltb, length,
  drop, get_elem?-total, ltb-false, arith, sym, ◌∙◌, ap, length-append, length-take, length-drop,
}
use opencodecs.Common.Bytes.{slice}
use mathlib.Core.Option
use opencodecs.Bitstreams.{rbsp}
use opencodecs.Bitstreams.Hevc.Sps.{Sps, hevc_sps}
use opencodecs.Bitstreams.Records.{or_fc, or_f8, box, hvcc_record}
use opencodecs.Heif.{hvcc_fields, hvcc}
use opencodecs.Heif.Fields.{array_bytes, Gets-fields}
use opencodecs.Heif.Made.{
  or_f8-small, or_fc-small, head_end, hvcc_head-bytes, nal_array-bytes, front_bytes, arrays,
  body_shape, size_bytes, pack_u32-bytes, body_size,
}

-- The bytes of the box, read by `hvcc`.
read_back :
    (n : ℕ) (payload : List ℕ) (info : Sps) (first : ℕ) (vps sps pps : List ℕ)
    → 13 ≤ length payload
    → info.head.chroma < 4
    → 8 ≤ info.head.luma_bits
    → info.head.luma_bits < 16
    → 8 ≤ info.head.chroma_bits
    → info.head.chroma_bits < 16
    → length vps < 65536
    → length sps < 65536
    → length pps < 65536
    → hvcc
        (size_bytes n
          ++ (104
              ∷ 118
              ∷ 99
              ∷ 67
              ∷ (((1 ∷ slice payload 1 13) ++ (240 ∷ 0 ∷ 252 ∷ head_end first info))
                  ++ arrays vps sps pps)))
        8
        (length (
          size_bytes n
          ++ (104
              ∷ 118
              ∷ 99
              ∷ 67
              ∷ (((1 ∷ slice payload 1 13) ++ (240 ∷ 0 ∷ 252 ∷ head_end first info))
                  ++ arrays vps sps pps))))
      ≡ some (record {
        chroma = info.head.chroma;
        luma_bits = info.head.luma_bits;
        chroma_bits = info.head.chroma_bits;
        length_size = 4;
        nals = vps ∷ sps ∷ pps ∷ [];
      })
unfolding hvcc
read_back n payload info first vps sps pps room chroma low luma low2 depth x y z =
    let tail = head_end first info in
    let body = ((1 ∷ slice payload 1 13) ++ (240 ∷ 0 ∷ 252 ∷ tail)) ++ arrays vps sps pps in
    let made = size_bytes n ++ (104 ∷ 118 ∷ 99 ∷ 67 ∷ body) in
    let front = size_bytes n ++ (104 ∷ 118 ∷ 99 ∷ 67 ∷ front_bytes payload) in
    let fields =
      tail ++ (array_bytes 32 vps ++ (array_bytes 33 sps ++ (array_bytes 34 pps ++ []))) in
    let shape : made ≡ front ++ (fields ++ []) =
      ap (λ l. size_bytes n ++ (104 ∷ 118 ∷ 99 ∷ 67 ∷ l))
        (body_shape (slice payload 1 13) tail vps sps pps) in
    let size = body_size payload vps sps pps tail room refl in
    let place : length front ≡ 8 + 16 = omega (
      arith,
      length-append (slice payload 1 13) (240 ∷ 0 ∷ 252 ∷ []),
      length-take 12 (drop 1 payload),
      length-drop 1 payload,
    ) in
    let fits : length front + length fields ≤ length made =
      omega (arith, ap length shape, length-append front (fields ++ []), length-append fields []) in
    let got =
      (Gets-fields (length made) (or_fc info.head.chroma) (or_f8 (info.head.luma_bits - 8))
          (or_f8 (info.head.chroma_bits - 8)) ((first / 2 % 8 + 1) * 8 + first % 2 * 4 + 3) vps sps
          pps x y z).read
        front [] fits in
    let long : ltb (length made) (8 + 23) ≡ false =
      ltb-false (length made) (8 + 23) (omega (arith, size)) in
    let c = (or_fc-small info.head.chroma chroma).1 in
    let l : 8 + or_f8 (info.head.luma_bits - 8) % 8 ≡ info.head.luma_bits =
      omega (arith, (or_f8-small (info.head.luma_bits - 8) (omega arith)).1) in
    let d : 8 + or_f8 (info.head.chroma_bits - 8) % 8 ≡ info.head.chroma_bits =
      omega (arith, (or_f8-small (info.head.chroma_bits - 8) (omega arith)).1) in
    let four : ((first / 2 % 8 + 1) * 8 + first % 2 * 4 + 3) % 4 + 1 ≡ 4 = omega arith in
    rw long (
      ap (Option.map (λ r. r.0)) (
        ap (λ m. hvcc_fields (length made) m (8 + 16)) shape
        ∙ ap (hvcc_fields (length made) (front ++ (fields ++ []))) (sym place)
        ∙ got)
      ∙ (λ i. some (record {
        chroma = c i;
        luma_bits = l i;
        chroma_bits = d i;
        length_size = four i;
        nals = vps ∷ sps ∷ pps ∷ [];
      })))

-- The box that `hvcc_record` makes of a VPS, an SPS and a PPS, each below 65536 bytes, is read by
-- `hvcc` with the chroma format and the bit depths of the SPS and the three units in order. The SPS
-- parses, with a chroma format below 4 and depths of 8 to 15, and its payload has 13 bytes at least.
pub hvcc-hvcc_record :
    (vps sps pps : List ℕ) (info : Sps)
    → hevc_sps sps ≡ some info
    → 13 ≤ length (rbsp sps)
    → info.head.chroma < 4
    → 8 ≤ info.head.luma_bits
    → info.head.luma_bits < 16
    → 8 ≤ info.head.chroma_bits
    → info.head.chroma_bits < 16
    → length vps < 65536
    → length sps < 65536
    → length pps < 65536
    → (made : List ℕ) × (hvcc_record vps sps pps ≡ some made)
      × (hvcc made 8 (length made)
          ≡ some (record {
            chroma = info.head.chroma;
            luma_bits = info.head.luma_bits;
            chroma_bits = info.head.chroma_bits;
            length_size = 4;
            nals = vps ∷ sps ∷ pps ∷ [];
          }))
unfolding hvcc_record box hvcc
hvcc-hvcc_record vps sps pps info h room chroma low luma low2 depth x y z =
    let payload = rbsp sps in
    let (first, first_byte) = get_elem?-total payload 0 (omega arith) in
    let body =
      ((1 ∷ slice payload 1 13) ++ (240 ∷ 0 ∷ 252 ∷ head_end first info)) ++ arrays vps sps pps in
    let head = hvcc_head-bytes info chroma (omega arith) (omega arith) payload first in
    let made = size_bytes (8 + length body) ++ (104 ∷ 118 ∷ 99 ∷ 67 ∷ body) in
    let size = body_size payload vps sps pps (head_end first info) room refl in
    (
      made,
      rw
          (
            h,
            hvcc_record,
            first_byte,
            head,
            nal_array-bytes 32 vps x,
            nal_array-bytes 33 sps y,
            nal_array-bytes 34 pps z,
            pack_u32-bytes (8 + length body) (omega (arith, size)),
            box,
          )
          refl,
      read_back (8 + length body) payload info first vps sps pps room chroma low luma low2 depth x y
          z,
    )
