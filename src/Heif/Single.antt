-- ===== src/Heif/Single.antt =====
-- src/opencodecs/backends/_heifbox.py: a file of one coded picture, written and read.
use opencodecs.Common.{
  ℕ, ◌+◌, ◌%◌, List, [], ◌∷◌, ◌++◌, map, false, some, ◌≡◌, refl, ltb, ltb-false, ◌==◌,
  if◌then◌else◌, length, arith, sym, ◌∙◌, ap, length-append, append-nil, ℕ_discrete,
}
use opencodecs.Common.Dict
use opencodecs.Common.Bytes.{slice, slice-append}
use opencodecs.Heif.Items.{Items, item_data, extents_data, area}
use opencodecs.Heif.Kinds.{ftyp_kind, meta_kind, mdat_kind}
use opencodecs.Heif.Laid.{
  Part, box_head, laid, places, length-laid, length-box_bytes, part_here, length-part_here,
}
use opencodecs.Heif.Entered.{zero_head}
use opencodecs.Heif.ReadBack.{file_parts, one_item, props_at, meta_at, parse-file}
use opencodecs.Heif.Packed.{length-ipma_bytes}
use opencodecs.Heif.Parse.{parse}
use opencodecs.Heif.Writable.{IsWritable, all_props, item_indices, brands, length-iloc_bytes}
use opencodecs.Heif.Sizes.{AllParts-props, AllParts-meta, AllParts-file, indices_size, props_size}
use opencodecs.Heif.Written.{written_parts, head, head_size}
use opencodecs.Heif.Writer.{Picture}

-- One extent up to the end of the bytes, which may be empty.
one_extent :
    (bytes front payload : List ℕ) (offset : ℕ)
    → bytes ≡ front ++ (payload ++ [])
    → length front ≡ offset
    → extents_data bytes 0 (length bytes) ((0 + offset, length payload) ∷ []) ≡ some payload
unfolding extents_data
one_extent bytes front payload offset shape place =
    let n = length payload in
    let whole : length bytes ≡ offset + n = omega (
      arith,
      ap length shape,
      length-append front (payload ++ []),
      length-append payload [],
      place,
    ) in
    let start : 0 + (0 + offset) ≡ offset = omega arith in
    let stop : (if n == 0 then length bytes else 0 + (0 + offset) + n) ≡ offset + n =
      ground (arith, whole) in
    let inside : ltb (length bytes) (offset + n) ≡ false =
      ltb-false (length bytes) (offset + n) (omega (arith, whole)) in
    let forward : ltb (offset + n) (0 + (0 + offset)) ≡ false =
      ltb-false (offset + n) (0 + (0 + offset)) (omega arith) in
    let here : slice bytes (0 + (0 + offset)) (offset + n) ≡ payload =
      ap (λ l. slice l (0 + (0 + offset)) (offset + n)) shape
      ∙ slice-append front payload [] (0 + (0 + offset)) (offset + n) (omega (arith, place))
          (omega (arith, place)) in
    rw (stop, inside, forward, here) (ap some (append-nil payload))

module _ (p : Picture) (config : Part) (clap : List Part) (w : IsWritable p config clap) where
  abbrev pub file : List ℕ
  file = laid (file_parts (brands p) (written_parts p config clap (head p config clap)) p.payload)

  -- What `parse` finds in the file.
  abbrev pub items : Items
  items =
      one_item file p.item_type
        (places (props_at p.item_type (head p config clap) (length p.payload) (meta_at (brands p)))
          (all_props p config clap))
        (map (λ i. i % 128) (item_indices p config clap)) (head p config clap) (length p.payload)

  pub parse-items : parse file ≡ some (some items)
  parse-items =
      parse-file file (brands p) p.item_type p.payload (all_props p config clap)
        (item_indices p config clap) (head p config clap) (length p.payload) refl
        (AllParts-file p config clap w (head p config clap) (length p.payload))
        (AllParts-meta p config clap w (head p config clap) (length p.payload))
        (AllParts-props p config clap w) (omega (arith, props_size p config clap w, w.fits))
        (omega
          (arith, indices_size p config clap w, length-ipma_bytes (item_indices p config clap)))
        w.type_size (omega (arith, head_size p config clap w)) (omega (arith, w.fits))

  -- The size of `meta` is the same for every place of the payload.
  same_size :
      length (laid (written_parts p config clap (head p config clap)))
      ≡ length (laid (written_parts p config clap 0))
  same_size = omega (
    arith,
    length-laid (written_parts p config clap (head p config clap))
        (AllParts-meta p config clap w (head p config clap) (length p.payload)),
    length-laid (written_parts p config clap 0)
        (AllParts-meta p config clap w 0 (length p.payload)),
    length-iloc_bytes (head p config clap) (length p.payload),
    length-iloc_bytes 0 (length p.payload),
  )

  before : List Part
  before =
      (ftyp_kind, brands p)
      ∷ (meta_kind, zero_head ++ laid (written_parts p config clap (head p config clap)))
      ∷ []

  payload_front : List ℕ
  payload_front = laid before ++ box_head mdat_kind p.payload

  file-payload : file ≡ payload_front ++ (p.payload ++ [])
  unfolding payload_front before laid
  file-payload = sym (append-nil file) ∙ part_here [] [] before [] mdat_kind p.payload

  length-payload_front : length payload_front ≡ head p config clap
  unfolding payload_front before
  length-payload_front = omega (
    arith,
    length-part_here [] before mdat_kind p.payload
        (
          (AllParts-file p config clap w (head p config clap) (length p.payload)).0,
          ((AllParts-file p config clap w (head p config clap) (length p.payload)).1.0, tt),
        )
        refl,
    same_size,
    length-box_bytes ftyp_kind (brands p) refl,
    length-box_bytes meta_kind (zero_head ++ laid (written_parts p config clap 0)) refl,
    length-append zero_head (laid (written_parts p config clap 0)),
    length-append zero_head (laid (written_parts p config clap (head p config clap))),
  )

  pub item_data-payload : item_data items 1 ≡ some p.payload
  unfolding item_data area Dict.get ℕ_discrete
  item_data-payload =
      one_extent file payload_front p.payload (head p config clap) file-payload length-payload_front
