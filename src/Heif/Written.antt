-- ===== src/Heif/Written.antt =====
-- src/opencodecs/backends/_heifbox.py: the bytes of `write_single_item`.
use opencodecs.Common.{
  ℕ, ◌+◌, ◌*◌, ◌^◌, ◌<◌, List, [], ◌∷◌, ◌++◌, false, ◌≡◌, refl, ltb, ltb-false, length, arith, sym,
  ◌∙◌, ap, length-append, append-nil, replicate,
}
use opencodecs.Common.Result.{ok}
use opencodecs.Heif.Bytes.{be_bytes}
use opencodecs.Heif.Kinds.{
  ftyp_kind, meta_kind, mdat_kind, hdlr_kind, pitm_kind, iinf_kind, infe_kind, iloc_kind, iprp_kind,
  pict_type,
}
use opencodecs.Heif.Laid.{Part, box_bytes, laid, length-box_bytes}
use opencodecs.Heif.Located.{iloc_bytes}
use opencodecs.Heif.Entered.{zero_head, infe_body, iinf_body, iprp_body}
use opencodecs.Heif.ReadBack.{hdlr_body, pitm_body, meta_parts, file_parts}
use opencodecs.Heif.Packed.{pack-be_bytes, box-box_bytes, full-box_bytes, iprp-box_bytes}
use opencodecs.Heif.Properties.{first_parts, first_props-boxed}
use opencodecs.Heif.Writer.{Picture, box, full, iloc, meta, file_of, write_single_item}
use opencodecs.Heif.Writable.{
  IsWritable, all_props, item_indices, brands, clap_props-boxed, length-iloc_bytes,
  length-iinf_body,
}
use opencodecs.Heif.Sizes.{few_props, props_size, meta_size, length-brands}

-- The boxes of `meta` for a payload from a place on, and the place that is written.
abbrev pub written_parts : Picture → Part → List Part → ℕ → List Part
written_parts p config clap offset =
    meta_parts p.item_type (all_props p config clap) (item_indices p config clap) offset
      (length p.payload)

abbrev pub head : Picture → Part → List Part → ℕ
head p config clap =
    length (box_bytes ftyp_kind (brands p))
    + length (box_bytes meta_kind (zero_head ++ laid (written_parts p config clap 0)))
    + 8

iloc-box_bytes :
    (offset n : ℕ)
    → offset < 2 ^ 32
    → n < 2 ^ 32
    → iloc offset n ≡ ok (box_bytes iloc_kind (zero_head ++ iloc_bytes offset n))
unfolding iloc
iloc-box_bytes offset n x y =
    let fields =
      be_bytes 2 1
      ++ (be_bytes 2 1
          ++ (be_bytes 2 0 ++ (be_bytes 2 1 ++ (be_bytes 4 offset ++ be_bytes 4 n)))) in
    rw (pack-be_bytes 4 offset x, pack-be_bytes 4 n y)
      (full-box_bytes iloc_kind ((0x44 ∷ 0 ∷ []) ∷ fields ∷ [])
          (omega (arith, length-append fields [], length-iloc_bytes offset n))
        ∙ ap (λ l. ok (box_bytes iloc_kind (0 ∷ 0 ∷ 0 ∷ 0 ∷ 0x44 ∷ 0 ∷ l))) (append-nil fields))

three_boxes :
    (a b c : List ℕ)
    → box_bytes ftyp_kind a ++ (box_bytes meta_kind b ++ box_bytes mdat_kind c)
      ≡ laid ((ftyp_kind, a) ∷ (meta_kind, b) ∷ (mdat_kind, c) ∷ [])
unfolding laid
three_boxes a b c =
    ap (λ l. box_bytes ftyp_kind a ++ (box_bytes meta_kind b ++ l))
      (sym (append-nil (box_bytes mdat_kind c)))

-- The boxes whose payload is fixed but for the type.
hdlr-box_bytes :
    full hdlr_kind 0 0 (be_bytes 4 0 ∷ pict_type ∷ replicate 12 0 ∷ (0 ∷ []) ∷ [])
    ≡ ok (box_bytes hdlr_kind hdlr_body)
unfolding be_bytes
hdlr-box_bytes =
    full-box_bytes hdlr_kind (be_bytes 4 0 ∷ pict_type ∷ replicate 12 0 ∷ (0 ∷ []) ∷ [])
      (omega arith)

pitm-box_bytes : full pitm_kind 0 0 (be_bytes 2 1 ∷ []) ≡ ok (box_bytes pitm_kind pitm_body)
unfolding be_bytes
pitm-box_bytes = full-box_bytes pitm_kind (be_bytes 2 1 ∷ []) (omega arith)

infe-box_bytes :
    (kind : List ℕ)
    → length kind ≡ 4
    → full infe_kind 2 0 ((be_bytes 2 1 ++ be_bytes 2 0) ∷ kind ∷ (0 ∷ []) ∷ [])
      ≡ ok (box_bytes infe_kind (infe_body kind))
unfolding full be_bytes
infe-box_bytes kind four = rw (pack-be_bytes 4 (2 * 2 ^ 24 + 0) (omega arith)) (
    box-box_bytes infe_kind ((2 ∷ 0 ∷ 0 ∷ 0 ∷ []) ∷ (0 ∷ 1 ∷ 0 ∷ 0 ∷ []) ∷ kind ∷ (0 ∷ []) ∷ [])
      (omega (arith, length-append kind (0 ∷ []))))

iinf-box_bytes :
    (kind : List ℕ)
    → length kind ≡ 4
    → full iinf_kind 0 0 (be_bytes 2 1 ∷ box_bytes infe_kind (infe_body kind) ∷ [])
      ≡ ok (box_bytes iinf_kind (iinf_body kind))
unfolding laid
iinf-box_bytes kind four =
    full-box_bytes iinf_kind (be_bytes 2 1 ∷ box_bytes infe_kind (infe_body kind) ∷ [])
      (omega (arith, length-iinf_body kind four))

module _ (p : Picture) (config : Part) (clap : List Part) (w : IsWritable p config clap) where
  meta-box_bytes :
      (offset : ℕ)
      → offset < 2 ^ 32
      → meta
          (box_bytes hdlr_kind hdlr_body)
          (box_bytes pitm_kind pitm_body)
          (box_bytes iinf_kind (iinf_body p.item_type))
          (box_bytes iprp_kind (iprp_body (all_props p config clap) (item_indices p config clap)))
          (length p.payload)
          offset
        ≡ ok (box_bytes meta_kind (zero_head ++ laid (written_parts p config clap offset)))
  unfolding meta iloc laid
  meta-box_bytes offset low =
      let parts = written_parts p config clap offset in
      let iinf = box_bytes iinf_kind (iinf_body p.item_type) in
      let iprp =
        box_bytes iprp_kind (iprp_body (all_props p config clap) (item_indices p config clap)) in
      let location = box_bytes iloc_kind (zero_head ++ iloc_bytes offset (length p.payload)) in
      rw (iloc-box_bytes offset (length p.payload) low (omega (arith, w.fits))) (
        full-box_bytes meta_kind
          (box_bytes hdlr_kind hdlr_body
            ∷ box_bytes pitm_kind pitm_body
            ∷ location
            ∷ iinf
            ∷ iprp
            ∷ [])
          (omega (arith, meta_size p config clap w offset (length p.payload), w.fits)))

  pub head_size : head p config clap + length p.payload < 2 ^ 32
  head_size = omega (
    arith,
    length-box_bytes ftyp_kind (brands p) refl,
    length-box_bytes meta_kind (zero_head ++ laid (written_parts p config clap 0)) refl,
    length-append zero_head (laid (written_parts p config clap 0)),
    meta_size p config clap w 0 (length p.payload),
    length-brands p config clap w,
    w.fits,
  )

  -- The boxes of the file.
  pub write_single_item-laid :
      write_single_item p
      ≡ ok (
          laid (file_parts (brands p) (written_parts p config clap (head p config clap)) p.payload))
  unfolding write_single_item file_of
  write_single_item-laid =
      let h = head p config clap in
      let ftyp : box ftyp_kind (p.major ∷ be_bytes 4 0 ∷ p.compatible)
          ≡ ok (box_bytes ftyp_kind (brands p)) =
        box-box_bytes ftyp_kind (p.major ∷ be_bytes 4 0 ∷ p.compatible)
          (omega (arith, length-brands p config clap w, w.fits)) in
      let first =
        first_props-boxed p config.0 config.1 w.config_box w.width_small w.height_small
          w.channels_small w.bits_small w.nclx_small (omega (arith, w.fits)) in
      let aperture = clap_props-boxed p.clap clap w.clap_box in
      let properties =
        iprp-box_bytes (first_parts p config) clap (omega (arith, few_props p config clap w))
          (omega (arith, props_size p config clap w, w.fits)) in
      let draft = meta-box_bytes 0 (omega arith) in
      let final = meta-box_bytes h (omega (arith, head_size)) in
      let small : ltb 0xFFFFFFFF (length p.payload + h) ≡ false =
        ltb-false 0xFFFFFFFF (length p.payload + h) (omega (arith, head_size)) in
      let mdat : box mdat_kind (p.payload ∷ []) ≡ ok (box_bytes mdat_kind p.payload) =
        box-box_bytes mdat_kind (p.payload ∷ [])
          (omega (arith, ap length (append-nil p.payload), w.fits))
        ∙ ap (λ l. ok (box_bytes mdat_kind l)) (append-nil p.payload) in
      rw
        (
          ftyp,
          hdlr-box_bytes,
          pitm-box_bytes,
          infe-box_bytes p.item_type w.type_size,
          iinf-box_bytes p.item_type w.type_size,
          first,
          aperture,
          properties,
          draft,
          small,
          final,
          mdat,
        )
        (ap ok
          (three_boxes (brands p) (zero_head ++ laid (written_parts p config clap h)) p.payload))
