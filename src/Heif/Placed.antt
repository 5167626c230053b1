-- ===== src/Heif/Placed.antt =====
-- src/opencodecs/backends/_heifbox.py: where the properties of the item of a written file stand.
use opencodecs.Common.{
  ℕ, List, [], ◌∷◌, ◌++◌, ◌≡◌, refl, length, arith, sym, ◌∙◌, length-append, append_assoc,
  append-nil,
}
use opencodecs.Heif.Kinds.{
  ftyp_kind, meta_kind, mdat_kind, iprp_kind, ipco_kind, ipma_kind, hdlr_kind, pitm_kind, iloc_kind,
  iinf_kind,
}
use opencodecs.Heif.Laid.{Part, box_head, laid, part_here, length-part_here}
use opencodecs.Heif.Located.{ipma_bytes, iloc_bytes}
use opencodecs.Heif.Entered.{zero_head, iinf_body, iprp_body}
use opencodecs.Heif.ReadBack.{hdlr_body, pitm_body, props_at, meta_at}
use opencodecs.Heif.Writable.{IsWritable, all_props, item_indices, brands}
use opencodecs.Heif.Sizes.{AllParts-meta, AllParts-file}
use opencodecs.Heif.Written.{written_parts, head}
use opencodecs.Heif.Single.{file}
use opencodecs.Heif.Writer.{Picture}

module _ (p : Picture) (config : Part) (clap : List Part) (w : IsWritable p config clap) where
  -- The bytes in front of the properties, and behind them.
  pub props_front : List ℕ
  props_front =
      let parts = written_parts p config clap (head p config clap) in
      let before : List Part =
        (hdlr_kind, hdlr_body)
        ∷ (pitm_kind, pitm_body)
        ∷ (iloc_kind, zero_head ++ iloc_bytes (head p config clap) (length p.payload))
        ∷ (iinf_kind, iinf_body p.item_type)
        ∷ [] in
      (((laid ((ftyp_kind, brands p) ∷ []) ++ box_head meta_kind (zero_head ++ laid parts))
          ++ zero_head)
        ++ (laid before
            ++ box_head iprp_kind
                (iprp_body (all_props p config clap) (item_indices p config clap))))
      ++ (laid [] ++ box_head ipco_kind (laid (all_props p config clap)))

  pub props_back : List ℕ
  props_back =
      laid ((ipma_kind, ipma_bytes (item_indices p config clap)) ∷ [])
      ++ (laid [] ++ (laid ((mdat_kind, p.payload) ∷ []) ++ []))

  abbrev pub props_place : ℕ
  props_place = props_at p.item_type (head p config clap) (length p.payload) (meta_at (brands p))

  pub file-props :
      file p config clap w ≡ props_front ++ (laid (all_props p config clap) ++ props_back)
  unfolding props_front props_back
  file-props =
      let h = head p config clap in
      let n = length p.payload in
      let parts = written_parts p config clap h in
      let body = zero_head ++ laid parts in
      let ftyp : Part = (ftyp_kind, brands p) in
      let mdat : Part = (mdat_kind, p.payload) in
      let before : List Part =
        (hdlr_kind, hdlr_body)
        ∷ (pitm_kind, pitm_body)
        ∷ (iloc_kind, zero_head ++ iloc_bytes h n)
        ∷ (iinf_kind, iinf_body p.item_type)
        ∷ [] in
      let iprp = iprp_body (all_props p config clap) (item_indices p config clap) in
      let ipco = laid (all_props p config clap) in
      let ipma : Part = (ipma_kind, ipma_bytes (item_indices p config clap)) in
      let front1 = (laid (ftyp ∷ []) ++ box_head meta_kind body) ++ zero_head in
      let back1 = laid (mdat ∷ []) ++ [] in
      let shape1 : file p config clap w ≡ front1 ++ (laid parts ++ back1) =
        sym (append-nil _)
        ∙ part_here [] [] (ftyp ∷ []) (mdat ∷ []) meta_kind body
        ∙ simp append_assoc in
      let front2 = front1 ++ (laid before ++ box_head iprp_kind iprp) in
      shape1
      ∙ part_here front1 back1 before [] iprp_kind iprp
      ∙ part_here front2 (laid [] ++ back1) [] (ipma ∷ []) ipco_kind ipco

  pub length-props_front : length props_front ≡ props_place
  unfolding props_front
  length-props_front =
      let h = head p config clap in
      let n = length p.payload in
      let body = zero_head ++ laid (written_parts p config clap h) in
      let all_file = AllParts-file p config clap w h n in
      let all_meta = AllParts-meta p config clap w h n in
      let ftyp : Part = (ftyp_kind, brands p) in
      let before : List Part =
        (hdlr_kind, hdlr_body)
        ∷ (pitm_kind, pitm_body)
        ∷ (iloc_kind, zero_head ++ iloc_bytes h n)
        ∷ (iinf_kind, iinf_body p.item_type)
        ∷ [] in
      let iprp = iprp_body (all_props p config clap) (item_indices p config clap) in
      let front1 = (laid (ftyp ∷ []) ++ box_head meta_kind body) ++ zero_head in
      let front2 = front1 ++ (laid before ++ box_head iprp_kind iprp) in
      omega (
        arith,
        length-part_here [] (ftyp ∷ []) meta_kind body (all_file.0, tt) refl,
        length-append (laid (ftyp ∷ []) ++ box_head meta_kind body) zero_head,
        length-part_here front1 before iprp_kind iprp
            (all_meta.0, (all_meta.1.0, (all_meta.1.1.0, (all_meta.1.1.1.0, tt)))) refl,
        length-part_here front2 [] ipco_kind (laid (all_props p config clap)) tt refl,
      )
