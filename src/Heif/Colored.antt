-- ===== src/Heif/Colored.antt =====
-- src/opencodecs/backends/_heifbox.py: the color of the picture of a written file.
use opencodecs.Common.{
  ℕ, ◌+◌, ◌-◌, List, [], ◌∷◌, ◌++◌, Bool, true, false, some, ◌≡◌, refl, leb, if◌then◌else◌, length,
  arith, ◌∙◌, ap, length-append, append_assoc, append-nil, ℕ_discrete,
}
use mathlib.Core.Path.{subst}
use opencodecs.Common.Dict
use opencodecs.Common.Bytes.{slice, slice-append}
use opencodecs.Heif.Gets.{Gets, Gets-bind, Gets-map, Gets-be, Gets-byte}
use opencodecs.Heif.Handled.{taken_here}
use opencodecs.Heif.Items.{same_kind, property}
use opencodecs.Heif.Reasons.{nclx_fields, nclx_of, nclx}
use opencodecs.Heif.Kinds.{ispe_kind, pixi_kind, colr_kind, nclx_type}
use opencodecs.Heif.Laid.{Part, box_head, laid, places, part_here, length-part_here}
use opencodecs.Heif.Packed.{boxed}
use opencodecs.Heif.Properties.{
  IsNclx, nclx_bytes, length-colr_body, ispe_body, pixi_body, colr_body, icc_parts,
}
use opencodecs.Heif.Writable.{IsWritable}
use opencodecs.Heif.Sizes.{AllParts-props}
use opencodecs.Heif.Single.{file, items}
use opencodecs.Heif.Placed.{props_front, props_back, props_place, file-props, length-props_front}
use opencodecs.Heif.Writer.{Picture, Nclx, marks, plain}

range-back : (full : Bool) → leb 128 (if full then 128 else 0) ≡ full
range-back true = refl
range-back false = refl

Gets-nclx :
    (limit : ℕ) (color : Nclx) → IsNclx color → Gets limit nclx_fields color (nclx_bytes color)
unfolding nclx_fields
Gets-nclx limit (p, t, m, f) h =
    subst (λ g. Gets limit nclx_fields (p, t, m, g) (nclx_bytes (p, t, m, f))) (range-back f)
      (Gets-bind limit _ (Gets-be limit 2 p h.0) (
        Gets-bind limit _ (Gets-be limit 2 t h.1) (
          Gets-bind limit _ (Gets-be limit 2 m h.2) (
            Gets-map limit (λ range. (p, t, m, leb 128 range))
              (Gets-byte limit (if f then 128 else 0))))))

module _ (p : Picture) (config : Part) (clap : List Part) (w : IsWritable p config clap)
    (other : same_kind config.0 colr_kind ≡ false) where
  -- The color that is read is the color that was written.
  pub nclx-written : nclx (items p config clap w) 1 ≡ some (some p.nclx)
  unfolding nclx nclx_of property Dict.get ℕ_discrete marks plain boxed places same_kind
  nclx-written =
      let ispe : Part = (ispe_kind, ispe_body p.width p.height) in
      let pixi : Part = (pixi_kind, pixi_body p.channels p.bits) in
      let colr = colr_body p.nclx in
      let before : List Part = config ∷ ispe ∷ pixi ∷ [] in
      let rest : List Part = icc_parts p.icc ++ clap in
      let bytes = file p config clap w in
      let front = props_front p config clap w ++ (laid before ++ box_head colr_kind colr) in
      let back = laid rest ++ props_back p config clap w in
      let all = AllParts-props p config clap w in
      let at =
        props_place p config clap w
        + (8 + length config.1)
        + (8 + length ispe.1)
        + (8 + length pixi.1) in
      let shape : bytes ≡ front ++ (colr ++ back) =
        file-props p config clap w
        ∙ part_here (props_front p config clap w) (props_back p config clap w) before rest colr_kind
            colr in
      let place : length front ≡ at + 8 = omega (
        arith,
        length-props_front p config clap w,
        length-part_here (props_front p config clap w) before colr_kind colr
            (all.0, (all.1.0, (all.1.1.0, tt))) refl,
      ) in
      let long : leb 11 (at + (8 + length colr) - (at + 8)) ≡ true =
        ground (arith, length-colr_body p.nclx) in
      let type_here : slice bytes (at + 8) (at + 8 + 4) ≡ nclx_type =
        ap (λ l. slice l (at + 8) (at + 8 + 4)) (shape ∙ simp append_assoc)
        ∙ slice-append front nclx_type (nclx_bytes p.nclx ++ ([] ++ back)) (at + 8) (at + 8 + 4)
            (omega (arith, place)) (omega (arith, place)) in
      let here : bytes ≡ (front ++ nclx_type) ++ (nclx_bytes p.nclx ++ back) =
        shape ∙ simp (append_assoc, append-nil) in
      let read =
        taken_here nclx_fields p.nclx (nclx_bytes p.nclx) bytes (front ++ nclx_type) back
          (at + 8 + 4) (Gets-nclx _ p.nclx w.nclx_small) here
          (omega (arith, length-append front nclx_type, place)) in
      rw (other, long, type_here, read) refl
