-- ===== src/Heif/Sized.antt =====
-- src/opencodecs/backends/_heifbox.py: the size of the picture of a written file.
use opencodecs.Common.{
  ℕ, ◌+◌, ◌-◌, ◌^◌, ◌<◌, List, [], ◌∷◌, ◌++◌, false, some, ◌≡◌, refl, ltb, ltb-false, length, arith,
  ◌∙◌, length-append, append_assoc, append-nil, ℕ_discrete,
}
use opencodecs.Common.Dict
use opencodecs.Bitstreams.Reader.{Reader, pure, ◌>>=◌}
use opencodecs.Heif.Bytes.{be, be_bytes}
use opencodecs.Heif.Gets.{Gets, Gets-bind, Gets-map, Gets-be}
use opencodecs.Heif.Handled.{taken_here}
use opencodecs.Heif.Items.{Items, same_kind, property, first_of, property_of, size}
use opencodecs.Heif.Kinds.{ispe_kind, pixi_kind, colr_kind}
use opencodecs.Heif.Laid.{Part, box_head, laid, places, part_here, length-part_here}
use opencodecs.Heif.Entered.{zero_head}
use opencodecs.Heif.Packed.{boxed}
use opencodecs.Heif.Properties.{ispe_body, pixi_body, colr_body, icc_parts, length-ispe_body}
use opencodecs.Heif.Writable.{IsWritable}
use opencodecs.Heif.Sizes.{AllParts-props}
use opencodecs.Heif.Single.{items}
use opencodecs.Heif.Placed.{props_front, props_back, props_place, file-props, length-props_front}
use opencodecs.Heif.Writer.{Picture, marks, plain}

-- Two numbers of four bytes.
two_words : Reader (ℕ × ℕ)
two_words = do width ← be 4; height ← be 4; pure (width, height)

Gets-two_words :
    (limit width height : ℕ)
    → width < 2 ^ 32
    → height < 2 ^ 32
    → Gets limit two_words (width, height) (be_bytes 4 width ++ be_bytes 4 height)
unfolding two_words
Gets-two_words limit width height x y =
    Gets-bind limit _ (Gets-be limit 4 width x)
      (Gets-map limit (λ height. (width, height)) (Gets-be limit 4 height y))

-- An `ispe` box at a place.
size-found :
    (it : Items) (item : ℕ) (front back : List ℕ) (s e width height : ℕ)
    → property_of it item ispe_kind ≡ some (s, e)
    → it.bytes ≡ front ++ (ispe_body width height ++ back)
    → s ≡ length front
    → e ≡ s + 12
    → width < 2 ^ 32
    → height < 2 ^ 32
    → size it item ≡ some (some (width, height))
unfolding size two_words
size-found it item front back s e width height found shape place stop x y =
    let long : ltb (e - s) 12 ≡ false = ltb-false (e - s) 12 (omega arith) in
    let words = be_bytes 4 width ++ be_bytes 4 height in
    let here : it.bytes ≡ (front ++ zero_head) ++ (words ++ back) =
      shape ∙ simp (append_assoc, append-nil) in
    let read =
      taken_here two_words (width, height) words it.bytes (front ++ zero_head) back (s + 4)
        (Gets-two_words _ width height x y) here (omega (arith, length-append front zero_head)) in
    rw (found, size, long, read) refl

module _ (p : Picture) (config : Part) (clap : List Part) (w : IsWritable p config clap)
    (other : same_kind config.0 ispe_kind ≡ false) where
  property_of-ispe :
      property_of (items p config clap w) 1 ispe_kind
      ≡ some (
        props_place p config clap w + (8 + length config.1) + 8,
        props_place p config clap w
            + (8 + length config.1)
            + (8 + length (ispe_body p.width p.height)),
      )
  unfolding property_of first_of property Dict.get ℕ_discrete marks plain boxed places same_kind
  property_of-ispe = rw other refl

  -- The size that is read is the size that was written.
  pub size-written : size (items p config clap w) 1 ≡ some (some (p.width, p.height))
  size-written =
      let ispe = ispe_body p.width p.height in
      let rest : List Part =
        (pixi_kind, pixi_body p.channels p.bits)
        ∷ (colr_kind, colr_body p.nclx)
        ∷ (icc_parts p.icc ++ clap) in
      let front = props_front p config clap w in
      let back = props_back p config clap w in
      size-found (items p config clap w) 1
        (front ++ (laid (config ∷ []) ++ box_head ispe_kind ispe)) (laid rest ++ back) _ _ p.width
        p.height property_of-ispe
        (file-props p config clap w ∙ part_here front back (config ∷ []) rest ispe_kind ispe)
        (omega (
          arith,
          length-props_front p config clap w,
          length-part_here front (config ∷ []) ispe_kind ispe
              ((AllParts-props p config clap w).0, tt) refl,
        ))
        (omega (arith, length-ispe_body p.width p.height)) w.width_small w.height_small
