-- ===== src/Heif/Sizes.antt =====
-- src/opencodecs/backends/_heifbox.py: the sizes of the boxes that `write_single_item` writes.
use opencodecs.Common.{ℕ, ◌+◌, ◌≤◌, List, ◌++◌, ◌≡◌, refl, length, arith, ap, length-append}
use opencodecs.Common.Bytes.{join}
use opencodecs.Heif.Bytes.{be_bytes, length-be_bytes}
use opencodecs.Heif.Laid.{Part, laid, AllParts, total, length-laid}
use opencodecs.Heif.ReadBack.{meta_parts, file_parts}
use opencodecs.Heif.Packed.{boxed, length-marks, length-boxed, boxed-append}
use opencodecs.Heif.Properties.{
  first_parts, icc_parts, length-ispe_body, length-pixi_body, length-colr_body,
}
use opencodecs.Heif.Writer.{Picture}
use opencodecs.Heif.Writable.{
  IsWritable, AllParts-clap, few-clap, AllParts-append, total-append, icc_size, few-icc,
  AllParts-icc, length-iloc_bytes, length-iinf_body, length-iprp_body, all_props, item_indices,
  brands,
}

module _ (p : Picture) (config : Part) (clap : List Part) (w : IsWritable p config clap) where
  pub AllParts-props : AllParts (all_props p config clap)
  AllParts-props = (
    (w.config_kind, omega (arith, w.fits)),
    (
      (refl, omega (arith, length-ispe_body p.width p.height)),
      (
        (refl, omega (arith, length-pixi_body p.channels p.bits, w.channels_small)),
        (
          (refl, omega (arith, length-colr_body p.nclx)),
          AllParts-append (icc_parts p.icc) clap (AllParts-icc p.icc (omega (arith, w.fits)))
              (AllParts-clap p.clap clap w.clap_box (omega (arith, w.fits))),
        ),
      ),
    ),
  )

  pub props_size :
      length (laid (all_props p config clap)) ≤ 400 + length config.1 + length p.icc + total clap
  props_size = omega (
    arith,
    length-laid (all_props p config clap) AllParts-props,
    total-append (icc_parts p.icc) clap,
    icc_size p.icc,
    length-ispe_body p.width p.height,
    length-pixi_body p.channels p.bits,
    w.channels_small,
    length-colr_body p.nclx,
  )

  pub indices_size : length (item_indices p config clap) ≤ 6
  indices_size = omega (
    arith,
    length-marks (boxed (first_parts p config)) (boxed clap),
    ap length (boxed-append (first_parts p config) clap),
    length-boxed (all_props p config clap),
    length-append (icc_parts p.icc) clap,
    few-icc p.icc,
    few-clap p.clap clap w.clap_box,
  )

  pub length-brands : length (brands p) ≡ length p.major + 4 + length (join p.compatible)
  length-brands = omega (
    arith,
    length-append p.major (be_bytes 4 0 ++ join p.compatible),
    length-append (be_bytes 4 0) (join p.compatible),
    length-be_bytes 4 0,
  )

  pub few_props : length (all_props p config clap) ≤ 6
  few_props =
      omega (
        arith,
        length-append (icc_parts p.icc) clap,
        few-icc p.icc,
        few-clap p.clap clap w.clap_box,
      )

  -- The boxes of `meta` fit, wherever the payload stands.
  pub AllParts-meta :
      (offset n : ℕ)
      → AllParts
          (meta_parts p.item_type (all_props p config clap) (item_indices p config clap) offset n)
  AllParts-meta offset n = (
    (refl, omega arith),
    (
      (refl, omega (arith, length-be_bytes 2 1)),
      (
        (refl, omega (arith, length-iloc_bytes offset n)),
        (
          (refl, omega (arith, length-iinf_body p.item_type w.type_size)),
          (
            (
              refl,
              omega (
                arith,
                length-iprp_body (all_props p config clap) (item_indices p config clap),
                props_size,
                indices_size,
                w.fits,
              ),
            ),
            tt,
          ),
        ),
      ),
    ),
  )

  pub meta_size :
      (offset n : ℕ)
      → length (
          laid (
            meta_parts p.item_type (all_props p config clap) (item_indices p config clap) offset n))
        ≤ 600 + length config.1 + length p.icc + total clap
  meta_size offset n = omega (
    arith,
    length-laid
        (meta_parts p.item_type (all_props p config clap) (item_indices p config clap) offset n)
        (AllParts-meta offset n),
    length-be_bytes 2 1,
    length-iloc_bytes offset n,
    length-iinf_body p.item_type w.type_size,
    length-iprp_body (all_props p config clap) (item_indices p config clap),
    props_size,
    indices_size,
  )

  pub AllParts-file :
      (offset n : ℕ)
      → AllParts (
          file_parts
            (brands p)
            (meta_parts p.item_type (all_props p config clap) (item_indices p config clap) offset n)
            p.payload)
  AllParts-file offset n = (
    (refl, omega (arith, length-brands, w.fits)),
    ((refl, omega (arith, meta_size offset n, w.fits)), ((refl, omega (arith, w.fits)), tt)),
  )
