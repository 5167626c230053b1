-- ===== src/Heif/RoundTrip.antt =====
-- src/opencodecs/backends/_heifbox.py: `write_single_item`, read back by `parse` and the methods of
-- `Items`.
use opencodecs.Common.{ℕ, List, false, some, ◌≡◌, refl, ℕ_discrete}
use opencodecs.Common.Dict
use opencodecs.Common.Result.{ok}
use opencodecs.Heif.Items.{Items, same_kind, item_data, size}
use opencodecs.Heif.Kinds.{ispe_kind, colr_kind}
use opencodecs.Heif.Laid.{Part}
use opencodecs.Heif.Parse.{parse}
use opencodecs.Heif.Reasons.{nclx, alpha_in, has_alpha}
use opencodecs.Heif.Writable.{IsWritable}
use opencodecs.Heif.Written.{write_single_item-laid}
use opencodecs.Heif.Single.{file, items, parse-items, item_data-payload}
use opencodecs.Heif.Sized.{size-written}
use opencodecs.Heif.Colored.{nclx-written}
use opencodecs.Heif.Writer.{Picture, write_single_item}

-- A picture whose numbers fit their fields, whose configuration is a box that is neither `ispe` nor
-- `colr`, whose clean aperture, if it has one, is a box, and whose parts and 1000 bytes stay below
-- 4 GB is written without an error. `parse` reads the file without an error, finds that item 1 is
-- primary and has the type that was written, and no alpha plane, and the methods give back the
-- payload, the size and the color.
pub parse-write_single_item :
    (p : Picture) (config : Part) (clap : List Part)
    → IsWritable p config clap
    → same_kind config.0 ispe_kind ≡ false
    → same_kind config.0 colr_kind ≡ false
    → (bytes : List ℕ) × (write_single_item p ≡ ok bytes)
      × (found : Items) × (parse bytes ≡ some (some found))
      × (found.primary ≡ some 1)
      × (Dict.get ℕ_discrete 1 found.types ≡ some p.item_type)
      × (item_data found 1 ≡ some p.payload)
      × (size found 1 ≡ some (some (p.width, p.height)))
      × (nclx found 1 ≡ some (some p.nclx))
      × (has_alpha found 1 ≡ false)
unfolding Dict.get ℕ_discrete has_alpha alpha_in
parse-write_single_item p config clap w x y = (
  file p config clap w,
  write_single_item-laid p config clap w,
  items p config clap w,
  parse-items p config clap w,
  refl,
  refl,
  item_data-payload p config clap w,
  size-written p config clap w x,
  nclx-written p config clap w y,
  refl,
)
