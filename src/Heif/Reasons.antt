-- ===== src/Heif/Reasons.antt =====
-- src/opencodecs/backends/_heifbox.py: what the boxes say of how a picture is shown, that is
-- `Items.nclx`, `transform_reason`, `has_alpha` and `grid_layout`.
use opencodecs.Common.{
  ℕ, ◌+◌, ◌-◌, ◌*◌, ◌%◌, List, [], ◌∷◌, Bool, true, false, ◌&&◌, ◌||◌, not, Option, none, some, ltb,
  leb, ◌==◌, if◌then◌else◌, length, get_elem?,
}
use opencodecs.Common.Bytes.{slice}
use opencodecs.Bitstreams.Reader.{Reader, pure, ◌>>=◌}
use opencodecs.Heif.{Box}
use opencodecs.Heif.Bytes.{byte, be}
use opencodecs.Heif.Items.{Items, same_kind, property, property_of, indices, item_data}
use opencodecs.Heif.Kinds.{
  ispe_kind, colr_kind, clap_kind, imir_kind, irot_kind, auxl_kind, auxc_kind, nclx_type,
}
use opencodecs.Heif.Parse.{◌>>?◌, number}
use opencodecs.Heif.Writer.{Nclx}

-- The fields of a `colr` box behind its type.
unfoldable pub nclx_fields : Reader Nclx
nclx_fields = do
  primaries ← be 2
  transfer ← be 2
  matrix ← be 2
  range ← byte
  pure (primaries, transfer, matrix, leb 128 range)

-- The properties of an item in their order, until one is a `colr` box of the type `nclx`.
unfoldable pub nclx_of : List ℕ → List Box → List ℕ → Option (Option Nclx)
nclx_of bytes props [] = some none
nclx_of bytes props (i ∷ idx) =
    let rest = nclx_of bytes props idx in
    elim (property props i) [
      | none ↦ rest
      | some (kind, s, e) ↦
          if same_kind kind colr_kind
            && leb 11 (e - s)
            && same_kind (slice bytes s (s + 4)) nclx_type
          then (nclx_fields bytes (s + 4) >>? λ r. some (some r.0))
          else rest
    ]

-- `Items.nclx`: `some none` where there is none, `none` for the error past the end.
unfoldable pub nclx : Items → ℕ → Option (Option Nclx)
nclx items item = nclx_of items.bytes items.props (indices items.assoc item)

-- `wn, wd, hn, hd, xn, xd, yn, yd`; a signed number is zero when its word is.
unfoldable pub clap_test : ℕ → ℕ → Reader Bool
clap_test width height = do
  wn ← be 4
  wd ← be 4
  hn ← be 4
  hd ← be 4
  xn ← be 4
  xd ← be 4
  yn ← be 4
  yd ← be 4
  pure (
      if wd == 0 || hd == 0 || xd == 0 || yd == 0
      then false
      else wn == width * wd && hn == height * hd && xn == 0 && yn == 0)

-- `clap_is_identity`, at the place of the `clap` box.
unfoldable pub clap_is_identity : Items → ℕ → ℕ → Option Bool
clap_is_identity items item at = elim (property_of items item ispe_kind) [
  | none ↦ some false
  | some (s, e) ↦ number items.bytes 4 (s + 4) >>? λ width.
      number items.bytes 4 (s + 8) >>? λ height.
      clap_test width height items.bytes at >>? λ r. some r.0
]

-- The empty string and the three reasons of `transform_reason`.
pub data Reason : Type 0 where
  as_coded mirrored rotated cropped : Reason

unfoldable pub is_rotated : Items → ℕ → Option Bool
is_rotated items item = elim (property_of items item irot_kind) [
  | none ↦ some false
  | some (s, e) ↦ get_elem? items.bytes s >>? λ b. some (not (b % 4 == 0))
]

unfoldable pub is_cropped : Items → ℕ → Option Bool
is_cropped items item = elim (property_of items item clap_kind) [
  | none ↦ some false
  | some (s, e) ↦ clap_is_identity items item s >>? λ whole. some (not whole)
]

-- `transform_reason`
unfoldable pub transform_reason : Items → ℕ → Option Reason
transform_reason items item = elim (property_of items item imir_kind) [
  | some place ↦ some mirrored
  | none ↦ is_rotated items item >>? λ turned.
      if turned
      then some rotated
      else (is_cropped items item >>? λ cut. some (if cut then cropped else as_coded))
]

-- `ALPHA_URNS`
abbrev pub hevc_alpha : List ℕ
hevc_alpha =
    117 ∷ 114 ∷ 110 ∷ 58 ∷ 109 ∷ 112 ∷ 101 ∷ 103 ∷ 58 ∷ 104 ∷ 101 ∷ 118 ∷ 99 ∷ 58 ∷ 50 ∷ 48 ∷ 49
    ∷ 53 ∷ 58 ∷ 97 ∷ 117 ∷ 120 ∷ 105 ∷ 100 ∷ 58 ∷ 49 ∷ []

abbrev pub mpegb_alpha : List ℕ
mpegb_alpha =
    117 ∷ 114 ∷ 110 ∷ 58 ∷ 109 ∷ 112 ∷ 101 ∷ 103 ∷ 58 ∷ 109 ∷ 112 ∷ 101 ∷ 103 ∷ 66 ∷ 58 ∷ 99 ∷ 105
    ∷ 99 ∷ 112 ∷ 58 ∷ 115 ∷ 121 ∷ 115 ∷ 116 ∷ 101 ∷ 109 ∷ 115 ∷ 58 ∷ 97 ∷ 117 ∷ 120 ∷ 105 ∷ 108
    ∷ 105 ∷ 97 ∷ 114 ∷ 121 ∷ 58 ∷ 97 ∷ 108 ∷ 112 ∷ 104 ∷ 97 ∷ []

-- `split(b"\0")[0]`
unfoldable pub until_nul : List ℕ → List ℕ
until_nul [] = []
until_nul (b ∷ l) = let rest = until_nul l in if b == 0 then [] else b ∷ rest

unfoldable pub holds : List ℕ → ℕ → Bool
holds [] item = false
holds (i ∷ l) item = i == item || holds l item

-- Whether an auxiliary image is an alpha plane: its type says so, or it has none.
unfoldable pub is_alpha : Items → ℕ → Bool
is_alpha items src = elim (property_of items src auxc_kind) [
  | none ↦ true
  | some (s, e) ↦
      let urn = until_nul (slice items.bytes (s + 4) e) in
      same_kind urn hevc_alpha || same_kind urn mpegb_alpha
]

unfoldable pub alpha_in : Items → List (List ℕ × ℕ × List ℕ) → ℕ → Bool
alpha_in items [] item = false
alpha_in items ((kind, src, dst) ∷ refs) item =
    same_kind kind auxl_kind && holds dst item && is_alpha items src || alpha_in items refs item

-- `has_alpha`
unfoldable pub has_alpha : Items → ℕ → Bool
has_alpha items item = alpha_in items items.refs item

-- `rows, columns, output width, output height`
abbrev pub Grid : Type 0
Grid = ℕ × ℕ × ℕ × ℕ

unfoldable pub grid_fields : Reader Grid
grid_fields = do
  version ← byte
  flags ← byte
  rows ← byte
  cols ← byte
  width ← be (if flags % 2 == 1 then 4 else 2)
  height ← be (if flags % 2 == 1 then 4 else 2)
  pure (rows + 1, cols + 1, width, height)

unfoldable pub grid_of : List ℕ → Option Grid
grid_of [] = none
grid_of (version ∷ desc) =
    if ltb (length desc) 7 || not (version == 0)
    then none
    else (grid_fields (version ∷ desc) 0 >>? λ r. some r.0)

-- `grid_layout`; `none` is a ValueError or a struct.error.
unfoldable pub grid_layout : Items → ℕ → Option Grid
grid_layout items item = item_data items item >>? grid_of
