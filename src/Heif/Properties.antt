-- ===== src/Heif/Properties.antt =====
-- src/opencodecs/backends/_heifbox.py, `write_single_item`: the properties of the item.
use opencodecs.Common.{
  ℕ, zero, suc, ◌+◌, ◌^◌, ◌<◌, List, [], ◌∷◌, ◌++◌, map, ◌≡◌, refl, if◌then◌else◌, length, arith,
  ap, length-append, replicate,
}
use opencodecs.Common.Bytes.{join}
use opencodecs.Common.Result.{ok}
use opencodecs.Heif.Bytes.{be_bytes, length-be_bytes}
use opencodecs.Heif.Kinds.{ispe_kind, pixi_kind, colr_kind, nclx_type, prof_type}
use opencodecs.Heif.Laid.{Part, box_bytes}
use opencodecs.Heif.Entered.{zero_head}
use opencodecs.Heif.Packed.{pack-be_bytes, box-box_bytes, full-box_bytes, boxed}
use opencodecs.Heif.Writer.{Picture, Nclx, pack_all, icc_props, ispe, pixi, colr_nclx, first_props}

-- `bytes(values)` for values that are bytes.
abbrev pub AllBytes : List ℕ → Type 0
AllBytes [] = Unit
AllBytes (b ∷ values) = (b < 256) × AllBytes values

abbrev pub byte_row : List ℕ → List ℕ
byte_row values = join (map (be_bytes 1) values)

pack_all-row : (values : List ℕ) → AllBytes values → pack_all values ≡ ok (byte_row values)
unfolding pack_all
pack_all-row [] all = refl
pack_all-row (b ∷ values) all = rw (pack-be_bytes 1 b all.0, pack_all-row values all.1) refl

length-byte_row : (values : List ℕ) → length (byte_row values) ≡ length values
length-byte_row [] = refl
length-byte_row (b ∷ values) = omega (
  arith,
  length-append (be_bytes 1 b) (byte_row values),
  length-be_bytes 1 b,
  length-byte_row values,
)

replicate-AllBytes : (n b : ℕ) → b < 256 → AllBytes (replicate n b)
replicate-AllBytes zero b small = tt
replicate-AllBytes (suc n) b small = (small, replicate-AllBytes n b small)

length-replicate : (n b : ℕ) → length (replicate n b) ≡ n
length-replicate zero b = refl
length-replicate (suc n) b = ap suc (length-replicate n b)

-- The payloads of `ispe`, `pixi` and `colr`.
abbrev pub ispe_body : ℕ → ℕ → List ℕ
ispe_body width height = zero_head ++ ((be_bytes 4 width ++ be_bytes 4 height) ++ [])

abbrev pub pixi_body : ℕ → ℕ → List ℕ
pixi_body channels bits = zero_head ++ (byte_row (channels ∷ replicate channels bits) ++ [])

abbrev pub nclx_bytes : Nclx → List ℕ
nclx_bytes (primaries, transfer, matrix, full_range) =
    be_bytes 2 primaries
    ++ (be_bytes 2 transfer ++ (be_bytes 2 matrix ++ ((if full_range then 128 else 0) ∷ [])))

abbrev pub colr_body : Nclx → List ℕ
colr_body nclx = nclx_type ++ (nclx_bytes nclx ++ [])

abbrev pub icc_parts : List ℕ → List Part
icc_parts [] = []
icc_parts (b ∷ icc) = (colr_kind, prof_type ++ ((b ∷ icc) ++ [])) ∷ []

pub length-ispe_body : (width height : ℕ) → length (ispe_body width height) ≡ 12
length-ispe_body width height = omega (
  arith,
  length-append (be_bytes 4 width ++ be_bytes 4 height) [],
  length-append (be_bytes 4 width) (be_bytes 4 height),
  length-be_bytes 4 width,
  length-be_bytes 4 height,
)

pub length-pixi_body : (channels bits : ℕ) → length (pixi_body channels bits) ≡ 5 + channels
length-pixi_body channels bits = omega (
  arith,
  length-append (byte_row (channels ∷ replicate channels bits)) [],
  length-byte_row (channels ∷ replicate channels bits),
  length-replicate channels bits,
)

pub length-colr_body : (nclx : Nclx) → length (colr_body nclx) ≡ 11
length-colr_body (p, t, m, f) = omega (
  arith,
  length-append (nclx_bytes (p, t, m, f)) [],
  length-append (be_bytes 2 p) (be_bytes 2 t ++ (be_bytes 2 m ++ ((if f then 128 else 0) ∷ []))),
  length-append (be_bytes 2 t) (be_bytes 2 m ++ ((if f then 128 else 0) ∷ [])),
  length-append (be_bytes 2 m) ((if f then 128 else 0) ∷ []),
  length-be_bytes 2 p,
  length-be_bytes 2 t,
  length-be_bytes 2 m,
)

ispe-box_bytes :
    (width height : ℕ)
    → width < 2 ^ 32
    → height < 2 ^ 32
    → ispe width height ≡ ok (box_bytes ispe_kind (ispe_body width height))
unfolding ispe
ispe-box_bytes width height x y =
    rw (pack-be_bytes 4 width x, pack-be_bytes 4 height y)
      (full-box_bytes ispe_kind ((be_bytes 4 width ++ be_bytes 4 height) ∷ [])
        (omega (arith, length-ispe_body width height)))

pixi-box_bytes :
    (channels bits : ℕ)
    → channels < 256
    → bits < 256
    → pixi channels bits ≡ ok (box_bytes pixi_kind (pixi_body channels bits))
unfolding pixi
pixi-box_bytes channels bits x y =
    rw (pack_all-row (channels ∷ replicate channels bits) (x, replicate-AllBytes channels bits y)) (
      full-box_bytes pixi_kind (byte_row (channels ∷ replicate channels bits) ∷ [])
        (omega (arith, length-pixi_body channels bits)))

-- Numbers that the fields of `colr` hold.
abbrev pub IsNclx : Nclx → Type 0
IsNclx (primaries, transfer, matrix, full_range) =
    (primaries < 65536) × (transfer < 65536) × (matrix < 65536)

colr_nclx-box_bytes :
    (nclx : Nclx) → IsNclx nclx → colr_nclx nclx ≡ ok (box_bytes colr_kind (colr_body nclx))
unfolding colr_nclx
colr_nclx-box_bytes (p, t, m, f) h =
    rw (pack-be_bytes 2 p h.0, pack-be_bytes 2 t h.1, pack-be_bytes 2 m h.2)
      (box-box_bytes colr_kind (nclx_type ∷ nclx_bytes (p, t, m, f) ∷ [])
        (omega (arith, length-colr_body (p, t, m, f))))

icc_props-boxed :
    (icc : List ℕ) → length icc + 12 < 2 ^ 32 → icc_props icc ≡ ok (boxed (icc_parts icc))
unfolding icc_props boxed
icc_props-boxed [] h = refl
icc_props-boxed (b ∷ icc) h =
    rw (box-box_bytes colr_kind (prof_type ∷ (b ∷ icc) ∷ []) (omega (arith, length-append icc [])))
      refl

-- The properties in front of `clap`, where the configuration is a box.
abbrev pub first_parts : Picture → Part → List Part
first_parts p config =
    config
    ∷ (ispe_kind, ispe_body p.width p.height)
    ∷ (pixi_kind, pixi_body p.channels p.bits)
    ∷ (colr_kind, colr_body p.nclx)
    ∷ icc_parts p.icc

pub first_props-boxed :
    (p : Picture) (kind body : List ℕ)
    → p.config ≡ box_bytes kind body
    → p.width < 2 ^ 32
    → p.height < 2 ^ 32
    → p.channels < 256
    → p.bits < 256
    → IsNclx p.nclx
    → length p.icc + 12 < 2 ^ 32
    → first_props p ≡ ok (boxed (first_parts p (kind, body)))
unfolding first_props boxed
first_props-boxed p kind body c w h n b k i =
    rw
      (
        ispe-box_bytes p.width p.height w h,
        pixi-box_bytes p.channels p.bits n b,
        colr_nclx-box_bytes p.nclx k,
        icc_props-boxed p.icc i,
        c,
      )
      refl
