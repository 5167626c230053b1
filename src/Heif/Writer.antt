-- ===== src/Heif/Writer.antt =====
-- src/opencodecs/backends/_heifbox.py: `_box`, `_full`, `colr_nclx` and `write_single_item`.
use opencodecs.Common.{
  ℕ, suc, ◌+◌, ◌*◌, ◌^◌, List, [], ◌∷◌, ◌++◌, Bool, ltb, if◌then◌else◌, length, replicate,
}
use opencodecs.Common.Bytes.{join}
use opencodecs.Common.Result.{Result, ok, raise, ◌>>=◌}
use opencodecs.Heif.Bytes.{be_bytes}
use opencodecs.Heif.Kinds.{
  ftyp_kind, meta_kind, mdat_kind, hdlr_kind, pitm_kind, iinf_kind, infe_kind, iloc_kind, iprp_kind,
  ipco_kind, ipma_kind, ispe_kind, pixi_kind, colr_kind, nclx_type, pict_type, prof_type,
}

-- A number or a size that its field cannot hold, and a picture that is too large.
pub data WriteError : Type 0 where
  out_of_range too_large : WriteError

-- `struct.pack` of one number of `n` bytes.
unfoldable pub pack : ℕ → ℕ → Result WriteError (List ℕ)
pack n value = if ltb value (256 ^ n) then ok (be_bytes n value) else raise out_of_range

-- `bytes(values)`
unfoldable pub pack_all : List ℕ → Result WriteError (List ℕ)
pack_all [] = ok []
pack_all (b ∷ values) = do here ← pack 1 b; rest ← pack_all values; ok (here ++ rest)

-- `_box`
unfoldable pub box : List ℕ → List (List ℕ) → Result WriteError (List ℕ)
box kind payload = do size ← pack 4 (8 + length (join payload)); ok (size ++ (kind ++ join payload))

-- `_full`, whose version and flags do not overlap.
unfoldable pub full : List ℕ → ℕ → ℕ → List (List ℕ) → Result WriteError (List ℕ)
full kind version flags payload = do
  head ← pack 4 (version * 2 ^ 24 + flags)
  box kind (head ∷ payload)

-- `primaries, transfer, matrix, full_range`
abbrev pub Nclx : Type 0
Nclx = ℕ × ℕ × ℕ × Bool

-- `colr_nclx`
unfoldable pub colr_nclx : Nclx → Result WriteError (List ℕ)
colr_nclx (primaries, transfer, matrix, full_range) = do
  p ← pack 2 primaries
  t ← pack 2 transfer
  m ← pack 2 matrix
  box colr_kind (nclx_type ∷ (p ++ (t ++ (m ++ ((if full_range then 128 else 0) ∷ [])))) ∷ [])

-- The arguments of `write_single_item`. The empty list stands for no profile and no clean aperture.
pub record Picture : Type 0 where
  pub major : List ℕ
  pub compatible : List (List ℕ)
  pub item_type : List ℕ
  pub config : List ℕ
  pub width : ℕ
  pub height : ℕ
  pub bits : ℕ
  pub channels : ℕ
  pub payload : List ℕ
  pub nclx : Nclx
  pub icc : List ℕ
  pub clap : List ℕ

unfoldable pub ispe : ℕ → ℕ → Result WriteError (List ℕ)
ispe width height = do w ← pack 4 width; h ← pack 4 height; full ispe_kind 0 0 ((w ++ h) ∷ [])

unfoldable pub pixi : ℕ → ℕ → Result WriteError (List ℕ)
pixi channels bits = do
  depths ← pack_all (channels ∷ replicate channels bits)
  full pixi_kind 0 0 (depths ∷ [])

-- `if icc: props.append(...)`, and the same for `clap`.
unfoldable pub icc_props : List ℕ → Result WriteError (List (List ℕ))
icc_props [] = ok []
icc_props (b ∷ icc) = do profile ← box colr_kind (prof_type ∷ (b ∷ icc) ∷ []); ok (profile ∷ [])

unfoldable pub clap_props : List ℕ → List (List ℕ)
clap_props [] = []
clap_props (b ∷ clap) = (b ∷ clap) ∷ []

-- The properties in front of `clap`.
unfoldable pub first_props : Picture → Result WriteError (List (List ℕ))
first_props p = do
  size ← ispe p.width p.height
  depth ← pixi p.channels p.bits
  color ← colr_nclx p.nclx
  profile ← icc_props p.icc
  ok (p.config ∷ size ∷ depth ∷ color ∷ profile)

-- The bytes of `ipma` for the properties, of which the first one and `clap` are essential.
unfoldable pub plain : ℕ → List (List ℕ) → List ℕ
plain i [] = []
plain i (prop ∷ props) = (i + 1) ∷ plain (i + 1) props

unfoldable pub essential : ℕ → List (List ℕ) → List ℕ
essential i [] = []
essential i (prop ∷ props) = (128 + (i + 1)) ∷ essential (i + 1) props

unfoldable pub marks : List (List ℕ) → List (List ℕ) → List ℕ
marks [] clap = essential 0 clap
marks (config ∷ props) clap = 129 ∷ (plain 1 props ++ essential (suc (length props)) clap)

unfoldable pub iprp : List (List ℕ) → List (List ℕ) → Result WriteError (List ℕ)
iprp props clap = do
  ipco ← box ipco_kind (props ++ clap)
  count ← pack 1 (length (props ++ clap))
  ipma ← full ipma_kind 0 0 ((be_bytes 4 1 ++ (be_bytes 2 1 ++ count)) ∷ marks props clap ∷ [])
  box iprp_kind (ipco ∷ ipma ∷ [])

-- `iloc`: version 0, 4-byte offsets and lengths, no base offset.
unfoldable pub iloc : ℕ → ℕ → Result WriteError (List ℕ)
iloc offset n = do
  place ← pack 4 offset
  size ← pack 4 n
  full iloc_kind 0 0 (
      (0x44 ∷ 0 ∷ [])
      ∷ (be_bytes 2 1 ++ (be_bytes 2 1 ++ (be_bytes 2 0 ++ (be_bytes 2 1 ++ (place ++ size)))))
      ∷ [])

-- `meta`, of the boxes in front of `iloc` and behind it.
unfoldable pub meta : List ℕ → List ℕ → List ℕ → List ℕ → ℕ → ℕ → Result WriteError (List ℕ)
meta hdlr pitm iinf iprp n offset = do
  location ← iloc offset n
  full meta_kind 0 0 (hdlr ∷ pitm ∷ location ∷ iinf ∷ iprp ∷ [])

-- The file, where `ftyp` and the draft of `meta` give the place of the payload.
unfoldable pub file_of :
    List ℕ → List ℕ → (ℕ → Result WriteError (List ℕ)) → List ℕ → Result WriteError (List ℕ)
file_of ftyp draft meta_at payload =
    let head = length ftyp + length draft + 8 in
    if ltb 0xFFFFFFFF (length payload + head) then raise too_large else (do
      final ← meta_at head
      mdat ← box mdat_kind (payload ∷ [])
      ok (ftyp ++ (final ++ mdat)))

-- `write_single_item`
unfoldable pub write_single_item : Picture → Result WriteError (List ℕ)
write_single_item p = do
  ftyp ← box ftyp_kind (p.major ∷ be_bytes 4 0 ∷ p.compatible)
  hdlr ← full hdlr_kind 0 0 (be_bytes 4 0 ∷ pict_type ∷ replicate 12 0 ∷ (0 ∷ []) ∷ [])
  pitm ← full pitm_kind 0 0 (be_bytes 2 1 ∷ [])
  infe ← full infe_kind 2 0 ((be_bytes 2 1 ++ be_bytes 2 0) ∷ p.item_type ∷ (0 ∷ []) ∷ [])
  iinf ← full iinf_kind 0 0 (be_bytes 2 1 ∷ infe ∷ [])
  props ← first_props p
  properties ← iprp props (clap_props p.clap)
  draft ← meta hdlr pitm iinf properties (length p.payload) 0
  file_of ftyp draft (meta hdlr pitm iinf properties (length p.payload)) p.payload
