-- ===== src/Heif/Writable.antt =====
-- src/opencodecs/backends/_heifbox.py: pictures that `write_single_item` can write, and the sizes of
-- their boxes.
use opencodecs.Common.{
  ℕ, ◌+◌, ◌^◌, ◌≤◌, ◌<◌, List, [], ◌∷◌, ◌++◌, ◌≡◌, refl, length, arith, ap, length-append,
}
use opencodecs.Common.Bytes.{join}
use opencodecs.Heif.Bytes.{be_bytes, length-be_bytes}
use opencodecs.Heif.Kinds.{infe_kind, ipco_kind, ipma_kind}
use opencodecs.Heif.Laid.{Part, box_bytes, laid, AllParts, total, length-box_bytes}
use opencodecs.Heif.Located.{iloc_bytes, ipma_bytes}
use opencodecs.Heif.Entered.{infe_body, iinf_body, iprp_body, length-infe_body}
use opencodecs.Heif.Packed.{boxed, length-ipma_bytes}
use opencodecs.Heif.Properties.{IsNclx, first_parts, icc_parts}
use opencodecs.Heif.Writer.{Picture, marks, clap_props}

-- No clean aperture, or one box.
abbrev pub IsClap : List ℕ → List Part → Type 0
IsClap bytes [] = bytes ≡ []
IsClap bytes ((kind, body) ∷ []) = (bytes ≡ box_bytes kind body) × (length kind ≡ 4)
IsClap bytes _ = ⊥

-- A picture whose numbers fit their fields and whose parts are boxes, in a file below 4 GB.
pub record IsWritable (p : Picture) (config : Part) (clap : List Part) : Type 0 where
  pub config_box : p.config ≡ box_bytes config.0 config.1
  pub config_kind : length config.0 ≡ 4
  pub clap_box : IsClap p.clap clap
  pub type_size : length p.item_type ≡ 4
  pub width_small : p.width < 2 ^ 32
  pub height_small : p.height < 2 ^ 32
  pub channels_small : p.channels < 256
  pub bits_small : p.bits < 256
  pub nclx_small : IsNclx p.nclx
  pub fits :
      1000
        + length p.major
        + length (join p.compatible)
        + length config.1
        + length p.icc
        + total clap
        + length p.payload
      < 2 ^ 32

pub clap_props-boxed :
    (bytes : List ℕ) (clap : List Part) → IsClap bytes clap → clap_props bytes ≡ boxed clap
unfolding clap_props boxed box_bytes be_bytes
clap_props-boxed bytes [] h = ap clap_props h
clap_props-boxed bytes ((kind, body) ∷ []) h = ap clap_props h.0
clap_props-boxed bytes (c ∷ d ∷ more) h = absurd h

pub AllParts-clap :
    (bytes : List ℕ) (clap : List Part) → IsClap bytes clap → total clap < 2 ^ 32 → AllParts clap
AllParts-clap bytes [] h small = tt
AllParts-clap bytes ((kind, body) ∷ []) h small = ((h.1, omega arith), tt)
AllParts-clap bytes (c ∷ d ∷ more) h small = absurd h

pub few-clap : (bytes : List ℕ) (clap : List Part) → IsClap bytes clap → length clap ≤ 1
few-clap bytes [] h = omega arith
few-clap bytes ((kind, body) ∷ []) h = omega arith
few-clap bytes (c ∷ d ∷ more) h = absurd h

pub AllParts-append :
    (parts more : List Part) → AllParts parts → AllParts more → AllParts (parts ++ more)
AllParts-append [] more h k = k
AllParts-append (part ∷ parts) more h k = (h.0, AllParts-append parts more h.1 k)

pub total-append : (parts more : List Part) → total (parts ++ more) ≡ total parts + total more
total-append [] more = omega arith
total-append ((kind, body) ∷ parts) more = omega (arith, total-append parts more)

pub icc_size : (icc : List ℕ) → total (icc_parts icc) ≤ 12 + length icc
icc_size [] = omega arith
icc_size (b ∷ icc) = omega (arith, length-append icc [])

pub few-icc : (icc : List ℕ) → length (icc_parts icc) ≤ 1
few-icc [] = omega arith
few-icc (b ∷ icc) = omega arith

pub AllParts-icc : (icc : List ℕ) → length icc + 12 < 2 ^ 32 → AllParts (icc_parts icc)
AllParts-icc [] h = tt
AllParts-icc (b ∷ icc) h = ((refl, omega (arith, length-append icc [])), tt)

pub length-iloc_bytes : (offset n : ℕ) → length (iloc_bytes offset n) ≡ 18
length-iloc_bytes offset n = omega (
  arith,
  length-append (be_bytes 2 1)
      (be_bytes 2 1 ++ (be_bytes 2 0 ++ (be_bytes 2 1 ++ (be_bytes 4 offset ++ be_bytes 4 n)))),
  length-append (be_bytes 2 1)
      (be_bytes 2 0 ++ (be_bytes 2 1 ++ (be_bytes 4 offset ++ be_bytes 4 n))),
  length-append (be_bytes 2 0) (be_bytes 2 1 ++ (be_bytes 4 offset ++ be_bytes 4 n)),
  length-append (be_bytes 2 1) (be_bytes 4 offset ++ be_bytes 4 n),
  length-append (be_bytes 4 offset) (be_bytes 4 n),
  length-be_bytes 2 1,
  length-be_bytes 2 0,
  length-be_bytes 4 offset,
  length-be_bytes 4 n,
)

pub length-iinf_body : (kind : List ℕ) → length kind ≡ 4 → length (iinf_body kind) ≡ 27
unfolding laid
length-iinf_body kind four = omega (
  arith,
  length-append (be_bytes 2 1) (laid ((infe_kind, infe_body kind) ∷ [])),
  length-append (box_bytes infe_kind (infe_body kind)) [],
  length-box_bytes infe_kind (infe_body kind) refl,
  length-infe_body kind four,
  length-be_bytes 2 1,
)

pub length-iprp_body :
    (props : List Part) (marks : List ℕ)
    → length (iprp_body props marks) ≡ 27 + length (laid props) + length marks
unfolding laid
length-iprp_body props marks = omega (
  arith,
  length-append (box_bytes ipco_kind (laid props)) (box_bytes ipma_kind (ipma_bytes marks) ++ []),
  length-append (box_bytes ipma_kind (ipma_bytes marks)) [],
  length-box_bytes ipco_kind (laid props) refl,
  length-box_bytes ipma_kind (ipma_bytes marks) refl,
  length-ipma_bytes marks,
)

-- The properties, their indices and the brands.
abbrev pub all_props : Picture → Part → List Part → List Part
all_props p config clap = first_parts p config ++ clap

abbrev pub item_indices : Picture → Part → List Part → List ℕ
item_indices p config clap = marks (boxed (first_parts p config)) (boxed clap)

abbrev pub brands : Picture → List ℕ
brands p = p.major ++ (be_bytes 4 0 ++ join p.compatible)
