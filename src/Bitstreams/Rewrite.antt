-- ===== src/Bitstreams/Rewrite.antt =====
-- backends/_bitstreams.py, HEVC: `_rewrite_bits`, and the parameter sets rewritten by it.
pub mod Bits
pub mod VideoSignal
pub mod Signal
use opencodecs.Common.{
  ℕ, zero, suc, ◌+◌, ◌-◌, ◌%◌, max, List, [], ◌∷◌, ◌++◌, Bool, true, false, ◌&&◌, ◌||◌,
}
use opencodecs.Common.{
  Option, none, some, ltb, leb, ◌==◌, if◌then◌else◌, length, take, drop, replicate,
}
use opencodecs.Bitstreams.{u, rbsp, ebsp, bits_of, ue_bits, tobytes}
use opencodecs.Bitstreams.Reader.{Reader, pure, position, ◌>>=◌, ◌>>◌, skip, times}
use opencodecs.Bitstreams.Hevc.{profile_tier_level}
use opencodecs.Bitstreams.Hevc.Sps.{Sps, Color, hevc_sps, dpb_sizes}
use mathlib.Core.Option

-- `(start, end, new bits)`
abbrev pub Edit : Type 0
Edit = ℕ × ℕ × List ℕ

-- The order of Python's lists and tuples.
unfoldable pub list_leb : List ℕ → List ℕ → Bool
list_leb [] ys = true
list_leb (x ∷ xs) [] = false
list_leb (x ∷ xs) (y ∷ ys) = ltb x y || x == y && list_leb xs ys

unfoldable pub edit_leb : Edit → Edit → Bool
edit_leb (s, e, new) (t, f, other) = ltb s t || s == t && (ltb e f || e == f && list_leb new other)

-- `sorted(edits, reverse=True)`
unfoldable pub insert_edit : Edit → List Edit → List Edit
insert_edit x [] = x ∷ []
insert_edit x (y ∷ ys) =
    let rest = insert_edit x ys in if edit_leb y x then x ∷ y ∷ ys else y ∷ rest

unfoldable pub sort_edits : List Edit → List Edit
sort_edits [] = []
sort_edits (x ∷ xs) = insert_edit x (sort_edits xs)

-- `bits[start:end] = new`, for each edit.
unfoldable pub apply_edits : List Edit → List ℕ → List ℕ
apply_edits [] bits = bits
apply_edits ((start, end, new) ∷ edits) bits =
    apply_edits edits (take start bits ++ (new ++ drop (max start end) bits))

-- `[(byte >> (7 - i)) & 1 for byte in data for i in range(8)]`
unfoldable pub data_bits : List ℕ → List ℕ
data_bits [] = []
data_bits (byte ∷ bytes) = bits_of 8 byte ++ data_bits bytes

-- The zero bits at the end and the stop bit are taken off; `none` is the IndexError where all bits
-- are zero.
unfoldable pub strip_stop : List ℕ → Option (List ℕ)
strip_stop [] = none
strip_stop (b ∷ bits) = elim (strip_stop bits) [
  | none ↦ if b == 0 then none else some []
  | some kept ↦ some (b ∷ kept)
]

-- The stop bit and the alignment.
unfoldable pub add_stop : List ℕ → List ℕ
add_stop bits = bits ++ (1 ∷ replicate ((8 - (length bits + 1) % 8) % 8) 0)

-- `_rewrite_bits`
unfoldable pub rewrite_bits : List ℕ → List Edit → Option (List ℕ)
rewrite_bits nal edits =
    Option.map
      (λ bits. take 2 nal ++ ebsp (tobytes (add_stop (apply_edits (sort_edits edits) bits))))
      (strip_stop (data_bits (rbsp nal)))

-- The bits of the DPB sizes, for `n` sub-layers.
unfoldable pub dpb_bits : ℕ → ℕ × ℕ × ℕ → List ℕ
dpb_bits zero sizes = []
dpb_bits (suc n) (a, b, c) = ue_bits a ++ (ue_bits b ++ (ue_bits c ++ dpb_bits n (a, b, c)))

unfoldable pub signal_bits : Color → List ℕ
signal_bits (cp, tc, mc, full) =
    1 ∷ 1 ∷ 0 ∷ 1 ∷ (if full then 1 else 0) ∷ 1 ∷ (bits_of 8 cp ++ (bits_of 8 tc ++ bits_of 8 mc))

unfoldable pub dpb_edit : Sps → Option (ℕ × ℕ × ℕ) → List Edit
dpb_edit info none = []
dpb_edit info (some sizes) =
    (info.head.dpb_at.0, info.head.dpb_at.1, dpb_bits (length info.head.dpb) sizes) ∷ []

-- `none` is the ValueError of an SPS without a VUI.
unfoldable pub signal_edit : Sps → Option Color → Option (List Edit)
signal_edit info none = some []
signal_edit info (some color) = Option.map (λ p. (p.0, p.1, signal_bits color) ∷ []) info.signal_at

unfoldable pub rps_edit : Sps → Bool → List Edit
rps_edit info drop_rps =
    if drop_rps then (info.head.rps_at.0, info.head.rps_at.1, 1 ∷ []) ∷ [] else []

unfoldable pub hrd_edit : Option (ℕ × ℕ) → Bool → List Edit
hrd_edit none drop_hrd = []
hrd_edit (some (start, end)) drop_hrd = if drop_hrd then (start, end, 0 ∷ []) ∷ [] else []

-- `hevc_sps_rewrite`
unfoldable pub hevc_sps_rewrite :
    List ℕ → Option (ℕ × ℕ × ℕ) → Option Color → Bool → Bool → Option (List ℕ)
hevc_sps_rewrite nal dpb signal drop_rps drop_hrd = elim (hevc_sps nal) [
  | none ↦ none
  | some info ↦ elim (signal_edit info signal) [
    | none ↦ none
    | some edits ↦
        rewrite_bits nal (
          dpb_edit info dpb ++ (edits ++ (rps_edit info drop_rps ++ hrd_edit info.hrd_at drop_hrd)))
  ]
]

-- What `hevc_vps_rewrite` reads: how many sub-layers have sizes, and where these stand.
unfoldable pub vps_sizes : Reader (ℕ × ℕ × ℕ)
vps_sizes = do
  skip 12
  layers ← u 3
  skip 17
  profile_tier_level layers
  ordering ← u 1
  start ← position
  sizes ← times (if ordering == 0 then 1 else layers + 1) dpb_sizes
  end ← position
  pure (length sizes, start, end)

-- `hevc_vps_rewrite`
unfoldable pub hevc_vps_rewrite : List ℕ → ℕ × ℕ × ℕ → Option (List ℕ)
hevc_vps_rewrite nal dpb = elim (vps_sizes (rbsp nal) 0) [
  | none ↦ none
  | some ((n, start, end), at) ↦ rewrite_bits nal ((start, end, dpb_bits n dpb) ∷ [])
]
