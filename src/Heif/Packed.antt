-- ===== src/Heif/Packed.antt =====
-- src/opencodecs/backends/_heifbox.py: boxes whose fields hold their values are written.
use opencodecs.Common.{
  ℕ, suc, ◌+◌, ◌*◌, ◌/◌, ◌%◌, ◌^◌, ◌<◌, List, [], ◌∷◌, ◌++◌, ◌≡◌, refl, length, lt→ltb, arith, sym,
  ◌∙◌, ap, length-append, append_assoc, append-nil,
}
use opencodecs.Common.Bytes.{join}
use opencodecs.Common.Result.{ok}
use opencodecs.Heif.Bytes.{be_bytes, length-be_bytes}
use opencodecs.Heif.Kinds.{ipco_kind, ipma_kind, iprp_kind}
use opencodecs.Heif.Laid.{Part, box_bytes, laid, length-box_bytes}
use opencodecs.Heif.Located.{ipma_bytes}
use opencodecs.Heif.Entered.{zero_head, iprp_body}
use opencodecs.Heif.Writer.{pack, box, full, plain, essential, marks, iprp}

pub pack-be_bytes : (n value : ℕ) → value < 256 ^ n → pack n value ≡ ok (be_bytes n value)
unfolding pack
pack-be_bytes n value small = rw (lt→ltb value (256 ^ n) small) refl

pub box-box_bytes :
    (kind : List ℕ) (payload : List (List ℕ))
    → 8 + length (join payload) < 2 ^ 32
    → box kind payload ≡ ok (box_bytes kind (join payload))
unfolding box box_bytes
box-box_bytes kind payload fits = rw (pack-be_bytes 4 (8 + length (join payload)) fits) refl

-- A full box of version 0 without flags.
pub full-box_bytes :
    (kind : List ℕ) (payload : List (List ℕ))
    → 12 + length (join payload) < 2 ^ 32
    → full kind 0 0 payload ≡ ok (box_bytes kind (zero_head ++ join payload))
unfolding full be_bytes
full-box_bytes kind payload fits = rw (pack-be_bytes 4 (0 * 2 ^ 24 + 0) (omega arith)) (
    box-box_bytes kind (zero_head ∷ payload)
      (omega (arith, length-append zero_head (join payload))))

-- The bytes of each box.
unfoldable pub boxed : List Part → List (List ℕ)
boxed [] = []
boxed ((kind, body) ∷ parts) = box_bytes kind body ∷ boxed parts

pub join-boxed : (parts : List Part) → join (boxed parts) ≡ laid parts
unfolding boxed laid
join-boxed [] = refl
join-boxed ((kind, body) ∷ parts) = ap (λ l. box_bytes kind body ++ l) (join-boxed parts)

pub boxed-append : (parts more : List Part) → boxed parts ++ boxed more ≡ boxed (parts ++ more)
unfolding boxed
boxed-append [] more = refl
boxed-append ((kind, body) ∷ parts) more =
    ap (λ l. box_bytes kind body ∷ l) (boxed-append parts more)

pub length-boxed : (parts : List Part) → length (boxed parts) ≡ length parts
unfolding boxed
length-boxed [] = refl
length-boxed ((kind, body) ∷ parts) = ap suc (length-boxed parts)

length-plain : (i : ℕ) (props : List (List ℕ)) → length (plain i props) ≡ length props
unfolding plain
length-plain i [] = refl
length-plain i (prop ∷ props) = ap suc (length-plain (i + 1) props)

length-essential : (i : ℕ) (props : List (List ℕ)) → length (essential i props) ≡ length props
unfolding essential
length-essential i [] = refl
length-essential i (prop ∷ props) = ap suc (length-essential (i + 1) props)

pub length-marks : (props clap : List (List ℕ)) → length (marks props clap) ≡ length (props ++ clap)
unfolding marks
length-marks [] clap = length-essential 0 clap
length-marks (config ∷ props) clap = omega (
  arith,
  length-append (plain 1 props) (essential (suc (length props)) clap),
  length-plain 1 props,
  length-essential (suc (length props)) clap,
  length-append props clap,
)

one_byte : (n : ℕ) → n < 256 → be_bytes 1 n ≡ n ∷ []
unfolding be_bytes
one_byte n small = let e : n / 256 ^ 0 % 256 ≡ n = omega arith in ap (λ b. b ∷ []) e

pub length-ipma_bytes : (marks : List ℕ) → length (ipma_bytes marks) ≡ 11 + length marks
length-ipma_bytes marks = omega (
  arith,
  length-append (be_bytes 4 1) (be_bytes 2 1 ++ (length marks ∷ marks)),
  length-append (be_bytes 2 1) (length marks ∷ marks),
  length-be_bytes 4 1,
  length-be_bytes 2 1,
)

-- The properties and their indices.
pub iprp-box_bytes :
    (props clap : List Part)
    → length (props ++ clap) < 256
    → 300 + length (laid (props ++ clap)) < 2 ^ 32
    → iprp (boxed props) (boxed clap)
      ≡ ok (box_bytes iprp_kind (iprp_body (props ++ clap) (marks (boxed props) (boxed clap))))
unfolding iprp laid
iprp-box_bytes props clap few fits =
    let all : boxed props ++ boxed clap ≡ boxed (props ++ clap) = boxed-append props clap in
    let whole : join (boxed (props ++ clap)) ≡ laid (props ++ clap) = join-boxed (props ++ clap) in
    let count : length (boxed (props ++ clap)) ≡ length (props ++ clap) =
      length-boxed (props ++ clap) in
    let m = marks (boxed props) (boxed clap) in
    let same : length m ≡ length (props ++ clap) =
      length-marks (boxed props) (boxed clap) ∙ ap length all ∙ count in
    let n = length (props ++ clap) in
    let ipco : box ipco_kind (boxed (props ++ clap))
        ≡ ok (box_bytes ipco_kind (laid (props ++ clap))) =
      box-box_bytes ipco_kind (boxed (props ++ clap)) (omega (arith, ap length whole))
      ∙ ap (λ l. ok (box_bytes ipco_kind l)) whole in
    let number : pack 1 n ≡ ok (n ∷ []) = pack-be_bytes 1 n few ∙ ap ok (one_byte n few) in
    let ipma_shape : zero_head ++ ((be_bytes 4 1 ++ (be_bytes 2 1 ++ (n ∷ []))) ++ (m ++ []))
        ≡ ipma_bytes m =
      simp (append_assoc, append-nil)
        (ap (λ k. 0 ∷ 0 ∷ 0 ∷ 0 ∷ (be_bytes 4 1 ++ (be_bytes 2 1 ++ (k ∷ m)))) (sym same)) in
    let ipma : full ipma_kind 0 0 ((be_bytes 4 1 ++ (be_bytes 2 1 ++ (n ∷ []))) ∷ m ∷ [])
        ≡ ok (box_bytes ipma_kind (ipma_bytes m)) =
      full-box_bytes ipma_kind ((be_bytes 4 1 ++ (be_bytes 2 1 ++ (n ∷ []))) ∷ m ∷ []) (
        omega (
          arith,
          same,
          length-append (be_bytes 4 1 ++ (be_bytes 2 1 ++ (n ∷ []))) (m ++ []),
          length-append m [],
          length-append (be_bytes 4 1) (be_bytes 2 1 ++ (n ∷ [])),
          length-append (be_bytes 2 1) (n ∷ []),
          length-be_bytes 4 1,
          length-be_bytes 2 1,
        ))
      ∙ ap (λ l. ok (box_bytes ipma_kind l)) ipma_shape in
    rw (all, count, ipco, number, ipma)
      (box-box_bytes iprp_kind
        (box_bytes ipco_kind (laid (props ++ clap)) ∷ box_bytes ipma_kind (ipma_bytes m) ∷ [])
        (omega (
          arith,
          same,
          length-append (box_bytes ipco_kind (laid (props ++ clap)))
              (box_bytes ipma_kind (ipma_bytes m) ++ []),
          length-append (box_bytes ipma_kind (ipma_bytes m)) [],
          length-box_bytes ipco_kind (laid (props ++ clap)) refl,
          length-box_bytes ipma_kind (ipma_bytes m) refl,
          length-ipma_bytes m,
        )))
