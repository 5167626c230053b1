-- ===== src/Heif/Made.antt =====
-- backends/_bitstreams.py: the bytes that `hvcc_record` makes.
use opencodecs.Common.{
  ℕ, ◌+◌, ◌-◌, ◌*◌, ◌/◌, ◌%◌, ◌^◌, ◌≤◌, ◌<◌, List, [], ◌∷◌, ◌++◌, some, ◌≡◌, refl, length, drop,
  lt→ltb, arith, sym, ◌∙◌, ap, length-append, length-take, length-drop, append_assoc, append-nil,
}
use opencodecs.Common.Bytes.{slice}
use opencodecs.Bitstreams.Hevc.Sps.{Sps}
use opencodecs.Bitstreams.Records.{pack_u16, pack_u32, pack_u8, or_fc, or_f8, nal_array, hvcc_head}
use opencodecs.Heif.Bytes.{be_bytes, length-be_bytes}
use opencodecs.Heif.Fields.{nal_bytes, array_bytes}

pack_u16-be_bytes : (n : ℕ) → n < 65536 → pack_u16 n ≡ some (be_bytes 2 n)
unfolding pack_u16 be_bytes
pack_u16-be_bytes n h =
    let high : n / 256 ≡ n / 256 ^ 1 % 256 = omega arith in
    let low : n % 256 ≡ n / 256 ^ 0 % 256 = omega arith in
    rw (lt→ltb n 65536 h) (λ i. some (high i ∷ low i ∷ []))

pub nal_array-bytes :
    (kind : ℕ) (nal : List ℕ)
    → length nal < 65536
    → nal_array kind nal ≡ some (array_bytes kind nal)
unfolding nal_array
nal_array-bytes kind nal h =
    rw (pack_u16-be_bytes 1 (omega arith), pack_u16-be_bytes (length nal) h) refl

-- The bytes of the head behind the profile.
abbrev pub head_end : ℕ → Sps → List ℕ
head_end first info =
    or_fc info.head.chroma
    ∷ or_f8 (info.head.luma_bits - 8)
    ∷ or_f8 (info.head.chroma_bits - 8)
    ∷ 0
    ∷ 0
    ∷ ((first / 2 % 8 + 1) * 8 + first % 2 * 4 + 3)
    ∷ 3
    ∷ []

pub or_f8-small : (n : ℕ) → n < 8 → (or_f8 n < 256) × (or_f8 n % 8 ≡ n)
unfolding or_f8
or_f8-small n h = (omega arith, omega arith)

pub or_fc-small : (n : ℕ) → n < 4 → (or_fc n < 256) × (or_fc n % 4 ≡ n)
unfolding or_fc
or_fc-small n h = (omega arith, omega arith)

pack_u8-small : (n : ℕ) → n < 256 → pack_u8 n ≡ some (n ∷ [])
unfolding pack_u8
pack_u8-small n h = rw (lt→ltb n 256 h) refl

module _ (info : Sps) (chroma : info.head.chroma < 4) (luma : info.head.luma_bits - 8 < 8)
    (depth : info.head.chroma_bits - 8 < 8) where
  pub hvcc_head-bytes :
      (payload : List ℕ) (first : ℕ)
      → hvcc_head payload first info
        ≡ some ((1 ∷ slice payload 1 13) ++ (240 ∷ 0 ∷ 252 ∷ head_end first info))
  unfolding hvcc_head pack_u16
  hvcc_head-bytes payload first =
      rw
        (
          pack_u8-small (or_fc info.head.chroma) (or_fc-small info.head.chroma chroma).0,
          pack_u8-small (or_f8 (info.head.luma_bits - 8))
              (or_f8-small (info.head.luma_bits - 8) luma).0,
          pack_u8-small (or_f8 (info.head.chroma_bits - 8))
              (or_f8-small (info.head.chroma_bits - 8) depth).0,
        )
        refl

-- The body in front of the fields that `hvcc` reads, and from them on.
abbrev pub front_bytes : List ℕ → List ℕ
front_bytes payload = (1 ∷ slice payload 1 13) ++ (240 ∷ 0 ∷ 252 ∷ [])

abbrev pub arrays : List ℕ → List ℕ → List ℕ → List ℕ
arrays vps sps pps = array_bytes 32 vps ++ (array_bytes 33 sps ++ array_bytes 34 pps)

pub body_shape :
    (profile tail vps sps pps : List ℕ)
    → ((1 ∷ profile) ++ (240 ∷ 0 ∷ 252 ∷ tail)) ++ arrays vps sps pps
      ≡ ((1 ∷ profile) ++ (240 ∷ 0 ∷ 252 ∷ []))
        ++ ((tail ++ (array_bytes 32 vps ++ (array_bytes 33 sps ++ (array_bytes 34 pps ++ []))))
            ++ [])
body_shape profile tail vps sps pps =
    append_assoc (1 ∷ profile) (240 ∷ 0 ∷ 252 ∷ tail) (arrays vps sps pps)
    ∙ sym (append_assoc (1 ∷ profile) (240 ∷ 0 ∷ 252 ∷ []) (tail ++ arrays vps sps pps))
    ∙ ap (λ l. ((1 ∷ profile) ++ (240 ∷ 0 ∷ 252 ∷ [])) ++ l)
        (ap (λ l. tail ++ (array_bytes 32 vps ++ (array_bytes 33 sps ++ l)))
            (sym (append-nil (array_bytes 34 pps)))
          ∙ sym (
              append-nil (
                tail
                ++ (array_bytes 32 vps ++ (array_bytes 33 sps ++ (array_bytes 34 pps ++ []))))))

length-array_bytes : (kind : ℕ) (nal : List ℕ) → length (array_bytes kind nal) ≡ 5 + length nal
length-array_bytes kind nal = omega (
  arith,
  length-append (be_bytes 2 1) (nal_bytes nal),
  length-append (be_bytes 2 (length nal)) nal,
  length-be_bytes 2 1,
  length-be_bytes 2 (length nal),
)

abbrev pub size_bytes : ℕ → List ℕ
size_bytes n = n / 16777216 ∷ n / 65536 % 256 ∷ n / 256 % 256 ∷ n % 256 ∷ []

pub pack_u32-bytes : (n : ℕ) → n < 2 ^ 32 → pack_u32 n ≡ some (size_bytes n)
unfolding pack_u32
pack_u32-bytes n h = rw (lt→ltb n (2 ^ 32) h) refl

pub body_size :
    (payload vps sps pps tail : List ℕ)
    → 13 ≤ length payload
    → length tail ≡ 7
    → length (((1 ∷ slice payload 1 13) ++ (240 ∷ 0 ∷ 252 ∷ tail)) ++ arrays vps sps pps)
      ≡ 38 + length vps + length sps + length pps
body_size payload vps sps pps tail room t = omega (
  arith,
  length-append ((1 ∷ slice payload 1 13) ++ (240 ∷ 0 ∷ 252 ∷ tail)) (arrays vps sps pps),
  length-append (slice payload 1 13) (240 ∷ 0 ∷ 252 ∷ tail),
  length-take 12 (drop 1 payload),
  length-drop 1 payload,
  length-append (array_bytes 32 vps) (array_bytes 33 sps ++ array_bytes 34 pps),
  length-append (array_bytes 33 sps) (array_bytes 34 pps),
  length-array_bytes 32 vps,
  length-array_bytes 33 sps,
  length-array_bytes 34 pps,
)
