-- ===== src/Heif/Fields.antt =====
-- backends/_heifbox.py: the fields that `hvcc` reads.
use opencodecs.Common.{
  ℕ, ◌+◌, ◌%◌, ◌<◌, List, [], ◌∷◌, ◌++◌, refl, ltb, if◌then◌else◌, length, ltb-false, arith, ◌∙◌,
  append-nil,
}
use opencodecs.Common.Bytes.{join}
use mathlib.Core.Path.{subst}
use opencodecs.Bitstreams.Reader.{Reader, pure, fail, position, ◌>>=◌, ◌>>◌, times}
use opencodecs.Bitstreams.Moves.{bind-some, pair_cong}
use opencodecs.Heif.Bytes.{byte, be, chunk, be_bytes}
use opencodecs.Heif.{Hvcc, hvcc_nal, hvcc_array, hvcc_fields}
use opencodecs.Heif.Gets.{
  Gets, Gets-bind, Gets-map, Gets-byte, Gets-chunk, Gets-be, Gets-times-zero, Gets-times-suc,
}

-- The rest of `hvcc_fields` behind each of its fields.
abbrev fields : ℕ → ℕ → ℕ → ℕ → List (List (List ℕ)) → Hvcc
fields c l d sizes arrays = record {
  chroma = c % 4;
  luma_bits = 8 + l % 8;
  chroma_bits = 8 + d % 8;
  length_size = sizes % 4 + 1;
  nals = join arrays;
}

abbrev after_count : ℕ → ℕ → ℕ → ℕ → ℕ → ℕ → Reader Hvcc
after_count limit c l d sizes count = do
  arrays ← times count (hvcc_array limit)
  pure (fields c l d sizes arrays)

abbrev after_sizes : ℕ → ℕ → ℕ → ℕ → ℕ → Reader Hvcc
after_sizes limit c l d sizes = do count ← byte; after_count limit c l d sizes count

abbrev after_rate : ℕ → ℕ → ℕ → ℕ → Reader Hvcc
after_rate limit c l d = do sizes ← byte; after_sizes limit c l d sizes

abbrev after_depth : ℕ → ℕ → ℕ → ℕ → Reader Hvcc
after_depth limit c l d = do chunk 2; after_rate limit c l d

abbrev after_luma : ℕ → ℕ → ℕ → Reader Hvcc
after_luma limit c l = do d ← byte; after_depth limit c l d

abbrev after_chroma : ℕ → ℕ → Reader Hvcc
after_chroma limit c = do l ← byte; after_luma limit c l

-- A NAL unit behind its length in two bytes, and an array of one.
abbrev pub nal_bytes : List ℕ → List ℕ
nal_bytes nal = be_bytes 2 (length nal) ++ nal

abbrev pub array_bytes : ℕ → List ℕ → List ℕ
array_bytes kind nal = (128 + kind) ∷ (be_bytes 2 1 ++ nal_bytes nal)

abbrev array_end : ℕ → List (List ℕ) → Reader (List (List ℕ))
array_end limit nals = do at ← position; if ltb limit at then fail else pure nals

module _ (limit : ℕ) where
  Gets-nal : (nal : List ℕ) → length nal < 65536 → Gets limit hvcc_nal nal (nal_bytes nal)
  unfolding hvcc_nal
  Gets-nal nal small =
      Gets-bind limit chunk (Gets-be limit 2 (length nal) small)
        (Gets-chunk limit (length nal) nal refl)

  Gets-array_end : (nals : List (List ℕ)) → Gets limit (array_end limit nals) nals []
  unfolding position pure
  Gets-array_end nals = record {
    read = λ front back fits.
        let within = ltb-false limit (length front) (omega arith) in
        bind-some position (λ at. if ltb limit at then fail else pure nals) (front ++ back)
          (length front) refl
        ∙ rw within (pair_cong refl (omega arith));
  }

  Gets-array :
      (kind : ℕ) (nal : List ℕ)
      → length nal < 65536
      → Gets limit (hvcc_array limit) (nal ∷ []) (array_bytes kind nal)
  unfolding hvcc_array
  Gets-array kind nal small =
      let one : Gets limit (times 1 hvcc_nal) (nal ∷ []) (nal_bytes nal) =
        subst (Gets limit (times 1 hvcc_nal) (nal ∷ [])) (append-nil (nal_bytes nal))
          (Gets-times-suc limit 0 (Gets-nal nal small) (Gets-times-zero limit hvcc_nal)) in
      let read : Gets limit (times 1 hvcc_nal >>= array_end limit) (nal ∷ []) (nal_bytes nal) =
        subst (Gets limit (times 1 hvcc_nal >>= array_end limit) (nal ∷ []))
          (append-nil (nal_bytes nal))
          (Gets-bind limit (array_end limit) one (Gets-array_end (nal ∷ []))) in
      Gets-bind limit (λ _. do n ← be 2; nals ← times n hvcc_nal; array_end limit nals)
        (Gets-chunk limit 1 ((128 + kind) ∷ []) refl)
        (Gets-bind limit (λ n. do nals ← times n hvcc_nal; array_end limit nals)
          (Gets-be limit 2 1 (omega arith)) read)

  -- The fields of a box with three arrays.
  pub Gets-fields :
      (c l d sizes : ℕ) (vps sps pps : List ℕ)
      → length vps < 65536
      → length sps < 65536
      → length pps < 65536
      → Gets limit
          (hvcc_fields limit)
          (record {
            chroma = c % 4;
            luma_bits = 8 + l % 8;
            chroma_bits = 8 + d % 8;
            length_size = sizes % 4 + 1;
            nals = vps ∷ sps ∷ pps ∷ [];
          })
          (c
            ∷ l
            ∷ d
            ∷ 0
            ∷ 0
            ∷ sizes
            ∷ 3
            ∷ (array_bytes 32 vps ++ (array_bytes 33 sps ++ (array_bytes 34 pps ++ []))))
  unfolding hvcc_fields
  Gets-fields c l d sizes vps sps pps x y z =
      Gets-bind limit (after_chroma limit) (Gets-byte limit c) (
        Gets-bind limit (after_luma limit c) (Gets-byte limit l) (
          Gets-bind limit (after_depth limit c l) (Gets-byte limit d) (
            Gets-bind limit (λ _. after_rate limit c l d) (Gets-chunk limit 2 (0 ∷ 0 ∷ []) refl)
              (Gets-bind limit (after_sizes limit c l d) (Gets-byte limit sizes) (
                Gets-bind limit (after_count limit c l d sizes) (Gets-byte limit 3) (
                  Gets-map limit (fields c l d sizes) (
                    Gets-times-suc limit 2 (Gets-array 32 vps x) (
                      Gets-times-suc limit 1 (Gets-array 33 sps y) (
                        Gets-times-suc limit 0 (Gets-array 34 pps z)
                          (Gets-times-zero limit (hvcc_array limit)))))))))))
