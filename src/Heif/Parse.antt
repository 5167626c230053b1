-- ===== src/Heif/Parse.antt =====
-- src/opencodecs/backends/_heifbox.py: `parse`.
use opencodecs.Common.{
  ℕ, ◌+◌, List, [], ◌∷◌, ◌++◌, Option, none, some, ltb, ◌==◌, if◌then◌else◌, length, get_elem?,
  ℕ_discrete,
}
use opencodecs.Common.Dict
use opencodecs.Common.Bytes.{slice}
use opencodecs.Bitstreams.Reader.{Reader, pure, ◌>>=◌, times}
use opencodecs.Heif.{Box, boxes}
use opencodecs.Heif.Bytes.{be}
use opencodecs.Heif.Items.{Items, same_kind, parse_iloc, parse_ipma}
use opencodecs.Heif.Kinds.{
  meta_kind, pitm_kind, iinf_kind, infe_kind, iref_kind, iloc_kind, idat_kind, iprp_kind, ipco_kind,
  ipma_kind,
}

-- `none` is an IndexError or a struct.error.
infixl 5 ◌>>?◌
abbrev pub ◌>>?◌ : {A B : Type 0} → Option A → (A → Option B) → Option B
none >>? f = none
some a >>? f = f a

-- `struct.unpack_from` of one number of `n` bytes at a place.
abbrev pub number : List ℕ → ℕ → ℕ → Option ℕ
number bytes n at = be n bytes at >>? λ r. some r.0

-- A loop over boxes that changes a state.
unfoldable pub each_box : {S : Type 0} → (Box → S → Option S) → List Box → S → Option S
each_box f [] s = some s
each_box f (b ∷ rest) s = f b s >>? λ t. each_box f rest t

-- The identity of an entry of `iinf` in `n` bytes, and its type behind `at` bytes.
unfoldable pub item_type : List ℕ → ℕ → ℕ → ℕ → List (ℕ × List ℕ) → Option (List (ℕ × List ℕ))
item_type bytes s n at types = number bytes n (s + 4) >>? λ item.
    some (Dict.put ℕ_discrete item (slice bytes (s + at) (s + at + 4)) types)

-- An entry of `iinf`; entries of a version below 2 are passed over.
unfoldable pub infe_entry : List ℕ → Box → List (ℕ × List ℕ) → Option (List (ℕ × List ℕ))
infe_entry bytes (kind, s, e) types =
    if same_kind kind infe_kind
    then (get_elem? bytes s >>? λ version.
        if ltb version 2
        then some types
        else if version == 2
        then item_type bytes s 2 8 types
        else item_type bytes s 4 10 types)
    else some types

-- A box of `iref`, whose numbers take `step` bytes.
unfoldable pub iref_fields : ℕ → Reader (ℕ × List ℕ)
iref_fields step = do src ← be step; count ← be 2; dst ← times count (be step); pure (src, dst)

unfoldable pub iref_entry :
    List ℕ → ℕ → Box → List (List ℕ × ℕ × List ℕ) → Option (List (List ℕ × ℕ × List ℕ))
iref_entry bytes step (kind, s, e) refs =
    iref_fields step bytes s >>? λ r. some (refs ++ ((kind, r.0.0, r.0.1) ∷ []))

-- A box of `iprp`.
unfoldable pub iprp_entry : Box → Items → Option Items
iprp_entry (kind, s, e) items =
    if same_kind kind ipco_kind
    then some (record items { props = boxes items.bytes s e })
    else if same_kind kind ipma_kind
    then (parse_ipma items.bytes s items.assoc >>? λ assoc. some (record items { assoc = assoc }))
    else some items

-- The branches of the loop of `parse`, for a box whose first byte is the version.
unfoldable pub handle : ℕ → Box → Items → Option Items
handle version (kind, s, e) items =
    if same_kind kind pitm_kind
    then (number items.bytes (if version == 0 then 2 else 4) (s + 4) >>? λ item.
        some (record items { primary = some item }))
    else if same_kind kind iinf_kind
    then (each_box (infe_entry items.bytes)
          (boxes items.bytes (s + (if version == 0 then 6 else 8)) e) items.types
        >>? λ types. some (record items { types = types }))
    else if same_kind kind iref_kind
    then (each_box (iref_entry items.bytes (if version == 0 then 2 else 4))
          (boxes items.bytes (s + 4) e) items.refs
        >>? λ refs. some (record items { refs = refs }))
    else if same_kind kind iloc_kind
    then (parse_iloc items.bytes s version items.iloc >>? λ iloc.
        some (record items { iloc = iloc }))
    else if same_kind kind idat_kind
    then some (record items { idat = some (s, e) })
    else if same_kind kind iprp_kind
    then each_box iprp_entry (boxes items.bytes s e) items
    else some items

-- The body of the loop.
unfoldable pub handle_box : Box → Items → Option Items
handle_box (kind, s, e) items =
    get_elem? items.bytes s >>? λ version. handle version (kind, s, e) items

-- The payload of the first `meta` box.
unfoldable pub find_meta : List Box → Option (ℕ × ℕ)
find_meta [] = none
find_meta ((kind, s, e) ∷ rest) =
    let later = find_meta rest in if same_kind kind meta_kind then some (s, e) else later

unfoldable pub new_items : List ℕ → Items
new_items bytes = record {
  bytes = bytes;
  primary = none;
  types = [];
  refs = [];
  props = [];
  assoc = [];
  iloc = [];
  idat = none;
}

-- `parse`: `some none` where there is no `meta` box, `none` for an IndexError or a struct.error.
unfoldable pub parse : List ℕ → Option (Option Items)
parse bytes = elim (find_meta (boxes bytes 0 (length bytes))) [
  | none ↦ some none
  | some (s, e) ↦
      each_box handle_box (boxes bytes (s + 4) e) (new_items bytes) >>? λ items. some (some items)
]
