-- ===== src/Heif/Items.antt =====
-- backends/_heifbox.py: `_parse_iloc`, `_parse_ipma` and the methods of `Items`.
use opencodecs.Common.{
  ℕ, zero, suc, ◌+◌, ◌-◌, ◌/◌, ◌%◌, List, [], ◌∷◌, ◌++◌, Bool, true, false, ◌&&◌, ◌||◌, Option,
  none, some, ltb, ◌==◌, if◌then◌else◌, length, get_elem?, ℕ_discrete,
}
use opencodecs.Common.Dict
use opencodecs.Common.Bytes.{slice}
use opencodecs.Bitstreams.Reader.{Reader, pure, ◌>>=◌, ◌>>◌, times}
use opencodecs.Heif.{Box}
use opencodecs.Heif.Bytes.{byte, be, chunk, uint}
use mathlib.Core.Option

-- The construction method, and the extents as offset and length.
abbrev pub Location : Type 0
Location = ℕ × List (ℕ × ℕ)

-- The state of `Items`. A type is four bytes.
pub record Items : Type 0 where
  pub bytes : List ℕ
  pub primary : Option ℕ
  pub types : List (ℕ × List ℕ)
  pub refs : List (List ℕ × ℕ × List ℕ)
  pub props : List Box
  pub assoc : List (ℕ × List ℕ)
  pub iloc : List (ℕ × Location)
  pub idat : Option (ℕ × ℕ)

-- The widths of the fields of an `iloc` box.
pub record Widths : Type 0 where
  pub version : ℕ
  pub offset_size : ℕ
  pub length_size : ℕ
  pub base_size : ℕ
  pub index_size : ℕ

unfoldable pub has_method : ℕ → Bool
has_method version = version == 1 || version == 2

unfoldable pub iloc_extent : Widths → ℕ → Reader (ℕ × ℕ)
iloc_extent w base = do
  uint w.index_size
  offset ← uint w.offset_size
  n ← uint w.length_size
  pure (base + offset, n)

unfoldable pub iloc_entry : Widths → Reader (ℕ × Location)
iloc_entry w = do
  item ← be (if ltb w.version 2 then 2 else 4)
  method ← if has_method w.version then (do m ← be 2; pure (m % 16)) else pure 0
  chunk 2
  base ← uint w.base_size
  extents ← be 2
  spans ← times extents (iloc_extent w base)
  pure (item, (method, spans))

unfoldable pub iloc_entries : ℕ → Reader (List (ℕ × Location))
iloc_entries version = do
  sizes ← byte
  more ← byte
  count ← be (if ltb version 2 then 2 else 4)
  times count (
      iloc_entry (record {
        version = version;
        offset_size = sizes / 16;
        length_size = sizes % 16;
        base_size = more / 16;
        index_size = if has_method version then more % 16 else 0;
      }))

-- `iloc[item] = (method, spans)`, for each entry.
unfoldable pub put_all : List (ℕ × Location) → List (ℕ × Location) → List (ℕ × Location)
put_all [] iloc = iloc
put_all ((item, location) ∷ entries) iloc = put_all entries (Dict.put ℕ_discrete item location iloc)

-- `_parse_iloc`; `none` is a struct.error or an IndexError.
unfoldable pub parse_iloc : List ℕ → ℕ → ℕ → List (ℕ × Location) → Option (List (ℕ × Location))
parse_iloc bytes s version iloc =
    Option.map (λ r. put_all r.0 iloc) (iloc_entries version bytes (s + 4))

unfoldable pub ipma_index : ℕ → Reader ℕ
ipma_index flags =
    if flags % 2 == 1 then (do i ← be 2; pure (i % 32768)) else (do i ← byte; pure (i % 128))

unfoldable pub ipma_entry : ℕ → ℕ → Reader (ℕ × List ℕ)
ipma_entry version flags = do
  item ← be (if ltb version 1 then 2 else 4)
  n ← byte
  idx ← times n (ipma_index flags)
  pure (item, idx)

unfoldable pub ipma_entries : Reader (List (ℕ × List ℕ))
ipma_entries = do
  version ← byte
  chunk 2
  flags ← byte
  count ← be 4
  times count (ipma_entry version flags)

abbrev pub indices : List (ℕ × List ℕ) → ℕ → List ℕ
indices assoc item = elim (Dict.get ℕ_discrete item assoc) [ none ↦ [] | some idx ↦ idx ]

-- `assoc.setdefault(item, []).extend(idx)`, for each entry.
unfoldable pub extend_all : List (ℕ × List ℕ) → List (ℕ × List ℕ) → List (ℕ × List ℕ)
extend_all [] assoc = assoc
extend_all ((item, idx) ∷ entries) assoc =
    extend_all entries (Dict.put ℕ_discrete item (indices assoc item ++ idx) assoc)

-- `_parse_ipma`; `none` is a struct.error or an IndexError.
unfoldable pub parse_ipma : List ℕ → ℕ → List (ℕ × List ℕ) → Option (List (ℕ × List ℕ))
parse_ipma bytes s assoc = Option.map (λ r. extend_all r.0 assoc) (ipma_entries bytes s)

-- Equal types.
unfoldable pub same_kind : List ℕ → List ℕ → Bool
same_kind [] [] = true
same_kind (a ∷ tail) (b ∷ bs) = a == b && same_kind tail bs
same_kind _ _ = false

-- `Items.references`
unfoldable pub first_ref : List (List ℕ × ℕ × List ℕ) → List ℕ → ℕ → List ℕ
first_ref [] kind item = []
first_ref ((k, src, dst) ∷ refs) kind item =
    let rest = first_ref refs kind item in if same_kind k kind && src == item then dst else rest

unfoldable pub references : Items → List ℕ → ℕ → List ℕ
references items kind item = first_ref items.refs kind item

-- The property of an index, which counts from 1.
unfoldable pub property : List Box → ℕ → Option Box
property props zero = none
property props (suc i) = get_elem? props i

-- `Items.properties(item).get(kind)`: the first property of the type.
unfoldable pub first_of : List Box → List ℕ → List ℕ → Option (ℕ × ℕ)
first_of props kind [] = none
first_of props kind (i ∷ idx) =
    let rest = first_of props kind idx in
    elim (property props i) [
      | none ↦ rest
      | some (k, s, e) ↦ if same_kind k kind then some (s, e) else rest
    ]

unfoldable pub property_of : Items → ℕ → List ℕ → Option (ℕ × ℕ)
property_of items item kind = first_of items.props kind (indices items.assoc item)

-- The bytes of the extents, within `base` and `limit`; `none` is the ValueError.
unfoldable pub extents_data : List ℕ → ℕ → ℕ → List (ℕ × ℕ) → Option (List ℕ)
extents_data bytes base limit [] = some []
extents_data bytes base limit ((offset, n) ∷ extents) =
    let start = base + offset in
    let stop = if n == 0 then limit else start + n in
    let rest = extents_data bytes base limit extents in
    if ltb limit stop || ltb stop start
    then none
    else Option.map (λ l. slice bytes start stop ++ l) rest

-- Where the extents of a construction method lie.
unfoldable pub area : Items → ℕ → Option (ℕ × ℕ)
area items method =
    if method == 0 then some (0, length items.bytes) else if method == 1 then items.idat else none

-- `Items.item_data`; `none` is a ValueError.
unfoldable pub item_data : Items → ℕ → Option (List ℕ)
item_data items item = elim (Dict.get ℕ_discrete item items.iloc) [
  | none ↦ none
  | some (method, extents) ↦ elim (area items method) [
    | none ↦ none
    | some (base, limit) ↦ extents_data items.bytes base limit extents
  ]
]

-- `Items.size`: `some none` where there is no size, `none` for the struct.error past the end.
unfoldable pub size : Items → ℕ → Option (Option (ℕ × ℕ))
size items item = elim (property_of items item (105 ∷ 115 ∷ 112 ∷ 101 ∷ [])) [
  | none ↦ some none
  | some (s, e) ↦
      if ltb (e - s) 12
      then some none
      else Option.map (λ r. some r.0)
          ((do width ← be 4; height ← be 4; pure (width, height)) items.bytes (s + 4))
]
