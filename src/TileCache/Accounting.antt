-- ===== src/TileCache/Accounting.antt =====
-- The byte accounting of `DecodedTileCache`: the invariant, and that every operation keeps it.
use opencodecs.Common.{ℕ, ◌+◌, ◌-◌, ◌≤◌, ◌<◌, ◌≡◌, refl, arith, inl, inr}
use opencodecs.Common.{[], ◌∷◌, ◌++◌, false, none, some, leb}
use opencodecs.Common.{if◌then◌else◌, length, Bool-cases, Option-cases}
use opencodecs.Common.Dict
use opencodecs.TileCache.{Array, Cache, Entries, freeze, evict}
use opencodecs.TileCache.{inserted, old_size}

module _ {K A : Type 0} where
  -- The sizes that the entries carry, added up.
  abbrev pub total : Entries K A → ℕ
  total [] = 0
  total ((k, (a, size)) ∷ d) = size + total d

  -- Every entry is read-only, and carries the size of its own array.
  abbrev pub Frozen : Entries K A → Type 0
  Frozen [] = Unit
  Frozen ((k, (a, size)) ∷ d) = (a.writeable ≡ false) × (size ≡ a.nbytes) × Frozen d

  -- What the loop of `store` leaves: the entries from the first place on where they fit.
  abbrev pub keep : ℕ → Entries K A → Entries K A
  keep limit [] = []
  keep limit ((k, (a, size)) ∷ d) =
      if leb (size + total d) limit then (k, (a, size)) ∷ d else keep limit d

  pub total-append : (d e : Entries K A) → total (d ++ e) ≡ total d + total e
  total-append [] e = omega arith
  total-append ((k, (a, size)) ∷ d) e = omega (arith, total-append d e)

  pub Frozen-append : (d e : Entries K A) → Frozen d → Frozen e → Frozen (d ++ e)
  Frozen-append [] e f g = g
  Frozen-append ((k, (a, size)) ∷ d) e f g = (f.0, f.1, Frozen-append d e f.2 g)

  pub total-keep-le : (limit : ℕ) (d : Entries K A) → total (keep limit d) ≤ limit
  total-keep-le limit [] = omega arith
  total-keep-le limit ((k, (a, size)) ∷ d) = ground (arith, total-keep-le limit d)

  pub length-keep-le : (limit : ℕ) (d : Entries K A) → length (keep limit d) ≤ length d
  length-keep-le limit [] = omega arith
  length-keep-le limit ((k, (a, size)) ∷ d) = ground (arith, length-keep-le limit d)

  pub Frozen-keep : (limit : ℕ) (d : Entries K A) → Frozen d → Frozen (keep limit d)
  Frozen-keep limit [] f = f
  Frozen-keep limit ((k, (a, size)) ∷ d) f = elim (Bool-cases (leb (size + total d) limit)) [
    | inl e ↦ rw e f
    | inr e ↦ rw e (Frozen-keep limit d f.2)
  ]

  -- The loop never meets an empty dictionary, and it leaves `keep`.
  pub evict-keep :
      (limit : ℕ) (d : Entries K A) (n : ℕ)
      → evict limit d (total d) n
        ≡ some (keep limit d, total (keep limit d), n + (length d - length (keep limit d)))
  unfolding evict
  evict-keep limit [] n = ground arith
  evict-keep limit ((k, (a, size)) ∷ d) n =
      let e : size + total d - size ≡ total d = omega arith in
      rw e (ground (arith, evict-keep limit d (n + 1), length-keep-le limit d))

module _ {K A : Type 0} (dec : Discrete K) where
  pub total-drop_key :
      (key : K) (d : Entries K A) (entry : Array A × ℕ)
      → Dict.get dec key d ≡ some entry
      → total (Dict.drop_key dec key d) + entry.1 ≡ total d
  unfolding Dict.get Dict.drop_key
  total-drop_key key [] entry h = cc
  total-drop_key key ((k, (a, size)) ∷ d) entry h = ground (arith, total-drop_key key d entry)

  pub Frozen-drop_key : (key : K) (d : Entries K A) → Frozen d → Frozen (Dict.drop_key dec key d)
  unfolding Dict.drop_key
  Frozen-drop_key key [] f = f
  Frozen-drop_key key ((k, (a, size)) ∷ d) f = ground (arith, Frozen-drop_key key d f.2)

  pub Frozen-get :
      (key : K) (d : Entries K A) (entry : Array A × ℕ)
      → Dict.get dec key d ≡ some entry
      → Frozen d
      → (entry.0.writeable ≡ false) × (entry.1 ≡ entry.0.nbytes)
  unfolding Dict.get
  Frozen-get key [] entry h f = cc
  Frozen-get key ((k, (a, size)) ∷ d) entry h f = ground (arith, Frozen-get key d entry)

  pub Distinct-keep :
      (limit : ℕ) (d : Entries K A) → Dict.Distinct dec d → Dict.Distinct dec (keep limit d)
  Distinct-keep limit [] h = h
  Distinct-keep limit ((k, (a, size)) ∷ d) h = elim (Bool-cases (leb (size + total d) limit)) [
    | inl e ↦ rw e h
    | inr e ↦ rw e (Distinct-keep limit d h.1)
  ]

module _ {K A : Type 0} (dec : Discrete K) where
  -- What every operation keeps.
  pub record IsValid (c : Cache K A) : Type 0 where
    pub positive : 0 < c.max_bytes
    pub counted : c.bytes ≡ total c.entries
    pub within : c.bytes ≤ c.max_bytes
    pub frozen : Frozen c.entries
    pub distinct : Dict.Distinct dec c.entries
    pub claims_distinct : Dict.Distinct dec c.inflight

  get-drop_key_self :
      {c : Cache K A} (key : K)
      → IsValid c
      → Dict.get dec key (Dict.drop_key dec key c.entries) ≡ none
  get-drop_key_self {c} key v = Dict.get-drop_key_self dec key c.entries v.distinct

  -- A new entry goes behind all others.
  pub inserted-append :
      {c : Cache K A} (key : K) (a : Array A)
      → IsValid c
      → inserted dec c key a ≡ Dict.drop_key dec key c.entries ++ ((key, (freeze a, a.nbytes)) ∷ [])
  inserted-append {c} key a v =
      Dict.put_absent dec key (freeze a, a.nbytes) _ (get-drop_key_self key v)

  -- The byte counter that `store` writes is the size of the entries, the new one included.
  pub total-inserted :
      {c : Cache K A} (key : K) (a : Array A)
      → IsValid c
      → c.bytes - old_size dec key c.entries + a.nbytes ≡ total (inserted dec c key a)
  unfolding old_size
  total-inserted {c} key a v = elim (Option-cases (Dict.get dec key c.entries)) [
    | inl e ↦
        rw (inserted-append key a v, e, old_size, Dict.drop_key_absent dec key c.entries e)
          (omega (arith, total-append c.entries ((key, (freeze a, a.nbytes)) ∷ []), v.counted))
    | inr (entry, e) ↦
        rw (inserted-append key a v, e, old_size)
          (omega (
            arith,
            total-append (Dict.drop_key dec key c.entries) ((key, (freeze a, a.nbytes)) ∷ []),
            total-drop_key dec key c.entries entry e,
            v.counted,
          ))
  ]

  pub inserted-Frozen :
      {c : Cache K A} (key : K) (a : Array A) → IsValid c → Frozen (inserted dec c key a)
  inserted-Frozen {c} key a v = rw (inserted-append key a v) (
      Frozen-append (Dict.drop_key dec key c.entries) _ (Frozen-drop_key dec key c.entries v.frozen)
        (refl, refl, tt))

  pub inserted-Distinct :
      {c : Cache K A} (key : K) (a : Array A) → IsValid c → Dict.Distinct dec (inserted dec c key a)
  inserted-Distinct {c} key a v =
      Dict.put-Distinct dec key _ _ (Dict.drop_key-Distinct dec key c.entries v.distinct)
