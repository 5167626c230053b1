-- ===== src/Common/Dict.antt =====
-- Python's insertion-ordered `dict` as an association list over keys with a decidable equality.
-- A new key goes to the end, an assignment to a present key keeps its place.
use mathlib.Core.Path.{◌≡◌, refl}
use mathlib.Core.Logic.{◌≢◌, ite}
use mathlib.Core.List.{List, [], ◌∷◌, ◌++◌}
use mathlib.Core.Option.{Option, none, some}
use native.Mathlib.Omega.{arith}

module _ {ℓ} {K V : Type ℓ} (dec : Discrete K) where
  -- `d.get(key)`
  unfoldable pub get : K → List (K × V) → Option V
  get k [] = none
  get k ((j, v) ∷ d) = ite (dec j k) (some v) (get k d)

  -- `d[key] = value`
  unfoldable pub put : K → V → List (K × V) → List (K × V)
  put k v [] = (k, v) ∷ []
  put k v ((j, w) ∷ d) = ite (dec j k) ((j, v) ∷ d) ((j, w) ∷ put k v d)

  -- `d.pop(key, None)` and `del d[key]`, for the dictionary that is left
  unfoldable pub drop_key : K → List (K × V) → List (K × V)
  drop_key k [] = []
  drop_key k ((j, w) ∷ d) = ite (dec j k) d ((j, w) ∷ drop_key k d)

  -- No key stands twice.
  abbrev pub Distinct : List (K × V) → Type ℓ
  Distinct [] = Unit
  Distinct ((j, v) ∷ d) = (get j d ≡ none) × Distinct d

  pub get-put :
      (j k : K) (v : V) (d : List (K × V)) → get j (put k v d) ≡ ite (dec k j) (some v) (get j d)
  unfolding get put
  get-put j k v [] = refl
  get-put j k v ((i, w) ∷ d) = ground (arith, get-put j k v d)

  pub get-drop_key_ne : (j k : K) (d : List (K × V)) → k ≢ j → get j (drop_key k d) ≡ get j d
  unfolding get drop_key
  get-drop_key_ne j k [] h = refl
  get-drop_key_ne j k ((i, w) ∷ d) h = ground (arith, get-drop_key_ne j k d)

  pub get-drop_key_self : (k : K) (d : List (K × V)) → Distinct d → get k (drop_key k d) ≡ none
  unfolding get drop_key
  get-drop_key_self k [] h = refl
  get-drop_key_self k ((i, w) ∷ d) h = ground (arith, get-drop_key_self k d h.1)

  pub get-drop_key :
      (j k : K) (d : List (K × V))
      → Distinct d
      → get j (drop_key k d) ≡ ite (dec k j) none (get j d)
  get-drop_key j k d h = ground (arith, get-drop_key_self k d h, get-drop_key_ne j k d)

  pub put-Distinct : (k : K) (v : V) (d : List (K × V)) → Distinct d → Distinct (put k v d)
  unfolding get put
  put-Distinct k v [] h = (refl, tt)
  put-Distinct k v ((i, w) ∷ d) h = elim (dec i k) [
    | yes p ↦ ground arith
    | no p ↦ ground (arith, put-Distinct k v d h.1, get-put i k v d)
  ]

  pub drop_key-Distinct : (k : K) (d : List (K × V)) → Distinct d → Distinct (drop_key k d)
  unfolding get drop_key
  drop_key-Distinct k [] h = h
  drop_key-Distinct k ((i, w) ∷ d) h =
      ground (arith, drop_key-Distinct k d h.1, get-drop_key_ne i k d)

  pub drop_key_absent : (k : K) (d : List (K × V)) → get k d ≡ none → drop_key k d ≡ d
  unfolding get drop_key
  drop_key_absent k [] h = refl
  drop_key_absent k ((i, w) ∷ d) h = ground (arith, drop_key_absent k d)

  -- Assigning to a key that is absent adds it at the end.
  pub put_absent :
      (k : K) (v : V) (d : List (K × V)) → get k d ≡ none → put k v d ≡ d ++ ((k, v) ∷ [])
  unfolding get put
  put_absent k v [] h = refl
  put_absent k v ((i, w) ∷ d) h = ground (arith, put_absent k v d)

  pub get-append : (k : K) (d e : List (K × V)) → get k d ≡ none → get k (d ++ e) ≡ get k e
  unfolding get
  get-append k [] e h = refl
  get-append k ((i, w) ∷ d) e h = ground (arith, get-append k d e)
