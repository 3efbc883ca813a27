-- ===== src/GoMap.antt =====
-- Go's `map[string]V`: the entries in the order in which a `range` loop visits them. Go leaves
-- that order open, so no result may rest on it: theorems about `range` are about the set of entries,
-- or hold for every order.
pub mod Laws
use fleet_core.Prelude.{String, Bool, Option, none, some, List, [], ◌∷◌, map, ◌=s=◌, if◌then◌else◌}

abbrev pub GoMap {ℓ} : Type ℓ → Type ℓ
GoMap V = List (String × V)

module _ {ℓ} {V : Type ℓ} where
  -- `v, ok := m[k]`
  unfoldable pub get : String → GoMap V → Option V
  get k [] = none
  get k ((j, v) ∷ m) = if j =s= k then some v else get k m

  -- `m[k] = v`
  unfoldable pub put : String → V → GoMap V → GoMap V
  put k v [] = (k, v) ∷ []
  put k v ((j, w) ∷ m) = if j =s= k then (k, v) ∷ m else (j, w) ∷ put k v m

  -- `delete(m, k)`
  unfoldable pub delete : String → GoMap V → GoMap V
  delete k [] = []
  delete k ((j, v) ∷ m) = let rest = delete k m in if j =s= k then rest else (j, v) ∷ rest

  -- `for k := range m`
  abbrev pub keys : GoMap V → List String
  keys = map (λ e. e.0)

  -- `for _, v := range m`
  abbrev pub values : GoMap V → List V
  values = map (λ e. e.1)

-- `m[k]` for a `map[string]string`: a missing key reads as the empty string.
abbrev pub get_text : String → GoMap String → String
get_text k m = elim (get k m) [ none ↦ "" | some v ↦ v ]
