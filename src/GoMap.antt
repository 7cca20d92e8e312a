-- ===== src/GoMap.antt =====
-- Go maps with string keys, as association lists. A range over a map visits `values` in the order of
-- the list; Go leaves the order open, and no theorem depends on it. A nil map is the empty list.
pub mod Laws
pub mod Sorted
pub mod Entries
pub mod Lists
use beaverdeck.Base.{◌≡◌, Bool, Option, none, some, List, [], ◌∷◌, is_some, if◌then◌else◌}
use beaverdeck.Text.{Str, ◌==◌}

abbrev pub GoMap {ℓ} : Type ℓ → Type ℓ
GoMap V = List (Str × V)

module _ {ℓ} {V : Type ℓ} where
  unfoldable pub lookup : Str → GoMap V → Option V
  lookup k [] = none
  lookup k ((j, v) ∷ m) = if j == k then some v else lookup k m

  -- m[k] = v
  unfoldable pub put : Str → V → GoMap V → GoMap V
  put k v [] = (k, v) ∷ []
  put k v ((j, w) ∷ m) = if j == k then (k, v) ∷ m else (j, w) ∷ put k v m

  -- delete(m, k)
  unfoldable pub delete : Str → GoMap V → GoMap V
  delete k [] = []
  delete k ((j, w) ∷ m) = if j == k then m else (j, w) ∷ delete k m

  unfoldable pub values : GoMap V → List V
  values [] = []
  values ((j, v) ∷ m) = v ∷ values m

  abbrev pub has : Str → GoMap V → Bool
  has k m = is_some (lookup k m)

  -- for _, v := range vs { m[key(v)] = v }
  unfoldable pub index_from : (V → Str) → GoMap V → List V → GoMap V
  index_from key m [] = m
  index_from key m (v ∷ vs) = index_from key (put (key v) v m) vs

  abbrev pub index : (V → Str) → List V → GoMap V
  index key = index_from key []

  -- No key stands twice.
  abbrev pub NodupKeys : GoMap V → Type ℓ
  NodupKeys [] = Unit
  NodupKeys ((k, _) ∷ m) = (lookup k m ≡ none) × NodupKeys m

  -- What holds of every entry of the map.
  abbrev pub Holds {κ} : (Str → V → Type κ) → GoMap V → Type (ℓ ⊔ κ)
  Holds P m = (k : Str) (v : V) → lookup k m ≡ some v → P k v
