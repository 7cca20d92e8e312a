-- ===== src/GoMap/Lists.antt =====
-- Lists whose items all have a property: sorting keeps it, and it passes to the map that is built from
-- the list.
use beaverdeck.Base.{
  ◌≡◌, Bool, none, some, List, [], ◌∷◌, arith, Bool-cases, inl, inr, Option-cases, ◌∙◌, sym, ap,
  subst,
}
use beaverdeck.Text.{Str}
use beaverdeck.GoMap.{index}
use beaverdeck.GoMap.Sorted.{insert_by, sort_by, last_with, lookup-index, index_from-NodupKeys}
use beaverdeck.GoMap.Entries.{MapOf}

abbrev pub All {ℓ} : {V : Type ℓ} → (V → Type 0) → List V → Type 0
All P [] = Unit
All P (x ∷ xs) = P x × All P xs

module _ {ℓ} {V : Type ℓ} (P : V → Type 0) where
  pub All-insert_by :
      (before : V → V → Bool) (x : V) (xs : List V) → P x → All P xs → All P (insert_by before x xs)
  unfolding insert_by
  All-insert_by before x [] p h = (p, tt)
  All-insert_by before x (y ∷ ys) p (q, h) = elim (Bool-cases (before y x)) [
    | inl e ↦ rw e (q, All-insert_by before x ys p h)
    | inr e ↦ rw e (p, (q, h))
  ]

  pub All-sort_by : (before : V → V → Bool) (xs : List V) → All P xs → All P (sort_by before xs)
  unfolding sort_by
  All-sort_by before [] h = tt
  All-sort_by before (x ∷ xs) (p, h) =
      All-insert_by before x (sort_by before xs) p (All-sort_by before xs h)

  -- What a list leaves at a key is an item with that key, of which the property holds.
  All-last_with :
      (key : V → Str) (k : Str) (v : V) (xs : List V)
      → All P xs
      → last_with key k xs ≡ some v
      → P v × (key v ≡ k)
  unfolding last_with
  All-last_with key k v [] h e = absurd (cc)
  All-last_with key k v (x ∷ xs) (p, h) e = elim (Option-cases (last_with key k xs)) [
    | inr (w, t) ↦ All-last_with key k v xs h (ground arith)
    | inl t ↦ let (same, at_key) = head_item t in (subst P same p, ap key (sym same) ∙ at_key)
  ]
    where
      head_item : last_with key k xs ≡ none → (x ≡ v) × (key x ≡ k)
      head_item t = (ground arith, ground arith)

  pub MapOf-index :
      (key : V → Str) (xs : List V) → All P xs → MapOf (λ k v. P v × (key v ≡ k)) (index key xs)
  MapOf-index key xs h = record {
    nodup = index_from-NodupKeys key [] xs tt;
    entries = λ k v e. All-last_with key k v xs h (sym (lookup-index key k xs) ∙ e);
  }
