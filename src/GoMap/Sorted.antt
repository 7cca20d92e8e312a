-- ===== src/GoMap/Sorted.antt =====
-- sort.Slice by insertion, and the map that is built from a sorted list of a map's values: it has the
-- entries of the first map. Go's sort may put equal items in either order.
use beaverdeck.Base.{◌≡◌, refl, ◌∙◌, Bool, Option, none, some, List, [], ◌∷◌, arith, if◌then◌else◌}
use beaverdeck.Text.{Str, ◌==◌}
use beaverdeck.GoMap.{GoMap, lookup, put, values, index_from, index, NodupKeys, Holds}
use beaverdeck.GoMap.Laws.{lookup-put, put-NodupKeys, Holds-head, Holds-tail}

module _ {ℓ} {V : Type ℓ} where
  unfoldable pub insert_by : (V → V → Bool) → V → List V → List V
  insert_by before x [] = x ∷ []
  insert_by before x (y ∷ ys) = if before y x then y ∷ insert_by before x ys else x ∷ y ∷ ys

  unfoldable pub sort_by : (V → V → Bool) → List V → List V
  unfolding insert_by
  sort_by before [] = []
  sort_by before (x ∷ xs) = insert_by before x (sort_by before xs)

  module _ (key : V → Str) where
    -- The last item with the key, which is what a loop of writes leaves there.
    unfoldable pub last_with : Str → List V → Option V
    last_with k [] = none
    last_with k (x ∷ xs) = elim (last_with k xs) [
      | some v ↦ some v
      | none ↦ if key x == k then some x else none
    ]

    or_else : Option V → Option V → Option V
    or_else none d = d
    or_else (some v) d = some v

    lookup-index_from :
        (k : Str) (m : GoMap V) (xs : List V)
        → lookup k (index_from key m xs) ≡ or_else (last_with k xs) (lookup k m)
    unfolding index_from last_with or_else
    lookup-index_from k m [] = refl
    lookup-index_from k m (x ∷ xs) =
        ground (arith, lookup-index_from k (put (key x) x m) xs, lookup-put (key x) k x m)

    pub lookup-index : (k : Str) (xs : List V) → lookup k (index key xs) ≡ last_with k xs
    unfolding or_else
    lookup-index k xs = ground (arith, lookup-index_from k [] xs, lookup-nil)
      where
        lookup-nil : lookup {V = V} k [] ≡ none
        lookup-nil = unfold lookup in refl

    pub index_from-NodupKeys :
        (m : GoMap V) (xs : List V) → NodupKeys m → NodupKeys (index_from key m xs)
    unfolding index_from
    index_from-NodupKeys m [] u = u
    index_from-NodupKeys m (x ∷ xs) u =
        index_from-NodupKeys (put (key x) x m) xs (put-NodupKeys (key x) x m u)

    last_with-insert_by :
        (before : V → V → Bool) (k : Str) (x : V) (xs : List V)
        → last_with (key x) xs ≡ none
        → last_with k (insert_by before x xs) ≡ last_with k (x ∷ xs)
    unfolding insert_by last_with
    last_with-insert_by before k x [] h = refl
    last_with-insert_by before k x (y ∷ ys) h = ground (arith, last_with-insert_by before k x ys)

    -- No two items of the list have one key.
    abbrev pub Distinct : List V → Type ℓ
    Distinct [] = Unit
    Distinct (x ∷ xs) = (last_with (key x) xs ≡ none) × Distinct xs

    pub last_with-sort_by :
        (before : V → V → Bool) (k : Str) (xs : List V)
        → Distinct xs
        → last_with k (sort_by before xs) ≡ last_with k xs
    unfolding sort_by last_with
    last_with-sort_by before k [] d = refl
    last_with-sort_by before k (x ∷ xs) (fresh, d) =
        last_with-insert_by before k x (sort_by before xs)
          (last_with-sort_by before (key x) xs d ∙ fresh)
        ∙ again (last_with-sort_by before k xs d)
      where
        again :
            last_with k (sort_by before xs) ≡ last_with k xs
            → last_with k (x ∷ sort_by before xs) ≡ last_with k (x ∷ xs)
        again e = ground arith

    last_with-values :
        (k : Str) (m : GoMap V)
        → NodupKeys m
        → Holds (λ j v. key v ≡ j) m
        → last_with k (values m) ≡ lookup k m
    unfolding lookup values last_with
    last_with-values k [] u h = refl
    last_with-values k ((j, v) ∷ m) (fresh, u) h =
        ground (arith, last_with-values k m u (Holds-tail j v m fresh h), h j v)

    Distinct-values : (m : GoMap V) → NodupKeys m → Holds (λ j v. key v ≡ j) m → Distinct (values m)
    unfolding lookup values
    Distinct-values [] u h = tt
    Distinct-values ((j, v) ∷ m) (fresh, u) h =
        let rest = Holds-tail j v m fresh h in
        (rw (Holds-head j v m h) (last_with-values j m u rest ∙ fresh), Distinct-values m u rest)

    -- A map that is rebuilt from the sorted list of its values has the entries that it had.
    pub lookup-rebuild :
        (before : V → V → Bool) (k : Str) (m : GoMap V)
        → NodupKeys m
        → Holds (λ j v. key v ≡ j) m
        → lookup k (index key (sort_by before (values m))) ≡ lookup k m
    lookup-rebuild before k m u h =
        lookup-index k (sort_by before (values m))
        ∙ last_with-sort_by before k (values m) (Distinct-values m u h)
        ∙ last_with-values k m u h
