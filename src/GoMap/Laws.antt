-- ===== src/GoMap/Laws.antt =====
-- The laws of lookups after each write, and of the tests that range over a map.
use beaverdeck.Base.{
  ◌+◌, ◌<◌, ◌≡◌, refl, Bool, true, false, none, some, List, [], ◌∷◌, arith, any, count,
  if◌then◌else◌, Bool-cases, inl, inr,
}
use beaverdeck.Text.{Str, ◌==◌}
use beaverdeck.GoMap.{GoMap, lookup, put, delete, values, NodupKeys, Holds}

module _ {ℓ} {V : Type ℓ} where
  pub lookup-put :
      (k j : Str) (v : V) (m : GoMap V)
      → lookup j (put k v m) ≡ (if k == j then some v else lookup j m)
  unfolding lookup put
  lookup-put k j v [] = refl
  lookup-put k j v ((i, w) ∷ m) = ground (arith, lookup-put k j v m)

  pub lookup-delete :
      (k j : Str) (m : GoMap V)
      → NodupKeys m
      → lookup j (delete k m) ≡ (if k == j then none else lookup j m)
  unfolding lookup delete
  lookup-delete k j [] u = ground arith
  lookup-delete k j ((i, w) ∷ m) u = ground (arith, lookup-delete k j m)

  pub put-NodupKeys : (k : Str) (v : V) (m : GoMap V) → NodupKeys m → NodupKeys (put k v m)
  unfolding lookup put
  put-NodupKeys k v [] u = (refl, tt)
  put-NodupKeys k v ((j, w) ∷ m) u = ground (arith, put-NodupKeys k v m, lookup-put k j v m)

  pub delete-NodupKeys : (k : Str) (m : GoMap V) → NodupKeys m → NodupKeys (delete k m)
  unfolding lookup delete
  delete-NodupKeys k [] u = tt
  delete-NodupKeys k ((j, w) ∷ m) u = ground (arith, delete-NodupKeys k m, lookup-delete k j m)

  -- A test that ranges over the map sees exactly the entries that lookups find.
  pub any-values_intro :
      (p : V → Bool) (m : GoMap V) (k : Str) (v : V)
      → lookup k m ≡ some v
      → p v ≡ true
      → any p (values m) ≡ true
  unfolding lookup any values
  any-values_intro p [] k v e h = cc
  any-values_intro p ((j, w) ∷ m) k v e h = ground (arith, any-values_intro p m k v)

  pub any-values_elim :
      (p : V → Bool) (m : GoMap V)
      → NodupKeys m
      → any p (values m) ≡ true
      → (k : Str) × (v : V) × (lookup k m ≡ some v) × (p v ≡ true)
  unfolding lookup any values
  any-values_elim p [] u h = absurd (cc)
  any-values_elim p ((j, w) ∷ m) (fresh, u) h = elim (Bool-cases (p w)) [
    | inl e ↦ (j, w, ground arith, e)
    | inr e ↦ let (k, v, found, q) = any-values_elim p m u (ground arith) in (k, v, ground arith, q)
  ]

  pub any-values-false :
      (p : V → Bool) (m : GoMap V) (k : Str) (v : V)
      → any p (values m) ≡ false
      → lookup k m ≡ some v
      → p v ≡ false
  unfolding lookup any values
  any-values-false p [] k v h e = absurd (cc)
  any-values-false p ((j, w) ∷ m) k v h e = ground (arith, any-values-false p m k v)

  -- Counting over a map: what one write changes.
  pub count-delete :
      (p : V → Bool) (k : Str) (v : V) (m : GoMap V)
      → lookup k m ≡ some v
      → count p (values m) ≡ (if p v then 1 else 0) + count p (values (delete k m))
  unfolding lookup delete count values
  count-delete p k v [] e = absurd (cc)
  count-delete p k v ((j, w) ∷ m) e = ground (arith, count-delete p k v m)

  pub count-put :
      (p : V → Bool) (k : Str) (v w : V) (m : GoMap V)
      → lookup k m ≡ some v
      → count p (values (put k w m)) + (if p v then 1 else 0)
        ≡ count p (values m) + (if p w then 1 else 0)
  unfolding lookup put count values
  count-put p k v w [] e = absurd (cc)
  count-put p k v w ((j, x) ∷ m) e = ground (arith, count-put p k v w m)

  pub count-put_new :
      (p : V → Bool) (k : Str) (w : V) (m : GoMap V)
      → lookup k m ≡ none
      → count p (values (put k w m)) ≡ count p (values m) + (if p w then 1 else 0)
  unfolding lookup put count values
  count-put_new p k w [] e = omega arith
  count-put_new p k w ((j, x) ∷ m) e = ground (arith, count-put_new p k w m)

  pub count_pos-any : (p : V → Bool) (xs : List V) → 0 < count p xs → any p xs ≡ true
  unfolding count any
  count_pos-any p [] h = elim h [ ]
  count_pos-any p (x ∷ xs) h = ground (arith, count_pos-any p xs)

  pub any-count_pos : (p : V → Bool) (xs : List V) → any p xs ≡ true → 0 < count p xs
  unfolding count any
  any-count_pos p [] h = absurd (cc)
  any-count_pos p (x ∷ xs) h = ground (arith, any-count_pos p xs)

  -- What holds of a map holds of its first entry and of the rest.
  pub Holds-head :
      {P : Str → V → Type 0} (k : Str) (v : V) (m : GoMap V) → Holds P ((k, v) ∷ m) → P k v
  unfolding lookup
  Holds-head k v m h = h k v (ground arith)

  pub Holds-tail :
      {P : Str → V → Type 0} (k : Str) (v : V) (m : GoMap V)
      → lookup k m ≡ none
      → Holds P ((k, v) ∷ m)
      → Holds P m
  unfolding lookup
  Holds-tail k v m fresh h j w e = h j w (ground arith)
