-- ===== src/GoMap/Entries.antt =====
-- Maps whose entries all have a property: what writes, deletions and a rebuild keep.
use beaverdeck.Base.{◌≡◌, Bool, none, some, [], arith, if◌then◌else◌, ◌∙◌, sym}
use beaverdeck.Text.{Str, ◌==◌}
use beaverdeck.GoMap.{GoMap, lookup, put, delete, values, index, NodupKeys, Holds}
use beaverdeck.GoMap.Laws.{lookup-put, lookup-delete, put-NodupKeys, delete-NodupKeys}
use beaverdeck.GoMap.Sorted.{sort_by, index_from-NodupKeys, lookup-rebuild}

pub record MapOf {ℓ} {V : Type ℓ} (P : Str → V → Type 0) (m : GoMap V) : Type ℓ where
  pub nodup : NodupKeys m
  pub entries : Holds P m

module _ {ℓ} {V : Type ℓ} where
  pub MapOf-nil : {P : Str → V → Type 0} → MapOf P []
  unfolding lookup
  MapOf-nil = record { nodup = tt; entries = λ k v e. absurd (cc) }

  pub MapOf-put :
      {P : Str → V → Type 0} {m : GoMap V} (k : Str) (v : V)
      → MapOf P m
      → P k v
      → MapOf P (put k v m)
  MapOf-put {P} {m} k v h p = record {
    nodup = put-NodupKeys k v m h.nodup;
    entries = λ j w e. place j w (rw (lookup-put k j v m) at e);
  }
    where
      place : (j : Str) (w : V) → (if k == j then some v else lookup j m) ≡ some w → P j w
      place j w e = ground (arith, h.entries j w)

  pub MapOf-delete :
      {P : Str → V → Type 0} {m : GoMap V} (k : Str) → MapOf P m → MapOf P (delete k m)
  MapOf-delete {P} {m} k h = record {
    nodup = delete-NodupKeys k m h.nodup;
    entries = λ j w e. place j w (rw (lookup-delete k j m h.nodup) at e);
  }
    where
      place : (j : Str) (w : V) → (if k == j then none else lookup j m) ≡ some w → P j w
      place j w e = ground (arith, h.entries j w)

  pub MapOf-map :
      {P Q : Str → V → Type 0} {m : GoMap V}
      → MapOf P m
      → ((k : Str) (v : V) → lookup k m ≡ some v → P k v → Q k v)
      → MapOf Q m
  MapOf-map h f = record { nodup = h.nodup; entries = λ k v e. f k v e (h.entries k v e) }

  -- The map that is rebuilt from the sorted values.
  pub lookup-MapOf_rebuild :
      {P : Str → V → Type 0} {m : GoMap V} (key : V → Str) (before : V → V → Bool)
      → MapOf P m
      → ((k : Str) (v : V) → P k v → key v ≡ k)
      → (k : Str) → lookup k (index key (sort_by before (values m))) ≡ lookup k m
  lookup-MapOf_rebuild {m} key before h keyed k =
      lookup-rebuild key before k m h.nodup (λ j v e. keyed j v (h.entries j v e))

  pub MapOf-rebuild :
      {P : Str → V → Type 0} {m : GoMap V} (key : V → Str) (before : V → V → Bool)
      → MapOf P m
      → ((k : Str) (v : V) → P k v → key v ≡ k)
      → MapOf P (index key (sort_by before (values m)))
  MapOf-rebuild {m} key before h keyed = record {
    nodup = index_from-NodupKeys key [] (sort_by before (values m)) tt;
    entries = λ k v e. h.entries k v (sym (lookup-MapOf_rebuild key before h keyed k) ∙ e);
  }
