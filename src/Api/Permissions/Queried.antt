-- ===== src/Api/Permissions/Queried.antt =====
-- The namespaces that a query names, when the request may use them.
use beaverdeck.Base.{
  ◌≡◌, refl, Bool, true, false, not, ◌&&◌, Option, none, some, List, [], ◌∷◌, ◌++◌, all, any,
  is_empty, subst, ◌||◌, Bool-cases, inl, inr, if◌then◌else◌, arith,
}
use beaverdeck.Text.{Str, ◌==◌, mem, codes, trim_space, split}
use beaverdeck.Api.Request.{Request, Config, query_get}
use beaverdeck.Api.Permissions.{
  RolePermissionSet, namespace_allowed_for_request, collect_parts, namespaces_from_query,
  namespace_from_query,
}

all-append {ℓ} :
    {A : Type ℓ} (p : A → Bool) (xs ys : List A) → all p (xs ++ ys) ≡ all p xs && all p ys
unfolding all
all-append p [] ys = refl
all-append p (x ∷ xs) ys = ground (arith, all-append p xs ys)

-- No string stands twice.
unfoldable pub distinct : List Str → Bool
distinct [] = true
distinct (s ∷ ss) = not (mem s ss) && distinct ss

pub mem-append : (s : Str) (xs ys : List Str) → mem s (xs ++ ys) ≡ mem s xs || mem s ys
unfolding any
mem-append s [] ys = refl
mem-append s (x ∷ xs) ys = ground (arith, mem-append s xs ys)

mem-single : (s x : Str) → mem s (x ∷ []) ≡ (s == x)
unfolding any
mem-single s x = ground arith

pub distinct-snoc :
    (x : Str) (xs : List Str)
    → distinct xs ≡ true
    → mem x xs ≡ false
    → distinct (xs ++ x ∷ []) ≡ true
unfolding distinct any
distinct-snoc x [] d n = refl
distinct-snoc x (y ∷ ys) d n =
    ground (arith, mem-append y ys (x ∷ []), mem-single y x, distinct-snoc x ys)

module _ (unmarshal : Str → Option RolePermissionSet) (cfg : Config) (r : Request) where
  abbrev allowed : Str → Bool
  allowed ns = namespace_allowed_for_request unmarshal cfg r ns

  -- What holds of the names that are collected.
  abbrev pub Collected : List Str → Type 0
  Collected out = (all allowed out ≡ true) × (distinct out ≡ true)

  keep-Collected :
      (n : Str) (out : List Str)
      → allowed n ≡ true
      → mem n out ≡ false
      → Collected out
      → Collected (out ++ n ∷ [])
  unfolding all
  keep-Collected n out a m (h, d) = (rw all-append (rw h (rw a refl)), distinct-snoc n out d m)

  collect_parts-Collected :
      (parts out found : List Str)
      → Collected out
      → collect_parts unmarshal cfg r out parts ≡ some found
      → Collected found
  unfolding collect_parts
  collect_parts-Collected [] out found (h, d) = λ e. (cc, cc)
  collect_parts-Collected (part ∷ parts) out found h =
      elim (Bool-cases (is_empty (trim_space part))) [
        | inl skip ↦ rw skip λ e. collect_parts-Collected parts out found h e
        | inr named ↦ rw named elim (Bool-cases (allowed (trim_space part))) [
          | inr refused ↦ rw refused λ e. absurd cc
          | inl granted ↦ rw granted elim (Bool-cases (mem (trim_space part) out)) [
            | inl seen ↦ rw seen λ e. collect_parts-Collected parts out found h e
            | inr new ↦ rw new λ e.
                collect_parts-Collected parts (out ++ trim_space part ∷ []) found
                  (keep-Collected (trim_space part) out granted new h) e
          ]
        ]
      ]

  none_yet : Unit {0} → Collected []
  unfolding all distinct
  none_yet _ = (refl, refl)

  managed-Collected : (ns : Str) → allowed ns ≡ true → Collected (ns ∷ [])
  unfolding all distinct any
  managed-Collected ns a = (rw a refl, refl)

  unless_empty :
      (parts found : List Str) (out : Option (List Str))
      → collect_parts unmarshal cfg r [] parts ≡ out
      → elim out [ none ↦ none | some l ↦ if is_empty l then none else some l ] ≡ some found
      → (is_empty found ≡ false) × Collected found
  unless_empty parts found none same = λ e. absurd cc
  unless_empty parts found (some l) same = elim (Bool-cases (is_empty l)) [
    | inl empty ↦ rw empty λ e. absurd cc
    | inr full ↦ rw full λ e.
        let kept : l ≡ found = cc in
        subst (λ l. (is_empty l ≡ false) × Collected l) kept
          (full, collect_parts-Collected parts [] l (none_yet tt) same)
  ]

  -- The namespaces that a query gives are never none, all allowed, and each there once.
  pub namespaces_from_query-allowed :
      (found : List Str)
      → namespaces_from_query unmarshal cfg r ≡ some found
      → (is_empty found ≡ false) × Collected found
  unfolding namespaces_from_query
  namespaces_from_query-allowed found =
      elim (Bool-cases (is_empty (trim_space (query_get r (codes "namespace"))))) [
        | inl asked ↦ rw asked elim (Bool-cases (allowed cfg.managed_namespace)) [
          | inr refused ↦ rw refused λ e. absurd cc
          | inl granted ↦ rw granted λ e.
              let collected = managed-Collected cfg.managed_namespace granted in
              let same : cfg.managed_namespace ∷ [] ≡ found = cc in
              subst (λ l. (is_empty l ≡ false) × Collected l) same (refl, collected)
        ]
        | inr named ↦ rw named λ e.
            let parts = split b',' (trim_space (query_get r (codes "namespace"))) in
            unless_empty parts found (collect_parts unmarshal cfg r [] parts) refl e
      ]

  pub namespace_from_query-allowed :
      (ns : Str) → namespace_from_query unmarshal cfg r ≡ some ns → allowed ns ≡ true
  unfolding namespace_from_query
  namespace_from_query-allowed ns = ground arith
