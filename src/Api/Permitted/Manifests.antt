-- ===== src/Api/Permitted/Manifests.antt =====
-- The handlers of manifests and logs, and what their calls need.
use beaverdeck.Base.{
  ◌≡◌, refl, Bool, true, false, ◌&&◌, ◌||◌, some, if◌then◌else◌, List, inl, inr, Option-cases,
}
use beaverdeck.Text.{Str, Str_discrete, codes, trim_space, ◌==◌}
use beaverdeck.Api.Request.{Request, query_get}
use beaverdeck.Api.Kinds.{custom_resource_crd_name, kind_to_resource, manifest_permission_action}
use beaverdeck.Api.Calls.{
  resolve_custom_resource_definition, get_manifest_yaml, get_secret_decoded_data, pod_logs,
  follow_pod_logs, workload_logs, follow_workload_logs,
}
use beaverdeck.Api.Handling.{Handled, Cluster, call, finish, success, done}
use beaverdeck.Api.Access.{Server, can, allows}
use beaverdeck.Api.Mutations.{Document}
use beaverdeck.Api.Manifests.{
  manifest_namespace, reveal_secret, manifest_handler, is_set, pod_logs_handler,
  workload_logs_handler, requested_log_tail, requested_follow_log_tail,
}
use beaverdeck.Api.Permitted.{permits, kind_allows}
use beaverdeck.Api.Permitted.Steps.{
  IsPermitted, stop-IsPermitted, if-IsPermitted, require-IsPermitted, call-IsPermitted,
  require_permission-IsPermitted, query_namespace-IsPermitted,
}

module _ (s : Server) (documents : Str → List Document) (cluster : Cluster) (r : Request) where
  pub pod_logs-IsPermitted : IsPermitted s documents cluster r (pod_logs_handler s cluster r)
  unfolding pod_logs_handler permits
  pod_logs-IsPermitted = require_permission-IsPermitted s documents cluster r _ _ _ λ granted.
      query_namespace-IsPermitted s documents cluster r _ λ ns allowed.
        require-IsPermitted s documents cluster r _ _ _ λ _.
          let pod = trim_space (query_get r (codes "pod")) in
          let container = trim_space (query_get r (codes "container")) in
          if-IsPermitted s documents cluster r (is_set r (codes "follow")) _ _
            (λ _.
              call-IsPermitted s documents cluster r
                (follow_pod_logs ns pod container (requested_follow_log_tail r)) _
                (rw (granted, allowed) refl) λ stream _. stop-IsPermitted s documents cluster r)
            λ _.
              call-IsPermitted s documents cluster r
                (pod_logs ns pod container (requested_log_tail r)) _ (rw (granted, allowed) refl)
                λ text _. stop-IsPermitted s documents cluster r

  pub workload_logs-IsPermitted :
      IsPermitted s documents cluster r (workload_logs_handler s cluster r)
  unfolding workload_logs_handler permits
  workload_logs-IsPermitted = require_permission-IsPermitted s documents cluster r _ _ _ λ granted.
      query_namespace-IsPermitted s documents cluster r _ λ ns allowed.
        require-IsPermitted s documents cluster r _ _ _ λ _.
          let kind = trim_space (query_get r (codes "kind")) in
          let name = trim_space (query_get r (codes "name")) in
          if-IsPermitted s documents cluster r (is_set r (codes "follow")) _ _
            (λ _.
              call-IsPermitted s documents cluster r
                (follow_workload_logs ns kind name (requested_follow_log_tail r)) _
                (rw (granted, allowed) refl)
                λ streams _.
                  require-IsPermitted s documents cluster r _ _ _
                    λ _. stop-IsPermitted s documents cluster r)
            λ _.
              call-IsPermitted s documents cluster r
                (workload_logs ns kind name (requested_log_tail r)) _ (rw (granted, allowed) refl)
                λ text _. stop-IsPermitted s documents cluster r

  first : (a b c : Bool) → a ≡ true → a || b || c ≡ true
  first true b c h = refl
  first false b c h = cc

  second : (a b c : Bool) → b ≡ true → a || b || c ≡ true
  second true b c h = refl
  second false b c h = rw h refl

  -- Either action of a manifest covers the look-up of a definition.
  action_covers :
      (kind crd_name : Str)
      → custom_resource_crd_name kind ≡ some crd_name
      → can s r (kind_to_resource kind) (manifest_permission_action (kind_to_resource kind)) ≡ true
      → permits s documents cluster r (resolve_custom_resource_definition crd_name) ≡ true
  unfolding permits kind_to_resource manifest_permission_action Str_discrete
  action_covers kind crd_name custom =
      rw custom λ granted. first (can s r (codes "crds") (codes "view")) _ _ granted

  manifest_namespace-IsPermitted :
      (kind : Str) (next : Str → Handled)
      → can s r (kind_to_resource kind) (manifest_permission_action (kind_to_resource kind)) ≡ true
      → ((ns : Str)
          → kind_allows s documents cluster r kind true ns ≡ true
          → IsPermitted s documents cluster r (next ns))
      → IsPermitted s documents cluster r (manifest_namespace s cluster r kind next)
  unfolding manifest_namespace kind_allows
  manifest_namespace-IsPermitted kind next granted rest =
      elim (Option-cases (custom_resource_crd_name kind)) [
        | inl plain ↦
            rw (manifest_namespace, plain)
              (query_namespace-IsPermitted s documents cluster r next
                λ ns allowed. rest ns (rw (kind_allows, plain, allowed) refl))
        | inr (crd_name, custom) ↦
            rw (manifest_namespace, custom)
              (call-IsPermitted s documents cluster r (resolve_custom_resource_definition crd_name)
                _ (action_covers kind crd_name custom granted)
                λ definition found.
                  require-IsPermitted s documents cluster r _ _ _
                    λ allowed. rest _ (rw (kind_allows, custom, found) allowed))
      ]

  -- A secret has no definition of its own, so its namespace is allowed.
  secret_allows :
      (kind ns : Str)
      → kind_allows s documents cluster r kind true ns ≡ true
      → (kind_to_resource kind == codes "secrets") ≡ true
      → allows s r ns ≡ true
  unfolding kind_allows kind_to_resource Str_discrete
  secret_allows kind ns = elim (Option-cases (custom_resource_crd_name kind)) [
    | inl plain ↦ rw (kind_allows, plain) λ h _. h
    | inr (crd_name, custom) ↦ rw (kind_to_resource, custom) λ _ h. absurd cc
  ]

  abbrev asked_kind : Str
  asked_kind = trim_space (query_get r (codes "kind"))

  abbrev asked_name : Str
  asked_name = trim_space (query_get r (codes "name"))

  abbrev reveals : Bool
  reveals = kind_to_resource asked_kind == codes "secrets" && is_set r (codes "reveal")

  revealed-IsPermitted :
      (ns name : Str)
      → can s r (codes "secrets") (codes "edit") ≡ true
      → allows s r ns ≡ true
      → IsPermitted s documents cluster r (reveal_secret s cluster r ns name)
  unfolding reveal_secret permits
  revealed-IsPermitted ns name granted allowed =
      call-IsPermitted s documents cluster r (get_secret_decoded_data ns name) _
        (rw (granted, allowed) refl) λ decoded _. stop-IsPermitted s documents cluster r

  pub manifest-IsPermitted : IsPermitted s documents cluster r (manifest_handler s cluster r)
  unfolding manifest_handler permits
  manifest-IsPermitted = require-IsPermitted s documents cluster r _ _ _ λ _.
      require-IsPermitted s documents cluster r _ _ _ λ _.
        require_permission-IsPermitted s documents cluster r _ _ _ λ granted.
          manifest_namespace-IsPermitted _ _ granted λ ns allowed.
            if-IsPermitted s documents cluster r reveals _ _
              (λ _.
                require_permission-IsPermitted s documents cluster r _ _ _
                  λ editable. read ns granted allowed λ _. editable)
              λ plain. read ns granted allowed λ secret. absurd cc
    where
      both : (a b : Bool) → a && b ≡ true → a ≡ true
      both true b h = refl
      both false b h = cc

      read :
          (ns : Str)
          → can s r
              (kind_to_resource asked_kind)
              (manifest_permission_action (kind_to_resource asked_kind))
            ≡ true
          → kind_allows s documents cluster r asked_kind true ns ≡ true
          → (reveals ≡ true → can s r (codes "secrets") (codes "edit") ≡ true)
          → IsPermitted s documents cluster r (
              call cluster (get_manifest_yaml ns asked_kind asked_name) λ text.
                if reveals then reveal_secret s cluster r ns asked_name else finish (success done))
      read ns granted allowed editable =
          call-IsPermitted s documents cluster r (get_manifest_yaml ns asked_kind asked_name) _
            (rw (granted, allowed) refl)
            λ text _.
              if-IsPermitted s documents cluster r reveals _ _
                (λ secret.
                  revealed-IsPermitted ns asked_name (editable secret)
                    (secret_allows asked_kind ns allowed (both _ _ secret)))
                λ _. stop-IsPermitted s documents cluster r
