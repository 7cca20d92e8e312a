-- ===== src/Api/Details.antt =====
-- internal/api/resource_handlers.go, the handlers that read one object or a list that is not sorted:
-- namespaces, restart diagnostics, releases, custom resources and claims.
use beaverdeck.Base.{
  ℕ, Bool, not, ◌&&◌, ◌||◌, Option, none, some, List, [], ◌∷◌, is_empty, ltb, nat_eq, if◌then◌else◌,
}
use beaverdeck.Text.{Str, codes, ◌==◌, trim_space}
use beaverdeck.Text.Numbers.{atoi}
use beaverdeck.Api.Request.{Request, query_get}
use beaverdeck.Api.Permissions.{is_admin, is_namespace_allowed_by_role}
use beaverdeck.Api.Calls.{
  KubeCall, list_namespaces, get_restart_diagnostic_snapshot, list_helm_release_history,
  list_argocd_application_history, get_helm_release_revision_yaml,
  get_argocd_application_revision_yaml, resolve_custom_resource_definition, list_custom_resources,
  list_pvcs,
}
use beaverdeck.Api.Handling.{
  done, items, names, success, Handled, finish, Handling, ◌>>=◌, ◌>>◌, require, require_some,
  Cluster, call,
}
use beaverdeck.Api.Access.{Server, require_permission, query_namespace, query_namespaces}

-- The loop of namespaces over the names that the cluster has.
unfoldable pub filter_allowed : (Str → Bool) → List Str → List Str
filter_allowed allowed [] = []
filter_allowed allowed (ns ∷ rest) =
    let kept = filter_allowed allowed rest in if allowed ns then ns ∷ kept else kept

-- A revision of at least `least`, or `none`.
unfoldable pub revision_from : ℕ → Str → Option ℕ
revision_from least text = elim (atoi (trim_space text)) [
  | none ↦ none
  | some (negative, n) ↦ if (negative && not (nat_eq n 0)) || ltb n least then none else some n
]

module _ (s : Server) (cluster : Cluster) (r : Request) where
  unfoldable pub namespaces_handler : Handled
  namespaces_handler =
      let allowed = is_namespace_allowed_by_role s.unmarshal r in
      let managed = s.cfg.managed_namespace in
      if not s.cfg.allow_all_namespaces
      then finish
          (success (names (if not (is_admin r) && not (allowed managed) then [] else managed ∷ [])))
      else (do
        found ← call cluster list_namespaces
        finish (success (names (if is_admin r then found else filter_allowed allowed found))))

  -- The handlers that read one named object of one namespace.
  abbrev pub on_named : Str → Str → (Str → Str → KubeCall) → Handled
  on_named resource action command = do
    require_permission s r resource action
    ns ← query_namespace s r
    let name = trim_space (r.path (codes "name"))
    require (not (is_empty name)) 400
    answer ← call cluster (command ns name)
    finish (success done)

  unfoldable pub restart_diagnostic_snapshot_handler : Handled
  restart_diagnostic_snapshot_handler =
      on_named (codes "pods") (codes "view") get_restart_diagnostic_snapshot

  unfoldable pub helm_release_history_handler : Handled
  helm_release_history_handler =
      on_named (codes "applications") (codes "view") list_helm_release_history

  unfoldable pub argocd_application_history_handler : Handled
  argocd_application_history_handler =
      on_named (codes "applications") (codes "view") list_argocd_application_history

  -- The handlers that read one revision.
  abbrev pub on_revision : ℕ → (Str → Str → ℕ → Str → KubeCall) → Handled
  on_revision least command = do
    require_permission s r (codes "applications") (codes "edit")
    ns ← query_namespace s r
    let name = trim_space (r.path (codes "name"))
    require (not (is_empty name)) 400
    revision ← require_some (revision_from least (r.path (codes "revision"))) 400
    answer ← call cluster (command ns name revision (trim_space (r.path (codes "detail"))))
    finish (success done)

  unfoldable pub helm_release_revision_detail_handler : Handled
  helm_release_revision_detail_handler = on_revision 1 get_helm_release_revision_yaml

  unfoldable pub argocd_application_revision_detail_handler : Handled
  argocd_application_revision_detail_handler = on_revision 0 get_argocd_application_revision_yaml

  -- The namespaces of the query when it names some, else none.
  unfoldable pub optional_namespaces : Handling (List Str)
  optional_namespaces next =
      if is_empty (trim_space (query_get r (codes "namespace")))
      then next []
      else query_namespaces s r next

  unfoldable pub custom_resources_handler : Handled
  custom_resources_handler = do
    require_permission s r (codes "crds") (codes "view")
    asked ← optional_namespaces
    definition ← call cluster (resolve_custom_resource_definition (r.path (codes "name")))
    namespaces ← λ next.
        if definition.namespaced && is_empty asked then query_namespaces s r next else next asked
    found ← call cluster (list_custom_resources definition namespaces)
    finish (success (items found))

  unfoldable pub pvcs_handler : Handled
  pvcs_handler = do
    require_permission s r (codes "pvcs") (codes "view")
    ns_list ← query_namespaces s r
    found ←
        call cluster (list_pvcs ns_list (not (query_get r (codes "include_metrics") == codes "0")))
    finish (success (items found))
