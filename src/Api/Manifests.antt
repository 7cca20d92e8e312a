-- ===== src/Api/Manifests.antt =====
-- internal/api/resource_handlers.go: the manifest of one object, and the logs of pods and workloads.
use beaverdeck.Base.{ℕ, Bool, not, ◌&&◌, ◌||◌, none, some, is_empty, ltb, nat_eq, if◌then◌else◌}
use beaverdeck.Text.{Str, codes, ◌==◌, equal_fold, trim_space}
use beaverdeck.Text.Numbers.{atoi_value}
use beaverdeck.Api.Request.{Request, query_get}
use beaverdeck.Api.Kinds.{custom_resource_crd_name, kind_to_resource, manifest_permission_action}
use beaverdeck.Api.Calls.{
  resolve_custom_resource_definition, get_manifest_yaml, get_secret_decoded_data, pod_logs,
  follow_pod_logs, workload_logs, follow_workload_logs,
}
use beaverdeck.Api.Handling.{
  done, success, Handled, finish, Handling, ◌>>=◌, ◌>>◌, require, Cluster, call,
}
use beaverdeck.Api.Access.{Server, allows, require_permission, query_namespace}

abbrev pub default_log_tail_lines : ℕ
default_log_tail_lines = 200

abbrev pub max_log_tail_lines : ℕ
max_log_tail_lines = 10000

unfoldable pub requested_log_tail : Request → ℕ
requested_log_tail r =
    let tail = atoi_value (query_get r (codes "tail")) in
    if tail.0 || nat_eq tail.1 0
    then default_log_tail_lines
    else if ltb max_log_tail_lines tail.1
    then max_log_tail_lines
    else tail.1

unfoldable pub requested_follow_log_tail : Request → ℕ
requested_follow_log_tail r =
    let raw = trim_space (query_get r (codes "tail")) in
    let tail = requested_log_tail r in if raw == codes "0" then 0 else tail

-- Whether a parameter of the query is set: "1", or "true" in any case.
unfoldable pub is_set : Request → Str → Bool
is_set r key =
    let value = query_get r key in equal_fold value (codes "1") || equal_fold value (codes "true")

module _ (s : Server) (cluster : Cluster) (r : Request) where
  -- The namespace of a manifest: any that the definition of a custom resource lets pass, else that of
  -- the query.
  unfoldable pub manifest_namespace : Str → Handling Str
  manifest_namespace kind next = elim (custom_resource_crd_name kind) [
    | none ↦ query_namespace s r next
    | some crd_name ↦
        let ns = trim_space (query_get r (codes "namespace")) in
        call cluster (resolve_custom_resource_definition crd_name)
          λ definition. require (not definition.namespaced || allows s r ns) 403 λ _. next ns
  ]

  unfoldable pub reveal_secret : Str → Str → Handled
  reveal_secret ns name = do
    decoded ← call cluster (get_secret_decoded_data ns name)
    finish (success done)

  unfoldable pub manifest_handler : Handled
  manifest_handler = do
    let kind = trim_space (query_get r (codes "kind"))
    let name = trim_space (query_get r (codes "name"))
    require (not (is_empty kind || is_empty name)) 400
    let resource = kind_to_resource kind
    require (not (is_empty resource)) 400
    require_permission s r resource (manifest_permission_action resource)
    ns ← manifest_namespace kind
    let reveal = resource == codes "secrets" && is_set r (codes "reveal")
    λ next. if reveal then require_permission s r (codes "secrets") (codes "edit") next else next tt
    text ← call cluster (get_manifest_yaml ns kind name)
    if reveal then reveal_secret ns name else finish (success done)

  unfoldable pub pod_logs_handler : Handled
  pod_logs_handler = do
    require_permission s r (codes "pods") (codes "view")
    ns ← query_namespace s r
    let pod = trim_space (query_get r (codes "pod"))
    require (not (is_empty pod)) 400
    let container = trim_space (query_get r (codes "container"))
    if is_set r (codes "follow")
        then (do
          stream ← call cluster (follow_pod_logs ns pod container (requested_follow_log_tail r))
          finish (success done))
        else (do
          text ← call cluster (pod_logs ns pod container (requested_log_tail r))
          finish (success done))

  unfoldable pub workload_logs_handler : Handled
  workload_logs_handler = do
    require_permission s r (codes "workloads") (codes "view")
    ns ← query_namespace s r
    let kind = trim_space (query_get r (codes "kind"))
    let name = trim_space (query_get r (codes "name"))
    require (not (is_empty kind || is_empty name)) 400
    if is_set r (codes "follow")
        then (do
          streams ← call cluster (follow_workload_logs ns kind name (requested_follow_log_tail r))
          require (not (is_empty streams)) 404
          finish (success done))
        else (do
          text ← call cluster (workload_logs ns kind name (requested_log_tail r))
          finish (success done))
