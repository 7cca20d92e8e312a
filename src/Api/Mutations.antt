-- ===== src/Api/Mutations.antt =====
-- internal/api/mutation_handlers.go: the handlers that change the cluster. The body of a request is
-- `none` when it does not decode.
use beaverdeck.Base.{
  ℕ, Bool, true, false, not, ◌&&◌, ◌||◌, Option, none, some, List, [], ◌∷◌, length, is_empty,
  if◌then◌else◌,
}
use beaverdeck.Text.{Str, codes, ◌==◌, trim_space}
use beaverdeck.Api.Request.{Request, query_get, query_values}
use beaverdeck.Api.Kinds.{custom_resource_crd_name, kind_to_resource, permission_delete_target}
use beaverdeck.Api.Calls.{
  KubeCall, DrainAnswer, scale_deployment, scale_stateful_set, restart_deployment, delete_pod,
  evict_pod, delete_resource, drain_node, set_node_unschedulable, apply_yaml, update_manifest_yaml,
  exec_default_shell, exec, resolve_custom_resource_definition,
}
use beaverdeck.Api.Handling.{
  done, drained, failure, success, Handled, finish, Handling, ◌>>=◌, ◌>>◌, require, require_some,
  Cluster, call, attempt,
}
use beaverdeck.Api.Access.{Server, allows, require_permission, require_namespace, query_namespace}

pub record ScaleRequest : Type 0 where
  pub namespace : Str
  pub name : Str
  pub replicas : ℕ

-- restartRequest and deletePodRequest
pub record ObjectRequest : Type 0 where
  pub namespace : Str
  pub name : Str

pub record DeleteResourceRequest : Type 0 where
  pub namespace : Str
  pub kind : Str
  pub name : Str

pub record NodeActionRequest : Type 0 where
  pub name : Str
  pub force : Bool

pub record ApplyRequest : Type 0 where
  pub namespace : Str
  pub yaml : Str
  pub dry_run : Bool
  pub field_manager : Str

pub record UpdateManifestRequest : Type 0 where
  pub namespace : Str
  pub kind : Str
  pub name : Str
  pub yaml : Str
  pub dry_run : Bool

-- What the YAML decoder gives in turn: an error, an empty document, or an object with the string at
-- metadata.namespace, empty if there is none, `none` if it is not a string.
pub data Document : Type 0 where
  broken blank : Document
  object : Option Str → Document

-- The loop of validateApplyNamespaces; true is no error.
unfoldable pub documents_match : Str → List Document → Bool
documents_match request_namespace [] = true
documents_match request_namespace (broken ∷ rest) = false
documents_match request_namespace (blank ∷ rest) = documents_match request_namespace rest
documents_match request_namespace (object none ∷ rest) = false
documents_match request_namespace (object (some named) ∷ rest) =
    let namespace = trim_space named in
    let matched = documents_match request_namespace rest in
    if not (is_empty namespace) && not (namespace == request_namespace) then false else matched

module _ (documents : Str → List Document) where
  unfoldable pub validate_apply_namespaces : Str → Str → Bool
  validate_apply_namespaces docs request_namespace =
      documents_match (trim_space request_namespace) (documents docs)

unfoldable pub drain_reply : DrainAnswer → Handled
drain_reply result =
    if result.has_error && is_empty result.failed
    then finish (failure 500)
    else finish (
        success (
          drained (if result.has_error then codes "partial" else codes "ok") (length result.evicted)
            (length result.skipped) (length result.failed)))

module _ (s : Server) (cluster : Cluster) (r : Request) where
  -- The handlers that check the permission and the namespace of the body and make one call.
  abbrev pub on_object :
      {B : Type 0} → Str → Str → Option B → (B → Str) → ((b : B) → KubeCall) → Handled
  on_object resource action body namespace command = do
    require_permission s r resource action
    req ← require_some body 400
    require_namespace s r (namespace req)
    answer ← call cluster (command req)
    finish (success done)

  unfoldable pub scale_deployment_handler : Option ScaleRequest → Handled
  scale_deployment_handler body =
      on_object (codes "workloads") (codes "edit") body (λ b. b.namespace)
        (λ b. scale_deployment b.namespace b.name b.replicas)

  unfoldable pub scale_stateful_set_handler : Option ScaleRequest → Handled
  scale_stateful_set_handler body =
      on_object (codes "workloads") (codes "edit") body (λ b. b.namespace)
        (λ b. scale_stateful_set b.namespace b.name b.replicas)

  unfoldable pub restart_deployment_handler : Option ObjectRequest → Handled
  restart_deployment_handler body =
      on_object (codes "workloads") (codes "edit") body (λ b. b.namespace)
        (λ b. restart_deployment b.namespace b.name)

  unfoldable pub delete_pod_handler : Option ObjectRequest → Handled
  delete_pod_handler body =
      on_object (codes "pods") (codes "delete") body (λ b. b.namespace)
        (λ b. delete_pod b.namespace b.name)

  unfoldable pub evict_pod_handler : Option ObjectRequest → Handled
  evict_pod_handler body =
      on_object (codes "pods") (codes "edit") body (λ b. b.namespace)
        (λ b. evict_pod b.namespace b.name)

  -- Whether a kind is namespaced: the definition decides for a custom resource, else `otherwise`.
  unfoldable pub resolve_namespaced : Str → Bool → Handling Bool
  resolve_namespaced kind otherwise next = elim (custom_resource_crd_name kind) [
    | none ↦ next otherwise
    | some crd_name ↦
        call cluster (resolve_custom_resource_definition crd_name)
          λ definition. next definition.namespaced
  ]

  unfoldable pub delete_resource_handler : Option DeleteResourceRequest → Handled
  delete_resource_handler body = do
    req ← require_some body 400
    target ← require_some (permission_delete_target req.kind) 400
    require_permission s r target.0 (codes "delete")
    namespaced ← resolve_namespaced req.kind target.1
    require (not namespaced || allows s r req.namespace) 403
    answer ← call cluster (delete_resource req.namespace req.kind req.name)
    finish (success done)

  unfoldable pub drain_node_handler : Option NodeActionRequest → Handled
  drain_node_handler body = do
    require_permission s r (codes "nodes") (codes "edit")
    req ← require_some body 400
    require (not (is_empty (trim_space req.name))) 400
    result ← call cluster (drain_node (trim_space req.name) req.force)
    drain_reply result

  unfoldable pub uncordon_node_handler : Option NodeActionRequest → Handled
  uncordon_node_handler body = do
    require_permission s r (codes "nodes") (codes "edit")
    req ← require_some body 400
    require (not (is_empty (trim_space req.name))) 400
    answer ← call cluster (set_node_unschedulable (trim_space req.name) false)
    finish (success done)

  unfoldable pub apply_yaml_handler : (Str → List Document) → Option ApplyRequest → Handled
  apply_yaml_handler documents body = do
    require_permission s r (codes "apply") (codes "edit")
    req ← require_some body 400
    require_namespace s r req.namespace
    require (validate_apply_namespaces documents req.yaml req.namespace) 403
    results ← call cluster (apply_yaml req.namespace req.yaml req.field_manager req.dry_run)
    finish (success done)

  -- The request after its fields are trimmed.
  unfoldable pub update_trimmed : UpdateManifestRequest → Handled
  update_trimmed req = do
    require (not (is_empty req.kind || is_empty req.name)) 400
    require (not (is_empty (kind_to_resource req.kind))) 400
    require_permission s r (kind_to_resource req.kind) (codes "edit")
    namespaced ← resolve_namespaced req.kind true
    require (not namespaced || allows s r req.namespace) 403
    result ←
        call cluster (update_manifest_yaml req.namespace req.kind req.name req.yaml req.dry_run)
    finish (success done)

  unfoldable pub update_manifest_handler : Option UpdateManifestRequest → Handled
  update_manifest_handler body = do
    req ← require_some body 400
    update_trimmed (record req {
      namespace = trim_space req.namespace;
      kind = trim_space req.kind;
      name = trim_space req.name;
    })

  -- The websocket of the terminal: `upgraded` says whether the connection becomes one; otherwise the
  -- upgrader has answered with the status 400. An error of the shell is a message on the connection.
  unfoldable pub exec_ws_handler : Bool → Handled
  exec_ws_handler upgraded = do
    require_permission s r (codes "exec") (codes "edit")
    require_permission s r (codes "pods") (codes "view")
    ns ← query_namespace s r
    let pod = trim_space (query_get r (codes "pod"))
    let container = trim_space (query_get r (codes "container"))
    let commands = query_values r (codes "command")
    require (not (is_empty pod)) 400
    require upgraded 400
    result ← attempt cluster (
        if is_empty commands
        then exec_default_shell ns pod container
        else exec ns pod container commands)
    finish (success done)
