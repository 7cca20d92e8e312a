-- ===== src/Api/Permitted.antt =====
-- What a request's role has to allow for each call of the cluster, whatever handler makes it.
pub mod Manifests
pub mod Served
pub mod Details
pub mod Reads
pub mod Changes
pub mod Steps
use beaverdeck.Base.{
  Bool, true, false, not, ◌&&◌, ◌||◌, Option, none, some, List, [], ◌∷◌, all, is_empty,
}
use beaverdeck.Text.{Str, codes}
use beaverdeck.Api.Request.{Request}
use beaverdeck.Api.Kinds.{
  custom_resource_crd_name, kind_to_resource, permission_delete_target, manifest_permission_action,
}
use beaverdeck.Api.Calls.{
  KubeCall, CustomResourceDefinition, NamespacedList, ClusterList, workloads,
  restart_diagnostic_summaries, ingresses, secrets, config_maps, helm_releases, argocd_applications,
  services, roles, role_bindings, service_accounts, pods, events, nodes, crds, cluster_roles,
  cluster_role_bindings, storage_classes, pvs, scale_deployment, scale_stateful_set,
  restart_deployment, delete_pod, evict_pod, delete_resource, drain_node, set_node_unschedulable,
  apply_yaml, update_manifest_yaml, exec_default_shell, exec, resolve_custom_resource_definition,
  list_namespaces, list, list_cluster, list_custom_resources, list_pvcs,
  get_restart_diagnostic_snapshot, list_helm_release_history, list_argocd_application_history,
  get_helm_release_revision_yaml, get_argocd_application_revision_yaml, build_insights,
  list_suppressed_insights, set_insight_suppressed, get_manifest_yaml, get_secret_decoded_data,
  pod_logs, follow_pod_logs, workload_logs, follow_workload_logs,
}
use beaverdeck.Api.Handling.{Cluster}
use beaverdeck.Api.Access.{Server, can, allows}
use beaverdeck.Api.Mutations.{Document, validate_apply_namespaces}

-- The resource that the permissions of a role name for a list.
unfoldable pub list_resource : NamespacedList → Str
list_resource workloads = codes "workloads"
list_resource restart_diagnostic_summaries = codes "pods"
list_resource ingresses = codes "ingresses"
list_resource secrets = codes "secrets"
list_resource config_maps = codes "configmaps"
list_resource helm_releases = codes "applications"
list_resource argocd_applications = codes "applications"
list_resource services = codes "services"
list_resource roles = codes "rbacroles"
list_resource role_bindings = codes "rbacroles"
list_resource service_accounts = codes "serviceaccounts"
list_resource (pods metrics) = codes "pods"
list_resource (events negative limit type) = codes "events"

unfoldable pub cluster_list_resource : ClusterList → Str
cluster_list_resource nodes = codes "nodes"
cluster_list_resource crds = codes "crds"
cluster_list_resource cluster_roles = codes "clusterroles"
cluster_list_resource cluster_role_bindings = codes "clusterroles"
cluster_list_resource storage_classes = codes "storageclasses"
cluster_list_resource (pvs metrics) = codes "pvs"

module _ (s : Server) (documents : Str → List Document) (cluster : Cluster) (r : Request) where
  -- A resource may be used with an action in a namespace.
  abbrev pub can_in : Str → Str → Str → Bool
  can_in resource action ns = can s r resource action && allows s r ns

  -- The namespace of an object of a kind is allowed, unless its kind is not namespaced: the definition
  -- of a custom resource decides, else `otherwise`.
  unfoldable pub kind_allows : Str → Bool → Str → Bool
  kind_allows kind otherwise ns = elim (custom_resource_crd_name kind) [
    | none ↦ not otherwise || allows s r ns
    | some crd_name ↦ elim (cluster (resolve_custom_resource_definition crd_name)) [
      | none ↦ false
      | some definition ↦ not definition.namespaced || allows s r ns
    ]
  ]

  unfoldable pub permits_delete : Str → Str → Option (Str × Bool) → Bool
  permits_delete ns kind none = false
  permits_delete ns kind (some (resource, namespaced)) =
      can s r resource (codes "delete") && kind_allows kind namespaced ns

  unfoldable pub permits : KubeCall → Bool
  permits (scale_deployment ns name replicas) = can_in (codes "workloads") (codes "edit") ns
  permits (scale_stateful_set ns name replicas) = can_in (codes "workloads") (codes "edit") ns
  permits (restart_deployment ns name) = can_in (codes "workloads") (codes "edit") ns
  permits (delete_pod ns name) = can_in (codes "pods") (codes "delete") ns
  permits (evict_pod ns name) = can_in (codes "pods") (codes "edit") ns
  permits (delete_resource ns kind name) = permits_delete ns kind (permission_delete_target kind)
  permits (drain_node name force) = can s r (codes "nodes") (codes "edit")
  permits (set_node_unschedulable name flag) = can s r (codes "nodes") (codes "edit")
  permits (apply_yaml ns yaml manager dry) =
      can_in (codes "apply") (codes "edit") ns && validate_apply_namespaces documents yaml ns
  permits (update_manifest_yaml ns kind name yaml dry) =
      can s r (kind_to_resource kind) (codes "edit") && kind_allows kind true ns
  permits (exec_default_shell ns pod container) =
      can s r (codes "exec") (codes "edit") && can_in (codes "pods") (codes "view") ns
  permits (exec ns pod container commands) =
      can s r (codes "exec") (codes "edit") && can_in (codes "pods") (codes "view") ns
  permits (resolve_custom_resource_definition name) =
      can s r (codes "crds") (codes "view")
      || can s r (codes "crds") (codes "edit")
      || can s r (codes "crds") (codes "delete")
  permits list_namespaces = true
  permits (list kind ns) = can_in (list_resource kind) (codes "view") ns
  permits (list_cluster kind) = can s r (cluster_list_resource kind) (codes "view")
  permits (list_custom_resources definition namespaces) =
      can s r (codes "crds") (codes "view")
      && all (allows s r) namespaces
      && (not definition.namespaced || not (is_empty namespaces))
  permits (list_pvcs namespaces metrics) =
      can s r (codes "pvcs") (codes "view") && all (allows s r) namespaces
  permits (get_restart_diagnostic_snapshot ns name) = can_in (codes "pods") (codes "view") ns
  permits (list_helm_release_history ns name) = can_in (codes "applications") (codes "view") ns
  permits (list_argocd_application_history ns name) =
      can_in (codes "applications") (codes "view") ns
  permits (get_helm_release_revision_yaml ns name revision detail) =
      can_in (codes "applications") (codes "edit") ns
  permits (get_argocd_application_revision_yaml ns name revision detail) =
      can_in (codes "applications") (codes "edit") ns
  permits (build_insights namespaces category) =
      can s r (codes "insights") (codes "view") && all (allows s r) namespaces
  permits list_suppressed_insights = can s r (codes "insights") (codes "view")
  permits (set_insight_suppressed key flag) = can s r (codes "insights") (codes "edit")
  permits (get_manifest_yaml ns kind name) =
      can s r (kind_to_resource kind) (manifest_permission_action (kind_to_resource kind))
      && kind_allows kind true ns
  permits (get_secret_decoded_data ns name) = can_in (codes "secrets") (codes "edit") ns
  permits (pod_logs ns pod container tail) = can_in (codes "pods") (codes "view") ns
  permits (follow_pod_logs ns pod container tail) = can_in (codes "pods") (codes "view") ns
  permits (workload_logs ns kind name tail) = can_in (codes "workloads") (codes "view") ns
  permits (follow_workload_logs ns kind name tail) = can_in (codes "workloads") (codes "view") ns
