-- ===== src/Api/Lists.antt =====
-- internal/api/resource_handlers.go, the lists: writeNamespacedList, writeClusterList and the handlers
-- that are calls of them. The namespaces are asked one after the other here, and no further one is
-- asked after a failure; the workers that ask for up to eight at once are in Api/Pool.
use beaverdeck.Base.{ℕ, Bool, not, ◌&&◌, List, [], ◌∷◌, ◌++◌, length, take, ltb, if◌then◌else◌}
use beaverdeck.Text.{Str, codes, ◌==◌, less, trim_space}
use beaverdeck.Text.Numbers.{atoi_value}
use beaverdeck.GoMap.Sorted.{sort_by}
use beaverdeck.Api.Request.{Request, query_get}
use beaverdeck.Api.Calls.{
  ListItem, NamespacedList, ClusterList, list, list_cluster, workloads, pods,
  restart_diagnostic_summaries, ingresses, secrets, config_maps, helm_releases, argocd_applications,
  services, roles, role_bindings, service_accounts, events, nodes, crds, cluster_roles,
  cluster_role_bindings, pvs, storage_classes,
}
use beaverdeck.Api.Handling.{items, success, Handled, finish, Handling, ◌>>=◌, ◌>>◌, Cluster, call}
use beaverdeck.Api.Access.{Server, require_permission, query_namespaces}

-- The orders of the lists.
unfoldable pub by_name : ListItem → ListItem → Bool
by_name a b =
    if not (a.namespace == b.namespace) then less a.namespace b.namespace else less a.name b.name

unfoldable pub by_kind_and_name : ListItem → ListItem → Bool
by_kind_and_name a b =
    if not (a.namespace == b.namespace)
    then less a.namespace b.namespace
    else if not (a.kind == b.kind)
    then less a.kind b.kind
    else less a.name b.name

unfoldable pub latest_incident_first : ListItem → ListItem → Bool
latest_incident_first a b = ltb b.incident_time a.incident_time

unfoldable pub last_seen_first : ListItem → ListItem → Bool
last_seen_first a b = less b.last_seen a.last_seen

-- What events does with the sorted items, for a limit with its sign.
unfoldable pub limit_items {ℓ} : {A : Type ℓ} → Bool × ℕ → List A → List A
limit_items (negative, n) found =
    if not negative && ltb 0 n && ltb n (length found) then take n found else found

abbrev pub unchanged : List ListItem → List ListItem
unchanged found = found

module _ (cluster : Cluster) (kind : NamespacedList) where
  -- The chunks of the namespaces, appended in their order.
  unfoldable pub fetch_all : List Str → List ListItem → Handling (List ListItem)
  fetch_all [] found next = next found
  fetch_all (ns ∷ rest) found next =
      call cluster (list kind ns) λ chunk. fetch_all rest (found ++ chunk) next

module _ (s : Server) (cluster : Cluster) (r : Request) where
  unfoldable pub write_namespaced_list :
      Str
      → NamespacedList
      → (ListItem → ListItem → Bool)
      → (List ListItem → List ListItem)
      → Handled
  write_namespaced_list resource kind before postprocess = do
    require_permission s r resource (codes "view")
    ns_list ← query_namespaces s r
    found ← fetch_all cluster kind ns_list []
    finish (success (items (postprocess (sort_by before found))))

  unfoldable pub write_cluster_list : Str → ClusterList → Handled
  write_cluster_list resource kind = do
    require_permission s r resource (codes "view")
    found ← call cluster (list_cluster kind)
    finish (success (items found))

  -- The handlers of the lists of a namespace.
  abbrev workloads_handler : Handled
  workloads_handler = write_namespaced_list (codes "workloads") workloads by_kind_and_name unchanged

  abbrev restart_diagnostic_summaries_handler : Handled
  restart_diagnostic_summaries_handler =
      write_namespaced_list (codes "pods") restart_diagnostic_summaries latest_incident_first
        unchanged

  abbrev ingresses_handler : Handled
  ingresses_handler = write_namespaced_list (codes "ingresses") ingresses by_name unchanged

  abbrev secrets_handler : Handled
  secrets_handler = write_namespaced_list (codes "secrets") secrets by_name unchanged

  abbrev config_maps_handler : Handled
  config_maps_handler = write_namespaced_list (codes "configmaps") config_maps by_name unchanged

  abbrev helm_releases_handler : Handled
  helm_releases_handler =
      write_namespaced_list (codes "applications") helm_releases by_name unchanged

  abbrev argocd_applications_handler : Handled
  argocd_applications_handler =
      write_namespaced_list (codes "applications") argocd_applications by_name unchanged

  abbrev services_handler : Handled
  services_handler = write_namespaced_list (codes "services") services by_name unchanged

  abbrev roles_handler : Handled
  roles_handler = write_namespaced_list (codes "rbacroles") roles by_name unchanged

  abbrev role_bindings_handler : Handled
  role_bindings_handler = write_namespaced_list (codes "rbacroles") role_bindings by_name unchanged

  abbrev service_accounts_handler : Handled
  service_accounts_handler =
      write_namespaced_list (codes "serviceaccounts") service_accounts by_name unchanged

  -- pods and events, once the query is read.
  abbrev pods_with : Bool → Handled
  pods_with metrics = write_namespaced_list (codes "pods") (pods metrics) by_name unchanged

  abbrev events_with : Bool → ℕ → Str → Handled
  events_with negative limit type =
      write_namespaced_list (codes "events") (events negative limit type) last_seen_first
        (limit_items (negative, limit))

  unfoldable pub namespaced_list_handler : NamespacedList → Handled
  namespaced_list_handler workloads = workloads_handler
  namespaced_list_handler restart_diagnostic_summaries = restart_diagnostic_summaries_handler
  namespaced_list_handler ingresses = ingresses_handler
  namespaced_list_handler secrets = secrets_handler
  namespaced_list_handler config_maps = config_maps_handler
  namespaced_list_handler helm_releases = helm_releases_handler
  namespaced_list_handler argocd_applications = argocd_applications_handler
  namespaced_list_handler services = services_handler
  namespaced_list_handler roles = roles_handler
  namespaced_list_handler role_bindings = role_bindings_handler
  namespaced_list_handler service_accounts = service_accounts_handler
  namespaced_list_handler (pods metrics) = pods_with metrics
  namespaced_list_handler (events negative limit type) = events_with negative limit type

  unfoldable pub pods_handler : Handled
  pods_handler = namespaced_list_handler (pods (query_get r (codes "include_metrics") == codes "1"))

  unfoldable pub events_handler : Handled
  events_handler =
      let limit = atoi_value (query_get r (codes "limit")) in
      namespaced_list_handler (events limit.0 limit.1 (trim_space (query_get r (codes "type"))))

  -- The handlers of the lists of the cluster.
  abbrev nodes_handler : Handled
  nodes_handler = write_cluster_list (codes "nodes") nodes

  abbrev crds_handler : Handled
  crds_handler = write_cluster_list (codes "crds") crds

  abbrev cluster_roles_handler : Handled
  cluster_roles_handler = write_cluster_list (codes "clusterroles") cluster_roles

  abbrev cluster_role_bindings_handler : Handled
  cluster_role_bindings_handler = write_cluster_list (codes "clusterroles") cluster_role_bindings

  abbrev storage_classes_handler : Handled
  storage_classes_handler = write_cluster_list (codes "storageclasses") storage_classes

  abbrev pvs_with : Bool → Handled
  pvs_with metrics = write_cluster_list (codes "pvs") (pvs metrics)

  unfoldable pub cluster_list_handler : ClusterList → Handled
  cluster_list_handler nodes = nodes_handler
  cluster_list_handler crds = crds_handler
  cluster_list_handler cluster_roles = cluster_roles_handler
  cluster_list_handler cluster_role_bindings = cluster_role_bindings_handler
  cluster_list_handler storage_classes = storage_classes_handler
  cluster_list_handler (pvs metrics) = pvs_with metrics

  unfoldable pub pvs_handler : Handled
  pvs_handler =
      cluster_list_handler (pvs (not (query_get r (codes "include_metrics") == codes "0")))
