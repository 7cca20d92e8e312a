-- ===== src/Api/Permitted/Reads.antt =====
-- The handlers of lists, and what their calls need.
use beaverdeck.Base.{◌≡◌, refl, Bool, true, false, not, ◌&&◌, all, ◌++◌, [], ◌∷◌, List}
use beaverdeck.Text.{Str, codes}
use beaverdeck.Api.Request.{Request}
use beaverdeck.Api.Calls.{
  ListItem, NamespacedList, ClusterList, list, list_cluster, list_namespaces, workloads, pods,
  restart_diagnostic_summaries, ingresses, secrets, config_maps, helm_releases, argocd_applications,
  services, roles, role_bindings, service_accounts, events, nodes, crds, cluster_roles,
  cluster_role_bindings, pvs, storage_classes,
}
use beaverdeck.Api.Handling.{Handled, Cluster}
use beaverdeck.Api.Access.{Server, can, allows}
use beaverdeck.Api.Mutations.{Document}
use beaverdeck.Api.Lists.{
  fetch_all, write_namespaced_list, write_cluster_list, namespaced_list_handler,
  cluster_list_handler,
}
use beaverdeck.Api.Details.{namespaces_handler}
use beaverdeck.Api.Permitted.{permits, list_resource, cluster_list_resource}
use beaverdeck.Api.Permitted.Steps.{
  IsPermitted, stop-IsPermitted, call-IsPermitted, if-IsPermitted, require_permission-IsPermitted,
  query_namespaces-IsPermitted,
}

module _ (s : Server) (documents : Str → List Document) (cluster : Cluster) (r : Request) where
  fetch_all-IsPermitted :
      (kind : NamespacedList) (nss : List Str) (found : List ListItem)
      (next : List ListItem → Handled)
      → can s r (list_resource kind) (codes "view") ≡ true
      → all (allows s r) nss ≡ true
      → ((l : List ListItem) → IsPermitted s documents cluster r (next l))
      → IsPermitted s documents cluster r (fetch_all cluster kind nss found next)
  unfolding fetch_all permits all
  fetch_all-IsPermitted kind [] found next granted allowed rest = rest found
  fetch_all-IsPermitted kind (ns ∷ nss) found next granted allowed rest =
      call-IsPermitted s documents cluster r (list kind ns) _
        (rw granted (head (allows s r ns) _ allowed))
        λ chunk _.
          fetch_all-IsPermitted kind nss (found ++ chunk) next granted
            (tail (allows s r ns) _ allowed) rest
    where
      head : (a b : Bool) → a && b ≡ true → a ≡ true
      head true b h = refl
      head false b h = cc

      tail : (a b : Bool) → a && b ≡ true → b ≡ true
      tail true b h = h
      tail false b h = cc

  write_namespaced_list-IsPermitted :
      (kind : NamespacedList) (before : ListItem → ListItem → Bool)
      (post : List ListItem → List ListItem)
      → IsPermitted s documents cluster r
          (write_namespaced_list s cluster r (list_resource kind) kind before post)
  unfolding write_namespaced_list
  write_namespaced_list-IsPermitted kind before post =
      require_permission-IsPermitted s documents cluster r _ _ _ λ granted.
        query_namespaces-IsPermitted s documents cluster r _ λ nss _ allowed.
          fetch_all-IsPermitted kind nss [] _ granted allowed
            λ l. stop-IsPermitted s documents cluster r

  pub namespaced_list-IsPermitted :
      (kind : NamespacedList)
      → IsPermitted s documents cluster r (namespaced_list_handler s cluster r kind)
  unfolding namespaced_list_handler list_resource
  namespaced_list-IsPermitted workloads = write_namespaced_list-IsPermitted workloads _ _
  namespaced_list-IsPermitted restart_diagnostic_summaries =
      write_namespaced_list-IsPermitted restart_diagnostic_summaries _ _
  namespaced_list-IsPermitted ingresses = write_namespaced_list-IsPermitted ingresses _ _
  namespaced_list-IsPermitted secrets = write_namespaced_list-IsPermitted secrets _ _
  namespaced_list-IsPermitted config_maps = write_namespaced_list-IsPermitted config_maps _ _
  namespaced_list-IsPermitted helm_releases = write_namespaced_list-IsPermitted helm_releases _ _
  namespaced_list-IsPermitted argocd_applications =
      write_namespaced_list-IsPermitted argocd_applications _ _
  namespaced_list-IsPermitted services = write_namespaced_list-IsPermitted services _ _
  namespaced_list-IsPermitted roles = write_namespaced_list-IsPermitted roles _ _
  namespaced_list-IsPermitted role_bindings = write_namespaced_list-IsPermitted role_bindings _ _
  namespaced_list-IsPermitted service_accounts =
      write_namespaced_list-IsPermitted service_accounts _ _
  namespaced_list-IsPermitted (pods metrics) = write_namespaced_list-IsPermitted (pods metrics) _ _
  namespaced_list-IsPermitted (events negative limit type) =
      write_namespaced_list-IsPermitted (events negative limit type) _ _

  write_cluster_list-IsPermitted :
      (kind : ClusterList)
      → IsPermitted s documents cluster r
          (write_cluster_list s cluster r (cluster_list_resource kind) kind)
  unfolding write_cluster_list permits
  write_cluster_list-IsPermitted kind =
      require_permission-IsPermitted s documents cluster r _ _ _ λ granted.
        call-IsPermitted s documents cluster r (list_cluster kind) _ granted
          λ found _. stop-IsPermitted s documents cluster r

  pub cluster_list-IsPermitted :
      (kind : ClusterList)
      → IsPermitted s documents cluster r (cluster_list_handler s cluster r kind)
  unfolding cluster_list_handler cluster_list_resource
  cluster_list-IsPermitted nodes = write_cluster_list-IsPermitted nodes
  cluster_list-IsPermitted crds = write_cluster_list-IsPermitted crds
  cluster_list-IsPermitted cluster_roles = write_cluster_list-IsPermitted cluster_roles
  cluster_list-IsPermitted cluster_role_bindings =
      write_cluster_list-IsPermitted cluster_role_bindings
  cluster_list-IsPermitted storage_classes = write_cluster_list-IsPermitted storage_classes
  cluster_list-IsPermitted (pvs metrics) = write_cluster_list-IsPermitted (pvs metrics)

  pub namespaces-IsPermitted : IsPermitted s documents cluster r (namespaces_handler s cluster r)
  unfolding namespaces_handler permits
  namespaces-IsPermitted =
      if-IsPermitted s documents cluster r (not s.cfg.allow_all_namespaces) _ _
        (λ _. stop-IsPermitted s documents cluster r)
        λ _.
          call-IsPermitted s documents cluster r list_namespaces _ refl
            λ found _. stop-IsPermitted s documents cluster r
