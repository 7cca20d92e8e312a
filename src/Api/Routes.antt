-- ===== src/Api/Routes.antt =====
-- internal/api/server.go: the routes whose handlers use the cluster, and a request that comes in through
-- the middleware.
use beaverdeck.Base.{Bool, Option, List}
use beaverdeck.Text.{Str}
use beaverdeck.Users.Types.{Store, Env}
use beaverdeck.Users.Passwords.{Crypto}
use beaverdeck.Users.Sessions.{TokenCodec}
use beaverdeck.Api.Request.{Request}
use beaverdeck.Api.Middleware.{Admission, refused, admitted, middleware}
use beaverdeck.Api.Calls.{NamespacedList, ClusterList}
use beaverdeck.Api.Handling.{failure, Handled, finish, Cluster}
use beaverdeck.Api.Access.{Server}
use beaverdeck.Api.Mutations
use beaverdeck.Api.Mutations.{
  ScaleRequest, ObjectRequest, DeleteResourceRequest, NodeActionRequest, ApplyRequest,
  UpdateManifestRequest, Document,
}
use beaverdeck.Api.Lists
use beaverdeck.Api.Details
use beaverdeck.Api.Manifests
use beaverdeck.Api.Insights
use beaverdeck.Api.Insights.{SetInsightSuppressedRequest}

-- A route, with the decoded body where its handler reads one.
pub data Endpoint : Type 0 where
  scale_deployment scale_stateful_set : Option ScaleRequest → Endpoint
  restart_deployment delete_pod evict_pod : Option ObjectRequest → Endpoint
  delete_resource : Option DeleteResourceRequest → Endpoint
  drain_node uncordon_node : Option NodeActionRequest → Endpoint
  apply_yaml : Option ApplyRequest → Endpoint
  update_manifest : Option UpdateManifestRequest → Endpoint
  exec_ws : Bool → Endpoint
  namespaces pods events pvs pvcs custom_resources : Endpoint
  namespaced_list : NamespacedList → Endpoint
  cluster_list : ClusterList → Endpoint
  restart_diagnostic_snapshot helm_release_history argocd_application_history : Endpoint
  helm_release_revision_detail argocd_application_revision_detail : Endpoint
  insights : Endpoint
  set_insight_suppressed : Option SetInsightSuppressedRequest → Endpoint
  manifest pod_logs workload_logs : Endpoint

module _ (s : Server) (documents : Str → List Document) (cluster : Cluster) where
  -- The handler of a route.
  unfoldable pub handle : Endpoint → Request → Handled
  handle (scale_deployment body) r = Mutations.scale_deployment_handler s cluster r body
  handle (scale_stateful_set body) r = Mutations.scale_stateful_set_handler s cluster r body
  handle (restart_deployment body) r = Mutations.restart_deployment_handler s cluster r body
  handle (delete_pod body) r = Mutations.delete_pod_handler s cluster r body
  handle (evict_pod body) r = Mutations.evict_pod_handler s cluster r body
  handle (delete_resource body) r = Mutations.delete_resource_handler s cluster r body
  handle (drain_node body) r = Mutations.drain_node_handler s cluster r body
  handle (uncordon_node body) r = Mutations.uncordon_node_handler s cluster r body
  handle (apply_yaml body) r = Mutations.apply_yaml_handler s cluster r documents body
  handle (update_manifest body) r = Mutations.update_manifest_handler s cluster r body
  handle (exec_ws upgraded) r = Mutations.exec_ws_handler s cluster r upgraded
  handle namespaces r = Details.namespaces_handler s cluster r
  handle pods r = Lists.pods_handler s cluster r
  handle events r = Lists.events_handler s cluster r
  handle pvs r = Lists.pvs_handler s cluster r
  handle pvcs r = Details.pvcs_handler s cluster r
  handle custom_resources r = Details.custom_resources_handler s cluster r
  handle (namespaced_list kind) r = Lists.namespaced_list_handler s cluster r kind
  handle (cluster_list kind) r = Lists.cluster_list_handler s cluster r kind
  handle restart_diagnostic_snapshot r = Details.restart_diagnostic_snapshot_handler s cluster r
  handle helm_release_history r = Details.helm_release_history_handler s cluster r
  handle argocd_application_history r = Details.argocd_application_history_handler s cluster r
  handle helm_release_revision_detail r = Details.helm_release_revision_detail_handler s cluster r
  handle argocd_application_revision_detail r =
      Details.argocd_application_revision_detail_handler s cluster r
  handle insights r = Insights.insights_handler s cluster r
  handle (set_insight_suppressed body) r = Insights.set_insight_suppressed_handler s cluster r body
  handle manifest r = Manifests.manifest_handler s cluster r
  handle pod_logs r = Manifests.pod_logs_handler s cluster r
  handle workload_logs r = Manifests.workload_logs_handler s cluster r

  unfoldable pub after_admission : Endpoint → Admission → Handled
  after_admission endpoint (refused status) = finish (failure status)
  after_admission endpoint (admitted r) = handle endpoint r

  -- A request to a route behind the middleware.
  unfoldable pub serve : Crypto → TokenCodec → Env → Option Store → Endpoint → Request → Handled
  serve crypto codec env user_store endpoint r =
      after_admission endpoint (middleware crypto codec env user_store r)
