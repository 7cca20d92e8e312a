-- ===== src/Api/Permitted/Served.antt =====
-- Every call of the cluster that a request leads to, from the middleware on.
use beaverdeck.Base.{◌≡◌, ◌⊎◌, inl, inr, subst, refl, some, List, []}
use beaverdeck.Text.{Str}
use beaverdeck.Users.Types.{Store, Env, UserWithToken, ok}
use beaverdeck.Users.Passwords.{Crypto}
use beaverdeck.Users.Sessions.{TokenCodec, authenticate}
use beaverdeck.Api.Request.{Request}
use beaverdeck.Api.Middleware.{
  Admission, refused, admitted, middleware, token_from_request, requested_user,
}
use beaverdeck.Api.Middleware.Laws.{middleware-admitted}
use beaverdeck.Api.Handling.{Cluster}
use beaverdeck.Api.Access.{Server}
use beaverdeck.Api.Mutations.{Document}
use beaverdeck.Api.Routes
use beaverdeck.Api.Routes.{Endpoint, handle, after_admission, serve}
use beaverdeck.Api.Lists.{pods_handler, events_handler, pvs_handler}
use beaverdeck.Api.Permitted.Steps.{IsPermitted}
use beaverdeck.Api.Permitted.Changes
use beaverdeck.Api.Permitted.Reads
use beaverdeck.Api.Permitted.Details
use beaverdeck.Api.Permitted.Manifests

module _ (s : Server) (documents : Str → List Document) (cluster : Cluster) where
  -- Whatever the route, its body and the answers of the cluster, a handler makes only those calls that
  -- the role of the request's user permits, in the namespaces that the server and the role allow.
  pub handle-IsPermitted :
      (endpoint : Endpoint) (r : Request)
      → IsPermitted s documents cluster r (handle s documents cluster endpoint r)
  unfolding handle pods_handler events_handler pvs_handler
  handle-IsPermitted (Routes.scale_deployment body) r =
      Changes.scale_deployment-IsPermitted s documents cluster r body
  handle-IsPermitted (Routes.scale_stateful_set body) r =
      Changes.scale_stateful_set-IsPermitted s documents cluster r body
  handle-IsPermitted (Routes.restart_deployment body) r =
      Changes.restart_deployment-IsPermitted s documents cluster r body
  handle-IsPermitted (Routes.delete_pod body) r =
      Changes.delete_pod-IsPermitted s documents cluster r body
  handle-IsPermitted (Routes.evict_pod body) r =
      Changes.evict_pod-IsPermitted s documents cluster r body
  handle-IsPermitted (Routes.delete_resource body) r =
      Changes.delete_resource-IsPermitted s documents cluster r body
  handle-IsPermitted (Routes.drain_node body) r =
      Changes.drain_node-IsPermitted s documents cluster r body
  handle-IsPermitted (Routes.uncordon_node body) r =
      Changes.uncordon_node-IsPermitted s documents cluster r body
  handle-IsPermitted (Routes.apply_yaml body) r =
      Changes.apply_yaml-IsPermitted s documents cluster r body
  handle-IsPermitted (Routes.update_manifest body) r =
      Changes.update_manifest-IsPermitted s documents cluster r body
  handle-IsPermitted (Routes.exec_ws body) r =
      Changes.exec_ws-IsPermitted s documents cluster r body
  handle-IsPermitted Routes.namespaces r = Reads.namespaces-IsPermitted s documents cluster r
  handle-IsPermitted Routes.pods r = Reads.namespaced_list-IsPermitted s documents cluster r _
  handle-IsPermitted Routes.events r = Reads.namespaced_list-IsPermitted s documents cluster r _
  handle-IsPermitted Routes.pvs r = Reads.cluster_list-IsPermitted s documents cluster r _
  handle-IsPermitted Routes.pvcs r = Details.pvcs-IsPermitted s documents cluster r
  handle-IsPermitted Routes.custom_resources r =
      Details.custom_resources-IsPermitted s documents cluster r
  handle-IsPermitted (Routes.namespaced_list body) r =
      Reads.namespaced_list-IsPermitted s documents cluster r body
  handle-IsPermitted (Routes.cluster_list body) r =
      Reads.cluster_list-IsPermitted s documents cluster r body
  handle-IsPermitted Routes.restart_diagnostic_snapshot r =
      Details.restart_diagnostic_snapshot-IsPermitted s documents cluster r
  handle-IsPermitted Routes.helm_release_history r =
      Details.helm_release_history-IsPermitted s documents cluster r
  handle-IsPermitted Routes.argocd_application_history r =
      Details.argocd_application_history-IsPermitted s documents cluster r
  handle-IsPermitted Routes.helm_release_revision_detail r =
      Details.helm_release_revision_detail-IsPermitted s documents cluster r
  handle-IsPermitted Routes.argocd_application_revision_detail r =
      Details.argocd_application_revision_detail-IsPermitted s documents cluster r
  handle-IsPermitted Routes.insights r = Details.insights-IsPermitted s documents cluster r
  handle-IsPermitted (Routes.set_insight_suppressed body) r =
      Details.set_insight_suppressed-IsPermitted s documents cluster r body
  handle-IsPermitted Routes.manifest r = Manifests.manifest-IsPermitted s documents cluster r
  handle-IsPermitted Routes.pod_logs r = Manifests.pod_logs-IsPermitted s documents cluster r
  handle-IsPermitted Routes.workload_logs r =
      Manifests.workload_logs-IsPermitted s documents cluster r

  -- What a request leads to: nothing, or the calls that the role of a user permits whose token the
  -- request carries.
  pub serve-calls :
      (crypto : Crypto) (codec : TokenCodec) (env : Env) (store : Store) (endpoint : Endpoint)
      (r : Request)
      → ((serve s documents cluster crypto codec env (some store) endpoint r).calls ≡ [])
        ⊎ ((u : UserWithToken) × (authenticate crypto codec env store (token_from_request r) ≡ ok u)
            × (requested_user r ≡ u.username)
            × IsPermitted s documents cluster
                (record r { user = some u })
                (serve s documents cluster crypto codec env (some store) endpoint r))
  unfolding serve after_admission
  serve-calls crypto codec env store endpoint r =
      cases (middleware crypto codec env (some store) r) refl
    where
      cases :
          (admission : Admission)
          → middleware crypto codec env (some store) r ≡ admission
          → ((after_admission s documents cluster endpoint admission).calls ≡ [])
            ⊎ ((u : UserWithToken) × (authenticate crypto codec env store (token_from_request r)
                  ≡ ok u)
                × (requested_user r ≡ u.username)
                × IsPermitted s documents cluster
                    (record r { user = some u })
                    (after_admission s documents cluster endpoint admission))
      cases (refused status) h = inl refl
      cases (admitted q) h =
          let (u, authenticated, (named, full, same)) =
            (middleware-admitted crypto codec env store r q).0 h in
          inr (
            u,
            authenticated,
            named,
            subst (λ x. IsPermitted s documents cluster x (handle s documents cluster endpoint q))
                same (handle-IsPermitted endpoint q),
          )
