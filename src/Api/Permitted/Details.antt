-- ===== src/Api/Permitted/Details.antt =====
-- The handlers that read named objects, releases, custom resources and insights, and what their calls need.
use beaverdeck.Base.{
  ℕ, ◌≡◌, refl, true, not, ◌&&◌, Option, none, some, all, is_empty, arith, [], List,
}
use beaverdeck.Text.{Str, codes, trim_space, ◌==◌}
use beaverdeck.Api.Request.{Request, query_get}
use beaverdeck.Api.Calls.{
  KubeCall, CustomResourceDefinition, resolve_custom_resource_definition, list_custom_resources,
  list_pvcs, get_restart_diagnostic_snapshot, list_helm_release_history,
  list_argocd_application_history, get_helm_release_revision_yaml,
  get_argocd_application_revision_yaml, build_insights, list_suppressed_insights,
  set_insight_suppressed,
}
use beaverdeck.Api.Handling.{Handled, call, Cluster, success, failure, finish, done, items}
use beaverdeck.Api.Access.{Server, allows}
use beaverdeck.Api.Mutations.{Document}
use beaverdeck.Api.Details.{
  on_named, on_revision, restart_diagnostic_snapshot_handler, helm_release_history_handler,
  argocd_application_history_handler, helm_release_revision_detail_handler,
  argocd_application_revision_detail_handler, optional_namespaces, custom_resources_handler,
  pvcs_handler,
}
use beaverdeck.Api.Insights.{
  insights_handler, set_insight_suppressed_handler, SetInsightSuppressedRequest,
}
use beaverdeck.Api.Permitted.{permits, can_in}
use beaverdeck.Api.Permitted.Steps.{
  IsPermitted, stop-IsPermitted, require-IsPermitted, require_some-IsPermitted, call-IsPermitted,
  if-IsPermitted, attempt-IsPermitted, require_permission-IsPermitted, query_namespace-IsPermitted,
  query_namespaces-IsPermitted,
}

module _ (s : Server) (documents : Str → List Document) (cluster : Cluster) (r : Request) where
  on_named-IsPermitted :
      (resource action : Str) (command : Str → Str → KubeCall)
      → ((ns name : Str)
          → permits s documents cluster r (command ns name)
            ≡ can_in s documents cluster r resource action ns)
      → IsPermitted s documents cluster r (on_named s cluster r resource action command)
  on_named-IsPermitted resource action command covered =
      require_permission-IsPermitted s documents cluster r _ _ _ λ granted.
        query_namespace-IsPermitted s documents cluster r _ λ ns allowed.
          require-IsPermitted s documents cluster r _ _ _ λ _.
            call-IsPermitted s documents cluster r (command ns (trim_space (r.path (codes "name"))))
              _ (rw (covered ns (trim_space (r.path (codes "name"))), granted, allowed) refl)
              λ a _. stop-IsPermitted s documents cluster r

  pub restart_diagnostic_snapshot-IsPermitted :
      IsPermitted s documents cluster r (restart_diagnostic_snapshot_handler s cluster r)
  unfolding restart_diagnostic_snapshot_handler permits
  restart_diagnostic_snapshot-IsPermitted =
      on_named-IsPermitted _ _ get_restart_diagnostic_snapshot λ ns name. refl

  pub helm_release_history-IsPermitted :
      IsPermitted s documents cluster r (helm_release_history_handler s cluster r)
  unfolding helm_release_history_handler permits
  helm_release_history-IsPermitted =
      on_named-IsPermitted _ _ list_helm_release_history λ ns name. refl

  pub argocd_application_history-IsPermitted :
      IsPermitted s documents cluster r (argocd_application_history_handler s cluster r)
  unfolding argocd_application_history_handler permits
  argocd_application_history-IsPermitted =
      on_named-IsPermitted _ _ list_argocd_application_history λ ns name. refl

  on_revision-IsPermitted :
      (least : ℕ) (command : Str → Str → ℕ → Str → KubeCall)
      → ((ns name : Str) (n : ℕ) (detail : Str)
          → permits s documents cluster r (command ns name n detail)
            ≡ can_in s documents cluster r (codes "applications") (codes "edit") ns)
      → IsPermitted s documents cluster r (on_revision s cluster r least command)
  on_revision-IsPermitted least command covered =
      require_permission-IsPermitted s documents cluster r _ _ _ λ granted.
        query_namespace-IsPermitted s documents cluster r _ λ ns allowed.
          require-IsPermitted s documents cluster r _ _ _ λ _.
            require_some-IsPermitted s documents cluster r _ _ _ λ revision _.
              let name = trim_space (r.path (codes "name")) in
              let detail = trim_space (r.path (codes "detail")) in
              call-IsPermitted s documents cluster r (command ns name revision detail) _
                (rw (covered ns name revision detail, granted, allowed) refl)
                λ a _. stop-IsPermitted s documents cluster r

  pub helm_release_revision_detail-IsPermitted :
      IsPermitted s documents cluster r (helm_release_revision_detail_handler s cluster r)
  unfolding helm_release_revision_detail_handler permits
  helm_release_revision_detail-IsPermitted =
      on_revision-IsPermitted _ get_helm_release_revision_yaml λ ns name n detail. refl

  pub argocd_application_revision_detail-IsPermitted :
      IsPermitted s documents cluster r (argocd_application_revision_detail_handler s cluster r)
  unfolding argocd_application_revision_detail_handler permits
  argocd_application_revision_detail-IsPermitted =
      on_revision-IsPermitted _ get_argocd_application_revision_yaml λ ns name n detail. refl

  optional_namespaces-IsPermitted :
      (next : List Str → Handled)
      → ((l : List Str) → all (allows s r) l ≡ true → IsPermitted s documents cluster r (next l))
      → IsPermitted s documents cluster r (optional_namespaces s cluster r next)
  unfolding optional_namespaces all
  optional_namespaces-IsPermitted next rest =
      if-IsPermitted s documents cluster r (is_empty (trim_space (query_get r (codes "namespace"))))
        _ _ (λ _. rest [] refl)
        λ _. query_namespaces-IsPermitted s documents cluster r next λ l _ allowed. rest l allowed

  pub custom_resources-IsPermitted :
      IsPermitted s documents cluster r (custom_resources_handler s cluster r)
  unfolding custom_resources_handler permits
  custom_resources-IsPermitted =
      require_permission-IsPermitted s documents cluster r _ _ _ λ granted.
        optional_namespaces-IsPermitted _ λ asked allowed.
          call-IsPermitted s documents cluster r
            (resolve_custom_resource_definition (r.path (codes "name"))) _ (rw granted refl)
            λ definition _.
              if-IsPermitted s documents cluster r (definition.namespaced && is_empty asked) _ _
                (λ _.
                  query_namespaces-IsPermitted s documents cluster r _ λ l full inside.
                    listed definition l (rw (granted, inside, full) (ground arith)))
                λ enough. listed definition asked (rw (granted, allowed) (ground (arith, enough)))
    where
      listed :
          (definition : CustomResourceDefinition) (l : List Str)
          → permits s documents cluster r (list_custom_resources definition l) ≡ true
          → IsPermitted s documents cluster r (
              call cluster
                (list_custom_resources definition l)
                λ found. finish (success (items found)))
      listed definition l permitted =
          call-IsPermitted s documents cluster r (list_custom_resources definition l) _ permitted
            λ found _. stop-IsPermitted s documents cluster r

  pub pvcs-IsPermitted : IsPermitted s documents cluster r (pvcs_handler s cluster r)
  unfolding pvcs_handler permits
  pvcs-IsPermitted = require_permission-IsPermitted s documents cluster r _ _ _ λ granted.
      query_namespaces-IsPermitted s documents cluster r _ λ l _ allowed.
        call-IsPermitted s documents cluster r
          (list_pvcs l (not (query_get r (codes "include_metrics") == codes "0"))) _
          (rw (granted, allowed) refl) λ found _. stop-IsPermitted s documents cluster r

  pub insights-IsPermitted : IsPermitted s documents cluster r (insights_handler s cluster r)
  unfolding insights_handler permits
  insights-IsPermitted = require_permission-IsPermitted s documents cluster r _ _ _ λ granted.
      query_namespaces-IsPermitted s documents cluster r _ λ l _ allowed.
        call-IsPermitted s documents cluster r
          (build_insights l (trim_space (query_get r (codes "category")))) _
          (rw (granted, allowed) refl)
          λ found _.
            call-IsPermitted s documents cluster r list_suppressed_insights _ granted
              λ keys _. stop-IsPermitted s documents cluster r

  pub set_insight_suppressed-IsPermitted :
      (body : Option SetInsightSuppressedRequest)
      → IsPermitted s documents cluster r (set_insight_suppressed_handler s cluster r body)
  unfolding set_insight_suppressed_handler permits
  set_insight_suppressed-IsPermitted body =
      require_permission-IsPermitted s documents cluster r _ _ _ λ granted.
        require_some-IsPermitted s documents cluster r _ _ _ λ req _.
          attempt-IsPermitted s documents cluster r
            (set_insight_suppressed (trim_space req.key) req.suppressed) _ granted answered
    where
      answered :
          (answer : Option (Unit {0}))
          → IsPermitted s documents cluster r
              (elim answer [ none ↦ finish (failure 400) | some value ↦ finish (success done) ])
      answered none = stop-IsPermitted s documents cluster r
      answered (some value) = stop-IsPermitted s documents cluster r
