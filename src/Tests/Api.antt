-- ===== src/Tests/Api.antt =====
-- The interface with a concrete server, cluster and requests.
use beaverdeck.Base.{
  ◌≡◌, ◌↔◌, ◌⊎◌, refl, true, false, not, Option, none, some, List, [], ◌∷◌, ◌+◌, length, all, any,
  is_empty, ◌++◌, if◌then◌else◌,
}
use beaverdeck.Text.{Str, codes, ◌==◌, split}
use beaverdeck.Users.Types.{UserWithToken, ok}
use beaverdeck.Users.Sessions.{authenticate}
use beaverdeck.Api.Request.{Request, query_get, user_from_context}
use beaverdeck.Api.Permissions.{RolePermissionSet, namespaces_from_query}
use beaverdeck.Api.Permissions.Queried.{Collected, namespaces_from_query-allowed}
use beaverdeck.Api.Middleware.{admitted, middleware, token_from_request, requested_user}
use beaverdeck.Api.Middleware.Laws.{IsAdmitted, middleware-admitted}
use beaverdeck.Api.Calls
use beaverdeck.Api.Handling
use beaverdeck.Api.Access
use beaverdeck.Api.Mutations
use beaverdeck.Api.Permissions
use beaverdeck.Api.Calls.{KubeCall, InsightAlert}
use beaverdeck.Api.Handling.{Cluster}
use beaverdeck.Api.Access.{Server}
use beaverdeck.Api.Mutations.{Document, object, ObjectRequest}
use beaverdeck.Api.Insights.{count_alerts, no_counts}
use beaverdeck.Api.Manifests
use beaverdeck.Api.Bounds.Logs.{asks_few_lines, logs_handlers-AsksFew}
use beaverdeck.Api.Bounds.{count_alerts-adds_up}
use beaverdeck.Api.Routes
use beaverdeck.Api.Routes.{handle, serve}
use beaverdeck.Api.Permitted.Steps.{IsPermitted}
use beaverdeck.Api.Permitted.Served.{handle-IsPermitted, serve-calls}
use beaverdeck.Api.Admin
use beaverdeck.Api.Admin.Laws.{IsGuarded, admin_handle-IsGuarded}
use beaverdeck.Tests.{test_crypto, test_json, test_env, one_admin, one_admin-IsValid, everything}
use beaverdeck.Tests.Codec.{test_codec}
use beaverdeck.Tests.Sessions.{token, logged_in}

-- Permissions to delete pods in one namespace, whatever the text.
test_unmarshal : Str → Option RolePermissionSet
test_unmarshal raw = some (record {
  namespaces = codes "team" ∷ [];
  resources = (codes "pods", record { view = false; edit = false; delete = true }) ∷ [];
})

abbrev server : Server
server = record {
  cfg = record { allow_all_namespaces = true; managed_namespace = codes "default" };
  unmarshal = test_unmarshal;
}

abbrev operator : UserWithToken
operator = record {
  username = codes "ann";
  role = codes "operators";
  role_mode = codes "viewer";
  permissions = codes "{...}";
  token = codes "t";
  auth_source = codes "local";
  session_version = 1;
}

-- It carries the token of root, and already stands for the operator.
abbrev request : Request
request = record {
  query = (codes "namespace", codes "team, team" ∷ []) ∷ (codes "tail", codes "99999" ∷ []) ∷ [];
  header = λ key. if key == codes "Authorization" then codes "Bearer " ++ token else codes "root";
  path = λ key. [];
  user = some operator;
}

test_documents : Str → List Document
test_documents yaml = object (some (codes "team")) ∷ []

test_cluster : Cluster
test_cluster (Calls.delete_pod ns name) = some tt
test_cluster call = none

abbrev delete_web : Routes.Endpoint
delete_web = Routes.delete_pod (some (record { namespace = codes "team"; name = codes "web" }))

handle-IsPermitted_example :
    IsPermitted server test_documents test_cluster request
      (handle server test_documents test_cluster delete_web request)
handle-IsPermitted_example =
    handle-IsPermitted server test_documents test_cluster delete_web request

-- The definitions that the runs below go through.
api : Unit {0}
unfolding handle Mutations.delete_pod_handler Access.require_permission Access.require_namespace
    Handling.require Handling.require_some Handling.call Handling.after_answer
    Permissions.has_permission Permissions.is_admin Permissions.permission_set_from_request
    Permissions.parse_permission_set Permissions.filter_namespaces Permissions.filter_resources
    Permissions.close_permission Permissions.permission_for Permissions.namespace_allowed
    Permissions.is_namespace_allowed_by_role Permissions.namespace_allowed_for_request
    Permissions.collect_parts namespaces_from_query query_get user_from_context split any
    test_unmarshal test_cluster
api = tt

-- The calls of that handler are the deletion.
deleted :
    (handle server test_documents test_cluster delete_web request).calls
    ≡ Calls.delete_pod (codes "team") (codes "web") ∷ []
unfolding api everything
deleted = refl

serve-calls_example :
    ((serve server test_documents test_cluster test_crypto test_codec test_env
        (some logged_in)
        delete_web
        request).calls
      ≡ [])
    ⊎ ((u : UserWithToken) × (authenticate test_crypto test_codec test_env logged_in
            (token_from_request request)
          ≡ ok u)
        × (requested_user request ≡ u.username)
        × IsPermitted server test_documents test_cluster
            (record request { user = some u })
            (serve server test_documents test_cluster test_crypto test_codec test_env
              (some logged_in)
              delete_web
              request))
serve-calls_example =
    serve-calls server test_documents test_cluster test_crypto test_codec test_env logged_in
      delete_web request

middleware-admitted_example :
    (middleware test_crypto test_codec test_env (some logged_in) request ≡ admitted request) ↔ (
      (u : UserWithToken) × (authenticate test_crypto test_codec test_env logged_in
          (token_from_request request)
        ≡ ok u)
      × IsAdmitted request request u)
middleware-admitted_example =
    middleware-admitted test_crypto test_codec test_env logged_in request request

queried : namespaces_from_query test_unmarshal server.cfg request ≡ some (codes "team" ∷ [])
unfolding api everything
queried = refl

namespaces_from_query-allowed_example :
    (is_empty (codes "team" ∷ []) ≡ false)
    × Collected test_unmarshal server.cfg request (codes "team" ∷ [])
namespaces_from_query-allowed_example =
    namespaces_from_query-allowed test_unmarshal server.cfg request (codes "team" ∷ []) queried

admin_handle-IsGuarded_example : IsGuarded test_crypto test_json test_env request one_admin (
    Admin.admin_handle test_crypto test_json test_env request one_admin
      (Admin.users_delete (some (codes "root"))))
admin_handle-IsGuarded_example =
    admin_handle-IsGuarded test_crypto test_json test_env request one_admin
      (Admin.users_delete (some (codes "root"))) one_admin-IsValid

-- A request for the logs of a pod, which asks for too many lines.
abbrev logs_request : Request
logs_request = record request {
  query =
      (codes "pod", codes "web" ∷ [])
      ∷ (codes "namespace", codes "team" ∷ [])
      ∷ (codes "tail", codes "99999" ∷ [])
      ∷ [];
}

logs_handlers-AsksFew_example :
    (all asks_few_lines (Manifests.pod_logs_handler server test_cluster logs_request).calls ≡ true)
    × (all asks_few_lines (Manifests.workload_logs_handler server test_cluster logs_request).calls
        ≡ true)
logs_handlers-AsksFew_example = logs_handlers-AsksFew server test_cluster logs_request

abbrev alerts : List InsightAlert
alerts =
    record { key = codes "a"; status = codes "alert"; suppressed = false }
    ∷ record { key = codes "b"; status = codes "alert"; suppressed = false }
    ∷ record { key = codes "c"; status = codes "ok"; suppressed = false }
    ∷ []

fresh : all (λ (item : InsightAlert). not item.suppressed) alerts ≡ true
unfolding all
fresh = refl

count_alerts-adds_up_example :
    let c = count_alerts (codes "a" ∷ []) no_counts alerts in
    (c.alerts + c.passing ≡ length alerts) × (c.active + c.suppressed ≡ c.alerts)
count_alerts-adds_up_example = count_alerts-adds_up (codes "a" ∷ []) alerts fresh
