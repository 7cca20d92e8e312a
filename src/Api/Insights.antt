-- ===== src/Api/Insights.antt =====
-- internal/api/resource_handlers.go: the insights and their summary.
use beaverdeck.Base.{
  ℕ, ◌+◌, Bool, true, not, ◌&&◌, Option, none, some, List, [], ◌∷◌, length, if◌then◌else◌,
}
use beaverdeck.Text.{Str, codes, ◌==◌, mem, trim_space}
use beaverdeck.Api.Request.{Request, query_get}
use beaverdeck.Api.Calls.{
  InsightAlert, build_insights, list_suppressed_insights, set_insight_suppressed,
}
use beaverdeck.Api.Handling.{
  Body, summary, done, failure, success, Handled, finish, ◌>>=◌, ◌>>◌, require_some, Cluster, call,
  attempt,
}
use beaverdeck.Api.Access.{Server, require_permission, query_namespaces}

-- The counters of the loop of insights.
pub record Counters : Type 0 where
  pub alerts : ℕ
  pub active : ℕ
  pub passing : ℕ
  pub suppressed : ℕ

abbrev pub no_counts : Counters
no_counts = record { alerts = 0; active = 0; passing = 0; suppressed = 0 }

-- One round of the loop: the item with its mark, and the counters.
unfoldable pub mark_suppressed : List Str → InsightAlert → InsightAlert
mark_suppressed keys item = if mem item.key keys then record item { suppressed = true } else item

unfoldable pub count_alert : List Str → InsightAlert → Counters → Counters
count_alert keys item c =
    let is_alert = item.status == codes "alert" in
    let marked = mark_suppressed keys item in
    record {
      alerts = if is_alert then c.alerts + 1 else c.alerts;
      passing = if is_alert then c.passing else c.passing + 1;
      suppressed = if mem item.key keys && is_alert then c.suppressed + 1 else c.suppressed;
      active = if is_alert && not marked.suppressed then c.active + 1 else c.active;
    }

unfoldable pub count_alerts : List Str → Counters → List InsightAlert → Counters
count_alerts keys c [] = c
count_alerts keys c (item ∷ rest) = count_alerts keys (count_alert keys item c) rest

unfoldable pub summary_of : List InsightAlert → Counters → Body
summary_of found c = summary (length found) c.alerts c.active c.passing c.suppressed

pub record SetInsightSuppressedRequest : Type 0 where
  pub key : Str
  pub suppressed : Bool

module _ (s : Server) (cluster : Cluster) (r : Request) where
  unfoldable pub insights_handler : Handled
  insights_handler = do
    require_permission s r (codes "insights") (codes "view")
    ns_list ← query_namespaces s r
    found ← call cluster (build_insights ns_list (trim_space (query_get r (codes "category"))))
    suppressed_keys ← call cluster list_suppressed_insights
    finish (success (summary_of found (count_alerts suppressed_keys no_counts found)))

  unfoldable pub set_insight_suppressed_handler : Option SetInsightSuppressedRequest → Handled
  set_insight_suppressed_handler body = do
    require_permission s r (codes "insights") (codes "edit")
    req ← require_some body 400
    answer ← attempt cluster (set_insight_suppressed (trim_space req.key) req.suppressed)
    elim answer [ none ↦ finish (failure 400) | some value ↦ finish (success done) ]
