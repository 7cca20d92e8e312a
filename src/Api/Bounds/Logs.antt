-- ===== src/Api/Bounds/Logs.antt =====
-- The numbers of lines that the handlers of logs ask the client for.
use beaverdeck.Base.{
  ℕ, ◌≡◌, refl, Bool, true, false, ◌&&◌, Option, none, some, all, leb, arith, if◌then◌else◌,
}
use beaverdeck.Text.{codes}
use beaverdeck.Api.Request.{Request}
use beaverdeck.Api.Calls.{
  KubeCall, AnswerOf, pod_logs, follow_pod_logs, workload_logs, follow_workload_logs,
}
use beaverdeck.Api.Handling.{Handled, require, require_some, call, after_answer, Cluster}
use beaverdeck.Api.Access.{Server, require_permission, query_namespace}
use beaverdeck.Api.Manifests.{
  requested_log_tail, requested_follow_log_tail, is_set, pod_logs_handler, workload_logs_handler,
}

-- A call for logs whose number of lines is in its bounds. For a workload it is that of each pod.
unfoldable pub asks_few_lines : KubeCall → Bool
asks_few_lines (pod_logs ns pod container tail) = leb 1 tail && leb tail 10000
asks_few_lines (follow_pod_logs ns pod container tail) = leb tail 10000
asks_few_lines (workload_logs ns kind name tail) = leb 1 tail && leb tail 10000
asks_few_lines (follow_workload_logs ns kind name tail) = leb tail 10000
asks_few_lines other = false

requested_log_tail-few :
    (r : Request) → leb 1 (requested_log_tail r) && leb (requested_log_tail r) 10000 ≡ true
unfolding requested_log_tail
requested_log_tail-few r = ground arith

requested_follow_log_tail-few : (r : Request) → leb (requested_follow_log_tail r) 10000 ≡ true
unfolding requested_follow_log_tail
requested_follow_log_tail-few r = ground (arith, requested_log_tail-few r)

-- All calls of a run ask for few lines.
abbrev AsksFew : Handled → Type 0
AsksFew h = all asks_few_lines h.calls ≡ true

require-AsksFew :
    (test : Bool) (status : ℕ) (next : Unit {0} → Handled)
    → AsksFew (next tt)
    → AsksFew (require test status next)
unfolding require all
require-AsksFew true status next rest = rest
require-AsksFew false status next rest = refl

require_some-AsksFew {ℓ} :
    {A : Type ℓ} (o : Option A) (status : ℕ) (next : A → Handled)
    → ((a : A) → AsksFew (next a))
    → AsksFew (require_some o status next)
unfolding require_some all
require_some-AsksFew none status next rest = refl
require_some-AsksFew (some a) status next rest = rest a

call-AsksFew :
    (cluster : Cluster) (c : KubeCall) (next : AnswerOf c → Handled)
    → asks_few_lines c ≡ true
    → ((a : AnswerOf c) → AsksFew (next a))
    → AsksFew (call cluster c next)
unfolding call all
call-AsksFew cluster c next few rest = rw few (answered (cluster c))
  where
    answered : (o : Option (AnswerOf c)) → AsksFew (after_answer o next)
    answered none = unfold after_answer in refl
    answered (some a) = unfold after_answer in rest a

if-AsksFew : (test : Bool) (x y : Handled) → AsksFew x → AsksFew y → AsksFew (if test then x else y)
if-AsksFew true x y few others = few
if-AsksFew false x y few others = others

module _ (s : Server) (cluster : Cluster) (r : Request) where
  pod_logs_handler-AsksFew : AsksFew (pod_logs_handler s cluster r)
  unfolding pod_logs_handler require_permission query_namespace asks_few_lines all
  pod_logs_handler-AsksFew = require-AsksFew _ _ _ (
      require_some-AsksFew _ _ _ λ ns. require-AsksFew _ _ _ (
        if-AsksFew (is_set r (codes "follow")) _ _
          (call-AsksFew cluster _ _ (requested_follow_log_tail-few r) λ stream. refl)
          (call-AsksFew cluster _ _ (requested_log_tail-few r) λ text. refl)))

  workload_logs_handler-AsksFew : AsksFew (workload_logs_handler s cluster r)
  unfolding workload_logs_handler require_permission query_namespace asks_few_lines all
  workload_logs_handler-AsksFew = require-AsksFew _ _ _ (
      require_some-AsksFew _ _ _ λ ns. require-AsksFew _ _ _ (
        if-AsksFew (is_set r (codes "follow")) _ _
          (call-AsksFew cluster _ _ (requested_follow_log_tail-few r)
            λ streams. require-AsksFew _ _ _ refl)
          (call-AsksFew cluster _ _ (requested_log_tail-few r) λ text. refl)))

  -- Whatever the request and the answers of the cluster, the handlers of logs make no call but for logs,
  -- and the number of lines that such a call names, for a pod or for each pod of a workload, is between 1
  -- and 10,000, or at most 10,000 when the logs are followed.
  pub logs_handlers-AsksFew :
      (all asks_few_lines (pod_logs_handler s cluster r).calls ≡ true)
      × (all asks_few_lines (workload_logs_handler s cluster r).calls ≡ true)
  logs_handlers-AsksFew = (pod_logs_handler-AsksFew, workload_logs_handler-AsksFew)
