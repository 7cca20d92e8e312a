-- ===== src/Tests/Pool.antt =====
-- The pool of workers with two namespaces, one of which the cluster refuses.
use beaverdeck.Base.{
  ℕ, ◌+◌, ◌*◌, ◌≡◌, ◌≤◌, ◌⊎◌, refl, true, false, Option, none, some, List, [], ◌∷◌, ◌++◌, all,
  count, length, if◌then◌else◌,
}
use beaverdeck.Text.{Str, Str_discrete, codes, ◌==◌}
use beaverdeck.Api.Calls
use beaverdeck.Api.Calls.{ListItem, NamespacedList}
use beaverdeck.Api.Handling.{Cluster, success, items, finish}
use beaverdeck.Api.Lists.{fetch_all}
use beaverdeck.Api.Pool.{
  Pool, Phase, queued, taken, fetching, stored, dropped, start, worker_count, Reach, here, later,
  takes, works, returns, work, note_error, idle_after, wait_group_after, after_fetch, is_running,
  is_queued, is_done, IsFinished, reply_of,
}
use beaverdeck.Api.Pool.Laws.{Agrees, reply_of-fetch_all}
use beaverdeck.Api.Pool.Ends.{steps, is_stored, WorkerSteps, Reach-ends}

-- The cluster knows one of the two namespaces, which has no workloads.
cluster : Cluster
cluster (Calls.list kind ns) = if ns == codes "a" then some [] else none
cluster call = none

abbrev both : List Str
both = codes "a" ∷ codes "b" ∷ []

abbrev pool : Phase → Phase → ℕ → ℕ → Option Str → Pool
pool a b idle wait_group first_err = record {
  slots = (codes "a", a) ∷ (codes "b", b) ∷ [];
  closed = true;
  idle = idle;
  wait_group = wait_group;
  first_err = first_err;
  cancelled = false;
}

abbrev error_text : Str → Str
error_text ns = ns ++ codes " refused"

abbrev last : Pool
last = pool (stored []) dropped 0 0 (some (error_text (codes "b")))

-- Both jobs are taken, the second fails, the first still ends, and its worker returns.
run : Reach cluster Calls.workloads error_text (start both) last
unfolding start worker_count all is_queued is_running work note_error idle_after wait_group_after
    after_fetch cluster Str_discrete
run =
    later
      (later
        (later
          (later
            (later
              (later
                (later here (takes [] ((codes "b", queued) ∷ []) (codes "a") 1 refl refl refl refl))
                (takes ((codes "a", taken) ∷ []) [] (codes "b") 0 refl refl refl refl))
              (works none [] ((codes "b", taken) ∷ []) (codes "a", taken) refl refl refl))
            (works none ((codes "a", fetching) ∷ []) [] (codes "b", taken) refl refl refl))
          (works none ((codes "a", fetching) ∷ []) [] (codes "b", fetching) refl refl refl))
        (works none [] ((codes "b", dropped) ∷ []) (codes "a", fetching) refl refl refl))
      (returns 0 refl refl refl refl)

abbrev same_list : List ListItem → List ListItem
same_list found = found

reply_of-fetch_all_example :
    Agrees cluster Calls.workloads error_text both
      (reply_of same_list last)
      (fetch_all cluster Calls.workloads both []
        λ found. finish (success (items (same_list found)))).reply
reply_of-fetch_all_example =
    reply_of-fetch_all cluster Calls.workloads error_text both same_list last refl run refl refl

Reach-ends_example :
    (count is_running last.slots ≤ 8)
    × (steps cluster Calls.workloads error_text run ≤ 3 * length both + worker_count both + 1)
    × ((IsFinished last
          × ((is_done last.cancelled last.first_err ≡ true) ⊎ (all is_stored last.slots ≡ true)))
        ⊎ WorkerSteps cluster Calls.workloads error_text last)
Reach-ends_example = Reach-ends cluster Calls.workloads error_text both last run refl
