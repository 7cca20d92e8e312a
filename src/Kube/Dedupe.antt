-- ===== src/Kube/Dedupe.antt =====
-- internal/kube/restart_diagnostics.go: the queue of incidents, enqueue with its memory of the incidents
-- queued, and the workers that receive from the queue. One goroutine of the informer calls enqueue, so
-- that a call is one step; a worker that receives meanwhile does so before or after it.
pub mod Laws
use beaverdeck.Base.{
  ℕ, ◌+◌, ◌%◌, ◌^◌, Bool, Option, none, some, List, [], ◌∷◌, ◌++◌, length, ltb, if◌then◌else◌,
}
use beaverdeck.Text.{Str, mem}
use beaverdeck.Kube.Incidents.{RestartIncident, RestartedPod, ContainerStatus, Terminated}
use beaverdeck.Kube.Suppressions.{without}

abbrev pub restart_diagnostic_queue_size : ℕ
restart_diagnostic_queue_size = 128

abbrev pub restart_diagnostic_dedupe_size : ℕ
restart_diagnostic_dedupe_size = 4096

-- The parts of RestartDiagnostics that enqueue and the workers share. `dedupe` is a set.
pub record RestartDiagnostics : Type 0 where
  pub queue : List RestartIncident
  pub dedupe : List Str
  pub dedupe_order : List Str

-- The sum of an int32, with its wrap-around.
unfoldable pub add_restarts : ℕ → List ContainerStatus → ℕ
add_restarts total [] = total
add_restarts total (status ∷ rest) = add_restarts ((total + status.restart_count) % 2 ^ 32) rest

unfoldable pub pod_restart_count : RestartedPod → ℕ
pod_restart_count pod = add_restarts (add_restarts 0 pod.statuses) pod.init_statuses

-- `format` is fmt.Sprintf for "%s/%d/%d/%t", on the bit patterns of an int32 and an int64; `unix_nano`
-- is the method of time.Time.
module _ (format : Str → ℕ → ℕ → Bool → Str) (unix_nano : ℕ → ℕ) where
  unfoldable pub finished_nanos : Option Terminated → ℕ
  finished_nanos none = 0
  finished_nanos (some terminated) = unix_nano terminated.finished_at

  unfoldable pub restart_incident_key : RestartIncident → Str
  restart_incident_key incident =
      format incident.pod.uid (pod_restart_count incident.pod) (finished_nanos incident.terminated)
        incident.evicted

-- What enqueue does after a send: the oldest key is forgotten when there are too many.
unfoldable pub forget_oldest : RestartDiagnostics → List Str → RestartDiagnostics
forget_oldest d [] = d
forget_oldest d (oldest ∷ order) = record d {
  dedupe = without oldest d.dedupe;
  dedupe_order = order;
}

unfoldable pub remember : Str → RestartDiagnostics → RestartDiagnostics
remember key d =
    let order = d.dedupe_order ++ key ∷ [] in
    if ltb restart_diagnostic_dedupe_size (length order)
    then forget_oldest d order
    else record d { dedupe_order = order }

unfoldable pub enqueue :
    (RestartIncident → Str) → RestartIncident → RestartDiagnostics → RestartDiagnostics
enqueue key_of incident d =
    let key = key_of incident in
    let noted = record d { dedupe = d.dedupe ++ key ∷ [] } in
    if mem key d.dedupe
    then d
    else if ltb (length d.queue) restart_diagnostic_queue_size
    then remember key (record noted { queue = d.queue ++ incident ∷ [] })
    else record noted { dedupe = without key noted.dedupe }

-- A worker receives an incident.
unfoldable pub receive : RestartDiagnostics → RestartDiagnostics
receive d = go d.queue
  where
    go : List RestartIncident → RestartDiagnostics
    go [] = d
    go (incident ∷ rest) = record d { queue = rest }

pub data Event : Type 0 where
  found : RestartIncident → Event
  received : Event

unfoldable pub after_event :
    (RestartIncident → Str) → Event → RestartDiagnostics → RestartDiagnostics
after_event key_of (found incident) d = enqueue key_of incident d
after_event key_of received d = receive d

abbrev pub empty : RestartDiagnostics
empty = record { queue = []; dedupe = []; dedupe_order = [] }

-- The state after some events, the last one first.
unfoldable pub after_events : (RestartIncident → Str) → List Event → RestartDiagnostics
after_events key_of [] = empty
after_events key_of (event ∷ earlier) = after_event key_of event (after_events key_of earlier)
