-- ===== src/Kube/Incidents.antt =====
-- internal/kube/restart_diagnostics.go: the incident that a change of a pod is, if it is one. A time is
-- its nanoseconds, 0 for Go's zero time; a restart count is never negative.
pub mod Focus
pub mod Laws
use beaverdeck.Base.{
  ℕ, Bool, true, false, not, ◌&&◌, Option, none, some, List, [], ◌∷◌, ◌++◌, take, length, ltb, leb,
  nat_eq, if◌then◌else◌,
}
use beaverdeck.Text.{Str, codes, ◌==◌, equal_fold}
use beaverdeck.GoMap.{GoMap, lookup, put}
use beaverdeck.GoMap.Sorted.{sort_by}

pub record Terminated : Type 0 where
  pub reason : Str
  pub finished_at : ℕ

pub record ContainerStatus : Type 0 where
  pub name : Str
  pub restart_count : ℕ
  pub last_terminated : Option Terminated

-- What the code reads of a corev1.Pod; the containers are the names of its Spec.Containers.
pub record RestartedPod : Type 0 where
  pub uid : Str
  pub reason : Str
  pub containers : List Str
  pub statuses : List ContainerStatus
  pub init_statuses : List ContainerStatus

pub record RestartIncident : Type 0 where
  pub pod : RestartedPod
  pub container : Str
  pub is_init : Bool
  pub restart_count : ℕ
  pub terminated : Option Terminated
  pub evicted : Bool
  pub at : ℕ

-- The loop of statusRestartCounts.
unfoldable pub count_restarts : GoMap ℕ → List ContainerStatus → GoMap ℕ
count_restarts out [] = out
count_restarts out (status ∷ rest) = count_restarts (put status.name status.restart_count out) rest

unfoldable pub status_restart_counts : List ContainerStatus → GoMap ℕ
status_restart_counts statuses = count_restarts [] statuses

-- previous[name], 0 for a name that is not there
abbrev pub count_or_zero : Option ℕ → ℕ
count_or_zero none = 0
count_or_zero (some n) = n

abbrev pub is_evicted : RestartedPod → Bool
is_evicted pod = equal_fold pod.reason (codes "Evicted")

abbrev pub was_evicted : Option RestartedPod → Bool
was_evicted none = false
was_evicted (some pod) = is_evicted pod

unfoldable pub find_container_status : Str → List ContainerStatus → Option ContainerStatus
find_container_status name [] = none
find_container_status name (status ∷ rest) =
    if status.name == name then some status else find_container_status name rest

abbrev pub first_or : Str → List Str → Str
first_or default [] = default
first_or default (name ∷ rest) = name

-- The incident of an eviction, with what the status of the container adds.
unfoldable pub eviction_incident : RestartedPod → ℕ → Str → Option ContainerStatus → RestartIncident
eviction_incident pod now container status = record {
  pod = pod;
  container = container;
  is_init = false;
  restart_count = elim status [ none ↦ 0 | some found ↦ found.restart_count ];
  terminated = elim status [ none ↦ none | some found ↦ found.last_terminated ];
  evicted = true;
  at = now;
}

unfoldable pub eviction_incidents : RestartedPod → ℕ → List RestartIncident
eviction_incidents pod now =
    let container = first_or (codes "pod") pod.containers in
    eviction_incident pod now container (find_container_status container pod.statuses) ∷ []

-- The time of a restart: when the container ended, if that is known.
unfoldable pub restart_time : ℕ → Option Terminated → ℕ
restart_time now none = now
restart_time now (some t) = if nat_eq t.finished_at 0 then now else t.finished_at

-- The closure appendChanged.
unfoldable pub append_changed :
    RestartedPod → ℕ → List ContainerStatus → GoMap ℕ → Bool → List RestartIncident
append_changed pod now [] previous is_init = []
append_changed pod now (status ∷ rest) previous is_init =
    let others = append_changed pod now rest previous is_init in
    if leb status.restart_count (count_or_zero (lookup status.name previous))
    then others
    else record {
      pod = pod;
      container = status.name;
      is_init = is_init;
      restart_count = status.restart_count;
      terminated = status.last_terminated;
      evicted = false;
      at = restart_time now status.last_terminated;
    }
      ∷ others

unfoldable pub is_oom_killed : RestartIncident → Bool
is_oom_killed incident = elim incident.terminated [
  | none ↦ false
  | some t ↦ equal_fold t.reason (codes "OOMKilled")
]

-- The order of the incidents of one pod: the latest first, then those out of memory, then those of
-- regular containers.
unfoldable pub comes_first : RestartIncident → RestartIncident → Bool
comes_first i j =
    if not (nat_eq i.at j.at)
    then ltb j.at i.at
    else if is_oom_killed i
    then (if is_oom_killed j then not i.is_init && j.is_init else true)
    else if is_oom_killed j
    then false
    else not i.is_init && j.is_init

abbrev pub old_statuses :
    (RestartedPod → List ContainerStatus) → Option RestartedPod → List ContainerStatus
old_statuses of none = []
old_statuses of (some pod) = of pod

-- The restarts of all containers since the old pod.
unfoldable pub changes : Option RestartedPod → RestartedPod → ℕ → List RestartIncident
changes old_pod pod now =
    append_changed pod now pod.statuses
      (status_restart_counts (old_statuses (λ p. p.statuses) old_pod)) false
    ++ append_changed pod now pod.init_statuses
        (status_restart_counts (old_statuses (λ p. p.init_statuses) old_pod)) true

unfoldable pub focus : List RestartIncident → List RestartIncident
focus incidents =
    if leb (length incidents) 1 then incidents else take 1 (sort_by comes_first incidents)

unfoldable pub detect_restart_incidents :
    Option RestartedPod → Option RestartedPod → Bool → ℕ → List RestartIncident
detect_restart_incidents old_pod none deleted now = []
detect_restart_incidents old_pod (some pod) deleted now =
    if deleted
    then (if is_evicted pod then eviction_incidents pod now else [])
    else if is_evicted pod && not (was_evicted old_pod)
    then eviction_incidents pod now
    else focus (changes old_pod pod now)
