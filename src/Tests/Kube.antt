-- ===== src/Tests/Kube.antt =====
-- The Kubernetes client on concrete pods, samples and ConfigMaps.
use beaverdeck.Base.{
  ℕ, ◌≡◌, ◌≤◌, ◌<◌, ◌⊎◌, ◌-◌, refl, true, false, Option, none, some, List, [], ◌∷◌, ◌++◌, nat_eq,
  ap, length, drop, is_some, if◌then◌else◌, arith, any,
}
use beaverdeck.Text.{
  Str, Str_discrete, codes, ◌==◌, mem, trim_space, trim_left, trim_right, is_space, is_control,
  to_lower, utf8,
}
use beaverdeck.Tests.Codec.{shift}
use beaverdeck.Api.Kinds.{custom_resource_crd_name, permission_delete_target}
use beaverdeck.Kube.Targets.{custom_resource_reference, delete_target_for_kind}
use beaverdeck.Kube.Targets.Agree.{permission_of, permission_delete_target-agrees}
use beaverdeck.Kube.Ring.{
  RestartMetricSample, RestartMetricRing, ring_capacity, new_ring, offer_usage, closest_usage,
}
use beaverdeck.Kube.Ring.Laws.{add_all, add_all-new_ring}
use beaverdeck.Kube.Ring.Nearest.{IsNearest, closest_usage-IsNearest}
use beaverdeck.Kube.Drain.{Pod, Answers, accepted, refused}
use beaverdeck.Kube.ResizeQueue.{
  TerminalResizeQueue, new_queue, push, push_step, starts, Reach, here, later,
}
use beaverdeck.Kube.ResizeQueue.Laws.{rank, Reach-goes_on}
use beaverdeck.Kube.Suppressions.{
  SuppressedInsightsRef, Stored, ListCodec, clean_suppressed_insight_key, is_bad_char,
  list_suppressed_insights, set_insight_suppressed, get_data, is_valid_ref, decode_keys,
}
use beaverdeck.Kube.Suppressions.RoundTrip.{ReadsBack, set_insight_suppressed-listed}
use beaverdeck.Kube.Incidents.{RestartIncident, RestartedPod, detect_restart_incidents}
use beaverdeck.Kube.Incidents.Laws.{IsReport, all_restarts, detect_restart_incidents-IsReport}
use beaverdeck.Kube.Dedupe.{restart_incident_key, Event, found, received, after_events}
use beaverdeck.Kube.Dedupe.Laws.{IsTidy, after_events-IsTidy}
use beaverdeck.Kube.Shell.{
  Command, candidates, exec_default_shell, IsFirstShell, exec_default_shell-IsFirstShell,
}

permission_delete_target-agrees_example :
    (custom_resource_reference (codes "Deployment") ≡ custom_resource_crd_name (codes "Deployment"))
    × (permission_delete_target (codes "Deployment") ≡ (
        if is_some (custom_resource_reference (codes "Deployment"))
        then some (codes "crds", false)
        else permission_of (delete_target_for_kind (codes "Deployment"))))
permission_delete_target-agrees_example = permission_delete_target-agrees (codes "Deployment")

abbrev sample : ℕ → RestartMetricSample
sample at = record {
  at = at;
  source = codes "metrics.k8s.io";
  containers = (codes "web", record { cpu_milli = at; memory_bytes = 1 }) ∷ [];
  container_times = [];
  pods = [];
  nodes = [];
  node_times = [];
}

abbrev samples : List RestartMetricSample
samples = sample 1 ∷ sample 2 ∷ sample 3 ∷ sample 4 ∷ sample 5 ∷ []

add_all-new_ring_example :
    (4 ≤ ring_capacity 10 10)
    × ((add_all samples (new_ring 10 10)).items
        ≡ drop (length samples - ring_capacity 10 10) samples)
add_all-new_ring_example = add_all-new_ring 10 10 samples

abbrev ring : RestartMetricRing
ring = record { items = samples; capacity = 7 }

closest_usage-IsNearest_example :
    IsNearest
      (offer_usage (codes "web") true)
      3
      4
      ring.items
      2
      (closest_usage 3 4 2 (codes "web") true ring)
closest_usage-IsNearest_example =
    closest_usage-IsNearest 3 4 2 (codes "web") true ring (omega arith)

abbrev pod_of : Str → List Str → Pod
pod_of name owners = record {
  namespace = codes "team";
  name = name;
  phase = codes "Running";
  annotations = [];
  owners = owners;
  volumes = [];
}

abbrev pods : List Pod
pods =
    pod_of (codes "web") (codes "ReplicaSet" ∷ [])
    ∷ pod_of (codes "agent") (codes "DaemonSet" ∷ [])
    ∷ pod_of (codes "alone") []
    ∷ []

abbrev answers : Answers
answers = record {
  node_unschedulable = some false;
  cordon_works = true;
  pods = some pods;
  evict = λ pod. if pod.name == codes "web" then accepted else refused (codes "no");
}

-- A push that has started and looked at the queue.
abbrev pushing : TerminalResizeQueue
pushing = push 80 24 new_queue

started : Reach new_queue pushing
started = later here (starts 80 24 refl refl)

Reach-goes_on_example :
    (length pushing.ch ≤ 4)
    × (pushing.panicked ≡ false)
    × (rank pushing.phase ≤ 4)
    × ((rank pushing.phase ≡ 0)
        ⊎ ((r : TerminalResizeQueue) × (push_step pushing ≡ some r)
            × (rank r.phase < rank pushing.phase)))
Reach-goes_on_example = Reach-goes_on pushing started

-- Strings as characters moved above 50, each string closed by 47.
unfoldable write_keys : List Str → Str
write_keys [] = []
write_keys (key ∷ keys) = shift key ++ write_keys keys

unfoldable add_char : ℕ → List Str → List Str
add_char c [] = []
add_char c (key ∷ keys) = (c ∷ key) ∷ keys

unfoldable read_keys : Str → List Str
read_keys [] = []
read_keys (c ∷ s) =
    let keys = read_keys s in if nat_eq c 47 then [] ∷ keys else add_char (c - 50) keys

read-shift :
    (key rest : Str) (keys : List Str)
    → read_keys rest ≡ keys
    → read_keys (shift key ++ rest) ≡ key ∷ keys
unfolding read_keys shift add_char
read-shift [] rest keys same = ap (λ k. [] ∷ k) same
read-shift (c ∷ key) rest keys same = ground (arith, read-shift key rest keys same)

read-write : (keys : List Str) → read_keys (write_keys keys) ≡ keys
unfolding write_keys read_keys
read-write [] = refl
read-write (key ∷ keys) = read-shift key (write_keys keys) keys (read-write keys)

abbrev drop_first : Str → Option (List Str)
drop_first [] = none
drop_first (c ∷ s) = some (read_keys s)

abbrev codec : ListCodec
codec = record { unmarshal = drop_first; marshal = λ keys. 33 ∷ write_keys keys }

codec-ReadsBack : ReadsBack codec
unfolding trim_space trim_right trim_left is_space
codec-ReadsBack keys = (ap some (read-write keys), refl)

abbrev ref : SuppressedInsightsRef
ref = record { namespace = codes "beaver"; name = codes "settings"; key = codes "suppressed" }

abbrev stored : Stored
stored = record { config_map = none; reads = true; writes = true }

set_insight_suppressed-listed_example :
    (after : Stored) × (set_insight_suppressed codec ref (codes " cpu ") true stored ≡ some after)
    × ((keys : List Str) × (list_suppressed_insights codec ref after ≡ some keys)
        × ((j : Str) → mem j keys ≡ (if j == codes "cpu" then true else mem j [])))
unfolding clean_suppressed_insight_key list_suppressed_insights get_data is_valid_ref decode_keys
    trim_space trim_right trim_left is_space is_bad_char is_control utf8 any
set_insight_suppressed-listed_example =
    set_insight_suppressed-listed codec ref (codes " cpu ") (codes "cpu") true stored []
      codec-ReadsBack refl refl refl

abbrev restarted : RestartedPod
restarted = record {
  uid = codes "1";
  reason = codes "";
  containers = codes "web" ∷ [];
  statuses = record { name = codes "web"; restart_count = 2; last_terminated = none } ∷ [];
  init_statuses = [];
}

detect_restart_incidents-IsReport_example :
    IsReport
      (all_restarts none restarted 9)
      (detect_restart_incidents none (some restarted) false 9)
unfolding Str_discrete to_lower
detect_restart_incidents-IsReport_example = detect_restart_incidents-IsReport none restarted 9 refl

abbrev probe : Command → Option Str
probe [] = none
probe (program ∷ words) =
    if program == codes "/bin/ash" then none else some (codes "no such file or directory")

exec_default_shell-IsFirstShell_example :
    IsFirstShell probe [] candidates (exec_default_shell probe)
exec_default_shell-IsFirstShell_example = exec_default_shell-IsFirstShell probe

abbrev incident : RestartIncident
incident = record {
  pod = restarted;
  container = codes "web";
  is_init = false;
  restart_count = 2;
  terminated = none;
  evicted = false;
  at = 9;
}

-- The UID, the count and the time one after the other.
abbrev key_of : RestartIncident → Str
key_of =
    restart_incident_key (λ uid count finished evicted. uid ++ count ∷ finished ∷ [])
      (λ nanos. nanos)

abbrev incidents : List Event
incidents = received ∷ found incident ∷ found incident ∷ []

after_events-IsTidy_example : IsTidy (after_events key_of incidents)
after_events-IsTidy_example = after_events-IsTidy key_of incidents
