-- ===== src/Kube/Ring.antt =====
-- internal/kube/restart_diagnostics.go: the samples of the metrics that a restart is explained from. A
-- time is its nanoseconds, 0 for Go's zero time; two times differ by less than 2^63 nanoseconds. A
-- duration that is not positive is 0. Each operation is one critical section.
pub mod Laws
pub mod Nearest
use beaverdeck.Base.{
  ℕ, ◌+◌, ◌-◌, ◌*◌, ◌/◌, ◌^◌, Bool, true, false, not, ◌&&◌, Option, none, some, List, [], ◌∷◌, ◌++◌,
  length, drop, ltb, leb, nat_eq, if◌then◌else◌,
}
use beaverdeck.Text.{Str}
use beaverdeck.GoMap.{GoMap, lookup}

pub record RestartDiagnosticsOptions : Type 0 where
  pub interval : ℕ
  pub history : ℕ
  pub max_log_lines : ℕ
  pub max_log_bytes_per_container : ℕ
  pub max_total_log_bytes : ℕ
  pub max_events : ℕ

-- time.Second
abbrev pub second : ℕ
second = 1000000000

abbrev pub or_default : ℕ → ℕ → ℕ
or_default value default = if nat_eq value 0 then default else value

unfoldable pub with_defaults : RestartDiagnosticsOptions → RestartDiagnosticsOptions
with_defaults o = record {
  interval = or_default o.interval (10 * second);
  history = if ltb o.history (300 * second) then 300 * second else o.history;
  max_log_lines = or_default o.max_log_lines 100;
  max_log_bytes_per_container = or_default o.max_log_bytes_per_container 32768;
  max_total_log_bytes = or_default o.max_total_log_bytes 131072;
  max_events = or_default o.max_events 20;
}

pub record UsageValues : Type 0 where
  pub cpu_milli : ℕ
  pub memory_bytes : ℕ

pub record DiagnosticPodMetric : Type 0 where
  pub namespace : Str
  pub pod : Str
  pub node : Str
  pub sampled_at : ℕ
  pub usage : UsageValues

pub record RestartMetricSample : Type 0 where
  pub at : ℕ
  pub source : Str
  pub containers : GoMap UsageValues
  pub container_times : GoMap ℕ
  pub pods : GoMap DiagnosticPodMetric
  pub nodes : GoMap UsageValues
  pub node_times : GoMap ℕ

pub record RestartMetricRing : Type 0 where
  pub items : List RestartMetricSample
  pub capacity : ℕ

unfoldable pub ring_capacity : ℕ → ℕ → ℕ
ring_capacity history interval =
    let capacity = history / interval + 3 in if ltb capacity 4 then 4 else capacity

unfoldable pub new_ring : ℕ → ℕ → RestartMetricRing
new_ring history interval = record { items = []; capacity = ring_capacity history interval }

unfoldable pub add : RestartMetricSample → RestartMetricRing → RestartMetricRing
add sample r =
    if nat_eq (length r.items) r.capacity
    then record r { items = drop 1 r.items ++ sample ∷ [] }
    else record r { items = r.items ++ sample ∷ [] }

-- The loop from the last item down; `none` is not found.
unfoldable pub last_at_or_before : ℕ → List RestartMetricSample → Option RestartMetricSample
last_at_or_before target [] = none
last_at_or_before target (sample ∷ rest) = elim (last_at_or_before target rest) [
  | some later ↦ some later
  | none ↦ if ltb target sample.at then none else some sample
]

unfoldable pub closest_at_or_before : ℕ → RestartMetricRing → Option RestartMetricSample
closest_at_or_before target r = last_at_or_before target r.items

abbrev pub distance : ℕ → ℕ → ℕ
distance a b = (a - b) + (b - a)

-- The best item so far and its distance.
pub record Best {ℓ} (A : Type ℓ) : Type ℓ where
  pub found : Option A
  pub best_distance : ℕ

abbrev pub nothing_yet {ℓ} : {A : Type ℓ} → Best A
nothing_yet = record { found = none; best_distance = 2 ^ 63 - 1 }

-- One round of the loops: what the item offers and when it was sampled, `none` to pass it over.
unfoldable pub consider {ℓ} : {A : Type ℓ} → ℕ → ℕ → Option (A × ℕ) → Best A → Best A
consider target not_after none best = best
consider target not_after (some (offer, sampled_at)) best =
    if ltb not_after sampled_at
    then best
    else if ltb (distance sampled_at target) best.best_distance
    then record { found = some offer; best_distance = distance sampled_at target }
    else best

unfoldable pub nearest {ℓ} :
    {A : Type ℓ}
    → (RestartMetricSample → Option (A × ℕ))
    → ℕ
    → ℕ
    → List RestartMetricSample
    → Best A
    → Best A
nearest offer target not_after [] best = best
nearest offer target not_after (sample ∷ rest) best =
    nearest offer target not_after rest (consider target not_after (offer sample) best)

-- `found && bestDistance <= tolerance`
unfoldable pub within {ℓ} : {A : Type ℓ} → ℕ → Best A → Option A
within tolerance best = if leb best.best_distance tolerance then best.found else none

abbrev pub sampled_or : ℕ → Option ℕ → ℕ
sampled_or fallback none = fallback
sampled_or fallback (some t) = if nat_eq t 0 then fallback else t

unfoldable pub offer_sample : RestartMetricSample → Option (RestartMetricSample × ℕ)
offer_sample sample = some (sample, sample.at)

unfoldable pub closest : ℕ → ℕ → ℕ → RestartMetricRing → Option RestartMetricSample
closest target not_after tolerance r =
    within tolerance (nearest offer_sample target not_after r.items nothing_yet)

-- The usage of a container or of a node, with its time and its source.
unfoldable pub offer_usage : Str → Bool → RestartMetricSample → Option ((UsageValues × ℕ × Str) × ℕ)
offer_usage key container sample =
    let usages = (if container then sample.containers else sample.nodes) in
    let times = (if container then sample.container_times else sample.node_times) in
    let sampled_at = sampled_or sample.at (lookup key times) in
    elim (lookup key usages) [
      | none ↦ none
      | some usage ↦ some ((usage, sampled_at, sample.source), sampled_at)
    ]

unfoldable pub closest_usage :
    ℕ → ℕ → ℕ → Str → Bool → RestartMetricRing → Option (UsageValues × ℕ × Str)
closest_usage target not_after tolerance key container r =
    within tolerance (nearest (offer_usage key container) target not_after r.items nothing_yet)

unfoldable pub offer_pod_sample : Str → RestartMetricSample → Option (RestartMetricSample × ℕ)
offer_pod_sample key sample = elim (lookup key sample.pods) [
  | none ↦ none
  | some pod ↦ some (sample, sampled_or sample.at (some pod.sampled_at))
]

unfoldable pub closest_pod_sample : ℕ → ℕ → ℕ → Str → RestartMetricRing → Option RestartMetricSample
closest_pod_sample target not_after tolerance key r =
    within tolerance (nearest (offer_pod_sample key) target not_after r.items nothing_yet)
