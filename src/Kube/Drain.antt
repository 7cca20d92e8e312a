-- ===== src/Kube/Drain.antt =====
-- internal/kube/operations.go: DrainNode and the tests of the pods that it leaves alone.
pub mod Laws
use beaverdeck.Base.{
  ℕ, Bool, true, false, not, ◌&&◌, ◌||◌, Option, none, some, List, [], ◌∷◌, ◌++◌, any, is_empty,
  length, ltb, if◌then◌else◌,
}
use beaverdeck.Text.{Str, codes, ◌==◌, equal_fold, less}
use beaverdeck.GoMap.{GoMap, lookup}
use beaverdeck.GoMap.Sorted.{sort_by}

-- The volumes of a pod: whether the volume is an emptyDir, and whether it is a hostPath.
pub record Volume : Type 0 where
  pub empty_dir : Bool
  pub host_path : Bool

-- What DrainNode reads of a corev1.Pod; the owners are the kinds of the owner references.
pub record Pod : Type 0 where
  pub namespace : Str
  pub name : Str
  pub phase : Str
  pub annotations : GoMap Str
  pub owners : List Str
  pub volumes : List Volume

pub record NodeDrainResult : Type 0 where
  pub cordoned : Bool
  pub evicted : List Str
  pub skipped : List Str
  pub failed : List Str

-- The answer of the cluster to an eviction: an error has a text.
pub data Eviction : Type 0 where
  accepted not_found : Eviction
  refused : Str → Eviction

-- What DrainNode reports besides its result.
pub data DrainError : Type 0 where
  cluster_failed : DrainError
  evictions_failed : ℕ → DrainError

unfoldable pub pod_owned_by_kind : Pod → Str → Bool
pod_owned_by_kind pod kind = any (λ owner. equal_fold owner kind) pod.owners

unfoldable pub pod_has_unsafe_local_storage : Pod → Bool
pod_has_unsafe_local_storage pod = any (λ volume. volume.empty_dir || volume.host_path) pod.volumes

unfoldable pub pod_ref : Pod → Str
pod_ref pod = pod.namespace ++ b'/' ∷ pod.name

-- m[key] of a map of strings
abbrev pub value_or_empty : Option Str → Str
value_or_empty none = []
value_or_empty (some value) = value

unfoldable pub is_completed : Pod → Bool
is_completed pod = pod.phase == codes "Succeeded" || pod.phase == codes "Failed"

unfoldable pub is_mirror : Pod → Bool
is_mirror pod =
    not (is_empty (value_or_empty (lookup (codes "kubernetes.io/config.mirror") pod.annotations)))

-- The switch over the cases in which a pod is skipped: what is added to its name.
unfoldable pub skip_reason : Bool → Pod → Option Str
skip_reason force pod =
    if is_completed pod
    then some (codes " (completed pod)")
    else if is_mirror pod
    then some (codes " (mirror/static pod)")
    else if pod_owned_by_kind pod (codes "DaemonSet")
    then some (codes " (DaemonSet-managed)")
    else if not force && pod_has_unsafe_local_storage pod
    then some (codes " (local storage)")
    else if not force && is_empty pod.owners
    then some (codes " (unmanaged pod)")
    else none

unfoldable pub note_eviction : Str → Eviction → NodeDrainResult → NodeDrainResult
note_eviction ref accepted result = record result { evicted = result.evicted ++ ref ∷ [] }
note_eviction ref not_found result = record result {
  skipped = result.skipped ++ (ref ++ codes " (already gone)") ∷ [];
}
note_eviction ref (refused text) result = record result {
  failed = result.failed ++ (ref ++ codes " (" ++ text ++ codes ")") ∷ [];
}

unfoldable pub by_name : Pod → Pod → Bool
by_name a b =
    if not (a.namespace == b.namespace) then less a.namespace b.namespace else less a.name b.name

-- The answers of the cluster: whether the node is unschedulable already, whether cordoning it works,
-- the pods on the node, and the answer to each eviction.
pub record Answers : Type 0 where
  pub node_unschedulable : Option Bool
  pub cordon_works : Bool
  pub pods : Option (List Pod)
  pub evict : Pod → Eviction

module _ (force : Bool) (evict : Pod → Eviction) where
  unfoldable pub drain_pod : Pod → NodeDrainResult → NodeDrainResult
  drain_pod pod result = elim (skip_reason force pod) [
    | some reason ↦ record result { skipped = result.skipped ++ (pod_ref pod ++ reason) ∷ [] }
    | none ↦ note_eviction (pod_ref pod) (evict pod) result
  ]

  -- The loop over the sorted pods.
  unfoldable pub drain_pods : List Pod → NodeDrainResult → NodeDrainResult
  drain_pods [] result = result
  drain_pods (pod ∷ rest) result = drain_pods rest (drain_pod pod result)

abbrev pub nothing_drained : Bool → NodeDrainResult
nothing_drained cordoned = record { cordoned = cordoned; evicted = []; skipped = []; failed = [] }

unfoldable pub drain_error : NodeDrainResult → Option DrainError
drain_error result =
    if ltb 0 (length result.failed) then some (evictions_failed (length result.failed)) else none

unfoldable pub drain_listed : Bool → Answers → NodeDrainResult × Option DrainError
drain_listed force answers = elim answers.pods [
  | none ↦ (nothing_drained true, some cluster_failed)
  | some pods ↦
      let result = drain_pods force answers.evict (sort_by by_name pods) (nothing_drained true) in
      (result, drain_error result)
]

unfoldable pub drain_node : Bool → Answers → NodeDrainResult × Option DrainError
drain_node force answers = elim answers.node_unschedulable [
  | none ↦ (nothing_drained false, some cluster_failed)
  | some unschedulable ↦
      if not unschedulable && not answers.cordon_works
      then (nothing_drained false, some cluster_failed)
      else drain_listed force answers
]
