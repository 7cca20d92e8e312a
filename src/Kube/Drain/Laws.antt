-- ===== src/Kube/Drain/Laws.antt =====
-- Where a drain reports each pod.
use beaverdeck.Base.{
  ◌≡◌, Bool, Option, not, ◌&&◌, ◌||◌, none, some, List, [], ◌∷◌, ◌++◌, is_empty, if◌then◌else◌,
}
use beaverdeck.Text.{Str, codes}
use beaverdeck.Kube.Drain.{
  Pod, NodeDrainResult, Eviction, accepted, not_found, refused, pod_owned_by_kind,
  pod_has_unsafe_local_storage, pod_ref, is_completed, is_mirror, skip_reason, value_or_empty,
}

-- The pods that a drain may evict: neither finished, nor of the node itself, nor of a DaemonSet, and
-- without force only those that have an owner and no storage on the node.
unfoldable pub may_evict : Bool → Pod → Bool
may_evict force pod =
    not (is_completed pod)
    && not (is_mirror pod)
    && not (pod_owned_by_kind pod (codes "DaemonSet"))
    && (force || (not (pod_has_unsafe_local_storage pod) && not (is_empty pod.owners)))

-- Where a drain reports a pod: the pods that were evicted, those that were left alone or are gone, and
-- those whose eviction failed, each with what is said of it.
unfoldable pub evicted_as : Bool → (Pod → Eviction) → Pod → Option Str
evicted_as force evict pod =
    if may_evict force pod
    then elim (evict pod) [ accepted ↦ some (pod_ref pod) | not_found ↦ none | refused text ↦ none ]
    else none

unfoldable pub skipped_as : Bool → (Pod → Eviction) → Pod → Option Str
skipped_as force evict pod =
    if may_evict force pod
    then elim (evict pod) [
      | accepted ↦ none
      | not_found ↦ some (pod_ref pod ++ codes " (already gone)")
      | refused text ↦ none
    ]
    else some (pod_ref pod ++ value_or_empty (skip_reason force pod))

unfoldable pub failed_as : Bool → (Pod → Eviction) → Pod → Option Str
failed_as force evict pod =
    if may_evict force pod
    then elim (evict pod) [
      | accepted ↦ none
      | not_found ↦ none
      | refused text ↦ some (pod_ref pod ++ codes " (" ++ text ++ codes ")")
    ]
    else none

-- What is said of the items of a list, in their order.
unfoldable pub reports {ℓ} : {A : Type ℓ} → (A → Option Str) → List A → List Str
reports say [] = []
reports say (x ∷ rest) =
    let others = reports say rest in elim (say x) [ none ↦ others | some line ↦ line ∷ others ]

abbrev one {ℓ} : {A : Type ℓ} → (A → Option Str) → A → List Str
one say x = reports say (x ∷ [])

-- The three lists of a result after some pods.
abbrev Reports : Bool → (Pod → Eviction) → List Pod → NodeDrainResult → NodeDrainResult → Type 0
Reports force evict pods before after =
    (after.evicted ≡ before.evicted ++ reports (evicted_as force evict) pods)
    × (after.skipped ≡ before.skipped ++ reports (skipped_as force evict) pods)
    × (after.failed ≡ before.failed ++ reports (failed_as force evict) pods)
