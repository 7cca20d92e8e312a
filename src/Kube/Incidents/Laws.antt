-- ===== src/Kube/Incidents/Laws.antt =====
-- The restarts of a pod, and the one that is reported.
use beaverdeck.Base.{
  ℕ, ◌≡◌, refl, ap, ◌∙◌, ◌+◌, ◌||◌, Bool, ltb, ◌++◌, if◌then◌else◌, true, false, not, ◌&&◌, Option,
  some, List, [], ◌∷◌, all, leb, nat_eq, Bool-cases, inl, inr, arith,
}
use beaverdeck.Text.{Str, ◌==◌}
use beaverdeck.GoMap.{GoMap, lookup, put}
use beaverdeck.GoMap.Laws.{lookup-put}
use beaverdeck.Kube.Incidents.{
  RestartIncident, RestartedPod, ContainerStatus, count_restarts, status_restart_counts,
  count_or_zero, append_changed, restart_time, is_oom_killed, old_statuses, comes_first, focus,
  changes, detect_restart_incidents, is_evicted, was_evicted,
}
use beaverdeck.Kube.Incidents.Focus.{IsFirst, In, Focused, focus-Focused}

-- The restart count that a list of states gives a container: that of the last state of the name.
unfoldable pub count_in : ℕ → Str → List ContainerStatus → ℕ
count_in before name [] = before
count_in before name (status ∷ rest) =
    count_in (if status.name == name then status.restart_count else before) name rest

-- A container restarted since the old states, of which it may have none.
unfoldable pub has_restarted : List ContainerStatus → ContainerStatus → Bool
has_restarted old status = ltb (count_in 0 status.name old) status.restart_count

lookup-count_restarts :
    (name : Str) (out : GoMap ℕ) (statuses : List ContainerStatus)
    → count_or_zero (lookup name (count_restarts out statuses))
      ≡ count_in (count_or_zero (lookup name out)) name statuses
unfolding count_restarts count_in
lookup-count_restarts name out [] = refl
lookup-count_restarts name out (status ∷ rest) =
    lookup-count_restarts name (put status.name status.restart_count out) rest
    ∙ ap (λ n. count_in n name rest) found
  where
    found :
        count_or_zero (lookup name (put status.name status.restart_count out))
        ≡ (if status.name == name then status.restart_count else count_or_zero (lookup name out))
    found =
        rw (lookup-put status.name name status.restart_count out)
          (elim (Bool-cases (status.name == name)) [
            | inl same ↦ rw same refl
            | inr other ↦ rw other refl
          ])

-- The restart of a container of a pod.
abbrev pub restart_of : RestartedPod → ℕ → Bool → ContainerStatus → RestartIncident
restart_of pod now is_init status = record {
  pod = pod;
  container = status.name;
  is_init = is_init;
  restart_count = status.restart_count;
  terminated = status.last_terminated;
  evicted = false;
  at = restart_time now status.last_terminated;
}

-- The restarts among some states of a pod since the old states.
unfoldable pub restarts :
    RestartedPod → ℕ → Bool → List ContainerStatus → List ContainerStatus → List RestartIncident
restarts pod now is_init old [] = []
restarts pod now is_init old (status ∷ rest) =
    let others = restarts pod now is_init old rest in
    if has_restarted old status then restart_of pod now is_init status ∷ others else others

append_changed-restarts :
    (pod : RestartedPod) (now : ℕ) (is_init : Bool) (old statuses : List ContainerStatus)
    → append_changed pod now statuses (status_restart_counts old) is_init
      ≡ restarts pod now is_init old statuses
unfolding append_changed restarts has_restarted status_restart_counts count_in lookup count_restarts
    restart_time
append_changed-restarts pod now is_init old [] = refl
append_changed-restarts pod now is_init old (status ∷ rest) =
    elim (Bool-cases (ltb count status.restart_count)) [
      | inl grew ↦
          rw (lookup-count_restarts status.name [] old, more grew, grew)
            (ap (λ l. restart_of pod now is_init status ∷ l)
              (append_changed-restarts pod now is_init old rest))
      | inr same ↦
          rw (lookup-count_restarts status.name [] old, no_more same, same)
            (append_changed-restarts pod now is_init old rest)
    ]
  where
    count : ℕ
    count = count_in 0 status.name old

    more : ltb count status.restart_count ≡ true → leb status.restart_count count ≡ false
    more grew = ground (arith, grew)

    no_more : ltb count status.restart_count ≡ false → leb status.restart_count count ≡ true
    no_more same = ground (arith, same)

-- The restarts of all containers of a pod since an old state of the pod.
unfoldable pub all_restarts : Option RestartedPod → RestartedPod → ℕ → List RestartIncident
all_restarts old_pod pod now =
    restarts pod now false (old_statuses (λ p. p.statuses) old_pod) pod.statuses
    ++ restarts pod now true (old_statuses (λ p. p.init_statuses) old_pod) pod.init_statuses

-- How telling a restart is among those of one time: one out of memory before others, and one of a
-- regular container before one of an init container.
unfoldable pub weight : RestartIncident → ℕ
weight i = (if is_oom_killed i then 2 else 0) + (if i.is_init then 0 else 1)

-- A restart is later than another, or of the same time and at least as telling.
unfoldable pub leads : RestartIncident → RestartIncident → Bool
leads i j = ltb j.at i.at || (nat_eq j.at i.at && leb (weight j) (weight i))

comes_first-leads : (i j : RestartIncident) → comes_first j i ≡ false → leads i j ≡ true
unfolding comes_first leads weight
comes_first-leads i j h = ground (arith, h)

IsFirst-leads :
    (i : RestartIncident) (l : List RestartIncident) → IsFirst i l → all (leads i) l ≡ true
unfolding all
IsFirst-leads i [] first = refl
IsFirst-leads i (j ∷ l) first =
    let leading : leads i j ≡ true = comes_first-leads i j (ground (arith, first)) in
    ground (arith, leading, IsFirst-leads i l (ground (arith, first)))

-- What is reported of the restarts of a pod: nothing if there is none, else one of them, which leads all.
abbrev pub IsReport : List RestartIncident → List RestartIncident → Type 0
IsReport l [] = l ≡ []
IsReport l (i ∷ []) = In i l × (all (leads i) l ≡ true)
IsReport l (i ∷ j ∷ rest) = ⊥

Focused-IsReport : (l found : List RestartIncident) → Focused l found → IsReport l found
Focused-IsReport l [] none_there = none_there
Focused-IsReport l (i ∷ []) (member, first) = (member, IsFirst-leads i l first)
Focused-IsReport l (i ∷ j ∷ rest) absent = absent

changes-all_restarts :
    (old_pod : Option RestartedPod) (pod : RestartedPod) (now : ℕ)
    → changes old_pod pod now ≡ all_restarts old_pod pod now
unfolding changes all_restarts
changes-all_restarts old_pod pod now = rw (append_changed-restarts, append_changed-restarts) refl

-- A pod that is neither deleted nor newly evicted gives no incident if no container has a restart count
-- above that of the last state of its name in the old pod, or above 0 if there is none. Otherwise it
-- gives one, which is the restart of such a container: none of the others is later, and of those at
-- its time none is out of memory unless it is itself, and if that does not tell them apart, none is of
-- a regular container unless it is itself.
pub detect_restart_incidents-IsReport :
    (old_pod : Option RestartedPod) (pod : RestartedPod) (now : ℕ)
    → is_evicted pod && not (was_evicted old_pod) ≡ false
    → IsReport
        (all_restarts old_pod pod now)
        (detect_restart_incidents old_pod (some pod) false now)
unfolding detect_restart_incidents
detect_restart_incidents-IsReport old_pod pod now calm =
    rw (detect_restart_incidents, calm, ← changes-all_restarts old_pod pod now)
      (Focused-IsReport (changes old_pod pod now) (focus (changes old_pod pod now))
        (focus-Focused (changes old_pod pod now)))
