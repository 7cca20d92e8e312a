-- ===== src/Api/Pool/Sound.antt =====
-- What is said of the jobs and of the error of a pool of workers.
use beaverdeck.Base.{
  ℕ, ◌+◌, ◌≡◌, ◌⊎◌, refl, ap, Bool, true, false, not, Option, none, some, List, [], ◌∷◌, ◌++◌, map,
  all, any, count, arith, if◌then◌else◌,
}
use beaverdeck.Text.{Str, mem}
use beaverdeck.Text.Laws.{eq_self}
use beaverdeck.Api.Calls.{NamespacedList, list}
use beaverdeck.Api.Handling.{Cluster}
use beaverdeck.Api.Pool.{
  Phase, queued, taken, fetching, dropped, stored, Slot, Pool, is_queued, is_running, is_done,
}

-- The namespaces of the jobs.
abbrev pub names : List Slot → List Str
names slots = map (λ slot. slot.0) slots

pub names-change :
    (before after : List Slot) (ns : Str) (old new : Phase)
    → names (before ++ (ns, old) ∷ after) ≡ names (before ++ (ns, new) ∷ after)
names-change [] after ns old new = refl
names-change (slot ∷ before) after ns old new =
    ap (λ l. slot.0 ∷ l) (names-change before after ns old new)

pub running-change :
    (before after : List Slot) (slot : Slot)
    → count is_running (before ++ slot ∷ after)
      ≡ (if is_running slot then 1 else 0) + count is_running (before ++ after)
unfolding count
running-change [] after slot = refl
running-change (other ∷ before) after slot = omega (arith, running-change before after slot)

abbrev pub NoneQueued : List Slot → Type 0
NoneQueued slots = all (λ slot. not (is_queued slot)) slots ≡ true

pub NoneQueued-change :
    (before after : List Slot) (old new : Slot)
    → is_queued new ≡ false
    → NoneQueued (before ++ old ∷ after)
    → NoneQueued (before ++ new ∷ after)
unfolding all
NoneQueued-change [] after old new h none_there = ground (arith, h, none_there)
NoneQueued-change (slot ∷ before) after old new h none_there =
    ground
      (arith, none_there, NoneQueued-change before after old new h (ground (arith, none_there)))

pub mem-names :
    (before after : List Slot) (ns : Str) (phase : Phase)
    → mem ns (names (before ++ (ns, phase) ∷ after)) ≡ true
unfolding any
mem-names [] after ns phase = rw (eq_self ns) refl
mem-names (slot ∷ before) after ns phase = ground (arith, mem-names before after ns phase)

module _ (cluster : Cluster) (kind : NamespacedList) (error_text : Str → Str) where
  -- What the phase of a job says of the answer of the cluster; jobs are given up when the context is done.
  abbrev pub PhaseIsSound : Bool → Slot → Type 0
  PhaseIsSound done (ns, stored chunk) = cluster (list kind ns) ≡ some chunk
  PhaseIsSound done (ns, dropped) = done ≡ true
  PhaseIsSound done (ns, phase) = Unit {0}

  abbrev pub AreSound : Bool → List Slot → Type 0
  AreSound done [] = Unit {0}
  AreSound done (slot ∷ rest) = PhaseIsSound done slot × AreSound done rest

  PhaseIsSound-done : (done : Bool) (slot : Slot) → PhaseIsSound done slot → PhaseIsSound true slot
  PhaseIsSound-done done (ns, stored chunk) h = h
  PhaseIsSound-done done (ns, dropped) h = refl
  PhaseIsSound-done done (ns, queued) h = tt
  PhaseIsSound-done done (ns, taken) h = tt
  PhaseIsSound-done done (ns, fetching) h = tt

  pub AreSound-done : (done : Bool) (slots : List Slot) → AreSound done slots → AreSound true slots
  AreSound-done done [] h = tt
  AreSound-done done (slot ∷ rest) (h, hs) =
      (PhaseIsSound-done done slot h, AreSound-done done rest hs)

  pub AreSound-change :
      (done : Bool) (before after : List Slot) (old new : Slot)
      → PhaseIsSound done new
      → AreSound done (before ++ old ∷ after)
      → AreSound done (before ++ new ∷ after)
  AreSound-change done [] after old new h (_, hs) = (h, hs)
  AreSound-change done (slot ∷ before) after old new h (s, hs) =
      (s, AreSound-change done before after old new h hs)

  -- The error is that of a namespace which the cluster refuses, unless the request was cancelled.
  abbrev pub IsCause : List Str → Str → Type 0
  IsCause ns_list text =
      (ns : Str) × (mem ns ns_list ≡ true)
      × (cluster (list kind ns) ≡ none)
      × (text ≡ error_text ns)

  abbrev pub ErrorIsSound : List Str → Bool → Option Str → Type 0
  ErrorIsSound ns_list true first_err = Unit {0}
  ErrorIsSound ns_list false none = Unit {0}
  ErrorIsSound ns_list false (some text) = IsCause ns_list text

  -- What holds of a pool: its jobs and its error are sound, the wait group counts its workers, and while
  -- the context is not done, no worker has returned before the channel had no job.
  abbrev pub IsOk : List Str → ℕ → Pool → Type 0
  IsOk ns_list workers p =
      (names p.slots ≡ ns_list)
      × AreSound (is_done p.cancelled p.first_err) p.slots
      × ErrorIsSound ns_list p.cancelled p.first_err
      × (p.wait_group ≡ p.idle + count is_running p.slots)
      × ((p.wait_group ≡ workers) ⊎ ((is_done p.cancelled p.first_err ≡ true) ⊎ NoneQueued p.slots))
      × (p.closed ≡ true)
