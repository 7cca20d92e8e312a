-- ===== src/Api/Pool.antt =====
-- internal/api/resource_handlers.go: the pool of workers with which writeNamespacedList asks for the
-- objects of several namespaces at once, as steps of its goroutines.
use beaverdeck.Base.{
  ℕ, suc, ◌+◌, ◌-◌, ◌≡◌, Bool, true, false, not, ◌&&◌, ◌||◌, Option, none, some, List, [], ◌∷◌,
  ◌++◌, map, all, length, ltb, is_some, if◌then◌else◌,
}
use beaverdeck.Text.{Str}
use beaverdeck.Api.Calls.{ListItem, NamespacedList, list}
use beaverdeck.Api.Handling.{Cluster, Body, items}
pub mod Sound
pub mod Kept
pub mod Laws
pub mod Ends

-- How far the job of a namespace is: in the channel, taken by a worker, at the cluster, in its chunk, or
-- given up.
pub data Phase : Type 0 where
  queued taken fetching dropped : Phase
  stored : List ListItem → Phase

abbrev pub Slot : Type 0
Slot = Str × Phase

-- The jobs in the order of their indices; whether the channel of the jobs is closed; the workers that wait
-- for a job and those that have not returned, which the wait group counts; the first error; and whether
-- the context of the request is cancelled.
pub record Pool : Type 0 where
  pub slots : List Slot
  pub closed : Bool
  pub idle : ℕ
  pub wait_group : ℕ
  pub first_err : Option Str
  pub cancelled : Bool

abbrev pub max_namespace_list_concurrency : ℕ
max_namespace_list_concurrency = 8

unfoldable pub worker_count : List Str → ℕ
worker_count ns_list =
    if ltb (length ns_list) max_namespace_list_concurrency
    then length ns_list
    else max_namespace_list_concurrency

abbrev pub job_of : Str → Slot
job_of ns = (ns, queued)

-- The jobs are in the channel, the channel is closed, and the workers are started.
unfoldable pub start : List Str → Pool
start ns_list = record {
  slots = map job_of ns_list;
  closed = true;
  idle = worker_count ns_list;
  wait_group = worker_count ns_list;
  first_err = none;
  cancelled = false;
}

unfoldable pub is_queued : Slot → Bool
is_queued (ns, queued) = true
is_queued (ns, phase) = false

unfoldable pub is_running : Slot → Bool
is_running (ns, taken) = true
is_running (ns, fetching) = true
is_running (ns, phase) = false

-- ctx.Err() != nil: the context of the request is cancelled, or the workers cancelled theirs.
abbrev pub is_done : Bool → Option Str → Bool
is_done cancelled first_err = cancelled || is_some first_err

-- errOnce
unfoldable pub note_error : Option Str → Option Str → Option Str
note_error first_err none = first_err
note_error first_err (some text) = elim first_err [ none ↦ some text | some first ↦ some first ]

-- A worker that has its chunk waits for the next job; one that gave up has returned.
unfoldable pub idle_after : Phase → ℕ → ℕ
idle_after (stored chunk) idle = idle + 1
idle_after phase idle = idle

unfoldable pub wait_group_after : Phase → ℕ → ℕ
wait_group_after dropped wait_group = wait_group - 1
wait_group_after phase wait_group = wait_group

-- `error_text` is the text of the error of a list that the cluster refuses.
module _ (cluster : Cluster) (kind : NamespacedList) (error_text : Str → Str) where
  -- What the answer to fetch makes of a job, with the error there is.
  unfoldable pub after_fetch : Str → Option (List ListItem) → Phase × Option Str
  after_fetch ns none = (dropped, some (error_text ns))
  after_fetch ns (some chunk) = (stored chunk, none)

  -- The next step of the worker that has a job. When the context is done, a fetch may fail for that, with
  -- an `aborted` error.
  unfoldable pub work : Option Str → Bool → Slot → Phase × Option Str
  work aborted done (ns, taken) = if done then (dropped, none) else (fetching, none)
  work aborted done (ns, fetching) =
      if done && is_some aborted
      then (dropped, aborted)
      else after_fetch ns (cluster (list kind ns))
  work aborted done (ns, phase) = (phase, none)

  abbrev pub worked : Pool → List Slot → List Slot → Str → Phase × Option Str → Pool
  worked p before after ns (phase, error) = record {
    slots = before ++ (ns, phase) ∷ after;
    closed = p.closed;
    idle = idle_after phase p.idle;
    wait_group = wait_group_after phase p.wait_group;
    first_err = note_error p.first_err error;
    cancelled = p.cancelled;
  }

  -- A worker takes the first job of the channel, goes on with its job, or returns because the channel is
  -- closed and has no job; or the context of the request is cancelled.
  pub data Step (p q : Pool) : Type 0 where
    takes :
        (before after : List Slot) (ns : Str) (n : ℕ)
        → all (λ slot. not (is_queued slot)) before ≡ true
        → p.slots ≡ before ++ (ns, queued) ∷ after
        → p.idle ≡ suc n
        → q ≡ record p { slots = before ++ (ns, taken) ∷ after; idle = n }
        → Step p q
    works :
        (aborted : Option Str) (before after : List Slot) (slot : Slot)
        → is_running slot ≡ true
        → p.slots ≡ before ++ slot ∷ after
        → q ≡ worked p before after slot.0 (work aborted (is_done p.cancelled p.first_err) slot)
        → Step p q
    returns :
        (n : ℕ)
        → p.closed ≡ true
        → all (λ slot. not (is_queued slot)) p.slots ≡ true
        → p.idle ≡ suc n
        → q ≡ record p { idle = n; wait_group = p.wait_group - 1 }
        → Step p q
    cancels : p.cancelled ≡ false → q ≡ record p { cancelled = true } → Step p q

  pub data Reach (p : Pool) : Pool → Type 0 where
    here : Reach p p
    later : {q r : Pool} → Reach p q → Step q r → Reach p r

-- wg.Wait returns.
abbrev pub IsFinished : Pool → Type 0
IsFinished p = p.wait_group ≡ 0

-- The chunks, appended in the order of the namespaces.
unfoldable pub collect : List Slot → List ListItem
collect [] = []
collect ((ns, stored chunk) ∷ rest) = chunk ++ collect rest
collect ((ns, phase) ∷ rest) = collect rest

-- What is written: an error with its status and its text, or a body.
pub data Written : Type 0 where
  error : ℕ → Str → Written
  json : Body → Written

unfoldable pub reply_of : (List ListItem → List ListItem) → Pool → Written
reply_of finishing p = elim p.first_err [
  | some text ↦ error 500 text
  | none ↦ json (items (finishing (collect p.slots)))
]
