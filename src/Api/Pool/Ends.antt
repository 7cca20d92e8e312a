-- ===== src/Api/Pool/Ends.antt =====
-- The steps that a run of the pool of workers has left.
use beaverdeck.Base.{
  ℕ, zero, suc, ◌+◌, ◌*◌, ◌≡◌, ◌⊎◌, ◌≤◌, refl, subst, ap, inl, inr, Bool, true, false, not, ◌&&◌,
  Option, none, some, List, [], ◌∷◌, ◌++◌, map, all, count, is_some, is_empty, length, Bool-cases,
  arith, if◌then◌else◌,
}
use beaverdeck.Text.{Str}
use beaverdeck.Api.Calls.{ListItem, NamespacedList, list}
use beaverdeck.Api.Handling.{Cluster}
use beaverdeck.Api.Pool.Kept.{Reach-IsOk, start-IsOk}
use beaverdeck.Api.Pool.Sound.{AreSound, IsOk, NoneQueued}
use beaverdeck.Api.Pool.Laws.{none_running, all_taken}
use beaverdeck.Api.Pool.{
  Phase, queued, taken, fetching, dropped, stored, Slot, Pool, worker_count, job_of, start,
  is_queued, is_running, is_done, idle_after, wait_group_after, after_fetch, work, Step, takes,
  works, returns, cancels, Reach, here, later, IsFinished,
}

-- How many steps the jobs still have at most, the wait for the next job included.
unfoldable steps_of : Slot → ℕ
steps_of (ns, queued) = 3
steps_of (ns, taken) = 3
steps_of (ns, fetching) = 2
steps_of (ns, phase) = 0

unfoldable steps_of_all : List Slot → ℕ
steps_of_all [] = 0
steps_of_all (slot ∷ rest) = steps_of slot + steps_of_all rest

unfoldable steps_left : Pool → ℕ
steps_left p = steps_of_all p.slots + p.idle + (if p.cancelled then 0 else 1)

steps-split :
    (before after : List Slot) (slot : Slot)
    → steps_of_all (before ++ slot ∷ after) ≡ steps_of slot + steps_of_all (before ++ after)
unfolding steps_of_all
steps-split [] after slot = refl
steps-split (other ∷ before) after slot = omega (arith, steps-split before after slot)

steps_of_start : (ns_list : List Str) → steps_of_all (map job_of ns_list) ≡ 3 * length ns_list
unfolding steps_of_all steps_of
steps_of_start [] = refl
steps_of_start (ns ∷ rest) = omega (arith, steps_of_start rest)

unfoldable pub is_stored : Slot → Bool
is_stored (ns, stored chunk) = true
is_stored (ns, phase) = false

running_none :
    (slots : List Slot)
    → all (λ slot. not (is_running slot)) slots ≡ true
    → count is_running slots ≡ 0
unfolding all count
running_none [] settled = refl
running_none (slot ∷ rest) settled = ground (arith, settled, running_none rest)

-- The first item that passes a test, if there is one.
first_of :
    {A : Type 0} (test : A → Bool) (xs : List A)
    → (all (λ x. not (test x)) xs ≡ true)
      ⊎ ((before : List A) × ((x : A) × ((after : List A) × (all (λ x. not (test x)) before ≡ true)
              × (test x ≡ true)
              × (xs ≡ before ++ x ∷ after))))
unfolding all
first_of test [] = inl refl
first_of test (x ∷ xs) = elim (Bool-cases (test x)) [
  | inl passes ↦ inr ([], (x, (xs, refl, passes, refl)))
  | inr fails ↦ elim (first_of test xs) [
    | inl no_other ↦ inl (ground (arith, fails, no_other))
    | inr (before, (y, (after, none_before, passes, same))) ↦
        inr (
          x ∷ before,
          (y, (after, ground (arith, fails, none_before), passes, ap (λ l. x ∷ l) same)),
        )
  ]
]

worker_count_le : (ns_list : List Str) → worker_count ns_list ≤ 8
unfolding worker_count
worker_count_le ns_list = ground arith

module _ (cluster : Cluster) (kind : NamespacedList) (error_text : Str → Str) where
  work-fewer :
      (aborted : Option Str) (done : Bool) (slot : Slot) (idle : ℕ)
      → is_running slot ≡ true
      → let phase = (work cluster kind error_text aborted done slot).0 in
        suc (steps_of (slot.0, phase) + idle_after phase idle) ≤ steps_of slot + idle
  unfolding work steps_of is_running after_fetch idle_after
  work-fewer aborted done (ns, queued) idle running = absurd cc
  work-fewer aborted done (ns, stored chunk) idle running = absurd cc
  work-fewer aborted done (ns, dropped) idle running = absurd cc
  work-fewer aborted true (ns, taken) idle running = omega arith
  work-fewer aborted false (ns, taken) idle running = omega arith
  work-fewer aborted done (ns, fetching) idle running =
      elim (Bool-cases (done && is_some aborted)) [
        | inl over ↦ rw over (omega arith)
        | inr not_over ↦ rw not_over (answered (cluster (list kind ns)))
      ]
    where
      answered :
          (answer : Option (List ListItem))
          → let phase = (after_fetch cluster kind error_text ns answer).0 in
            suc (steps_of (ns, phase) + idle_after phase idle) ≤ 2 + idle
      answered none = omega arith
      answered (some chunk) = omega arith

  Step-fewer : {p q : Pool} → Step cluster kind error_text p q → suc (steps_left q) ≤ steps_left p
  unfolding steps_left steps_of
  Step-fewer {p} (takes before after ns n first same waiting result) =
      rw (result, same, steps-split, steps-split, waiting) (omega arith)
  Step-fewer {p} (works aborted before after slot running same result) =
      rw (result, same, steps-split, steps-split)
        (omega (arith, work-fewer aborted (is_done p.cancelled p.first_err) slot p.idle running))
  Step-fewer {p} (returns n closed drained waiting result) = rw (result, waiting) (omega arith)
  Step-fewer {p} (cancels going result) = rw (result, going) (omega arith)

  -- The number of steps of a run.
  unfoldable pub steps : {p q : Pool} → Reach cluster kind error_text p q → ℕ
  steps here = 0
  steps (later reached step) = suc (steps reached)

  steps-bounded :
      {p q : Pool} (reached : Reach cluster kind error_text p q)
      → steps reached + steps_left q ≤ steps_left p
  unfolding steps
  steps-bounded here = omega arith
  steps-bounded (later reached step) = omega (arith, steps-bounded reached, Step-fewer step)

  wait_group_after_le :
      (phase : Phase) (wait_group : ℕ) → wait_group_after phase wait_group ≤ wait_group
  unfolding wait_group_after
  wait_group_after_le queued wait_group = omega arith
  wait_group_after_le taken wait_group = omega arith
  wait_group_after_le fetching wait_group = omega arith
  wait_group_after_le dropped wait_group = omega arith
  wait_group_after_le (stored chunk) wait_group = omega arith

  Step-wait_group : {p q : Pool} → Step cluster kind error_text p q → q.wait_group ≤ p.wait_group
  Step-wait_group {p} (takes before after ns n first same waiting result) = rw result (omega arith)
  Step-wait_group {p} (works aborted before after slot running same result) =
      rw result (wait_group_after_le _ p.wait_group)
  Step-wait_group {p} (returns n closed drained waiting result) = rw result (omega arith)
  Step-wait_group {p} (cancels going result) = rw result (omega arith)

  -- No worker is added.
  Reach-wait_group : {p q : Pool} → Reach cluster kind error_text p q → q.wait_group ≤ p.wait_group
  Reach-wait_group here = omega arith
  Reach-wait_group (later reached step) =
      omega (arith, Reach-wait_group reached, Step-wait_group step)

  -- A step of a worker.
  abbrev pub WorkerSteps : Pool → Type 0
  WorkerSteps p = (q : Pool) × (Step cluster kind error_text p q × (q.cancelled ≡ p.cancelled))

  take_one :
      (p : Pool) (slot : Slot) (before after : List Slot) (n : ℕ)
      → is_queued slot ≡ true
      → NoneQueued before
      → p.slots ≡ before ++ slot ∷ after
      → p.idle ≡ suc n
      → WorkerSteps p
  unfolding is_queued
  take_one p (ns, queued) before after n is_next first same idle =
      (_, (takes before after ns n first same idle refl, refl))
  take_one p (ns, taken) before after n is_next first same idle = absurd cc
  take_one p (ns, fetching) before after n is_next first same idle = absurd cc
  take_one p (ns, dropped) before after n is_next first same idle = absurd cc
  take_one p (ns, stored chunk) before after n is_next first same idle = absurd cc

  -- A pool whose workers are counted and whose channel is closed goes on until all have returned.
  goes_on :
      (ns_list : List Str) (workers : ℕ) (p : Pool)
      → IsOk cluster kind error_text ns_list workers p
      → IsFinished p ⊎ WorkerSteps p
  goes_on ns_list workers p (_, _, _, counted, _, closed) = elim (first_of is_running p.slots) [
    | inr (before, (slot, (after, _, running, same))) ↦
        inr (_, (works none before after slot running same refl, refl))
    | inl settled ↦ waits p.idle refl settled
  ]
    where
      waits :
          (idle : ℕ)
          → p.idle ≡ idle
          → all (λ slot. not (is_running slot)) p.slots ≡ true
          → IsFinished p ⊎ WorkerSteps p
      waits zero nobody settled = inl (omega (arith, counted, nobody, running_none p.slots settled))
      waits (suc n) somebody settled = elim (first_of is_queued p.slots) [
        | inl drained ↦ inr (_, (returns n closed drained somebody refl, refl))
        | inr (before, (slot, (after, first, is_next, same))) ↦
            inr (take_one p slot before after n is_next first same somebody)
      ]

  all_stored :
      (slots : List Slot)
      → AreSound cluster kind error_text false slots
      → all (λ slot. not (is_running slot)) slots ≡ true
      → NoneQueued slots
      → all is_stored slots ≡ true
  unfolding all is_stored is_running is_queued
  all_stored [] sound settled drained = refl
  all_stored ((ns, queued) ∷ rest) sound settled drained = absurd cc
  all_stored ((ns, taken) ∷ rest) sound settled drained = absurd cc
  all_stored ((ns, fetching) ∷ rest) sound settled drained = absurd cc
  all_stored ((ns, dropped) ∷ rest) sound settled drained = absurd (let h = sound.0 in cc)
  all_stored ((ns, stored chunk) ∷ rest) sound settled drained =
      all_stored rest sound.1 settled drained

  -- In every state that the pool reaches for some namespaces, at most eight workers have a job, and until
  -- all workers have returned, one of them has a next step, whether or not the request is cancelled. A run
  -- has at most three steps for each namespace, one for each worker and one for the cancellation. When all
  -- have returned and the context is not done, every namespace has its chunk.
  pub Reach-ends :
      (ns_list : List Str) (p : Pool) (reached : Reach cluster kind error_text (start ns_list) p)
      → is_empty ns_list ≡ false
      → (count is_running p.slots ≤ 8)
        × (steps reached ≤ 3 * length ns_list + worker_count ns_list + 1)
        × ((IsFinished p
              × ((is_done p.cancelled p.first_err ≡ true) ⊎ (all is_stored p.slots ≡ true)))
            ⊎ WorkerSteps p)
  unfolding start steps_left
  Reach-ends ns_list p reached some_there = (
    omega (arith, ok.3, Reach-wait_group reached, worker_count_le ns_list),
    omega (arith, steps-bounded reached, steps_of_start ns_list),
    elim (goes_on ns_list (worker_count ns_list) p ok) [
      | inr goes ↦ inr goes
      | inl finished ↦ inl (finished, ends finished)
    ],
  )
    where
      ok : IsOk cluster kind error_text ns_list (worker_count ns_list) p
      ok =
          Reach-IsOk cluster kind error_text ns_list (worker_count ns_list) reached
            (start-IsOk cluster kind error_text ns_list)

      ends :
          IsFinished p → (is_done p.cancelled p.first_err ≡ true) ⊎ (all is_stored p.slots ≡ true)
      ends finished = elim (Bool-cases (is_done p.cancelled p.first_err)) [
        | inl over ↦ inl over
        | inr going ↦ inr (
            all_stored p.slots (subst (λ d. AreSound cluster kind error_text d p.slots) going ok.1)
              (none_running p.slots (omega (arith, ok.3, finished)))
              (all_taken cluster kind error_text ns_list p some_there ok finished going))
      ]
