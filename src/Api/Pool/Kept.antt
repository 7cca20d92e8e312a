-- ===== src/Api/Pool/Kept.antt =====
-- What every step of the pool of workers keeps.
use beaverdeck.Base.{
  ℕ, ◌+◌, ◌-◌, ◌≡◌, refl, sym, subst, ap, ◌∙◌, inl, inr, Bool, true, false, ◌&&◌, Option, none,
  some, List, [], ◌∷◌, ◌++◌, map, count, is_some, Bool-cases, arith, if◌then◌else◌,
}
use beaverdeck.Text.{Str, mem}
use beaverdeck.Api.Calls.{ListItem, NamespacedList, list}
use beaverdeck.Api.Handling.{Cluster}
use beaverdeck.Api.Pool.{
  Phase, queued, taken, fetching, dropped, stored, Slot, Pool, is_queued, is_running, is_done,
  note_error, idle_after, wait_group_after, after_fetch, work, worked, worker_count, job_of, start,
  Step, takes, works, returns, cancels, Reach, here, later,
}
use beaverdeck.Api.Pool.Sound.{
  names, names-change, running-change, NoneQueued, NoneQueued-change, mem-names, PhaseIsSound,
  AreSound, AreSound-done, AreSound-change, IsCause, ErrorIsSound, IsOk,
}

module _ (cluster : Cluster) (kind : NamespacedList) (error_text : Str → Str) where
  module _ (ns_list : List Str) (workers : ℕ) where
    -- A job goes on, with a worker that takes it or sets it free, and no error.
    goes_on :
        (p : Pool) (before after : List Slot) (ns : Str) (old new : Phase) (idle : ℕ)
        → IsOk cluster kind error_text ns_list workers p
        → p.slots ≡ before ++ (ns, old) ∷ after
        → PhaseIsSound cluster kind error_text (is_done p.cancelled p.first_err) (ns, new)
        → is_queued (ns, new) ≡ false
        → idle + (if is_running (ns, new) then 1 else 0)
          ≡ p.idle + (if is_running (ns, old) then 1 else 0)
        → IsOk cluster kind error_text ns_list workers
            (record p { slots = before ++ (ns, new) ∷ after; idle = idle })
    goes_on p before after ns old new idle (listed, sound, error, counted, left, closed) same h
          moves balance =
        (
          sym (names-change before after ns old new) ∙ ap names (sym same) ∙ listed,
          AreSound-change cluster kind error_text _ before after (ns, old) (ns, new) h
              (subst (AreSound cluster kind error_text _) same sound),
          error,
          omega (
            arith,
            counted,
            balance,
            ap (count is_running) same,
            running-change before after (ns, old),
            running-change before after (ns, new),
          ),
          elim left [
            | inl all_there ↦ inl all_there
            | inr (inl done) ↦ inr (inl done)
            | inr (inr drained) ↦ inr (
                inr (
                  NoneQueued-change before after (ns, old) (ns, new) moves
                    (subst NoneQueued same drained)))
          ],
          closed,
        )

    -- A job is given up by its worker, which returns.
    gives_up :
        (p : Pool) (before after : List Slot) (ns : Str) (old : Phase) (first_err : Option Str)
        → IsOk cluster kind error_text ns_list workers p
        → p.slots ≡ before ++ (ns, old) ∷ after
        → is_running (ns, old) ≡ true
        → is_done p.cancelled first_err ≡ true
        → ErrorIsSound cluster kind error_text ns_list p.cancelled first_err
        → IsOk cluster kind error_text ns_list workers (record p {
          slots = before ++ (ns, dropped) ∷ after;
          wait_group = p.wait_group - 1;
          first_err = first_err;
        })
    unfolding is_running
    gives_up p before after ns old first_err (listed, sound, error, counted, left, closed) same
          running done cause =
        (
          sym (names-change before after ns old dropped) ∙ ap names (sym same) ∙ listed,
          subst (λ d. AreSound cluster kind error_text d (before ++ (ns, dropped) ∷ after))
              (sym done)
              (AreSound-change cluster kind error_text true before after (ns, old) (ns, dropped)
                refl
                (AreSound-done cluster kind error_text _ _
                  (subst (AreSound cluster kind error_text _) same sound))),
          cause,
          omega (
            arith,
            counted,
            one_less,
            ap (count is_running) same,
            running-change before after (ns, old),
            running-change before after (ns, dropped),
          ),
          inr (inl done),
          closed,
        )
      where
        one_less : ◌≡◌ {A = ℕ} (if is_running (ns, old) then 1 else 0) 1
        one_less = rw running refl

    noted_done :
        (cancelled : Bool) (first_err : Option Str) (text : Str)
        → is_done cancelled (note_error first_err (some text)) ≡ true
    unfolding note_error
    noted_done true first_err text = refl
    noted_done false none text = refl
    noted_done false (some first) text = refl

    noted_cause :
        (cancelled : Bool) (first_err : Option Str) (text : Str)
        → ErrorIsSound cluster kind error_text ns_list cancelled first_err
        → IsCause cluster kind error_text ns_list text
        → ErrorIsSound cluster kind error_text ns_list cancelled (note_error first_err (some text))
    unfolding note_error
    noted_cause true first_err text old cause = tt
    noted_cause false none text old cause = cause
    noted_cause false (some first) text old cause = old

    noted_abort :
        (cancelled : Bool) (first_err : Option Str) (text : Str)
        → is_done cancelled first_err ≡ true
        → ErrorIsSound cluster kind error_text ns_list cancelled first_err
        → ErrorIsSound cluster kind error_text ns_list cancelled (note_error first_err (some text))
    unfolding note_error
    noted_abort true first_err text done old = tt
    noted_abort false none text done old = absurd cc
    noted_abort false (some first) text done old = old

    work-IsOk :
        (p : Pool) (aborted : Option Str) (before after : List Slot) (slot : Slot)
        → IsOk cluster kind error_text ns_list workers p
        → p.slots ≡ before ++ slot ∷ after
        → is_running slot ≡ true
        → IsOk cluster kind error_text ns_list workers (
            worked cluster kind error_text p before after slot.0
              (work cluster kind error_text aborted (is_done p.cancelled p.first_err) slot))
    unfolding work is_running is_queued idle_after wait_group_after note_error after_fetch
    work-IsOk p aborted before after (ns, queued) ok same running = absurd cc
    work-IsOk p aborted before after (ns, dropped) ok same running = absurd cc
    work-IsOk p aborted before after (ns, stored chunk) ok same running = absurd cc
    work-IsOk p aborted before after (ns, taken) ok same running =
        elim (Bool-cases (is_done p.cancelled p.first_err)) [
          | inl over ↦ rw over (gives_up p before after ns taken p.first_err ok same refl over ok.2)
          | inr not_over ↦
              rw not_over (goes_on p before after ns taken fetching p.idle ok same tt refl refl)
        ]
    work-IsOk p aborted before after (ns, fetching) ok same running = aborts aborted
      where
        answered :
            (answer : Option (List ListItem))
            → cluster (list kind ns) ≡ answer
            → IsOk cluster kind error_text ns_list workers (
                worked cluster kind error_text p before after ns
                  (after_fetch cluster kind error_text ns answer))
        answered none refused =
            gives_up p before after ns fetching (note_error p.first_err (some (error_text ns))) ok
              same refl (noted_done p.cancelled p.first_err (error_text ns))
              (noted_cause p.cancelled p.first_err (error_text ns) ok.2 (
                ns,
                subst (λ l. mem ns l ≡ true) (ap names (sym same) ∙ ok.0)
                    (mem-names before after ns fetching),
                refused,
                refl,
              ))
        answered (some chunk) given =
            goes_on p before after ns fetching (stored chunk) (p.idle + 1) ok same given refl
              (omega arith)

        ends :
            (o : Option Str)
            → is_done p.cancelled p.first_err && is_some o ≡ true
            → IsOk cluster kind error_text ns_list workers
                (worked cluster kind error_text p before after ns (dropped, o))
        ends none over = absurd (ground (arith, over))
        ends (some text) over =
            gives_up p before after ns fetching (note_error p.first_err (some text)) ok same refl
              (noted_done p.cancelled p.first_err text)
              (noted_abort p.cancelled p.first_err text (ground (arith, over)) ok.2)

        aborts :
            (o : Option Str)
            → IsOk cluster kind error_text ns_list workers (
                worked cluster kind error_text p before after ns (
                  if is_done p.cancelled p.first_err && is_some o
                  then (dropped, o)
                  else after_fetch cluster kind error_text ns (cluster (list kind ns))))
        aborts o = elim (Bool-cases (is_done p.cancelled p.first_err && is_some o)) [
          | inr goes ↦ rw goes (answered (cluster (list kind ns)) refl)
          | inl over ↦ rw over (ends o over)
        ]

    Step-IsOk :
        {p q : Pool}
        → Step cluster kind error_text p q
        → IsOk cluster kind error_text ns_list workers p
        → IsOk cluster kind error_text ns_list workers q
    unfolding is_running is_queued
    Step-IsOk {p} (takes before after ns n first same waiting result) ok =
        subst (IsOk cluster kind error_text ns_list workers) (sym result)
          (goes_on p before after ns queued taken n ok same tt refl (omega (arith, waiting)))
    Step-IsOk {p} (works aborted before after slot running same result) ok =
        subst (IsOk cluster kind error_text ns_list workers) (sym result)
          (work-IsOk p aborted before after slot ok same running)
    Step-IsOk {p} (returns n closed drained waiting result)
          (listed, sound, error, counted, left, _) =
        subst (IsOk cluster kind error_text ns_list workers) (sym result)
          (listed, sound, error, omega (arith, counted, waiting), inr (inr drained), closed)
    Step-IsOk {p} (cancels going result) (listed, sound, error, counted, left, closed) =
        subst (IsOk cluster kind error_text ns_list workers) (sym result) (
          listed,
          AreSound-done cluster kind error_text _ _ sound,
          tt,
          counted,
          inr (inl refl),
          closed,
        )

    pub Reach-IsOk :
        {p q : Pool}
        → Reach cluster kind error_text p q
        → IsOk cluster kind error_text ns_list workers p
        → IsOk cluster kind error_text ns_list workers q
    Reach-IsOk here ok = ok
    Reach-IsOk (later reached step) ok = Step-IsOk step (Reach-IsOk reached ok)

  pub start-IsOk :
      (ns_list : List Str)
      → IsOk cluster kind error_text ns_list (worker_count ns_list) (start ns_list)
  unfolding start count is_running
  start-IsOk ns_list =
      (listed ns_list, sound ns_list, tt, omega (arith, waiting ns_list), inl refl, refl)
    where
      listed : (l : List Str) → names (map job_of l) ≡ l
      listed [] = refl
      listed (ns ∷ rest) = ap (λ l. ns ∷ l) (listed rest)

      sound : (l : List Str) → AreSound cluster kind error_text false (map job_of l)
      sound [] = tt
      sound (ns ∷ rest) = (tt, sound rest)

      waiting : (l : List Str) → count is_running (map job_of l) ≡ 0
      waiting [] = refl
      waiting (ns ∷ rest) = omega (arith, waiting rest)
