-- ===== src/Api/Pool/Laws.antt =====
-- The reply of the pool of workers, against asking one namespace after the other.
use mathlib.Core.List.{append-nil, append_assoc}
use beaverdeck.Base.{
  ◌≡◌, ◌≤◌, refl, sym, subst, ap, ◌∙◌, inl, inr, Bool, true, false, not, none, some, List, [], ◌∷◌,
  ◌++◌, map, all, any, count, is_some, is_empty, Bool-cases, Option-cases, arith,
}
use beaverdeck.Text.{Str, ◌==◌, mem}
use beaverdeck.Text.Laws.{eq_sound}
use beaverdeck.Api.Calls.{ListItem, NamespacedList, list}
use beaverdeck.Api.Handling.{
  Cluster, Reply, failure, success, items, Handled, finish, call, after_answer,
}
use beaverdeck.Api.Lists.{fetch_all}
use beaverdeck.Api.Pool.Kept.{Reach-IsOk, start-IsOk}
use beaverdeck.Api.Pool.Sound.{AreSound, IsCause, ErrorIsSound, IsOk, NoneQueued}
use beaverdeck.Api.Pool.{
  queued, taken, fetching, dropped, stored, Slot, Pool, worker_count, start, is_queued, is_running,
  is_done, Reach, IsFinished, collect, Written, error, json, reply_of,
}

pub none_running :
    (slots : List Slot)
    → count is_running slots ≡ 0
    → all (λ slot. not (is_running slot)) slots ≡ true
unfolding all count
none_running [] nobody = refl
none_running (slot ∷ rest) nobody =
    ground (arith, nobody, none_running rest (ground (arith, nobody)))

pub worker_count_pos : (ns_list : List Str) → is_empty ns_list ≡ false → 1 ≤ worker_count ns_list
unfolding worker_count
worker_count_pos [] h = absurd cc
worker_count_pos (ns ∷ rest) h = ground arith

module _ (cluster : Cluster) (kind : NamespacedList) (error_text : Str → Str) where
  -- Whether the cluster answers for every namespace.
  unfoldable answers_all : List Str → Bool
  answers_all = all (λ ns. is_some (cluster (list kind ns)))

  unanswered :
      (ns : Str) (ns_list : List Str)
      → mem ns ns_list ≡ true
      → cluster (list kind ns) ≡ none
      → answers_all ns_list ≡ false
  unfolding answers_all all any
  unanswered ns [] member refused = absurd cc
  unanswered ns (first ∷ rest) member refused = elim (Bool-cases (ns == first)) [
    | inl same ↦
        let there = subst (λ x. cluster (list kind x) ≡ none) (eq_sound ns first same) refused in
        ground (arith, ap is_some there)
    | inr other ↦ ground (arith, unanswered ns rest (ground (arith, member, other)) refused)
  ]

  -- An error of some namespace ends the sequence too.
  fetch_all-fails :
      (ns_list : List Str) (found : List ListItem) (next : List ListItem → Handled)
      → answers_all ns_list ≡ false
      → (fetch_all cluster kind ns_list found next).reply ≡ failure 500
  unfolding fetch_all call after_answer answers_all all
  fetch_all-fails [] found next refused = absurd cc
  fetch_all-fails (ns ∷ rest) found next refused = elim (Option-cases (cluster (list kind ns))) [
    | inl none_given ↦ rw none_given refl
    | inr (chunk, given) ↦
        rw given
          (fetch_all-fails rest (found ++ chunk) next (ground (arith, refused, ap is_some given)))
  ]

  -- When every job is in its chunk, the sequence finds what the chunks hold.
  fetch_all-collect :
      (slots : List Slot) (found : List ListItem) (next : List ListItem → Handled)
      → AreSound cluster kind error_text false slots
      → all (λ slot. not (is_running slot)) slots ≡ true
      → all (λ slot. not (is_queued slot)) slots ≡ true
      → (fetch_all cluster kind (map (λ slot. slot.0) slots) found next).reply
        ≡ (next (found ++ collect slots)).reply
  unfolding fetch_all call after_answer all collect is_running is_queued
  fetch_all-collect [] found next sound settled taken_all =
      ap (λ l. (next l).reply) (sym (append-nil found))
  fetch_all-collect ((ns, queued) ∷ rest) found next sound settled taken_all = absurd cc
  fetch_all-collect ((ns, taken) ∷ rest) found next sound settled taken_all = absurd cc
  fetch_all-collect ((ns, fetching) ∷ rest) found next sound settled taken_all = absurd cc
  fetch_all-collect ((ns, dropped) ∷ rest) found next sound settled taken_all =
      absurd (let h = sound.0 in cc)
  fetch_all-collect ((ns, stored chunk) ∷ rest) found next (given, sound) settled taken_all =
      rw given (
        fetch_all-collect rest (found ++ chunk) next sound settled taken_all
        ∙ ap (λ l. (next l).reply) (append_assoc found chunk (collect rest)))

  -- What is written is the reply: an error with the status of the reply and the text of a namespace that
  -- the cluster refuses, or the body of the reply.
  abbrev pub Agrees : List Str → Written → Reply → Type 0
  Agrees ns_list (error status text) reply =
      (reply ≡ failure status) × IsCause cluster kind error_text ns_list text
  Agrees ns_list (json body) reply = reply ≡ success body

  pub all_taken :
      (ns_list : List Str) (p : Pool)
      → is_empty ns_list ≡ false
      → IsOk cluster kind error_text ns_list (worker_count ns_list) p
      → IsFinished p
      → is_done p.cancelled p.first_err ≡ false
      → NoneQueued p.slots
  all_taken ns_list p some_there (_, _, _, counted, left, _) finished going = elim left [
    | inl all_there ↦
        absurd (omega (arith, all_there, finished, worker_count_pos ns_list some_there))
    | inr (inl over) ↦ absurd cc
    | inr (inr drained) ↦ drained
  ]

  -- However the workers take turns, when all have returned and the context of the request was not
  -- cancelled: what is written is a list with status 200 only if asking for the namespaces one after the
  -- other gives that list, and is an error only if that gives an error; the text is then that of the
  -- error of some namespace which the cluster refuses.
  pub reply_of-fetch_all :
      (ns_list : List Str) (finishing : List ListItem → List ListItem) (p : Pool)
      → is_empty ns_list ≡ false
      → Reach cluster kind error_text (start ns_list) p
      → IsFinished p
      → p.cancelled ≡ false
      → Agrees ns_list
          (reply_of finishing p)
          (fetch_all cluster kind ns_list []
            λ found. finish (success (items (finishing found)))).reply
  unfolding reply_of
  reply_of-fetch_all ns_list finishing p some_there reached finished going =
      elim (Option-cases p.first_err) [
        | inr (text, failed) ↦ rw failed (
            let cause = a_cause text failed in
            (fetch_all-fails ns_list [] _ (unanswered cause.0 ns_list cause.1 cause.2), cause))
        | inl fine ↦ rw fine (listed fine)
      ]
    where
      sending : List ListItem → Handled
      sending found = finish (success (items (finishing found)))

      ok : IsOk cluster kind error_text ns_list (worker_count ns_list) p
      ok =
          Reach-IsOk cluster kind error_text ns_list (worker_count ns_list) reached
            (start-IsOk cluster kind error_text ns_list)

      a_cause :
          (text : Str) → p.first_err ≡ some text → IsCause cluster kind error_text ns_list text
      a_cause text failed =
          subst (λ e. ErrorIsSound cluster kind error_text ns_list false e) failed
            (subst (λ c. ErrorIsSound cluster kind error_text ns_list c p.first_err) going ok.2)

      not_done : p.first_err ≡ none → is_done p.cancelled p.first_err ≡ false
      not_done fine = rw (going, fine) refl

      listed :
          p.first_err ≡ none
          → (fetch_all cluster kind ns_list [] sending).reply
            ≡ success (items (finishing (collect p.slots)))
      listed fine =
          subst
            (λ l. (fetch_all cluster kind l [] sending).reply ≡ (sending (collect p.slots)).reply)
            ok.0
            (fetch_all-collect p.slots [] sending
              (subst (λ d. AreSound cluster kind error_text d p.slots) (not_done fine) ok.1)
              (none_running p.slots (omega (arith, ok.3, finished)))
              (all_taken ns_list p some_there ok finished (not_done fine)))
