-- ===== src/Kube/Dedupe/Laws.antt =====
-- What the queue of incidents remembers.
use beaverdeck.Base.{
  ◌+◌, ◌≡◌, ◌≤◌, refl, subst, ap, ◌∙◌, true, false, List, [], ◌∷◌, ◌++◌, any, length, length-append,
  ltb, Bool-cases, inl, inr, arith,
}
use beaverdeck.Text.{Str, ◌==◌, mem}
use beaverdeck.Text.Laws.{eq_self}
use beaverdeck.Api.Permissions.Queried.{distinct, distinct-snoc}
use beaverdeck.Kube.Incidents.{RestartIncident}
use beaverdeck.Kube.Suppressions.{without}
use beaverdeck.Kube.Dedupe.{
  RestartDiagnostics, forget_oldest, remember, enqueue, receive, Event, found, received,
  after_event, after_events,
}

without-absent : (key : Str) (xs : List Str) → mem key xs ≡ false → without key xs ≡ xs
unfolding without any
without-absent key [] absent = refl
without-absent key (x ∷ xs) absent =
    rw (not_first, without-absent key xs (ground (arith, absent))) refl
  where
    not_first : (x == key) ≡ false
    not_first = ground (arith, absent)

without-snoc : (key : Str) (xs : List Str) → mem key xs ≡ false → without key (xs ++ key ∷ []) ≡ xs
unfolding without any
without-snoc key [] absent = rw (eq_self key) refl
without-snoc key (x ∷ xs) absent = rw (not_first, without-snoc key xs (ground (arith, absent))) refl
  where
    not_first : (x == key) ≡ false
    not_first = ground (arith, absent)

-- The set of the keys is the list of them, each once.
abbrev pub IsTidy : RestartDiagnostics → Type 0
IsTidy d =
    (d.dedupe ≡ d.dedupe_order)
    × (distinct d.dedupe_order ≡ true)
    × (length d.dedupe_order ≤ 4096)
    × (length d.queue ≤ 128)

forget_oldest-IsTidy :
    (d : RestartDiagnostics) (order : List Str)
    → d.dedupe ≡ order
    → distinct order ≡ true
    → length order ≤ 4097
    → 1 ≤ length order
    → length d.queue ≤ 128
    → IsTidy (forget_oldest d order)
unfolding forget_oldest distinct without
forget_oldest-IsTidy d [] same once few some_there room = absurd (omega (arith, some_there))
forget_oldest-IsTidy d (oldest ∷ order) same once few some_there room = (
  ap (without oldest) same
      ∙ rw (eq_self oldest) (without-absent oldest order (ground (arith, once))),
  ground (arith, once),
  omega (arith, few),
  room,
)

remember-IsTidy :
    (key : Str) (d : RestartDiagnostics)
    → mem key d.dedupe_order ≡ false
    → d.dedupe ≡ d.dedupe_order ++ key ∷ []
    → distinct d.dedupe_order ≡ true
    → length d.dedupe_order ≤ 4096
    → length d.queue ≤ 128
    → IsTidy (remember key d)
unfolding remember
remember-IsTidy key d absent same once few room =
    elim (Bool-cases (ltb 4096 (length (d.dedupe_order ++ key ∷ [])))) [
      | inl over ↦ rw over (
          forget_oldest-IsTidy d (d.dedupe_order ++ key ∷ []) same still_once
            (omega (arith, few, one_more)) (omega (arith, one_more)) room)
      | inr fits ↦ rw fits (same, still_once, ground (arith, fits), room)
    ]
  where
    still_once : distinct (d.dedupe_order ++ key ∷ []) ≡ true
    still_once = distinct-snoc key d.dedupe_order once absent

    one_more : length (d.dedupe_order ++ key ∷ []) ≡ length d.dedupe_order + 1
    one_more = length-append d.dedupe_order (key ∷ [])

enqueue-IsTidy :
    (key_of : RestartIncident → Str) (incident : RestartIncident) (d : RestartDiagnostics)
    → IsTidy d
    → IsTidy (enqueue key_of incident d)
unfolding enqueue
enqueue-IsTidy key_of incident d (same, once, few, room) =
    elim (Bool-cases (mem (key_of incident) d.dedupe)) [
      | inl seen ↦ rw seen (same, once, few, room)
      | inr fresh ↦ rw fresh elim (Bool-cases (ltb (length d.queue) 128)) [
        | inl free ↦ rw free (
            remember-IsTidy (key_of incident) _
              (subst (λ l. mem (key_of incident) l ≡ false) same fresh)
              (ap (λ l. l ++ key_of incident ∷ []) same) once few
              (ground (arith, free, length-append d.queue (incident ∷ []))))
        | inr full ↦ rw full (without-snoc (key_of incident) d.dedupe fresh ∙ same, once, few, room)
      ]
    ]

receive-IsTidy : (d : RestartDiagnostics) → IsTidy d → IsTidy (receive d)
unfolding receive
receive-IsTidy d (same, once, few, room) = at_queue d.queue room
  where
    at_queue :
        (queue : List RestartIncident)
        → length queue ≤ 128
        → IsTidy (receive (record d { queue = queue }))
    at_queue [] short = (same, once, few, omega (arith, short))
    at_queue (incident ∷ rest) short = (same, once, few, omega (arith, short))

-- Whatever the key of an incident is, after any incidents that are found and received, the keys that are
-- remembered are those of the order in which they were queued, each once, at most 4096 of them, and at
-- most 128 incidents wait in the queue.
pub after_events-IsTidy :
    (key_of : RestartIncident → Str) (events : List Event) → IsTidy (after_events key_of events)
unfolding after_events after_event distinct
after_events-IsTidy key_of [] = (refl, refl, omega arith, omega arith)
after_events-IsTidy key_of (found incident ∷ earlier) =
    enqueue-IsTidy key_of incident (after_events key_of earlier)
      (after_events-IsTidy key_of earlier)
after_events-IsTidy key_of (received ∷ earlier) =
    receive-IsTidy (after_events key_of earlier) (after_events-IsTidy key_of earlier)
