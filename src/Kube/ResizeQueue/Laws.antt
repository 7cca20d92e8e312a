-- ===== src/Kube/ResizeQueue/Laws.antt =====
-- The states that the queue of terminal sizes reaches.
use beaverdeck.Base.{
  ℕ, suc, ◌≤◌, ◌<◌, ◌≡◌, ◌⊎◌, refl, subst, Bool, true, false, Option, none, some, List, [], ◌∷◌,
  ◌++◌, length, length-append, drop, ltb, nat_eq, ◌||◌, Bool-cases, inl, inr, arith,
}
use beaverdeck.Kube.ResizeQueue.{
  TerminalSize, Phase, idle, checking, selecting, dropping, sending, TerminalResizeQueue, new_queue,
  next, push, push_step, close, Step, starts, pushes, takes, closes, Reach, here, later,
}

-- What the phase of the pusher implies: before a send the channel is open, and before the last send it
-- has room.
abbrev PhaseIsValid : Phase → Bool → ℕ → Type 0
PhaseIsValid idle closed n = n ≤ 4
PhaseIsValid (checking size) closed n = n ≤ 4
PhaseIsValid (selecting size) closed n = (n ≤ 4) × (closed ≡ false)
PhaseIsValid (dropping size) closed n = (n ≤ 4) × (closed ≡ false)
PhaseIsValid (sending size) closed n = (n ≤ 3) × (closed ≡ false)

abbrev pub IsValid : TerminalResizeQueue → Type 0
IsValid q = PhaseIsValid q.phase q.closed (length q.ch) × (q.panicked ≡ false)

fits : (phase : Phase) (closed : Bool) (n : ℕ) → PhaseIsValid phase closed n → n ≤ 4
fits idle closed n h = h
fits (checking size) closed n h = h
fits (selecting size) closed n h = h.0
fits (dropping size) closed n h = h.0
fits (sending size) closed n h = omega (arith, h.0)

fewer :
    (phase : Phase) (closed : Bool) (n m : ℕ)
    → m ≤ n
    → PhaseIsValid phase closed n
    → PhaseIsValid phase closed m
fewer idle closed n m le h = omega (arith, le, h)
fewer (checking size) closed n m le h = omega (arith, le, h)
fewer (selecting size) closed n m le h = (omega (arith, le, h.0), h.1)
fewer (dropping size) closed n m le h = (omega (arith, le, h.0), h.1)
fewer (sending size) closed n m le h = (omega (arith, le, h.0), h.1)

abbrev OnSome : (TerminalResizeQueue → Type 0) → Option TerminalResizeQueue → Type 0
OnSome P none = Unit
OnSome P (some q) = P q

drop_room : (ch : List TerminalSize) → length ch ≤ 4 → length (drop 1 ch) ≤ 3
drop_room [] h = omega arith
drop_room (size ∷ rest) h = omega (arith, h)

-- How many steps of its own the pusher still has at most.
unfoldable pub rank : Phase → ℕ
rank idle = 0
rank (checking size) = 4
rank (selecting size) = 3
rank (dropping size) = 2
rank (sending size) = 1

rank_le : (phase : Phase) → rank phase ≤ 4
unfolding rank
rank_le idle = omega arith
rank_le (checking size) = omega arith
rank_le (selecting size) = omega arith
rank_le (dropping size) = omega arith
rank_le (sending size) = omega arith

module _ (ch : List TerminalSize) (closed panicked : Bool) where
  abbrev at_phase : Phase → TerminalResizeQueue
  at_phase phase = record { ch = ch; closed = closed; phase = phase; panicked = panicked }

  sends :
      (size : TerminalSize)
      → ltb (length ch) 4 ≡ true
      → panicked ≡ false
      → (length (ch ++ size ∷ []) ≤ 4) × (panicked ≡ false)
  sends size room calm = (ground (arith, room, length-append ch (size ∷ [])), calm)

  push_step-IsValid :
      (phase : Phase) → IsValid (at_phase phase) → OnSome IsValid (push_step (at_phase phase))
  unfolding push_step
  push_step-IsValid idle v = tt
  push_step-IsValid (checking size) v = elim (Bool-cases closed) [
    | inl shut ↦ rw shut v
    | inr open_ ↦ rw open_ ((v.0, refl), v.1)
  ]
  push_step-IsValid (selecting size) v = elim (Bool-cases (ltb (length ch) 4)) [
    | inl room ↦ rw (v.0.1, room) (sends size room v.1)
    | inr full ↦ rw (v.0.1, full) ((v.0.0, refl), v.1)
  ]
  push_step-IsValid (dropping size) v = ((drop_room ch v.0.0, v.0.1), v.1)
  push_step-IsValid (sending size) v =
      let room : ltb (length ch) 4 ≡ true = ground (arith, v.0.0) in
      rw (v.0.1, room) (sends size room v.1)

  -- The pusher always has a next step while it is in Push, and that step brings it nearer to the end.
  push_step-goes_on :
      (phase : Phase)
      → IsValid (at_phase phase)
      → rank phase ≡ 0
        ⊎ ((r : TerminalResizeQueue) × (push_step (at_phase phase) ≡ some r)
            × (rank r.phase < rank phase))
  unfolding push_step rank
  push_step-goes_on idle v = inl refl
  push_step-goes_on (checking size) v = elim (Bool-cases closed) [
    | inl shut ↦ rw shut (inr (_, refl, omega arith))
    | inr open_ ↦ rw open_ (inr (_, refl, omega arith))
  ]
  push_step-goes_on (selecting size) v = elim (Bool-cases (ltb (length ch) 4)) [
    | inl room ↦ rw (v.0.1, room) (inr (_, refl, omega arith))
    | inr full ↦ rw (v.0.1, full) (inr (_, refl, omega arith))
  ]
  push_step-goes_on (dropping size) v = inr (_, refl, omega arith)
  push_step-goes_on (sending size) v =
      let room : ltb (length ch) 4 ≡ true = ground (arith, v.0.0) in
      rw (v.0.1, room) (inr (_, refl, omega arith))

push-IsValid :
    (width height : ℕ) (q : TerminalResizeQueue) → IsValid q → IsValid (push width height q)
unfolding push
push-IsValid width height q v = elim (Bool-cases (nat_eq width 0 || nat_eq height 0)) [
  | inl nothing ↦ rw nothing v
  | inr something ↦ rw something (fits q.phase q.closed (length q.ch) v.0, v.1)
]

abbrev OnTaken : Option (TerminalSize × TerminalResizeQueue) → Type 0
OnTaken none = Unit
OnTaken (some (size, q)) = IsValid q

module _ (closed panicked : Bool) (phase : Phase) where
  next-IsValid :
      (ch : List TerminalSize)
      → IsValid (at_phase ch closed panicked phase)
      → OnTaken (next (at_phase ch closed panicked phase))
  unfolding next
  next-IsValid [] v = tt
  next-IsValid (size ∷ rest) v =
      (fewer phase closed (suc (length rest)) (length rest) (omega arith) v.0, v.1)

close-IsValid :
    (ch : List TerminalSize) (closed panicked : Bool) (phase : Phase)
    → IsValid (at_phase ch closed panicked phase)
    → OnSome IsValid (close (at_phase ch closed panicked phase))
unfolding close
close-IsValid ch closed panicked idle v = v
close-IsValid ch closed panicked (checking size) v = tt
close-IsValid ch closed panicked (selecting size) v = tt
close-IsValid ch closed panicked (dropping size) v = tt
close-IsValid ch closed panicked (sending size) v = tt

Step-IsValid : {q r : TerminalResizeQueue} → Step q r → IsValid q → IsValid r
Step-IsValid {q} (starts width height outside same) v =
    subst IsValid same (push-IsValid width height q v)
Step-IsValid {q} (pushes same) v =
    subst (OnSome IsValid) same (push_step-IsValid q.ch q.closed q.panicked q.phase v)
Step-IsValid {q} (takes size same) v =
    subst OnTaken same (next-IsValid q.closed q.panicked q.phase q.ch v)
Step-IsValid {q} (closes same) v =
    subst (OnSome IsValid) same (close-IsValid q.ch q.closed q.panicked q.phase v)

Reach-IsValid : {q r : TerminalResizeQueue} → Reach q r → IsValid q → IsValid r
Reach-IsValid here v = v
Reach-IsValid (later reached step) v = Step-IsValid step (Reach-IsValid reached v)

-- However the goroutines take turns on a new queue, the channel holds at most four sizes, nothing is
-- sent on it after it is closed, and a running Push always has a next step, of which it has at most
-- four: with one pusher, Push never waits.
pub Reach-goes_on :
    (q : TerminalResizeQueue)
    → Reach new_queue q
    → (length q.ch ≤ 4)
      × (q.panicked ≡ false)
      × (rank q.phase ≤ 4)
      × ((rank q.phase ≡ 0)
          ⊎ ((r : TerminalResizeQueue) × (push_step q ≡ some r) × (rank r.phase < rank q.phase)))
Reach-goes_on q reached = (
  fits q.phase q.closed (length q.ch) v.0,
  v.1,
  rank_le q.phase,
  push_step-goes_on q.ch q.closed q.panicked q.phase v,
)
  where
    v : IsValid q
    v = Reach-IsValid reached (omega arith, refl)
