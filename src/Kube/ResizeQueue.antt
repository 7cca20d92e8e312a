-- ===== src/Kube/ResizeQueue.antt =====
-- internal/kube/terminal_resize.go: the queue between the websocket of a terminal, which pushes sizes
-- from one goroutine, the stream to the container, which takes them, and the handler, which closes the
-- queue. The steps of Push are modelled one by one, since the others may run in between; Push holds the
-- read lock from its start to its end, and Close needs the write lock.
pub mod Laws
use beaverdeck.Base.{
  ℕ, Bool, true, false, Option, none, some, List, [], ◌∷◌, ◌++◌, ◌||◌, ◌≡◌, length, drop, ltb,
  nat_eq, if◌then◌else◌,
}

pub record TerminalSize : Type 0 where
  pub width : ℕ
  pub height : ℕ

-- Where the pusher stands: outside Push; before its look at `closed`; before the first select; before
-- the second select; before the last send.
pub data Phase : Type 0 where
  idle : Phase
  checking selecting dropping sending : TerminalSize → Phase

pub record TerminalResizeQueue : Type 0 where
  pub ch : List TerminalSize
  pub closed : Bool
  pub phase : Phase
  -- a send on a closed channel
  pub panicked : Bool

abbrev pub ch_capacity : ℕ
ch_capacity = 4

abbrev pub new_queue : TerminalResizeQueue
new_queue = record { ch = []; closed = false; phase = idle; panicked = false }

-- Next, when a size is there
unfoldable pub next : TerminalResizeQueue → Option (TerminalSize × TerminalResizeQueue)
next q = go q.ch
  where
    go : List TerminalSize → Option (TerminalSize × TerminalResizeQueue)
    go [] = none
    go (size ∷ rest) = some (size, record q { ch = rest })

-- The start of Push, up to the read lock
unfoldable pub push : ℕ → ℕ → TerminalResizeQueue → TerminalResizeQueue
push width height q =
    if nat_eq width 0 || nat_eq height 0
    then q
    else record q { phase = checking (record { width = width; height = height }) }

-- A send that the channel takes at once.
abbrev pub sent : TerminalSize → TerminalResizeQueue → TerminalResizeQueue
sent size q =
    if q.closed
    then record q { panicked = true; phase = idle }
    else record q { ch = q.ch ++ size ∷ []; phase = idle }

abbrev pub is_ready : TerminalResizeQueue → Bool
is_ready q = q.closed || ltb (length q.ch) ch_capacity

-- The next step of a running Push; `none` when there is none, or when it has to wait.
unfoldable pub push_step : TerminalResizeQueue → Option TerminalResizeQueue
push_step q = elim q.phase [
  | idle ↦ none
  | checking size ↦ some (record q { phase = if q.closed then idle else selecting size })
  | selecting size ↦
      if is_ready q then some (sent size q) else some (record q { phase = dropping size })
  | dropping size ↦ some (record q { ch = drop 1 q.ch; phase = sending size })
  | sending size ↦ if is_ready q then some (sent size q) else none
]

-- Close, which waits while a Push runs
unfoldable pub close : TerminalResizeQueue → Option TerminalResizeQueue
close q = elim q.phase [ idle ↦ some (record q { closed = true }) | running ↦ none ]

-- What the goroutines may do, one step at a time.
pub data Step (q r : TerminalResizeQueue) : Type 0 where
  starts : (width height : ℕ) → q.phase ≡ idle → push width height q ≡ r → Step q r
  pushes : push_step q ≡ some r → Step q r
  takes : (size : TerminalSize) → next q ≡ some (size, r) → Step q r
  closes : close q ≡ some r → Step q r

pub data Reach (q : TerminalResizeQueue) : TerminalResizeQueue → Type 0 where
  here : Reach q q
  later : {r t : TerminalResizeQueue} → Reach q r → Step r t → Reach q t
