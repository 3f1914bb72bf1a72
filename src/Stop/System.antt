-- ===== src/Stop/System.antt =====
-- The thread that calls `stop` and the thread that drives `loop(FOREVER)`. One access to what they
-- share is one step, and so are a push, a look at what the mutex of `await_` guards with the wait or the
-- return that follows, and what `loop` does under that mutex. A write to the pipe succeeds.
use what_the_event.Common.{◌≡◌, Bool, true, false, not, ◌||◌}

-- Where `stop` stands.
pub data Stopper : Type 0 where
  calling : Stopper  -- before `inLoopThread`
  queueing : Stopper  -- before the operation is pushed
  signalling : Stopper  -- in `push`, before it looks at the tail again and signals
  marking : Stopper  -- before the operation is run by the caller itself
  waiting : Stopper  -- before a look at `finished`
  sleeping : Stopper  -- asleep in `await_.cv.wait`
  returned : Stopper

-- Where `loop` stands.
pub data Looper : Type 0 where
  before : Looper
  entered : Looper  -- before `await_.finished = false`
  running : Looper  -- in `runOpsInQueue`, before a `pop`
  polling : Looper  -- in `event_base_loop`
  testing : Looper  -- before the test of `terminate_`
  leaving : Looper  -- after the loop, before `terminate_` is reset
  unlinked : Looper  -- before `loopThread_` is reset
  telling : Looper  -- before `finished` is set and the waiters are told
  done : Looper

pub record State : Type 0 where
  pub stopper : Stopper
  pub looper : Looper
  pub in_loop : Bool  -- `loopThread_` is set
  pub queued : Bool  -- the operation of `stop` is in the queue
  pub kicked : Bool  -- there is a byte in the pipe
  pub exiting : Bool  -- `event_base_loopexit` was called, so that `event_base_loop` returns
  pub unseen : Bool  -- `stop` saw no loop, and runs the operation itself
  pub terminate : Bool
  pub finished : Bool

-- The driving thread can go on; where it is the one that called `stop`, only after that has returned.
abbrev pub is_free : Bool → Stopper → Bool
is_free false c = true
is_free true returned = true
is_free true c = false

-- `notify_all` wakes the caller of `stop` if it sleeps.
abbrev pub woken : Stopper → Stopper
woken sleeping = waiting
woken c = c

-- `event_base_loopexit` called by another thread does not rouse an `event_base_loop` that waits.
abbrev pub is_roused : Looper → Bool
is_roused polling = false
is_roused l = true

-- What the two threads do. The flag says that `stop` is called by the thread that drives the loop.
pub data Step (own : Bool) (s : State) : State → Type 0 where
  see_loop :
      s.stopper ≡ calling
      → (own || not s.in_loop) ≡ false
      → Step own s (record s { stopper = queueing })
  see_none :
      s.stopper ≡ calling
      → (own || not s.in_loop) ≡ true
      → Step own s (record s { stopper = marking; unseen = true })
  push : s.stopper ≡ queueing → Step own s (record s { stopper = signalling; queued = true })
  signal : s.stopper ≡ signalling → Step own s (record s { stopper = waiting; kicked = true })
  -- `push` answers false, since the operation has been popped
  skip : s.stopper ≡ signalling → s.queued ≡ false → Step own s (record s { stopper = waiting })
  mark :
      s.stopper ≡ marking
      → Step own s (record s { stopper = waiting; terminate = true; exiting = is_roused s.looper })
  sleep : s.stopper ≡ waiting → s.finished ≡ false → Step own s (record s { stopper = sleeping })
  return : s.stopper ≡ waiting → s.finished ≡ true → Step own s (record s { stopper = returned })
  enter :
      is_free own s.stopper ≡ true
      → s.looper ≡ before
      → Step own s (record s { looper = entered; in_loop = true })
  clear :
      is_free own s.stopper ≡ true
      → s.looper ≡ entered
      → Step own s (record s { looper = running; finished = false })
  run :
      is_free own s.stopper ≡ true
      → s.looper ≡ running
      → s.queued ≡ true
      → Step own s (record s { queued = false; terminate = true; exiting = true })
  poll :
      is_free own s.stopper ≡ true
      → s.looper ≡ running
      → s.queued ≡ false
      → Step own s (record s { looper = polling })
  -- `receiveNotifications` reads the pipe and runs what is in the queue
  wake :
      is_free own s.stopper ≡ true
      → s.looper ≡ polling
      → s.kicked ≡ true
      → Step own s (record s {
        looper = testing;
        kicked = false;
        queued = false;
        terminate = s.terminate || s.queued;
        exiting = s.exiting || s.queued;
      })
  exit :
      is_free own s.stopper ≡ true
      → s.looper ≡ polling
      → s.exiting ≡ true
      → Step own s (record s { looper = testing; exiting = false })
  again :
      is_free own s.stopper ≡ true
      → s.looper ≡ testing
      → s.terminate ≡ false
      → Step own s (record s { looper = running })
  leave :
      is_free own s.stopper ≡ true
      → s.looper ≡ testing
      → s.terminate ≡ true
      → Step own s (record s { looper = leaving })
  reset :
      is_free own s.stopper ≡ true
      → s.looper ≡ leaving
      → Step own s (record s { looper = unlinked; terminate = false })
  release :
      is_free own s.stopper ≡ true
      → s.looper ≡ unlinked
      → Step own s (record s { looper = telling; in_loop = false })
  tell :
      is_free own s.stopper ≡ true
      → s.looper ≡ telling
      → Step own s (record s { looper = done; finished = true; stopper = woken s.stopper })

-- Before both calls, on a new event base.
abbrev pub initial : State
initial = record {
  stopper = calling;
  looper = before;
  in_loop = false;
  queued = false;
  kicked = false;
  exiting = false;
  unseen = false;
  terminate = false;
  finished = false;
}

-- `stop` is called by an operation, or by a handler, while the loop runs.
abbrev pub within : State
within = record initial { looper = running; in_loop = true }

-- What may also happen: an event of another handler or of the timer ends `event_base_loop`, and the
-- condition variable wakes its waiter without a call of `notify_all`.
pub data Reachable : Bool → State → Type 0 where
  start : Reachable false initial
  start_within : Reachable true within
  next : {own : Bool} {s t : State} → Reachable own s → Step own s t → Reachable own t
  other_event :
      {own : Bool} {s : State}
      → Reachable own s
      → is_free own s.stopper ≡ true
      → s.looper ≡ polling
      → Reachable own (record s { looper = testing })
  wake_spuriously :
      {own : Bool} {s : State}
      → Reachable own s
      → s.stopper ≡ sleeping
      → Reachable own (record s { stopper = waiting })

-- Any number of steps of the two threads. Only where `stop` saw no loop may the timer of `loop(FOREVER)`,
-- which runs out every hour, be needed as well.
pub data Steps : State → State → Type 0 where
  stay : {s : State} → Steps s s
  go : {s t u : State} → Step false s t → Steps t u → Steps s u
  timer :
      {s u : State}
      → s.looper ≡ polling
      → s.unseen ≡ true
      → Steps (record s { looper = testing }) u
      → Steps s u
