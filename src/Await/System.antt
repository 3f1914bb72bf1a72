-- ===== src/Await/System.antt =====
-- The thread that calls `runOnEventLoopAndWait` and the loop thread, with the mutex, the condition
-- variable and the flag `done` that stand on the caller's stack. One access to what they share is one
-- step. Where the call is not made on the loop thread while no loop runs, the two threads differ.
use what_the_event.Common.{ℕ, suc, ◌≡◌, Bool, true, false}

-- Where the caller stands, in `runOnEventLoopAndWait`.
pub data Caller : Type 0 where
  pushing : Caller  -- before the test of the thread, and `runOnEventLoop`
  signalling : Caller  -- the operation is queued; before `signalNotifyQueue`
  locking : Caller  -- before `std::unique_lock`
  holding : Caller  -- with the mutex, before a test of `done`
  sleeping : Caller  -- in `cv.wait`, without the mutex
  waking : Caller  -- woken, before it has the mutex again
  -- the last two: its stack is gone, and `done`, the mutex and the condition variable with it
  returned : Caller  -- it has returned true
  refused : Caller  -- it has returned false

-- Where the loop thread stands, with the operation that was queued.
pub data Worker : Type 0 where
  idle : Worker  -- the operation is not yet taken off the queue
  started : Worker  -- before `op()`
  unlocked : Worker  -- after `op()`, before `std::lock_guard`
  locked : Worker  -- with the mutex, before `done = true`
  flagged : Worker  -- before `cv.notify_one()`
  notified : Worker  -- before the mutex is released
  finished : Worker

pub data Owner : Type 0 where
  nobody caller worker : Owner

-- `direct` is `!defer && inLoopThread()` for the caller.
pub record State : Type 0 where
  pub direct : Bool
  pub caller : Caller
  pub worker : Worker
  pub owner : Owner
  pub queued : Bool
  pub done : Bool
  pub ran : ℕ

-- `notify_one` wakes the caller if it sleeps.
abbrev pub woken : Caller → Caller
woken sleeping = waking
woken c = c

-- What the two threads do.
pub data Step (s : State) : State → Type 0 where
  run_now :
      s.caller ≡ pushing
      → s.direct ≡ true
      → Step s (record s { caller = returned; ran = suc s.ran })
  push :
      s.caller ≡ pushing
      → s.direct ≡ false
      → Step s (record s { caller = signalling; queued = true })
  -- the byte is written, or none is needed
  signal : s.caller ≡ signalling → Step s (record s { caller = locking })
  -- the write to the pipe fails
  refuse : s.caller ≡ signalling → Step s (record s { caller = refused })
  lock :
      s.caller ≡ locking → s.owner ≡ nobody → Step s (record s { caller = holding; owner = caller })
  sleep :
      s.caller ≡ holding → s.done ≡ false → Step s (record s { caller = sleeping; owner = nobody })
  relock :
      s.caller ≡ waking → s.owner ≡ nobody → Step s (record s { caller = holding; owner = caller })
  return :
      s.caller ≡ holding → s.done ≡ true → Step s (record s { caller = returned; owner = nobody })
  pop : s.worker ≡ idle → s.queued ≡ true → Step s (record s { worker = started; queued = false })
  run : s.worker ≡ started → Step s (record s { worker = unlocked; ran = suc s.ran })
  guard :
      s.worker ≡ unlocked → s.owner ≡ nobody → Step s (record s { worker = locked; owner = worker })
  set : s.worker ≡ locked → Step s (record s { worker = flagged; done = true })
  notify : s.worker ≡ flagged → Step s (record s { worker = notified; caller = woken s.caller })
  release : s.worker ≡ notified → Step s (record s { worker = finished; owner = nobody })

abbrev pub initial : Bool → State
initial direct = record {
  direct = direct;
  caller = pushing;
  worker = idle;
  owner = nobody;
  queued = false;
  done = false;
  ran = 0;
}

-- A condition variable may also wake its waiter without a call of `notify_one`.
pub data Reachable : State → Type 0 where
  start : (direct : Bool) → Reachable (initial direct)
  next : {s t : State} → Reachable s → Step s t → Reachable t
  wake_spuriously :
      {s : State} → Reachable s → s.caller ≡ sleeping → Reachable (record s { caller = waking })

-- Any number of steps of the two threads, none of them a spurious wake-up.
pub data Steps : State → State → Type 0 where
  stay : {s : State} → Steps s s
  go : {s t u : State} → Step s t → Steps t u → Steps s u

-- The worker is between the end of `op()` and the release of the mutex, where it uses `done`, the
-- mutex and the condition variable.
abbrev pub uses_stack : Worker → Bool
uses_stack unlocked = true
uses_stack locked = true
uses_stack flagged = true
uses_stack notified = true
uses_stack w = false
