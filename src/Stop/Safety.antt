-- ===== src/Stop/Safety.antt =====
-- What holds of the two calls whatever the order of their steps.
use what_the_event.Common.{◌≡◌, ◌≢◌, refl, Bool, true, false, not, ◌&&◌, ◌||◌, arith}
use what_the_event.Stop.System.{
  Stopper, signalling, marking, waiting, sleeping, returned, Looper, before, entered, running,
  polling, testing, leaving, unlinked, telling, done, State, Step, see_loop, see_none, push, signal,
  skip, mark, sleep, return, enter, clear, run, poll, wake, exit, again, leave, reset, release,
  tell, Reachable, start, start_within, next, other_event, wake_spuriously,
}

abbrev pub has_asked : Stopper → Bool
has_asked signalling = true
has_asked waiting = true
has_asked sleeping = true
has_asked returned = true
has_asked c = false

abbrev has_returned : Stopper → Bool
has_returned returned = true
has_returned c = false

abbrev pub is_signalling : Stopper → Bool
is_signalling signalling = true
is_signalling c = false

abbrev is_marking : Stopper → Bool
is_marking marking = true
is_marking c = false

abbrev pub is_sleeping : Stopper → Bool
is_sleeping sleeping = true
is_sleeping c = false

abbrev is_done : Looper → Bool
is_done done = true
is_done l = false

-- The loop has not come back from `event_base_loop` since `terminate_` was set.
abbrev is_turning : Looper → Bool
is_turning before = true
is_turning entered = true
is_turning running = true
is_turning polling = true
is_turning l = false

-- The loop is past the test of `terminate_`.
abbrev pub is_past : Looper → Bool
is_past leaving = true
is_past unlinked = true
is_past telling = true
is_past done = true
is_past l = false

-- An operation in the queue has a byte in the pipe, once `push` is over; a loop that is to end is called
-- out of `event_base_loop`; and who sleeps has not been told.
pub record Inv (s : State) : Type 0 where
  pub over : s.finished ≡ is_done s.looper
  pub early : (has_returned s.stopper && not s.finished) ≡ false
  pub asked : has_asked s.stopper ≡ (s.terminate || s.queued || is_past s.looper)
  pub roused : (s.queued && not (is_signalling s.stopper) && not s.kicked) ≡ false
  pub exits : (s.terminate && is_turning s.looper && not s.unseen && not s.exiting) ≡ false
  pub marks : (is_marking s.stopper && not s.unseen) ≡ false
  pub told : (is_sleeping s.stopper && s.finished) ≡ false

pub Step-Inv : {own : Bool} {s t : State} → Inv s → Step own s t → Inv t
Step-Inv i (see_loop a b) =
    ground (arith, i.over, i.early, i.asked, i.roused, i.exits, i.marks, i.told, a, b)
Step-Inv i (see_none a b) =
    ground (arith, i.over, i.early, i.asked, i.roused, i.exits, i.marks, i.told, a, b)
Step-Inv i (push a) =
    ground (arith, i.over, i.early, i.asked, i.roused, i.exits, i.marks, i.told, a)
Step-Inv i (signal a) =
    ground (arith, i.over, i.early, i.asked, i.roused, i.exits, i.marks, i.told, a)
Step-Inv i (skip a b) =
    ground (arith, i.over, i.early, i.asked, i.roused, i.exits, i.marks, i.told, a, b)
Step-Inv i (mark a) =
    ground (arith, i.over, i.early, i.asked, i.roused, i.exits, i.marks, i.told, a)
Step-Inv i (sleep a b) =
    ground (arith, i.over, i.early, i.asked, i.roused, i.exits, i.marks, i.told, a, b)
Step-Inv i (return a b) =
    ground (arith, i.over, i.early, i.asked, i.roused, i.exits, i.marks, i.told, a, b)
Step-Inv i (enter a b) =
    ground (arith, i.over, i.early, i.asked, i.roused, i.exits, i.marks, i.told, a, b)
Step-Inv i (clear a b) =
    ground (arith, i.over, i.early, i.asked, i.roused, i.exits, i.marks, i.told, a, b)
Step-Inv i (run a b c) =
    ground (arith, i.over, i.early, i.asked, i.roused, i.exits, i.marks, i.told, a, b, c)
Step-Inv i (poll a b c) =
    ground (arith, i.over, i.early, i.asked, i.roused, i.exits, i.marks, i.told, a, b, c)
Step-Inv i (wake a b c) =
    ground (arith, i.over, i.early, i.asked, i.roused, i.exits, i.marks, i.told, a, b, c)
Step-Inv i (exit a b c) =
    ground (arith, i.over, i.early, i.asked, i.roused, i.exits, i.marks, i.told, a, b, c)
Step-Inv i (again a b c) =
    ground (arith, i.over, i.early, i.asked, i.roused, i.exits, i.marks, i.told, a, b, c)
Step-Inv i (leave a b c) =
    ground (arith, i.over, i.early, i.asked, i.roused, i.exits, i.marks, i.told, a, b, c)
Step-Inv i (reset a b) =
    ground (arith, i.over, i.early, i.asked, i.roused, i.exits, i.marks, i.told, a, b)
Step-Inv i (release a b) =
    ground (arith, i.over, i.early, i.asked, i.roused, i.exits, i.marks, i.told, a, b)
Step-Inv i (tell a b) =
    ground (arith, i.over, i.early, i.asked, i.roused, i.exits, i.marks, i.told, a, b)

pub other_event-Inv : (s : State) → Inv s → s.looper ≡ polling → Inv (record s { looper = testing })
other_event-Inv s i e =
    ground (arith, i.over, i.early, i.asked, i.roused, i.exits, i.marks, i.told, e)

wake-Inv : (s : State) → Inv s → s.stopper ≡ sleeping → Inv (record s { stopper = waiting })
wake-Inv s i e = ground (arith, i.over, i.early, i.asked, i.roused, i.exits, i.marks, i.told, e)

pub Reachable-Inv : {own : Bool} {s : State} → Reachable own s → Inv s
Reachable-Inv start = record {
  over = refl;
  early = refl;
  asked = refl;
  roused = refl;
  exits = refl;
  marks = refl;
  told = refl;
}
Reachable-Inv start_within = record {
  over = refl;
  early = refl;
  asked = refl;
  roused = refl;
  exits = refl;
  marks = refl;
  told = refl;
}
Reachable-Inv (next r e) = Step-Inv (Reachable-Inv r) e
Reachable-Inv (other_event r _ e) = other_event-Inv _ (Reachable-Inv r) e
Reachable-Inv (wake_spuriously r e) = wake-Inv _ (Reachable-Inv r) e

-- When a call of `stop` on a new event base has returned, the call of `loop` has come to its end,
-- whichever of the two began first.
pub loop_over : (s : State) → Reachable false s → s.stopper ≡ returned → s.looper ≡ done
loop_over s r e = let i = Reachable-Inv r in at s.looper (ground (arith, i.over, i.early, e))
  where
    at : (l : Looper) → is_done l ≡ true → l ≡ done
    at done h = refl
    at before h = cc
    at entered h = cc
    at running h = cc
    at polling h = cc
    at testing h = cc
    at leaving h = cc
    at unlinked h = cc
    at telling h = cc

-- `stop` has been called by the thread that drives the loop.
record Held (s : State) : Type 0 where
  loops : s.looper ≡ running
  unfinished : s.finished ≡ false
  kept : has_returned s.stopper ≡ false

Step-Held : {s t : State} → Held s → Step true s t → Held t
Step-Held h (see_loop a b) = ground (arith, h.loops, h.unfinished, h.kept, a, b)
Step-Held h (see_none a b) = ground (arith, h.loops, h.unfinished, h.kept, a, b)
Step-Held h (push a) = ground (arith, h.loops, h.unfinished, h.kept, a)
Step-Held h (signal a) = ground (arith, h.loops, h.unfinished, h.kept, a)
Step-Held h (skip a b) = ground (arith, h.loops, h.unfinished, h.kept, a, b)
Step-Held h (mark a) = ground (arith, h.loops, h.unfinished, h.kept, a)
Step-Held h (sleep a b) = ground (arith, h.loops, h.unfinished, h.kept, a, b)
Step-Held h (return a b) = ground (arith, h.loops, h.unfinished, h.kept, a, b)
Step-Held h (enter a b) = ground (arith, h.loops, h.unfinished, h.kept, a, b)
Step-Held h (clear a b) = ground (arith, h.loops, h.unfinished, h.kept, a, b)
Step-Held h (run a b c) = ground (arith, h.loops, h.unfinished, h.kept, a, b, c)
Step-Held h (poll a b c) = ground (arith, h.loops, h.unfinished, h.kept, a, b, c)
Step-Held h (wake a b c) = ground (arith, h.loops, h.unfinished, h.kept, a, b, c)
Step-Held h (exit a b c) = ground (arith, h.loops, h.unfinished, h.kept, a, b, c)
Step-Held h (again a b c) = ground (arith, h.loops, h.unfinished, h.kept, a, b, c)
Step-Held h (leave a b c) = ground (arith, h.loops, h.unfinished, h.kept, a, b, c)
Step-Held h (reset a b) = ground (arith, h.loops, h.unfinished, h.kept, a, b)
Step-Held h (release a b) = ground (arith, h.loops, h.unfinished, h.kept, a, b)
Step-Held h (tell a b) = ground (arith, h.loops, h.unfinished, h.kept, a, b)

Reachable-Held : {s : State} → Reachable true s → Held s
Reachable-Held start_within = record { loops = refl; unfinished = refl; kept = refl }
Reachable-Held (next r e) = Step-Held (Reachable-Held r) e
Reachable-Held (other_event r a e) =
    let h = Reachable-Held r in ground (arith, h.loops, h.unfinished, h.kept, a, e)
Reachable-Held (wake_spuriously r e) =
    let h = Reachable-Held r in ground (arith, h.loops, h.unfinished, h.kept, e)

-- A call of `stop` from the thread that drives the loop never returns, and the loop goes no further.
pub stop_within_stuck :
    (s : State) → Reachable true s → (s.stopper ≢ returned) × (s.looper ≡ running)
stop_within_stuck s r = let h = Reachable-Held r in ((λ e. ground (arith, h.kept, e)), h.loops)
