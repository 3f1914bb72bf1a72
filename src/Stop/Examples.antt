-- ===== src/Stop/Examples.antt =====
-- Runs of `stop` beside a loop, and the theorems applied there.
use what_the_event.Common.{◌≡◌, refl, true, false}
use what_the_event.Stop.System.{
  waiting, returned, running, done, State, see_loop, push, signal, return, enter, clear, run, poll,
  exit, leave, reset, release, tell, within, Reachable, start, next,
}
use what_the_event.Stop.Safety.{loop_over}
use what_the_event.Stop.Progress.{CanReturn, stop_returns}

-- The operation has been pushed while the loop runs.
abbrev pushed : State
pushed = record {
  stopper = waiting;
  looper = running;
  in_loop = true;
  queued = true;
  kicked = true;
  exiting = false;
  unseen = false;
  terminate = false;
  finished = false;
}

pushed-Reachable : Reachable false pushed
pushed-Reachable =
    next
      (next (next (next (next start (enter refl refl)) (see_loop refl refl)) (clear refl refl))
        (push refl))
      (signal refl)

stop_returns_example : CanReturn pushed
stop_returns_example = stop_returns pushed pushed-Reachable

abbrev stopped : State
stopped = record {
  stopper = returned;
  looper = done;
  in_loop = false;
  queued = false;
  kicked = true;
  exiting = false;
  unseen = false;
  terminate = false;
  finished = true;
}

stopped-Reachable : Reachable false stopped
stopped-Reachable =
    next
      (next
        (next
          (next
            (next
              (next (next (next pushed-Reachable (run refl refl refl)) (poll refl refl refl))
                (exit refl refl refl))
              (leave refl refl refl))
            (reset refl refl))
          (release refl refl))
        (tell refl refl))
      (return refl refl)

loop_over_example : stopped.looper ≡ done
loop_over_example = loop_over stopped stopped-Reachable refl

abbrev stuck : State
stuck = record within { stopper = waiting; terminate = true; unseen = true; exiting = true }
