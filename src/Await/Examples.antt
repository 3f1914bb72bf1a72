-- ===== src/Await/Examples.antt =====
-- A state in which the caller sleeps while the operation runs, and the end of that call.
use what_the_event.Common.{◌≡◌, refl, Bool, false}
use what_the_event.Await.System.{
  sleeping, returned, unlocked, finished, nobody, State, push, signal, lock, sleep, relock, return,
  pop, run, guard, set, notify, release, Reachable, start, next, uses_stack,
}
use what_the_event.Await.Safety.{returned_after_run}

-- The caller sleeps, and the operation has run.
abbrev asleep : State
asleep = record {
  direct = false;
  caller = sleeping;
  worker = unlocked;
  owner = nobody;
  queued = false;
  done = false;
  ran = 1;
}

asleep-Reachable : Reachable asleep
asleep-Reachable =
    next
      (next
        (next (next (next (next (start false) (push refl refl)) (signal refl)) (lock refl refl))
          (sleep refl refl))
        (pop refl refl))
      (run refl)

abbrev over : State
over = record asleep { caller = returned; worker = finished; done = Bool.true }

over-Reachable : Reachable over
over-Reachable =
    next
      (next
        (next (next (next (next asleep-Reachable (guard refl refl)) (set refl)) (notify refl))
          (release refl))
        (relock refl refl))
      (return refl refl)

returned_after_run_example : (over.ran ≡ 1) × (uses_stack over.worker ≡ false)
returned_after_run_example = returned_after_run over-Reachable refl
