-- ===== src/Await/Safety.antt =====
-- What holds of the calling thread and the loop thread of Await.System.
use what_the_event.Common.{◌≡◌, refl, Bool, true, false, not, ◌&&◌, ◌||◌, if◌then◌else◌, arith}
use what_the_event.Await.System.{
  Caller, pushing, holding, sleeping, returned, Worker, idle, started, locked, flagged, notified,
  finished, Owner, nobody, caller, worker, State, Step, run_now, push, signal, refuse, lock, sleep,
  relock, return, pop, run, guard, set, notify, release, initial, Reachable, start, next,
  wake_spuriously, uses_stack,
}

-- Who has the mutex, by where a thread stands.
abbrev holds : Caller → Bool
holds holding = true
holds c = false

abbrev guards : Worker → Bool
guards locked = true
guards flagged = true
guards notified = true
guards w = false

-- `done` has been set.
abbrev is_set : Worker → Bool
is_set flagged = true
is_set notified = true
is_set finished = true
is_set w = false

-- The operation has been run.
abbrev has_run : Worker → Bool
has_run idle = false
has_run started = false
has_run w = true

-- The caller has been woken, if it slept when `notify_one` was called.
abbrev has_told : Worker → Bool
has_told notified = true
has_told finished = true
has_told w = false

abbrev is_asleep : Caller → Bool
is_asleep sleeping = true
is_asleep c = false

abbrev is_gone : Caller → Bool
is_gone returned = true
is_gone c = false

abbrev is_early : Caller → Bool
is_early pushing = true
is_early c = false

abbrev is_idle : Worker → Bool
is_idle idle = true
is_idle w = false

abbrev is_finished : Worker → Bool
is_finished finished = true
is_finished w = false

abbrev owner_of : Bool → Bool → Owner
owner_of true b = caller
owner_of false true = worker
owner_of false false = nobody

-- Before the operation was queued, or with no need to.
abbrev is_unqueued : Bool → Caller → Bool
is_unqueued true c = true
is_unqueued false pushing = true
is_unqueued false c = false

pub record Inv (s : State) : Type 0 where
  pub owned : s.owner ≡ owner_of (holds s.caller) (guards s.worker)
  pub apart : (holds s.caller && guards s.worker) ≡ false
  pub flag : s.done ≡ is_set s.worker
  pub count :
      s.ran ≡ (if has_run s.worker then 1 else (if s.direct && is_gone s.caller then 1 else 0))
  pub asleep : (is_asleep s.caller && has_told s.worker) ≡ false
  pub gone : (is_gone s.caller && not (s.direct || is_finished s.worker)) ≡ false
  pub early : (is_unqueued s.direct s.caller && not (is_idle s.worker && not s.queued)) ≡ false
  pub waits : (is_unqueued s.direct s.caller || s.queued || not (is_idle s.worker)) ≡ true
  pub plain : (s.direct && not (is_early s.caller || is_gone s.caller)) ≡ false

initial-Inv : (direct : Bool) → Inv (initial direct)
initial-Inv true = record {
  owned = refl;
  apart = refl;
  flag = refl;
  count = refl;
  asleep = refl;
  gone = refl;
  early = refl;
  waits = refl;
  plain = refl;
}
initial-Inv false = record {
  owned = refl;
  apart = refl;
  flag = refl;
  count = refl;
  asleep = refl;
  gone = refl;
  early = refl;
  waits = refl;
  plain = refl;
}

pub Step-Inv : {s t : State} → Inv s → Step s t → Inv t
Step-Inv {s = s} i (run_now e d) =
    ground (arith, i.owned, i.apart, i.flag, i.count, i.asleep, i.gone, i.early, i.waits, i.plain)
Step-Inv {s = s} i (push e d) =
    ground (arith, i.owned, i.apart, i.flag, i.count, i.asleep, i.gone, i.early, i.waits, i.plain)
Step-Inv {s = s} i (signal e) =
    ground (arith, i.owned, i.apart, i.flag, i.count, i.asleep, i.gone, i.early, i.waits, i.plain)
Step-Inv {s = s} i (refuse e) =
    ground (arith, i.owned, i.apart, i.flag, i.count, i.asleep, i.gone, i.early, i.waits, i.plain)
Step-Inv {s = s} i (lock e n) =
    ground (arith, i.owned, i.apart, i.flag, i.count, i.asleep, i.gone, i.early, i.waits, i.plain)
Step-Inv {s = s} i (sleep e d) =
    ground (arith, i.owned, i.apart, i.flag, i.count, i.asleep, i.gone, i.early, i.waits, i.plain)
Step-Inv {s = s} i (relock e n) =
    ground (arith, i.owned, i.apart, i.flag, i.count, i.asleep, i.gone, i.early, i.waits, i.plain)
Step-Inv {s = s} i (return e d) =
    ground (arith, i.owned, i.apart, i.flag, i.count, i.asleep, i.gone, i.early, i.waits, i.plain)
Step-Inv {s = s} i (pop e q) =
    ground (arith, i.owned, i.apart, i.flag, i.count, i.asleep, i.gone, i.early, i.waits, i.plain)
Step-Inv {s = s} i (run e) =
    ground (arith, i.owned, i.apart, i.flag, i.count, i.asleep, i.gone, i.early, i.waits, i.plain)
Step-Inv {s = s} i (guard e n) =
    ground (arith, i.owned, i.apart, i.flag, i.count, i.asleep, i.gone, i.early, i.waits, i.plain)
Step-Inv {s = s} i (set e) =
    ground (arith, i.owned, i.apart, i.flag, i.count, i.asleep, i.gone, i.early, i.waits, i.plain)
Step-Inv {s = s} i (notify e) =
    ground (arith, i.owned, i.apart, i.flag, i.count, i.asleep, i.gone, i.early, i.waits, i.plain)
Step-Inv {s = s} i (release e) =
    ground (arith, i.owned, i.apart, i.flag, i.count, i.asleep, i.gone, i.early, i.waits, i.plain)

wake-Inv : (s : State) → Inv s → s.caller ≡ sleeping → Inv (record s { caller = Caller.waking })
wake-Inv s i e =
    ground (arith, i.owned, i.apart, i.flag, i.count, i.asleep, i.gone, i.early, i.waits, i.plain)

pub Reachable-Inv : {s : State} → Reachable s → Inv s
Reachable-Inv (start direct) = initial-Inv direct
Reachable-Inv (next r e) = Step-Inv (Reachable-Inv r) e
Reachable-Inv (wake_spuriously r e) = wake-Inv _ (Reachable-Inv r) e

-- Under every interleaving, on the loop thread or not: when `runOnEventLoopAndWait` has returned true,
-- the operation has run, exactly once, and the loop thread does not use the flag, the mutex or the
-- condition variable any more, which are gone with the caller's stack.
pub returned_after_run :
    {s : State} → Reachable s → s.caller ≡ returned → (s.ran ≡ 1) × (uses_stack s.worker ≡ false)
returned_after_run {s} r e = let i = Reachable-Inv r in ground (arith, i.gone, i.count, i.early)
