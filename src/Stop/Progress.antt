-- ===== src/Stop/Progress.antt =====
-- From any state of Stop.System to the end of `stop`.
use what_the_event.Common.{◌≡◌, refl, Bool, true, false, not, ◌&&◌, ◌||◌, arith}
use what_the_event.Stop.System.{
  Stopper, calling, queueing, signalling, marking, waiting, sleeping, returned, Looper, before,
  entered, running, polling, testing, leaving, unlinked, telling, done, State, woken, Step,
  see_loop, see_none, push, signal, mark, return, enter, clear, run, poll, wake, exit, again, leave,
  reset, release, tell, Reachable, Steps, stay, go, timer,
}
use what_the_event.Stop.Safety.{
  Inv, is_sleeping, is_signalling, has_asked, is_past, Step-Inv, other_event-Inv, Reachable-Inv,
}

-- Some steps of the two threads from here lead to the return of `stop`.
abbrev pub CanReturn : State → Type 0
CanReturn s = (t : State) × Steps s t × (t.stopper ≡ returned)

step_first : {s t : State} → Step false s t → CanReturn t → CanReturn s
step_first e (t, steps, over) = (t, go e steps, over)

timer_first :
    {s : State}
    → s.looper ≡ polling
    → s.unseen ≡ true
    → CanReturn (record s { looper = testing })
    → CanReturn s
timer_first l u (t, steps, over) = (t, timer l u steps, over)

-- In the wait, awake or asleep.
abbrev is_waiting : Stopper → Bool
is_waiting waiting = true
is_waiting sleeping = true
is_waiting c = false

awake : (c : Stopper) → is_waiting c ≡ true → is_sleeping c ≡ false → c ≡ waiting
awake waiting w a = refl
awake sleeping w a = cc
awake calling w a = cc
awake queueing w a = cc
awake signalling w a = cc
awake marking w a = cc
awake returned w a = cc

woken-is_waiting : (c : Stopper) → is_waiting c ≡ true → is_waiting (woken c) ≡ true
woken-is_waiting waiting w = refl
woken-is_waiting sleeping w = refl
woken-is_waiting calling w = cc
woken-is_waiting queueing w = cc
woken-is_waiting signalling w = cc
woken-is_waiting marking w = cc
woken-is_waiting returned w = cc

after_done : (s : State) → Inv s → is_waiting s.stopper ≡ true → s.looper ≡ done → CanReturn s
after_done s i w l =
    let over : s.finished ≡ true = ground (arith, i.over, l) in
    step_first (return (awake s.stopper w (ground (arith, i.told, over))) over) (_, stay, refl)

after_telling : (s : State) → Inv s → is_waiting s.stopper ≡ true → s.looper ≡ telling → CanReturn s
after_telling s i w l =
    let e : Step false s _ = tell refl l in
    step_first e (after_done _ (Step-Inv i e) (woken-is_waiting s.stopper w) refl)

after_unlinked :
    (s : State) → Inv s → is_waiting s.stopper ≡ true → s.looper ≡ unlinked → CanReturn s
after_unlinked s i w l =
    let e : Step false s _ = release refl l in step_first e (after_telling _ (Step-Inv i e) w refl)

after_leaving : (s : State) → Inv s → is_waiting s.stopper ≡ true → s.looper ≡ leaving → CanReturn s
after_leaving s i w l =
    let e : Step false s _ = reset refl l in step_first e (after_unlinked _ (Step-Inv i e) w refl)

after_terminate :
    (s : State)
    → Inv s
    → is_waiting s.stopper ≡ true
    → s.looper ≡ testing
    → s.terminate ≡ true
    → CanReturn s
after_terminate s i w l t =
    let e : Step false s _ = leave refl l t in step_first e (after_leaving _ (Step-Inv i e) w refl)

-- The loop is asked to end, and `event_base_loop` as well, unless `stop` saw no loop.
after_told :
    (s : State) (u : Bool)
    → Inv s
    → is_waiting s.stopper ≡ true
    → s.looper ≡ polling
    → s.terminate ≡ true
    → s.unseen ≡ u
    → CanReturn s
after_told s true i w l t u = timer_first l u (after_terminate _ (other_event-Inv s i l) w refl t)
after_told s false i w l t u =
    let e : Step false s _ = exit refl l (ground (arith, i.exits, l, t, u)) in
    step_first e (after_terminate _ (Step-Inv i e) w refl t)

-- Where the operation is not in the queue, it has been run.
after_polling :
    (s : State) (q : Bool)
    → Inv s
    → is_waiting s.stopper ≡ true
    → s.looper ≡ polling
    → s.queued ≡ q
    → CanReturn s
after_polling s true i w l q =
    let e : Step false s _ = wake refl l (kicked s.stopper w i.roused) in
    step_first e (after_terminate _ (Step-Inv i e) w refl (ground (arith, q)))
  where
    kicked :
        (c : Stopper)
        → is_waiting c ≡ true
        → (s.queued && not (is_signalling c) && not s.kicked) ≡ false
        → s.kicked ≡ true
    kicked waiting h k = ground (arith, k, q)
    kicked sleeping h k = ground (arith, k, q)
    kicked calling h k = cc
    kicked queueing h k = cc
    kicked signalling h k = cc
    kicked marking h k = cc
    kicked returned h k = cc
after_polling s false i w l q = after_told s _ i w l (asked s.stopper w i.asked) refl
  where
    asked :
        (c : Stopper)
        → is_waiting c ≡ true
        → has_asked c ≡ (s.terminate || s.queued || is_past s.looper)
        → s.terminate ≡ true
    asked waiting h k = ground (arith, k, l, q)
    asked sleeping h k = ground (arith, k, l, q)
    asked calling h k = cc
    asked queueing h k = cc
    asked signalling h k = cc
    asked marking h k = cc
    asked returned h k = cc

after_pop :
    (s : State)
    → Inv s
    → is_waiting s.stopper ≡ true
    → s.looper ≡ running
    → s.queued ≡ false
    → CanReturn s
after_pop s i w l q =
    let e : Step false s _ = poll refl l q in
    step_first e (after_polling _ _ (Step-Inv i e) w refl refl)

after_running :
    (s : State) (q : Bool)
    → Inv s
    → is_waiting s.stopper ≡ true
    → s.looper ≡ running
    → s.queued ≡ q
    → CanReturn s
after_running s true i w l q =
    let e : Step false s _ = run refl l q in step_first e (after_pop _ (Step-Inv i e) w l refl)
after_running s false i w l q = after_pop s i w l q

-- A round that found nothing to do comes to the test of `terminate_`; the operation may be pushed
-- just before.
after_testing :
    (s : State) (t : Bool)
    → Inv s
    → is_waiting s.stopper ≡ true
    → s.looper ≡ testing
    → s.terminate ≡ t
    → CanReturn s
after_testing s true i w l t = after_terminate s i w l t
after_testing s false i w l t =
    let e : Step false s _ = again refl l t in
    step_first e (after_running _ _ (Step-Inv i e) w refl refl)

after_entered : (s : State) → Inv s → is_waiting s.stopper ≡ true → s.looper ≡ entered → CanReturn s
after_entered s i w l =
    let e : Step false s _ = clear refl l in
    step_first e (after_running _ _ (Step-Inv i e) w refl refl)

after_waiting :
    (s : State) (l : Looper) → Inv s → is_waiting s.stopper ≡ true → s.looper ≡ l → CanReturn s
after_waiting s before i w l =
    let e : Step false s _ = enter refl l in step_first e (after_entered _ (Step-Inv i e) w refl)
after_waiting s entered i w l = after_entered s i w l
after_waiting s running i w l = after_running s _ i w l refl
after_waiting s polling i w l = after_polling s _ i w l refl
after_waiting s testing i w l = after_testing s _ i w l refl
after_waiting s leaving i w l = after_leaving s i w l
after_waiting s unlinked i w l = after_unlinked s i w l
after_waiting s telling i w l = after_telling s i w l
after_waiting s done i w l = after_done s i w l

after_signalling : (s : State) → Inv s → s.stopper ≡ signalling → CanReturn s
after_signalling s i c =
    let e : Step false s _ = signal c in step_first e (after_waiting _ _ (Step-Inv i e) refl refl)

after_queueing : (s : State) → Inv s → s.stopper ≡ queueing → CanReturn s
after_queueing s i c =
    let e : Step false s _ = push c in step_first e (after_signalling _ (Step-Inv i e) refl)

after_marking : (s : State) → Inv s → s.stopper ≡ marking → CanReturn s
after_marking s i c =
    let e : Step false s _ = mark c in step_first e (after_waiting _ _ (Step-Inv i e) refl refl)

after_calling : (s : State) (b : Bool) → Inv s → s.stopper ≡ calling → s.in_loop ≡ b → CanReturn s
after_calling s true i c b =
    let e : Step false s _ = see_loop c (ground (arith, b)) in
    step_first e (after_queueing _ (Step-Inv i e) refl)
after_calling s false i c b =
    let e : Step false s _ = see_none c (ground (arith, b)) in
    step_first e (after_marking _ (Step-Inv i e) refl)

after_all : (s : State) (c : Stopper) → Inv s → s.stopper ≡ c → CanReturn s
after_all s calling i c = after_calling s _ i c refl
after_all s queueing i c = after_queueing s i c
after_all s marking i c = after_marking s i c
after_all s signalling i c = after_signalling s i c
after_all s waiting i c = after_waiting s _ i (ground (arith, c)) refl
after_all s sleeping i c = after_waiting s _ i (ground (arith, c)) refl
after_all s returned i c = (s, stay, c)

-- On a new event base, with `loop(FOREVER)` and `stop` called once each by two threads: from every
-- state that they reach, in whatever order, with any other events and spurious wake-ups so far, some
-- steps of theirs lead to the return of `stop`, without a spurious wake-up. The loop leaves
-- `event_base_loop` for the byte that `stop` writes or for `event_base_loopexit`, except where `stop`
-- saw no loop: there the hourly timer of the loop may be needed too.
pub stop_returns : (s : State) → Reachable false s → CanReturn s
stop_returns s r = after_all s s.stopper (Reachable-Inv r) refl
