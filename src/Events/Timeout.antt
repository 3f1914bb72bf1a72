-- ===== src/Events/Timeout.antt =====
-- src/timeout.cc, src/timeout_impl.h, and `LibeventTimeout`, `registerTimeout`, `unregisterTimeout`
-- of src/libevent_event_base.cc.
use what_the_event.Common.{
  ℕ, ◌≡◌, ◌≢◌, refl, sym, ◌∙◌, Option, none, some, Bool, true, false, ◌==◌, if◌then◌else◌, Outcome,
  ok, aborted, arith, Bool-cases, ==_refl, ne→==, inl, inr,
}
use what_the_event.Events.Libevent.{Event, Libevent, IsLibevent}
use what_the_event.Events.Registration.{EventBase}

-- `LibeventTimeout`
pub record TimeoutImpl : Type 0 where
  pub base : ℕ
  pub registered : Bool

-- `Timeout`
pub record Timeout : Type 0 where
  pub impl : Option TimeoutImpl

abbrev pub timer_event : ℕ → Event
timer_event duration = record { fd = none; events = 0; internal = false; timeout = some duration }

module _ (l : Libevent) where
  open l use {EvBase, event_add, event_del}

  unfoldable pub timeout_impl : EventBase l → Timeout → TimeoutImpl
  timeout_impl b t = elim t.impl [
    | none ↦ record { base = b.self; registered = false }
    | some i ↦ i
  ]

  -- `addr` is the address of the timeout's `event_`.
  unfoldable pub register_timeout : EventBase l → ℕ → Timeout → ℕ → Outcome (Timeout × EvBase)
  unfolding timeout_impl
  register_timeout b addr t duration =
      let i = timeout_impl b t in
      let events = if i.registered then event_del b.events addr else b.events in
      if b.in_loop_thread
      then ok (
        record { impl = some (record i { registered = true }) },
        event_add events addr (timer_event duration),
      )
      else aborted

  unfoldable pub unregister_known :
      EventBase l → ℕ → Timeout → TimeoutImpl → Outcome (Timeout × EvBase)
  unregister_known b addr t i =
      if i.base == b.self
      then (if i.registered
          then ok
              (record { impl = some (record i { registered = false }) }, event_del b.events addr)
          else ok (t, b.events))
      else aborted

  unfoldable pub unregister_timeout : EventBase l → ℕ → Timeout → Outcome (Timeout × EvBase)
  unfolding unregister_known
  unregister_timeout b addr t =
      if b.in_loop_thread
      then elim t.impl [ none ↦ ok (t, b.events) | some i ↦ unregister_known b addr t i ]
      else aborted

  -- A timeout that says that it is registered may have expired; one that says that it is not has
  -- nothing pending, and belongs to this base if to any.
  pub record IsKnown (b : EventBase l) (addr : ℕ) (t : Timeout) : Type 0 where
    pub idle : (timeout_impl b t).registered ≡ false → l.pending b.events addr ≡ none
    pub ours : (timeout_impl b t).base ≡ b.self

  -- How a call ends that leaves `p` pending for the timeout.
  pub record Leaves (b : EventBase l) (addr : ℕ) (p : Option Event) (r : Outcome (Timeout × EvBase))
      : Type 0 where
    pub timeout : Timeout
    pub events : EvBase
    pub runs : r ≡ ok (timeout, events)
    pub now : l.pending events addr ≡ p
    pub known : IsKnown (record b { events = events }) addr timeout
    pub others : (q : ℕ) → q ≢ addr → l.pending events q ≡ l.pending b.events q

module _ (l : Libevent) (d : IsLibevent l) (b : EventBase l) (addr : ℕ) (t : Timeout)
    (here : b.in_loop_thread ≡ true) (k : IsKnown l b addr t) where
  -- `registerTimeout` on the loop thread, whether or not the timeout was registered or has expired:
  -- libevent has one timer for it, with the new duration, and nothing else there has changed.
  pub register_timeout-Leaves :
      (duration : ℕ)
      → Leaves l b addr (some (timer_event duration)) (register_timeout l b addr t duration)
  unfolding register_timeout
  register_timeout-Leaves duration = record {
    timeout = record { impl = some (record (timeout_impl l b t) { registered = true }) };
    events = l.event_add dropped addr (timer_event duration);
    runs = ground arith;
    now = d.pending-add dropped addr addr _ free ∙ rw (==_refl addr);
    known = record { idle = λ e. cc; ours = k.ours };
    others =
        λ q n. d.pending-add dropped addr q _ free ∙ rw (ne→== addr q (λ e. n (sym e))) (kept q n);
  }
    where
      dropped : l.EvBase
      dropped = if (timeout_impl l b t).registered then l.event_del b.events addr else b.events

      free : l.pending dropped addr ≡ none
      free = elim (Bool-cases (timeout_impl l b t).registered) [
        | inl on ↦ rw on (d.pending-del b.events addr addr ∙ rw (==_refl addr))
        | inr off ↦ rw off (k.idle off)
      ]

      kept : (q : ℕ) → q ≢ addr → l.pending dropped q ≡ l.pending b.events q
      kept q n = elim (Bool-cases (timeout_impl l b t).registered) [
        | inl on ↦ rw on (d.pending-del b.events addr q ∙ rw (ne→== addr q (λ e. n (sym e))))
        | inr off ↦ rw off
      ]

  unregister_off :
      (timeout_impl l b t).registered ≡ false → unregister_timeout l b addr t ≡ ok (t, b.events)
  unfolding unregister_timeout timeout_impl
  unregister_off off = ground (arith, k.ours)

  unregister_on :
      (timeout_impl l b t).registered ≡ true
      → unregister_timeout l b addr t
        ≡ ok (
          record { impl = some (record (timeout_impl l b t) { registered = false }) },
          l.event_del b.events addr,
        )
  unfolding unregister_timeout timeout_impl
  unregister_on on = ground (arith, k.ours)

  -- `unregisterTimeout` on the loop thread: libevent has no timer for it, and nothing else there has
  -- changed.
  pub unregister_timeout-Leaves : Leaves l b addr none (unregister_timeout l b addr t)
  unfolding timeout_impl
  unregister_timeout-Leaves = elim (Bool-cases (timeout_impl l b t).registered) [
    | inr off ↦ record {
      timeout = t;
      events = b.events;
      runs = unregister_off off;
      now = k.idle off;
      known = k;
      others = λ q n. refl;
    }
    | inl on ↦ record {
      timeout = record { impl = some (record (timeout_impl l b t) { registered = false }) };
      events = l.event_del b.events addr;
      runs = unregister_on on;
      now = deleted;
      known = record { idle = λ _. deleted; ours = k.ours };
      others = λ q n. d.pending-del b.events addr q ∙ rw (ne→== addr q (λ e. n (sym e)));
    }
  ]
    where
      deleted : l.pending (l.event_del b.events addr) addr ≡ none
      deleted = d.pending-del b.events addr addr ∙ rw (==_refl addr)
