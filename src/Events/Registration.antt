-- ===== src/Events/Registration.antt =====
-- `registerHandler` and `unregisterHandler` of src/libevent_event_base.cc, and
-- `EventHandler::unregister`.
use Prim.Native.Nat.{bit_or}
use what_the_event.Common.{
  ℕ, none, some, Bool, true, false, ◌==◌, if◌then◌else◌, Outcome, ok, aborted, not,
}
use what_the_event.Events.What.{What}
use what_the_event.Events.Libevent.{Event, Libevent}
use what_the_event.Events.Handler.{HandlerImpl, EventHandler, registered, watched, to_flags, base}

unfoldable pub what_eq : What → What → Bool
what_eq What.none What.none = true
what_eq What.read What.read = true
what_eq What.write What.write = true
what_eq What.read_write What.read_write = true
what_eq _ _ = false

-- An event base: its address `self`, libevent's base, and whether `inLoopThread()` holds for the
-- caller.
pub record EventBase (l : Libevent) : Type 0 where
  pub self : ℕ
  pub events : l.EvBase
  pub in_loop_thread : Bool

module _ (l : Libevent) where
  open l use {EvBase, event_add, event_del}

  -- The part of `unregisterHandler` below the assertion on the thread; `addr` is the address of the
  -- handler's `event_`.
  unfoldable pub unregister_impl :
      EventBase l → ℕ → EventHandler → HandlerImpl → Outcome (EventHandler × EvBase)
  unregister_impl b addr h i =
      if i.base == b.self
      then (if i.registered
          then ok
              (record h { impl = some (record i { registered = false }) }, event_del b.events addr)
          else ok (h, b.events))
      else aborted

  unfoldable pub unregister_handler :
      EventBase l → ℕ → EventHandler → Outcome (EventHandler × EvBase)
  unfolding unregister_impl
  unregister_handler b addr h =
      if b.in_loop_thread
      then elim h.impl [ none ↦ ok (h, b.events) | some i ↦ unregister_impl b addr h i ]
      else aborted

  -- The last part of `registerHandlerInternal`: the event is assigned anew and added.
  unfoldable pub assign_and_add :
      EventBase l → EvBase → ℕ → EventHandler → What → Bool → EventHandler × EvBase
  assign_and_add b events addr h what internal =
      let event : Event = record {
        fd = h.fd;
        events = bit_or (to_flags l what) l.ev_persist;
        internal = internal;
        timeout = none;
      } in
      let owner : ℕ = elim h.impl [ none ↦ b.self | some i ↦ i.base ] in
      (
        record h { impl = some (record { base = owner; registered = true; event = event }) },
        event_add events addr event,
      )

  -- The event that is there is taken off before its flags change.
  unfoldable pub peeled : EventBase l → ℕ → EventHandler → EvBase
  peeled b addr h = if registered h then event_del b.events addr else b.events

  unfoldable pub register_internal :
      EventBase l → ℕ → EventHandler → What → Bool → Outcome (EventHandler × EvBase)
  unfolding unregister_handler assign_and_add peeled what_eq
  register_internal b addr h what internal =
      let changed : Outcome (EventHandler × EvBase) =
        if what_eq what What.none
        then unregister_handler b addr h
        else ok (assign_and_add b (peeled b addr h) addr h what internal) in
      elim (base h) [
        | none ↦ changed
        | some owner ↦
            if not internal
            then (if owner == b.self
                then (if what_eq what (watched l h) then ok (h, b.events) else changed)
                else aborted)
            else changed
      ]

  unfoldable pub register_handler :
      EventBase l → ℕ → EventHandler → What → Outcome (EventHandler × EvBase)
  unfolding register_internal
  register_handler b addr h what =
      if b.in_loop_thread then register_internal b addr h what false else aborted

  -- `EventHandler::unregister`
  unfoldable pub unregister : EventBase l → ℕ → EventHandler → Outcome (EventHandler × EvBase)
  unfolding unregister_handler base
  unregister b addr h = elim (base h) [
    | none ↦ ok (h, b.events)
    | some _ ↦ unregister_handler b addr h
  ]
