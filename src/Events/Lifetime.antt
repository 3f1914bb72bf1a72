-- ===== src/Events/Lifetime.antt =====
-- The constructor and the destructor of LibeventEventBase, with `Notify` and initNotify of
-- src/libevent_event_base.cc, where the notification descriptors are a pipe.
use Prim.Native.Nat.{bit_or}
use what_the_event.Common.{
  ℕ, ◌≡◌, ◌<◌, refl, ◌∙◌, Option, none, some, true, ltb, ◌==◌, if◌then◌else◌, Outcome, ok, ◌>>=◌,
  List, [], ◌∷◌, ◌++◌, Bool-cases, inl, inr, ==_refl, lt→ltb,
}
use what_the_event.Events.What.{What}
use what_the_event.Events.Libevent.{Event, Libevent, IsLibevent}
use what_the_event.Events.Handler.{EventHandler, base, registered, to_flags}
use what_the_event.Events.Registration.{
  EventBase, register_internal, unregister, unregister_handler, unregister_impl, assign_and_add,
  peeled, what_eq,
}

pub record Notify : Type 0 where
  pub handler : EventHandler
  pub read_end : ℕ
  pub write_end : ℕ

-- The constructor, with the base that `event_base_new` makes and the descriptors that `pipe` gives; it
-- throws std::runtime_error if that fails.
unfoldable pub build :
    (l : Libevent) → l.EvBase → ℕ → ℕ → Option (ℕ × ℕ) → Outcome (Option (EventBase l × Notify))
unfolding register_internal
build l new self addr none = ok none
build l new self addr (some (r, w)) =
    let b : EventBase l = record { self = self; events = new; in_loop_thread = true } in
    let handler : EventHandler = record { fd = some r; impl = none } in
    (do
      x ← register_internal l b addr handler What.read true
      ok (some (record b { events = x.1 }, record { handler = x.0; read_end = r; write_end = w })))

-- The descriptor if it is above 0.
abbrev pub positive : ℕ → List ℕ
positive fd = if ltb 0 fd then fd ∷ [] else []

-- The destructor: the descriptors that it closes, and what is left in libevent before
-- `event_base_free`.
unfoldable pub demolish : (l : Libevent) → EventBase l → ℕ → Notify → Outcome (List ℕ × l.EvBase)
unfolding unregister
demolish l b addr n = do
  x ← unregister l b addr n.handler
  ok (positive n.read_end ++ positive n.write_end, x.1)

-- The event base that the constructor makes with a pipe of two descriptors above 0, on a base of
-- libevent in which nothing is pending, waits for bytes in the pipe by an internal event; its
-- destructor, when nothing else was registered and no loop runs, takes that event off, so that nothing
-- is pending, and closes both ends of the pipe.
pub demolish-build :
    (l : Libevent) (new : l.EvBase) (self addr r w : ℕ)
    → IsLibevent l
    → ((q : ℕ) → l.pending new q ≡ none)
    → 0 < r
    → 0 < w
    → (b : EventBase l) × (n : Notify) × (events : l.EvBase) × (build l new self addr (some (r, w))
        ≡ ok (some (b, n)))
      × (l.pending b.events addr
          ≡ some (record {
            fd = some r;
            events = bit_or (to_flags l What.read) l.ev_persist;
            internal = true;
            timeout = none;
          }))
      × (demolish l b addr n ≡ ok (r ∷ w ∷ [], events))
      × ((q : ℕ) → l.pending events q ≡ none)
unfolding build demolish register_internal unregister unregister_handler unregister_impl
    assign_and_add peeled what_eq base registered
demolish-build l new self addr r w d nothing some_r some_w =
    let event : Event = record {
      fd = some r;
      events = bit_or (to_flags l What.read) l.ev_persist;
      internal = true;
      timeout = none;
    } in
    let added : l.EvBase = l.event_add new addr event in
    (
      record { self = self; events = added; in_loop_thread = true },
      record {
        handler = record {
          fd = some r;
          impl = some (record { base = self; registered = true; event = event });
        };
        read_end = r;
        write_end = w;
      },
      l.event_del added addr,
      refl,
      d.pending-add new addr addr event (nothing addr) ∙ rw (==_refl addr) refl,
      rw (==_refl self) (rw (lt→ltb 0 r some_r, lt→ltb 0 w some_w) refl),
      λ q. d.pending-del added addr q ∙ elim (Bool-cases (addr == q)) [
        | inl e ↦ rw e refl
        | inr e ↦ rw e (d.pending-add new addr q event (nothing addr) ∙ rw e (nothing q))
      ],
    )
