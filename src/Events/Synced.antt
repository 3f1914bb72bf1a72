-- ===== src/Events/Synced.antt =====
-- A handler and libevent agree on what is watched, after every registration.
use what_the_event.Common.{
  ℕ, ◌≡◌, ◌≢◌, refl, sym, subst, ◌∙◌, ap, Option, none, some, true, false, if◌then◌else◌, Outcome,
  ok, ◌⊎◌, inl, inr, arith, Bool-cases, ==_refl, ne→==, Option-cases,
}
use what_the_event.Events.What.{What}
use what_the_event.Events.Libevent.{Event, Libevent, IsLibevent}
use what_the_event.Events.Handler.{
  HandlerImpl, EventHandler, registered, watched, impl_watched, from_flags-to_flags, base,
}
use what_the_event.Events.Registration.{
  EventBase, unregister_handler, assign_and_add, peeled, register_internal, register_handler,
  unregister, what_eq,
}

-- The event that a handler stands registered for.
abbrev pub watching : EventHandler → Option Event
watching h = elim h.impl [ none ↦ none | some i ↦ if i.registered then some i.event else none ]

-- libevent has exactly that event pending at the handler's address, and for its descriptor.
pub record IsSynced (l : Libevent) (events : l.EvBase) (addr : ℕ) (h : EventHandler) : Type 0 where
  pub same : l.pending events addr ≡ watching h
  pub same_fd : (e : Event) → watching h ≡ some e → e.fd ≡ h.fd

-- The handler belongs to no event base yet, or to this one.
abbrev pub IsOurs : {l : Libevent} → EventBase l → EventHandler → Type 0
IsOurs b h = (base h ≡ none) ⊎ (base h ≡ some b.self)

pub what_eq→eq : (v w : What) → what_eq v w ≡ true → v ≡ w
unfolding what_eq
what_eq→eq v w h = ground arith

-- How a registering call ends: the handler watches `what`, and libevent agrees.
pub record Registers (l : Libevent) (b : EventBase l) (addr : ℕ) (h : EventHandler) (what : What)
    (r : Outcome (EventHandler × l.EvBase)) : Type 0 where
  pub handler : EventHandler
  pub events : l.EvBase
  pub runs : r ≡ ok (handler, events)
  pub watches : watched l handler ≡ what
  pub synced : IsSynced l events addr handler
  pub ours : IsOurs {l = l} (record b { events = events }) handler
  pub kept_fd : handler.fd ≡ h.fd
  -- nothing else changes in libevent
  pub others : (q : ℕ) → q ≢ addr → l.pending events q ≡ l.pending b.events q

module _ (l : Libevent) (d : IsLibevent l) (b : EventBase l) (addr : ℕ) where
  pending-del_other :
      (q : ℕ) → q ≢ addr → l.pending (l.event_del b.events addr) q ≡ l.pending b.events q
  pending-del_other q n = d.pending-del b.events addr q ∙ rw (ne→== addr q (λ e. n (sym e)))

  -- Taken off.
  deregistered :
      (h : EventHandler) (i : HandlerImpl) (r : Outcome (EventHandler × l.EvBase))
      → h.impl ≡ some i
      → i.base ≡ b.self
      → r
        ≡ ok (record h { impl = some (record i { registered = false }) }, l.event_del b.events addr)
      → Registers l b addr h What.none r
  unfolding watched base
  deregistered h i r e o runs = record {
    handler = record h { impl = some (record i { registered = false }) };
    events = l.event_del b.events addr;
    runs = runs;
    watches = refl;
    synced = record {
      same = d.pending-del b.events addr addr ∙ rw (==_refl addr);
      same_fd = λ v q. cc;
    };
    ours = inr (ap some o);
    kept_fd = refl;
    others = pending-del_other;
  }

  -- Left alone.
  untouched :
      (h : EventHandler) (what : What) (r : Outcome (EventHandler × l.EvBase))
      → IsSynced l b.events addr h
      → IsOurs b h
      → watched l h ≡ what
      → r ≡ ok (h, b.events)
      → Registers l b addr h what r
  untouched h what r s o w runs = record {
    handler = h;
    events = b.events;
    runs = runs;
    watches = w;
    synced = s;
    ours = o;
    kept_fd = refl;
    others = λ q n. refl;
  }

  base-of : (h : EventHandler) (i : HandlerImpl) → h.impl ≡ some i → IsOurs b h → i.base ≡ b.self
  unfolding base
  base-of h i e o = ground arith

  unregister_handler-Registers :
      (h : EventHandler) (i : Option HandlerImpl)
      → b.in_loop_thread ≡ true
      → h.impl ≡ i
      → IsSynced l b.events addr h
      → IsOurs b h
      → Registers l b addr h What.none (unregister_handler l b addr h)
  unfolding unregister_handler watched
  unregister_handler-Registers h none here e s o =
      untouched h What.none _ s o (ground arith) (ground arith)
  unregister_handler-Registers h (some i) here e s o = elim (Bool-cases i.registered) [
    | inl on ↦ deregistered h i _ e (base-of h i e o) (ground (arith, base-of h i e o))
    | inr off ↦ untouched h What.none _ s o (ground arith) (ground (arith, base-of h i e o))
  ]

  peeled-others :
      (h : EventHandler) (q : ℕ) → q ≢ addr → l.pending (peeled l b addr h) q ≡ l.pending b.events q
  unfolding peeled
  peeled-others h q n = elim (Bool-cases (registered h)) [
    | inl on ↦ rw on (pending-del_other q n)
    | inr off ↦ rw off
  ]

  -- Nothing is pending for the handler when its event is assigned anew.
  peeled-free :
      (h : EventHandler) → IsSynced l b.events addr h → l.pending (peeled l b addr h) addr ≡ none
  unfolding peeled registered
  peeled-free h s = elim (Bool-cases (registered h)) [
    | inl on ↦ rw on (d.pending-del b.events addr addr ∙ rw (==_refl addr))
    | inr off ↦ rw off (s.same ∙ ground (arith, off))
  ]

  owner-ours :
      (h : EventHandler) (o : IsOurs b h)
      → elim h.impl as (λ _. ℕ) [ none ↦ b.self | some i ↦ i.base ] ≡ b.self
  unfolding base
  owner-ours h o = ground arith

  -- Assigned anew and added.
  assigned :
      (h : EventHandler) (what : What)
      → what ≢ What.none
      → IsSynced l b.events addr h
      → IsOurs b h
      → Registers l b addr h what (ok (assign_and_add l b (peeled l b addr h) addr h what false))
  unfolding assign_and_add watched impl_watched base
  assigned h what some_what s o = record {
    handler = (assign_and_add l b (peeled l b addr h) addr h what false).0;
    events = (assign_and_add l b (peeled l b addr h) addr h what false).1;
    runs = refl;
    watches = from_flags-to_flags l what d;
    synced = record {
      same = d.pending-add (peeled l b addr h) addr addr _ (peeled-free h s) ∙ rw (==_refl addr);
      same_fd = λ v q. ground arith;
    };
    ours = inr (ap some (owner-ours h o));
    kept_fd = refl;
    others = λ q n.
        d.pending-add (peeled l b addr h) addr q _ (peeled-free h s)
        ∙ rw (ne→== addr q (λ e. n (sym e))) (peeled-others h q n);
  }

  abbrev changed : EventHandler → What → Outcome (EventHandler × l.EvBase)
  changed h what =
      if what_eq what What.none
      then unregister_handler l b addr h
      else ok (assign_and_add l b (peeled l b addr h) addr h what false)

  changed-Registers :
      (h : EventHandler) (what : What)
      → b.in_loop_thread ≡ true
      → IsSynced l b.events addr h
      → IsOurs b h
      → Registers l b addr h what (changed h what)
  unfolding what_eq
  changed-Registers h What.none here s o = unregister_handler-Registers h h.impl here refl s o
  changed-Registers h What.read here s o = assigned h What.read (λ e. cc) s o
  changed-Registers h What.write here s o = assigned h What.write (λ e. cc) s o
  changed-Registers h What.read_write here s o = assigned h What.read_write (λ e. cc) s o

  -- What `registerHandlerInternal` comes to for a handler that is ours: nothing, or the change.
  register_internal-cases :
      (h : EventHandler) (what : What)
      → IsOurs b h
      → (register_internal l b addr h what false ≡ changed h what)
        ⊎ ((watched l h ≡ what) × (register_internal l b addr h what false ≡ ok (h, b.events)))
  unfolding register_internal
  register_internal-cases h what (inl free) = inl (rw (free, register_internal))
  register_internal-cases h what (inr own) = elim (Bool-cases (what_eq what (watched l h))) [
    | inl e ↦ inr (
      sym (what_eq→eq what (watched l h) e),
      rw (own, register_internal) (rw (==_refl b.self, e)),
    )
    | inr e ↦ inl (rw (own, register_internal) (rw (==_refl b.self, e)))
  ]

  -- `registerHandler(handler, what)`, called on the loop thread for a handler that belongs to no
  -- other event base and agrees with libevent: afterwards it watches exactly `what`, libevent has
  -- exactly that pending for its descriptor, and nothing else in libevent has changed.
  pub register_handler-Registers :
      (h : EventHandler) (what : What)
      → b.in_loop_thread ≡ true
      → IsSynced l b.events addr h
      → IsOurs b h
      → Registers l b addr h what (register_handler l b addr h what)
  unfolding register_handler
  register_handler-Registers h what here s o = elim (register_internal-cases h what o) [
    | inl e ↦
        subst (Registers l b addr h what) (sym (called ∙ e)) (changed-Registers h what here s o)
    | inr (w, e) ↦ untouched h what _ s o w (called ∙ e)
  ]
    where
      called : register_handler l b addr h what ≡ register_internal l b addr h what false
      called = ground arith

  -- `unregister()`, called on the loop thread for a handler that belongs to no other event base and
  -- agrees with libevent: afterwards it watches nothing, libevent has nothing pending for it, and
  -- nothing else in libevent has changed.
  pub unregister-Registers :
      (h : EventHandler)
      → b.in_loop_thread ≡ true
      → IsSynced l b.events addr h
      → IsOurs b h
      → Registers l b addr h What.none (unregister l b addr h)
  unfolding unregister watched
  unregister-Registers h here s o = elim (Option-cases h.impl) [
    | inl e ↦ untouched h What.none _ s o (unregistered e) (ground (arith, e))
    | inr (i, e) ↦
        subst (Registers l b addr h What.none) (sym (called i e))
          (unregister_handler-Registers h (some i) here e s o)
  ]
    where
      unregistered : h.impl ≡ none → watched l h ≡ What.none
      unregistered e = ground (arith, e)

      called :
          (i : HandlerImpl)
          → h.impl ≡ some i
          → unregister l b addr h ≡ unregister_handler l b addr h
      called i e = ground (arith, e)
