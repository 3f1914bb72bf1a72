-- ===== src/Events/Libevent.antt =====
-- What the program uses of libevent, a library that it links: a parameter of the model, with the
-- documented behaviour that the code relies on.
use what_the_event.Common.{ℕ, ◌≡◌, Option, none, some, Bool, ◌==◌, if◌then◌else◌}

-- The arguments of `event_assign(ev, base, fd, events, …)`, with the mark EVLIST_INTERNAL that the
-- program sets itself, and the timeout given to `event_add`, in microseconds; no `fd` is -1.
pub record Event : Type 0 where
  pub fd : Option ℕ
  pub events : ℕ
  pub internal : Bool
  pub timeout : Option ℕ

-- An event is known by its address.
pub record Libevent : Type 1 where
  pub EvBase : Type 0
  pub ev_read : ℕ
  pub ev_write : ℕ
  pub ev_persist : ℕ
  pub event_add : EvBase → ℕ → Event → EvBase
  pub event_del : EvBase → ℕ → EvBase
  -- what is pending at an address, as `event_pending` tells
  pub pending : EvBase → ℕ → Option Event

-- What <event2/event.h> documents of these.
pub record IsLibevent (l : Libevent) : Type 0 where
  pub read_bit : l.ev_read ≡ 0x02
  pub write_bit : l.ev_write ≡ 0x04
  pub persist_bit : l.ev_persist ≡ 0x10
  -- An event that is pending may not be assigned anew: nothing is said of that.
  pub pending-add :
      (b : l.EvBase) (p q : ℕ) (e : Event)
      → l.pending b p ≡ none
      → l.pending (l.event_add b p e) q ≡ (if p == q then some e else l.pending b q)
  pub pending-del :
      (b : l.EvBase) (p q : ℕ)
      → l.pending (l.event_del b p) q ≡ (if p == q then none else l.pending b q)
