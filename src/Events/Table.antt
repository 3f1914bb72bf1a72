-- ===== src/Events/Table.antt =====
-- A table of events by address, for the runs on small inputs.
use what_the_event.Common.{ℕ, refl, Option, some, none, ◌==◌, if◌then◌else◌}
use what_the_event.Events.Libevent.{Event, Libevent, IsLibevent}

abbrev pub table : Libevent
table = record {
  EvBase = ℕ → Option Event;
  ev_read = 0x02;
  ev_write = 0x04;
  ev_persist = 0x10;
  event_add = λ b p e q. if p == q then some e else b q;
  event_del = λ b p q. if p == q then none else b q;
  pending = λ b q. b q;
}

pub table-IsLibevent : IsLibevent table
table-IsLibevent = record {
  read_bit = refl;
  write_bit = refl;
  persist_bit = refl;
  pending-add = λ b p q e _. refl;
  pending-del = λ b p q. refl;
}
