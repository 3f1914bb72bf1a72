-- ===== src/Events/Handler.antt =====
-- src/event_handler.cc, src/event_handler_impl.h, src/libevent_event_handler.{h,cc} and `toFlags` of
-- src/libevent_event_base.cc.
use Prim.Native.Nat.{bit_and, bit_or}
use what_the_event.Common.{
  ℕ, ◌≡◌, Option, none, some, Bool, false, ◌==◌, if◌then◌else◌, Outcome, ok, aborted,
}
use what_the_event.Events.What.{What}
use what_the_event.Events.Libevent.{Event, Libevent, IsLibevent}

-- `LibeventEventHandler`; `base` names the event base that made it.
pub record HandlerImpl : Type 0 where
  pub base : ℕ
  pub registered : Bool
  pub event : Event

-- `EventHandler`.
pub record EventHandler : Type 0 where
  pub fd : Option ℕ
  pub impl : Option HandlerImpl

unfoldable pub base : EventHandler → Option ℕ
base h = elim h.impl [ none ↦ none | some i ↦ some i.base ]

unfoldable pub registered : EventHandler → Bool
registered h = elim h.impl [ none ↦ false | some i ↦ i.registered ]

unfoldable pub set_fd : EventHandler → Option ℕ → Outcome EventHandler
unfolding registered
set_fd h fd = if registered h then aborted else ok (record h { fd = fd })

module _ (l : Libevent) where
  open l use {ev_read, ev_write, ev_persist}

  unfoldable pub to_flags : What → ℕ
  to_flags What.none = 0
  to_flags What.read = ev_read
  to_flags What.write = ev_write
  to_flags What.read_write = bit_or ev_read ev_write

  unfoldable pub all_bits_set : ℕ → ℕ → Bool
  all_bits_set value bits = bits == bit_and value bits

  unfoldable pub from_flags : ℕ → What
  unfolding all_bits_set
  from_flags flags =
      if all_bits_set flags (bit_or ev_read ev_write)
      then What.read_write
      else if all_bits_set flags ev_read
      then What.read
      else if all_bits_set flags ev_write
      then What.write
      else What.none

  -- `LibeventEventHandler::watched`
  unfoldable pub impl_watched : HandlerImpl → What
  unfolding from_flags
  impl_watched i = if i.registered then from_flags i.event.events else What.none

  -- `EventHandler::watched`
  unfoldable pub watched : EventHandler → What
  unfolding impl_watched
  watched h = elim h.impl [ none ↦ What.none | some i ↦ impl_watched i ]

-- The flags that a registration gives to libevent are read back as what was asked for.
pub from_flags-to_flags :
    (l : Libevent) (w : What) → IsLibevent l → from_flags l (bit_or (to_flags l w) l.ev_persist) ≡ w
unfolding from_flags to_flags
from_flags-to_flags l What.none h = rw (h.read_bit, h.write_bit, h.persist_bit)
from_flags-to_flags l What.read h = rw (h.read_bit, h.write_bit, h.persist_bit)
from_flags-to_flags l What.write h = rw (h.read_bit, h.write_bit, h.persist_bit)
from_flags-to_flags l What.read_write h = rw (h.read_bit, h.write_bit, h.persist_bit)
