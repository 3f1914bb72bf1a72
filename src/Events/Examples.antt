-- ===== src/Events/Examples.antt =====
-- A table of pending events in place of libevent, and the theorems on registration applied to it.
use what_the_event.Common.{
  ℕ, ◌≡◌, refl, none, some, true, false, ok, aborted, [], ◌∷◌, arith, ◌==◌, if◌then◌else◌, inr,
}
use what_the_event.Events.What.{What}
use what_the_event.Events.Table.{table, table-IsLibevent}
use what_the_event.Events.Libevent.{Event}
use what_the_event.Events.Handler.{
  EventHandler, base, registered, watched, impl_watched, all_bits_set, from_flags, to_flags,
}
use what_the_event.Events.Registration.{EventBase, what_eq}
use what_the_event.Events.Synced.{IsSynced}
use what_the_event.Events.Timeout.{
  Timeout, timer_event, timeout_impl, register_timeout, IsKnown, Leaves, register_timeout-Leaves,
}
use what_the_event.Events.Lifetime.{Notify, build, demolish, demolish-build}
use what_the_event.Events.Follow.{watch, leave, retarget, perform_all, Follows, perform_all-Follows}

abbrev new_base : EventBase table
new_base = record { self = 1; events = λ q. none; in_loop_thread = true }

abbrev reading : Event
reading = record { fd = some 3; events = 0x12; internal = false; timeout = none }

-- The same with a handler at address 7.
abbrev busy_base : EventBase table
busy_base = record new_base { events = λ q. if 7 == q then some reading else none }

abbrev unused : EventHandler
unused = record { fd = some 3; impl = none }

abbrev used : ℕ → EventHandler
used owner = record {
  fd = some 3;
  impl = some (record { base = owner; registered = true; event = reading });
}

unused-IsSynced : IsSynced table new_base.events 7 unused
unused-IsSynced = record { same = refl; same_fd = λ e h. cc }

used-IsSynced : IsSynced table busy_base.events 7 (used 1)
used-IsSynced = record { same = refl; same_fd = λ e h. cc }

abbrev idle_timeout : Timeout
idle_timeout = record { impl = none }

idle_timeout-IsKnown : IsKnown table new_base 9 idle_timeout
unfolding timeout_impl
idle_timeout-IsKnown = record { idle = λ e. refl; ours = refl }

register_timeout-Leaves_example :
    Leaves table new_base 9
      (some (timer_event 500))
      (register_timeout table new_base 9 idle_timeout 500)
register_timeout-Leaves_example =
    register_timeout-Leaves table table-IsLibevent new_base 9 idle_timeout refl idle_timeout-IsKnown
      500

demolish-build_example :
    (b : EventBase table) × (n : Notify) × (events : table.EvBase) × (build table
        (λ q. none)
        1
        8
        (some (3, 4))
      ≡ ok (some (b, n)))
    × (table.pending b.events 8
        ≡ some (record { fd = some 3; events = 0x12; internal = true; timeout = none }))
    × (demolish table b 8 n ≡ ok (3 ∷ 4 ∷ [], events))
    × ((q : ℕ) → table.pending events q ≡ none)
unfolding to_flags
demolish-build_example =
    demolish-build table (λ q. none) 1 8 3 4 table-IsLibevent (λ q. refl) (omega arith)
      (omega arith)

-- A handler that has watched before is moved to another descriptor, and one that still watches is not.
perform_all-Follows_example :
    Follows table busy_base 7
      (perform_all table busy_base 7
        (used 1)
        (watch What.write ∷ leave ∷ retarget (some 9) ∷ watch What.read ∷ retarget (some 4) ∷ []))
      aborted
unfolding watched impl_watched from_flags all_bits_set registered what_eq base
perform_all-Follows_example =
    perform_all-Follows table table-IsLibevent busy_base 7 (used 1)
      (record { fd = some 3; what = What.read })
      (watch What.write ∷ leave ∷ retarget (some 9) ∷ watch What.read ∷ retarget (some 4) ∷ []) refl
      (record { fd = refl; what = refl; live = refl; synced = used-IsSynced; ours = inr refl })
