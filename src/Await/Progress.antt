-- ===== src/Await/Progress.antt =====
-- From any state of Await.System to the end of the call.
use what_the_event.Common.{◌≡◌, Bool, true, false}
use what_the_event.Await.System.{Caller, returned, refused, State, Steps}

-- The call has returned true or false.
abbrev pub is_over : Caller → Bool
is_over returned = true
is_over refused = true
is_over c = false

-- Some steps from here lead to the end of the call, with no spurious wake-up.
abbrev pub CanReturn : State → Type 0
CanReturn s = (t : State) × Steps s t × (is_over t.caller ≡ true)
