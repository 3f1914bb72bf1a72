-- ===== src/Listener/System.antt =====
-- `LibeventConnectionListener` of src/libevent_connection_listener.cc. The socket calls are
-- parameters.
use what_the_event.Common.{
  ℕ, Option, none, some, Bool, not, if◌then◌else◌, List, [], ◌∷◌, ◌++◌, ◌⊎◌, inl, inr, Outcome, ok,
  aborted, ◌>>=◌,
}
use what_the_event.Events.What.{What}
use what_the_event.Events.Registration.{what_eq}

-- What the listener does: sockets handed to the accept callback, calls of the error callback, sockets
-- closed.
pub data Event : Type 0 where
  accepted : ℕ → Event
  accept_failed : Event
  shut : ℕ → Event

-- `watched` is what the handler was last registered for.
pub record Listener : Type 0 where
  pub fd : Option ℕ
  pub port : ℕ
  pub watched : What
  pub events : List Event

-- The messages of the exceptions.
pub data Failure : Type 0 where
  no_socket not_nonblocking not_reusable no_address not_bound no_name not_listening : Failure

-- The system: `socket`, `evutil_make_socket_nonblocking`, `evutil_make_listen_socket_reuseable`,
-- `inet_pton`, `::bind` and `getsockname` (which answers a port), and `::listen`.
pub record Sockets : Type 1 where
  pub Text : Type 0
  pub Address : Type 0
  pub socket : Option ℕ
  pub make_nonblocking : ℕ → Bool
  pub make_reuseable : ℕ → Bool
  pub to_address : Text → Option Address
  pub assign : ℕ → Address → ℕ → Bool
  pub name : ℕ → Option ℕ
  pub listen : ℕ → ℕ → Bool

unfoldable pub note : Listener → Event → Listener
note l e = record l { events = l.events ++ e ∷ [] }

-- Whether the calls on the new socket work, and the port that it got.
unfoldable pub set_up : (net : Sockets) → net.Text → ℕ → ℕ → Failure ⊎ ℕ
set_up net ip port d =
    let named = elim (net.name d) as (λ _. Failure ⊎ ℕ) [ none ↦ inl no_name | some n ↦ inr n ] in
    let at : net.Address → Failure ⊎ ℕ =
      λ a. if not (net.assign d a port) then inl not_bound else named in
    let found = elim (net.to_address ip) as (λ _. Failure ⊎ ℕ) [
      | none ↦ inl no_address
      | some a ↦ at a
    ] in
    if not (net.make_nonblocking d)
    then inl not_nonblocking
    else (if not (net.make_reuseable d) then inl not_reusable else found)

-- `handler_.setFd(fd)`, which asserts that the handler is not registered.
unfoldable pub set_listener_fd : Listener → ℕ → Outcome Listener
unfolding what_eq
set_listener_fd l d = if what_eq l.watched What.none then ok (record l { fd = some d }) else aborted

-- `bind`: the listener, and the exception that it throws, if it does.
unfoldable pub bind :
    (net : Sockets) → Listener → net.Text → ℕ → Outcome (Listener × Option Failure)
unfolding note set_up set_listener_fd
bind net l ip port = elim net.socket as (λ _. Outcome (Listener × Option Failure)) [
  | none ↦ ok (l, some no_socket)
  | some d ↦ elim (set_up net ip port d) as (λ _. Outcome (Listener × Option Failure)) [
    | inl e ↦ ok (note l (shut d), some e)
    | inr n ↦ (do l' ← set_listener_fd (record l { port = n }) d; ok (l', none))
  ]
]

-- `listen` on the handler's descriptor; without one the call is made on -1, which is an error.
unfoldable pub listen : Sockets → Listener → ℕ → Option Failure
listen net l backlog = elim l.fd [
  | none ↦ some not_listening
  | some d ↦ if not (net.listen d backlog) then some not_listening else none
]

-- The answers of `accept` and of `evutil_make_socket_nonblocking` on the socket.
pub record Arrival : Type 0 where
  pub sock : Option ℕ
  pub nonblocking : Bool

-- `AcceptHandler::ready`
unfoldable pub accept_ready : Listener → Arrival → Listener
unfolding note
accept_ready l a = elim a.sock [
  | none ↦ note l accept_failed
  | some s ↦ if not a.nonblocking then note (note l (shut s)) accept_failed else note l (accepted s)
]

-- One event after another.
abbrev pub accept_all : Listener → List Arrival → Listener
accept_all l [] = l
accept_all l (a ∷ more) = accept_all (accept_ready l a) more

unfoldable pub start_accepting : Listener → Listener
start_accepting l = record l { watched = What.read }

unfoldable pub stop_accepting : Listener → Listener
stop_accepting l = record l { watched = What.none }

-- The destructor.
unfoldable pub destroy : Listener → Listener
unfolding note
destroy l =
    let off : Listener = record l { watched = What.none } in
    elim l.fd [ none ↦ off | some d ↦ note off (shut d) ]
