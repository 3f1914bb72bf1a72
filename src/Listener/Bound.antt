-- ===== src/Listener/Bound.antt =====
-- How `bind` ends, whatever the system answers.
use what_the_event.Common.{
  ℕ, ◌≡◌, refl, Option, none, some, [], ◌∷◌, ◌++◌, ◌⊎◌, inl, inr, ok, arith, ok,
}
use what_the_event.Listener.System.{
  Listener, Failure, Sockets, shut, no_socket, bind, set_up, note, set_listener_fd,
}
use what_the_event.Events.What.{What}
use what_the_event.Events.Registration.{what_eq}

-- The ways for `bind` to end: with the new socket in the listener, and the port that the socket has;
-- without a socket; or with the socket closed again and an exception.
pub data Bound (net : Sockets) (l : Listener) : Listener × Option Failure → Type 0 where
  made :
      (d n : ℕ)
      → net.socket ≡ some d
      → net.name d ≡ some n
      → Bound net l (record l { fd = some d; port = n }, none)
  nothing : net.socket ≡ none → Bound net l (l, some no_socket)
  dropped :
      (d : ℕ) (e : Failure)
      → net.socket ≡ some d
      → Bound net l (record l { events = l.events ++ shut d ∷ [] }, some e)

-- `set_up` gives a port only when the socket has that port.
set_up-name :
    (net : Sockets) (ip : net.Text) (port d n : ℕ)
    → set_up net ip port d ≡ inr n
    → net.name d ≡ some n
unfolding set_up
set_up-name net ip port d n h = ground (arith, h)

module _ (net : Sockets) (l : Listener) (ip : net.Text) (port : ℕ)
    (quiet : l.watched ≡ What.none) where
  bind-case :
      (d : ℕ) (r : Failure ⊎ ℕ)
      → net.socket ≡ some d
      → set_up net ip port d ≡ r
      → (r' : Listener × Option Failure) × (bind net l ip port ≡ ok r') × Bound net l r'
  unfolding bind note set_listener_fd what_eq
  bind-case d (inl e) fresh h = (_, ground (arith, fresh, h), dropped d e fresh)
  bind-case d (inr n) fresh h =
      (_, ground (arith, fresh, h, quiet), made d n fresh (set_up-name net ip port d n h))

  bind_socket-case :
      (o : Option ℕ)
      → net.socket ≡ o
      → (r' : Listener × Option Failure) × (bind net l ip port ≡ ok r') × Bound net l r'
  unfolding bind
  bind_socket-case none h = (_, ground (arith, h), nothing h)
  bind_socket-case (some d) h = bind-case d _ h refl

-- `bind` of a listener that watches nothing returns or throws, whatever the system answers, and leaks
-- no new socket: it puts the socket in the listener, with the port that the socket has, or it throws,
-- and then the socket, if there is one, has been closed and the listener is otherwise as it was. A socket
-- that the listener had before is not closed.
pub bind-Bound :
    (net : Sockets) (l : Listener) (ip : net.Text) (port : ℕ)
    → l.watched ≡ What.none
    → (r : Listener × Option Failure) × (bind net l ip port ≡ ok r) × Bound net l r
bind-Bound net l ip port quiet = bind_socket-case net l ip port quiet _ refl
