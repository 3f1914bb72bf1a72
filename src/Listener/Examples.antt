-- ===== src/Listener/Examples.antt =====
-- Runs of a listener on small inputs, and its theorems applied there.
use what_the_event.Common.{
  ℕ, Option, ok, ◌≡◌, refl, none, some, true, false, not, ◌==◌, List, [], ◌∷◌,
}
use what_the_event.Events.What.{What}
use what_the_event.Listener.System.{
  Listener, Sockets, accepted, accept_failed, shut, not_bound, Arrival, bind, set_up, note,
  set_listener_fd, Failure, accept_ready, accept_all,
}
use what_the_event.Listener.Bound.{Bound, bind-Bound}
use what_the_event.Listener.Accepted.{disposed, accept_all-disposed}

abbrev unbound : Listener
unbound = record { fd = none; port = 0; watched = What.none; events = [] }

-- A system on which port 80 is taken, and port 0 stands for port 4000.
abbrev one_port : Sockets
one_port = record {
  Text = ℕ;
  Address = ℕ;
  socket = some 5;
  make_nonblocking = λ _. true;
  make_reuseable = λ _. true;
  to_address = λ ip. some ip;
  assign = λ d a port. not (port == 80);
  name = λ d. some 4000;
  listen = λ d n. true;
}

port_taken :
    bind one_port unbound 1 80 ≡ ok (record unbound { events = shut 5 ∷ [] }, some not_bound)
unfolding bind set_up note set_listener_fd
port_taken = refl

ephemeral_port : bind one_port unbound 1 0 ≡ ok (record unbound { fd = some 5; port = 4000 }, none)
unfolding bind set_up note set_listener_fd
ephemeral_port = refl

bind-Bound_example :
    (r : Listener × Option Failure) × (bind one_port unbound 1 0 ≡ ok r) × Bound one_port unbound r
bind-Bound_example = bind-Bound one_port unbound 1 0 refl

abbrev three_arrivals : List Arrival
three_arrivals =
    record { sock = some 7; nonblocking = true }
    ∷ record { sock = none; nonblocking = true }
    ∷ record { sock = some 8; nonblocking = false }
    ∷ []

three_events :
    (accept_all unbound three_arrivals).events
    ≡ accepted 7 ∷ accept_failed ∷ shut 8 ∷ accept_failed ∷ []
unfolding accept_ready note
three_events = refl

accept_all-disposed_example : disposed (accept_all unbound three_arrivals).events ≡ 7 ∷ 8 ∷ []
accept_all-disposed_example = accept_all-disposed unbound three_arrivals
