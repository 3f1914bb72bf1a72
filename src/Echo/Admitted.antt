-- ===== src/Echo/Admitted.antt =====
-- The echo server starts, and gives every socket that it is handed a connection.
use what_the_event.Common.{
  ℕ, ◌≡◌, refl, sym, ap, ap₂, ◌∙◌, subst, Option, none, some, Bool, true, false, ok, List, [], ◌∷◌,
  ◌++◌, map, map-append, append_assoc, arith,
}
use what_the_event.Events.What.{What}
use what_the_event.Stream.State.{Stream, start_read, is_callback, wrap_fd}
use what_the_event.Listener.System.{
  Listener, Event, Failure, Sockets, Arrival, accepted, bind, listen, start_accepting, accept_ready,
  note,
}
use what_the_event.Listener.Bound.{Bound, made, nothing, dropped, bind-Bound}
use what_the_event.Echo.Server.{accept_connection}
use what_the_event.Echo.Main.{
  Server, newcomers, arrive, arrive_all, start_server, new_listener, handed, AllResting,
  AllResting-append, accepted-IsResting,
}

-- The listener waits for connections on a socket that has its port.
pub record IsOpen (net : Sockets) (l : Listener) : Type 0 where
  pub socket : ℕ
  pub fd : l.fd ≡ some socket
  pub fresh : net.socket ≡ some socket
  pub port : net.name socket ≡ some l.port
  -- `::listen` with the backlog of `main` was called on the socket and succeeded
  pub listening : net.listen socket 128 ≡ true
  pub watching : l.watched ≡ What.read

-- `listen` throws unless `::listen` succeeds on the descriptor.
listen-none :
    (net : Sockets) (l : Listener) (d : ℕ)
    → l.fd ≡ some d
    → listen net l 128 ≡ none
    → net.listen d 128 ≡ true
unfolding listen
listen-none net l d h e = ground (arith, h, e)

start_server-bound :
    (net : Sockets) (any : net.Text) (r : Listener × Option Failure) (refused : Option Failure)
    → bind net new_listener any 0 ≡ ok r
    → Bound net new_listener r
    → listen net r.0 128 ≡ refused
    → (r' : Listener × Option Failure) × (start_server net any ≡ ok r')
      × (r'.1 ≡ none → IsOpen net r'.0)
unfolding start_server start_accepting
start_server-bound net any _ none runs (made d n fresh named) e = (
  (start_accepting (record new_listener { fd = some d; port = n }), none),
  ground (arith, runs, e),
  λ k. record {
    socket = d;
    fd = refl;
    fresh = fresh;
    port = named;
    listening = listen-none net (record new_listener { fd = some d; port = n }) d refl e;
    watching = refl;
  },
)
start_server-bound net any r (some x) runs (made d n fresh named) e =
    ((r.0, some x), ground (arith, runs, e), λ k. ground (arith, k))
start_server-bound net any r refused runs (nothing fresh) e =
    (r, ground (arith, runs), λ k. ground (arith, k))
start_server-bound net any r refused runs (dropped d x fresh) e =
    (r, ground (arith, runs), λ k. ground (arith, k))

-- Up to the loop, `main` runs without a failed assertion, whatever the system answers; and unless it
-- ends by an exception, `listen(128)` has succeeded on the listener's own new socket, and it waits for
-- connections on that and reports the port that the socket has.
pub start_server-IsOpen :
    (net : Sockets) (any : net.Text)
    → (r : Listener × Option Failure) × (start_server net any ≡ ok r)
      × (r.1 ≡ none → IsOpen net r.0)
unfolding new_listener
start_server-IsOpen net any =
    let b = bind-Bound net new_listener any 0 refl in start_server-bound net any b.0 _ b.1 b.2 refl

-- There is one connection for each socket that was handed over, in order, and each is at rest.
pub record Owns (v : Server) : Type 0 where
  pub sockets : map (λ c. c.fd) v.connections ≡ map (λ d. some d) (handed v.listener.events)
  pub resting : AllResting v.connections

handed-append : (xs ys : List Event) → handed (xs ++ ys) ≡ handed xs ++ handed ys
handed-append [] ys = refl
handed-append (accepted s ∷ xs) ys = ap (◌∷◌ s) (handed-append xs ys)
handed-append (Event.accept_failed ∷ xs) ys = handed-append xs ys
handed-append (Event.shut s ∷ xs) ys = handed-append xs ys

module _ (v : Server) (w : Owns v) where
  -- The server with more events of the listener, and the connections that go with them.
  grown :
      (more : List Event) (new : List Stream)
      → map (λ c. c.fd) new ≡ map (λ d. some d) (handed more)
      → AllResting new
      → Owns (record {
        listener = record (v.listener) { events = v.listener.events ++ more };
        connections = v.connections ++ new;
      })
  grown more new same rest = record {
    sockets =
        map-append (λ c. c.fd) v.connections new
        ∙ ap₂ ◌++◌ w.sockets same
        ∙ sym (map-append (λ d. some d) (handed v.listener.events) (handed more))
        ∙ ap (map (λ d. some d)) (sym (handed-append v.listener.events more));
    resting = AllResting-append v.connections new w.resting rest;
  }

  arrive-case :
      (a : Arrival) (o : Option ℕ) (b : Bool) → a.sock ≡ o → a.nonblocking ≡ b → Owns (arrive v a)
  unfolding arrive newcomers accept_ready note accept_connection start_read is_callback wrap_fd
  arrive-case a none b e k =
      subst Owns (ground (arith, e)) (grown (Event.accept_failed ∷ []) [] refl tt)
  arrive-case a (some d) true e k =
      subst Owns (ground (arith, e, k))
        (grown (accepted d ∷ []) (accept_connection d ∷ []) refl (accepted-IsResting d, tt))
  arrive-case a (some d) false e k =
      subst Owns
        (ap
            (λ es. record {
              listener = record (v.listener) { events = es };
              connections = v.connections ++ [];
            })
            (sym (append_assoc v.listener.events (Event.shut d ∷ []) (Event.accept_failed ∷ [])))
          ∙ ground (arith, e, k))
        (grown (Event.shut d ∷ Event.accept_failed ∷ []) [] refl tt)

-- Whatever arrives at the listener, from the start or later: every socket that is handed over has one
-- connection, which owns it, has nothing to send and reads; and there are no others.
pub arrive_all-Owns : (v : Server) (arrivals : List Arrival) → Owns v → Owns (arrive_all v arrivals)
arrive_all-Owns v [] w = w
arrive_all-Owns v (a ∷ more) w = arrive_all-Owns (arrive v a) more (arrive-case v w a _ _ refl refl)
