-- ===== src/Echo/Main.antt =====
-- `main` of example/echo-server.cc: the listener, and the connections that it makes.
use what_the_event.Common.{
  ℕ, zero, suc, refl, Option, none, some, Bool, if◌then◌else◌, Outcome, ok, aborted, ◌>>=◌, List,
  [], ◌∷◌, ◌++◌,
}
use what_the_event.Events.What.{What, ensure_read}
use what_the_event.Buffer.Append.{empty-IsValid}
use what_the_event.Stream.Requests.{Requests}
use what_the_event.Stream.State.{Stream, start_read, is_callback, wrap_fd}
use what_the_event.Stream.Connecting.{Answers, ready}
use what_the_event.Listener.System.{
  Listener, Event, Failure, Sockets, Arrival, accepted, bind, listen, start_accepting, accept_ready,
}
use what_the_event.Echo.Server.{accept_connection, on_available}
use what_the_event.Echo.Round.{IsResting}

-- `LibeventConnectionListener(base, acceptCallback, errorCallback)`
unfoldable pub new_listener : Listener
new_listener = record { fd = none; port = 0; watched = What.none; events = [] }

-- `main` up to the loop: the listener, and the exception that ends the program, if there is one. `any`
-- is the text "0.0.0.0".
unfoldable pub start_server : (net : Sockets) → net.Text → Outcome (Listener × Option Failure)
unfolding bind listen start_accepting new_listener
start_server net any = do
  r ← bind net new_listener any 0
  let accepting : Listener × Option Failure = elim (listen net r.0 128) [
    | some e ↦ (r.0, some e)
    | none ↦ (start_accepting r.0, none)
  ]
  ok (elim r.1 as (λ _. Listener × Option Failure) [ some e ↦ (r.0, some e) | none ↦ accepting ])

pub record Server : Type 0 where
  pub listener : Listener
  pub connections : List Stream

-- The connection that `acceptCb` makes at an event of the listener's socket, if there is one.
unfoldable pub newcomers : Arrival → List Stream
unfolding accept_connection
newcomers a = elim a.sock as (λ _. List Stream) [
  | none ↦ []
  | some d ↦ if a.nonblocking then accept_connection d ∷ [] else []
]

-- An event of the listener's socket: the new connection is the last.
unfoldable pub arrive : Server → Arrival → Server
unfolding accept_ready newcomers
arrive v a = record {
  listener = accept_ready v.listener a;
  connections = v.connections ++ newcomers a;
}

abbrev pub arrive_all : Server → List Arrival → Server
arrive_all v [] = v
arrive_all v (a ∷ more) = arrive_all (arrive v a) more

-- What the descriptor of the connection at `i` is ready for.
abbrev pub at_connection :
    (Requests → ℕ) → (ℕ → Bool) → ℕ → ℕ → What → Answers → List Stream → Outcome (List Stream)
at_connection place alloc fuel i event answers [] = aborted
at_connection place alloc fuel zero event answers (c ∷ cs) =
    ready answers (on_available place) alloc fuel event c >>= λ c'. ok (c' ∷ cs)
at_connection place alloc fuel (suc i) event answers (c ∷ cs) =
    at_connection place alloc fuel i event answers cs >>= λ cs'. ok (c ∷ cs')

-- Events of the connections in the order in which the loop sees them.
unfoldable pub serve_all :
    (Requests → ℕ)
    → (ℕ → Bool)
    → ℕ
    → List (ℕ × What × Answers)
    → List Stream
    → Outcome (List Stream)
serve_all place alloc fuel [] cs = ok cs
serve_all place alloc fuel ((i, event, answers) ∷ events) cs = do
  cs' ← at_connection place alloc fuel i event answers cs
  serve_all place alloc fuel events cs'

-- What the loop sees: an event of the listener, or one of the connection at `i`.
pub data Happening : Type 0 where
  arrival : Arrival → Happening
  ready_at : (i : ℕ) → What → Answers → Happening

unfoldable pub server_loop :
    (Requests → ℕ) → (ℕ → Bool) → ℕ → List Happening → Server → Outcome Server
unfolding arrive
server_loop place alloc fuel [] v = ok v
server_loop place alloc fuel (arrival a ∷ more) v = server_loop place alloc fuel more (arrive v a)
server_loop place alloc fuel (ready_at i event answers ∷ more) v = do
  cs ← at_connection place alloc fuel i event answers v.connections
  server_loop place alloc fuel more (record v { connections = cs })

-- The sockets that were handed over.
abbrev pub handed : List Event → List ℕ
handed [] = []
handed (accepted s ∷ es) = s ∷ handed es
handed (_ ∷ es) = handed es

abbrev pub AllResting : List Stream → Type 0
AllResting [] = Unit
AllResting (c ∷ cs) = IsResting c × AllResting cs

pub AllResting-append :
    (cs ds : List Stream) → AllResting cs → AllResting ds → AllResting (cs ++ ds)
AllResting-append [] ds h k = k
AllResting-append (c ∷ cs) ds h k = (h.0, AllResting-append cs ds h.1 k)

pub accepted-IsResting : (d : ℕ) → IsResting (accept_connection d)
unfolding accept_connection start_read is_callback wrap_fd ensure_read
accepted-IsResting d = record {
  reading = refl;
  connected = refl;
  watching = refl;
  idle = (refl, refl);
  drained = (empty-IsValid, refl);
}
