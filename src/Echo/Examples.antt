-- ===== src/Echo/Examples.antt =====
-- A connection of the echo server on small messages, and on one that is longer than a read.
use what_the_event.Common.{
  Option, true, ℕ, ◌-◌, ◌^◌, ◌≡◌, refl, none, some, Bool, ◌==◌, if◌then◌else◌, leb, ok, List, [],
  ◌∷◌, ◌++◌, replicate, length-replicate, arith,
}
use what_the_event.Events.What.{What}
use what_the_event.Buffer.Extent.{Cell}
use what_the_event.Stream.Requests.{Requests}
use what_the_event.Stream.State.{
  Stream, sent, completed, available, start_read, is_callback, wrap_fd,
}
use what_the_event.Stream.Reading.{again, received}
use what_the_event.Stream.Connecting.{Answers}
use what_the_event.Listener.System.{Listener, Failure, Sockets, Arrival}
use what_the_event.Echo.Main.{
  Server, start_server, newcomers, arrive, arrive_all, accepted-IsResting, new_listener, Happening,
  arrival, ready_at, server_loop,
}
use what_the_event.Echo.Admitted.{IsOpen, start_server-IsOpen, Owns}
use what_the_event.Echo.Served.{AllEchoed}
use what_the_event.Echo.Running.{server_loop-AllEchoed}
use what_the_event.Echo.Server.{accept_connection, read_cb, write_cb, serve}
use what_the_event.Echo.Round.{over, message}
use what_the_event.Echo.Deaf.{long_message_deafens}

-- `new` gives one address for the first request of a list, and another for a later one.
abbrev place : Requests → ℕ
place r = elim r.head [ none ↦ 100 | some _ ↦ 200 ]

abbrev granting : ℕ → Bool
granting n = leb n (2 ^ 63 - 1)

abbrev hello : List Cell
hello = some 104 ∷ some 105 ∷ []

abbrev chunk : List Cell
chunk = replicate 4096 (some 1)

abbrev one_read : List Cell → Answers
one_read d = record {
  status = some 0;
  writes = λ k n. none;
  reads = λ k. if k == 0 then received d else again;
}

abbrev long_read : Answers
long_read = record {
  status = some 0;
  writes = λ k n. none;
  reads = λ k. if k == 0 then received chunk else (if k == 1 then received hello else again);
}

abbrev writable : Answers
writable = record { status = some 0; writes = λ k n. some n; reads = λ k. again }

placed : place (accept_connection 9).requests ≡ 100
unfolding accept_connection start_read is_callback wrap_fd
placed = refl

long_message_deafens_example :
    (s' : Stream) × (serve place granting 3
        ((What.read, long_read) ∷ (What.write, writable) ∷ [])
        (accept_connection 9)
      ≡ ok s')
    × (s'.effects
        ≡ (accept_connection 9).effects
          ++ available read_cb chunk
            ∷ available read_cb hello
            ∷ sent chunk
            ∷ completed write_cb
            ∷ sent hello
            ∷ completed write_cb
            ∷ [])
    × (s'.watched ≡ What.none)
    × (s'.read_callback ≡ some read_cb)
long_message_deafens_example =
    long_message_deafens place granting 0 (accept_connection 9) long_read writable chunk hello
      (λ n h. ground arith) (λ v e. omega (arith, e, placed)) (accepted-IsResting 9) refl
      (length-replicate {A = Cell} 4096 (some 1)) refl (omega arith) (omega arith) (λ k n. refl)

-- A system that gives the socket 5, with the port 4000.
abbrev any_port : Sockets
any_port = record {
  Text = ℕ;
  Address = ℕ;
  socket = some 5;
  make_nonblocking = λ _. true;
  make_reuseable = λ _. true;
  to_address = λ ip. some ip;
  assign = λ d a port. true;
  name = λ d. some 4000;
  listen = λ d n. true;
}

start_server-IsOpen_example :
    (r : Listener × Option Failure) × (start_server any_port 0 ≡ ok r)
    × (r.1 ≡ none → IsOpen any_port r.0)
start_server-IsOpen_example = start_server-IsOpen any_port 0

abbrev empty_server : Server
empty_server = record { listener = new_listener; connections = [] }

abbrev two_arrivals : List Arrival
two_arrivals =
    record { sock = some 7; nonblocking = true }
    ∷ record { sock = none; nonblocking = true }
    ∷ record { sock = some 8; nonblocking = true }
    ∷ []

-- The second connection arrives and is heard before the first has answered.
abbrev bustle : List Happening
bustle =
    arrival (record { sock = some 7; nonblocking = true })
    ∷ ready_at 0 What.read (one_read hello)
    ∷ arrival (record { sock = none; nonblocking = true })
    ∷ arrival (record { sock = some 8; nonblocking = true })
    ∷ ready_at 1 What.read (one_read (some 33 ∷ []))
    ∷ ready_at 0 What.write writable
    ∷ ready_at 1 What.write writable
    ∷ []

server_loop-AllEchoed_example :
    (v' : Server) × (server_loop place granting 2 bustle empty_server ≡ ok v')
    × Owns (arrive_all empty_server two_arrivals)
    × (v'.listener ≡ (arrive_all empty_server two_arrivals).listener)
    × AllEchoed
        (arrive_all empty_server two_arrivals).connections
        v'.connections
        ((hello ∷ []) ∷ ((some 33 ∷ []) ∷ []) ∷ [])
unfolding new_listener arrive newcomers
server_loop-AllEchoed_example =
    server_loop-AllEchoed place granting 0 bustle empty_server
      ((hello ∷ []) ∷ ((some 33 ∷ []) ∷ []) ∷ []) (λ n h. ground arith)
      (record { sockets = refl; resting = tt })
      (omega arith, (omega arith, (omega arith, (omega arith, tt))))
      (
        message hello (one_read hello) writable refl (omega arith) (omega arith) (λ k n. refl) over,
        (
          message (some 33 ∷ []) (one_read (some 33 ∷ [])) writable refl (omega arith) (omega arith)
              (λ k n. refl) over,
          tt,
        ),
      )
