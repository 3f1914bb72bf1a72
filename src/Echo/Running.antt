-- ===== src/Echo/Running.antt =====
-- The loop of the echo server: connections arrive while others are served.
use what_the_event.Common.{
  ℕ, zero, suc, ◌+◌, ◌<◌, ◌≤◌, ◌≡◌, refl, sym, ap, ◌∙◌, subst, Bool, true, Outcome, ok, fault,
  bad_alloc, aborted, out_of_fuel, ◌>>=◌, List, [], ◌∷◌, ◌++◌, length, length-append, append-nil,
  append_assoc, arith,
}
use what_the_event.Events.What.{What}
use what_the_event.Buffer.Extent.{Cell}
use what_the_event.Stream.Requests.{Requests}
use what_the_event.Stream.State.{Stream}
use what_the_event.Stream.Reading.{chunk_size}
use what_the_event.Stream.Connecting.{Answers, ready}
use what_the_event.Listener.System.{Arrival}
use what_the_event.Echo.Server.{on_available}
use what_the_event.Echo.Main.{
  Server, newcomers, arrive, arrive_all, at_connection, serve_all, Happening, arrival, ready_at,
  server_loop,
}
use what_the_event.Echo.Served.{bind_ok, AllBelow, AllTalk, AllEchoed, interleaved_echo}
use what_the_event.Echo.Admitted.{Owns, arrive_all-Owns}

-- The arrivals, and the events of the connections.
abbrev pub arrivals : List Happening → List Arrival
arrivals [] = []
arrivals (arrival a ∷ hs) = a ∷ arrivals hs
arrivals (ready_at i event answers ∷ hs) = arrivals hs

abbrev pub served : List Happening → List (ℕ × What × Answers)
served [] = []
served (arrival a ∷ hs) = served hs
served (ready_at i event answers ∷ hs) = (i, event, answers) ∷ served hs

-- Each event is one of a connection that there is by then, of `n` at first.
abbrev pub AllThere : ℕ → List Happening → Type 0
AllThere n [] = Unit
AllThere n (arrival a ∷ hs) = AllThere (n + length (newcomers a)) hs
AllThere n (ready_at i event answers ∷ hs) = (i < n) × AllThere n hs

abbrev all_new : List Arrival → List Stream
all_new [] = []
all_new (a ∷ more) = newcomers a ++ all_new more

arrive_all-connections :
    (v : Server) (more : List Arrival)
    → (arrive_all v more).connections ≡ v.connections ++ all_new more
unfolding arrive
arrive_all-connections v [] = sym (append-nil v.connections)
arrive_all-connections v (a ∷ more) =
    arrive_all-connections (arrive v a) more
    ∙ append_assoc v.connections (newcomers a) (all_new more)

-- The listener does not see the connections.
arrive_all-listener :
    (v : Server) (cs : List Stream) (more : List Arrival)
    → (arrive_all (record v { connections = cs }) more).listener ≡ (arrive_all v more).listener
unfolding arrive
arrive_all-listener v cs [] = refl
arrive_all-listener v cs (a ∷ more) = arrive_all-listener (arrive v a) (cs ++ newcomers a) more

bind_same :
    {A B : Type 0} (o : Outcome A) (f g : A → Outcome B)
    → ((x : A) → o ≡ ok x → f x ≡ g x)
    → (o >>= f) ≡ (o >>= g)
bind_same (ok x) f g same = same x refl
bind_same fault f g same = refl
bind_same bad_alloc f g same = refl
bind_same aborted f g same = refl
bind_same out_of_fuel f g same = refl

bind_bind :
    {A B C : Type 0} (o : Outcome A) (f : A → Outcome B) (g : B → Outcome C)
    → ((o >>= f) >>= g) ≡ (o >>= λ x. f x >>= g)
bind_bind (ok x) f g = refl
bind_bind fault f g = refl
bind_bind bad_alloc f g = refl
bind_bind aborted f g = refl
bind_bind out_of_fuel f g = refl

module _ (place : Requests → ℕ) (alloc : ℕ → Bool) (fuel : ℕ) where
  -- An event of one of the connections leaves those behind them alone.
  at_connection-append :
      (i : ℕ) (event : What) (answers : Answers) (cs ds : List Stream)
      → i < length cs
      → at_connection place alloc fuel i event answers (cs ++ ds)
        ≡ (at_connection place alloc fuel i event answers cs >>= λ cs'. ok (cs' ++ ds))
  at_connection-append i event answers [] ds h = absurd (omega arith)
  at_connection-append zero event answers (c ∷ cs) ds h =
      sym (bind_bind (ready answers (on_available place) alloc fuel event c) _ _)
  at_connection-append (suc i) event answers (c ∷ cs) ds h =
      ap (λ o. o >>= λ cs'. ok (c ∷ cs')) (at_connection-append i event answers cs ds (omega arith))
      ∙ bind_bind (at_connection place alloc fuel i event answers cs) _ _
      ∙ sym (bind_bind (at_connection place alloc fuel i event answers cs) _ _)

  at_connection-length :
      (i : ℕ) (event : What) (answers : Answers) (cs cs' : List Stream)
      → at_connection place alloc fuel i event answers cs ≡ ok cs'
      → length cs' ≡ length cs
  at_connection-length i event answers [] cs' e = absurd (ground (arith, e))
  at_connection-length zero event answers (c ∷ cs) cs' e =
      let r = bind_ok (ready answers (on_available place) alloc fuel event c) _ cs' e in
      ground (arith, r.2)
  at_connection-length (suc i) event answers (c ∷ cs) cs' e =
      let r = bind_ok (at_connection place alloc fuel i event answers cs) _ cs' e in
      ground (arith, r.2, at_connection-length i event answers cs r.0 r.1)

  -- What the server is when the loop has seen everything.
  abbrev after : List Happening → Server → List Stream → Server
  after hs v cs = record { listener = (arrive_all v (arrivals hs)).listener; connections = cs }

  -- The server does what it would do if all connections were there from the start.
  server_loop-serve_all :
      (hs : List Happening) (v : Server)
      → AllThere (length v.connections) hs
      → server_loop place alloc fuel hs v ≡ (
          serve_all place alloc fuel (served hs) (v.connections ++ all_new (arrivals hs)) >>= λ cs.
          ok (after hs v cs))
  unfolding server_loop serve_all arrive
  server_loop-serve_all [] v h =
      ap (λ cs. ok (record v { connections = cs })) (sym (append-nil v.connections))
  server_loop-serve_all (arrival a ∷ hs) v h =
      server_loop-serve_all hs (arrive v a)
        (subst (λ n. AllThere n hs) (sym (length-append v.connections (newcomers a))) h)
      ∙ ap (λ cs. serve_all place alloc fuel (served hs) cs >>= λ x. ok (after hs (arrive v a) x))
          (append_assoc v.connections (newcomers a) (all_new (arrivals hs)))
  server_loop-serve_all (ready_at i event answers ∷ hs) v h =
      let new = all_new (arrivals hs) in
      let o = at_connection place alloc fuel i event answers v.connections in
      let serve : List Stream → Outcome (List Stream) = serve_all place alloc fuel (served hs) in
      let end : List Stream → Outcome Server = λ x. ok (after hs v x) in
      bind_same o _ (λ cs. serve (cs ++ new) >>= end)
        (λ cs e.
          server_loop-serve_all hs (record v { connections = cs })
            (subst (λ n. AllThere n hs)
              (sym (at_connection-length i event answers v.connections cs e)) h.1)
          ∙ ap (λ k. serve (cs ++ new) >>= λ x. ok (record { listener = k; connections = x }))
              (arrive_all-listener v cs (arrivals hs)))
      ∙ sym (bind_bind o (λ cs. serve (cs ++ new)) end)
      ∙ ap (λ p. p >>= end) (sym (bind_bind o (λ cs. ok (cs ++ new)) serve))
      ∙ ap (λ p. (p >>= serve) >>= end)
          (sym (at_connection-append i event answers v.connections new h.0))

AllThere-below :
    (hs : List Happening) (n m : ℕ)
    → AllThere n hs
    → n + length (all_new (arrivals hs)) ≡ m
    → AllBelow m (served hs)
AllThere-below [] n m h e = tt
AllThere-below (arrival a ∷ hs) n m h e =
    AllThere-below hs (n + length (newcomers a)) m h
      (omega (arith, e, length-append (newcomers a) (all_new (arrivals hs))))
AllThere-below (ready_at i event answers ∷ hs) n m h e =
    (omega (arith, h.0, e), AllThere-below hs n m h.1 e)

-- The loop of the server, from when all its connections rest, as when it has none. Connections arrive,
-- and messages shorter than a chunk come to those that have arrived; the events of different connections
-- and arrivals interleave in any way, but at one connection each message that is read is followed by an
-- event at which the descriptor takes all of its bytes, before the next message is read there. With the
-- allocator granting small requests, every socket that is handed over gets a connection, and every
-- connection, early or late, sends back each message that came to it, whole and in order, and rests
-- again; no connection disturbs another, and the listener does what it does without them.
pub server_loop-AllEchoed :
    (place : Requests → ℕ) (alloc : ℕ → Bool) (f : ℕ) (hs : List Happening) (v : Server)
    (dss : List (List (List Cell)))
    → ((n : ℕ) → n ≤ chunk_size → alloc n ≡ true)
    → Owns v
    → AllThere (length v.connections) hs
    → AllTalk 0 (served hs) (arrive_all v (arrivals hs)).connections dss
    → (v' : Server) × (server_loop place alloc (suc (suc f)) hs v ≡ ok v')
      × Owns (arrive_all v (arrivals hs))
      × (v'.listener ≡ (arrive_all v (arrivals hs)).listener)
      × AllEchoed (arrive_all v (arrivals hs)).connections v'.connections dss
server_loop-AllEchoed place alloc f hs v dss granted own there talk =
    let all : Server = arrive_all v (arrivals hs) in
    let owned : Owns all = arrive_all-Owns v (arrivals hs) own in
    let grown = arrive_all-connections v (arrivals hs) in
    let below : AllBelow (length all.connections) (served hs) =
      AllThere-below hs (length v.connections) (length all.connections) there
        (sym (ap length grown ∙ length-append v.connections (all_new (arrivals hs)))) in
    let r =
      interleaved_echo place alloc f granted (served hs) all.connections dss owned.resting below
        talk in
    (
      record { listener = all.listener; connections = r.0 },
      server_loop-serve_all place alloc (suc (suc f)) hs v there
          ∙ ap
              (λ cs. serve_all place alloc (suc (suc f)) (served hs) cs >>= λ x.
                ok (record { listener = all.listener; connections = x }))
              (sym grown)
          ∙ ap (λ o. o >>= λ x. ok (record { listener = all.listener; connections = x })) r.1,
      owned,
      refl,
      r.2,
    )
