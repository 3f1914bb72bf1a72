-- ===== src/Stream/Connected.antt =====
-- How `connect` ends, and what `connectHelper` makes of a connection that failed.
use what_the_event.Common.{
  ℕ, ◌≡◌, refl, Option, none, some, Bool, true, false, Outcome, ok, [], ◌∷◌, ◌++◌, arith,
}
use what_the_event.Events.What.{What, ensure_write}
use what_the_event.Events.Registration.{what_eq}
use what_the_event.Stream.State.{Stream, connected, connect_failed, closed, emit}
use what_the_event.Stream.Connecting.{
  Net, Progress, at_once, pending, refused, connect, connect_fresh, connect_to, connect_helper,
  give_up, set_stream_fd,
}

-- The ways for `connect` to end: connected, waiting for the event loop, without a socket, or with the
-- socket closed again.
pub data Ended (net : Net) (s : Stream) (c : ℕ) : Stream → Type 0 where
  made :
      (d : ℕ)
      → net.socket ≡ some d
      → Ended net s c (record s { fd = some d; effects = s.effects ++ connected c ∷ [] })
  waiting :
      (d : ℕ)
      → net.socket ≡ some d
      → Ended net s c
          (record s { fd = some d; connect_callback = some c; watched = ensure_write s.watched })
  no_socket :
      net.socket ≡ none → Ended net s c (record s { effects = s.effects ++ connect_failed c ∷ [] })
  dropped :
      (d : ℕ)
      → net.socket ≡ some d
      → Ended net s c (record s { effects = (s.effects ++ closed d ∷ []) ++ connect_failed c ∷ [] })

-- How a call that returns has ended.
abbrev Returns : (net : Net) → Stream → ℕ → Outcome Stream → Type 0
Returns net s c r = (s' : Stream) × (r ≡ ok s') × Ended net s c s'

module _ (net : Net) (s : Stream) (port c : ℕ) (quiet : s.watched ≡ What.none) where
  connect_to-Ended :
      (d : ℕ) (a : net.Address) (r : Progress)
      → net.socket ≡ some d
      → net.attach d a port ≡ r
      → Returns net s c (connect_to net s d a port c)
  unfolding connect_to set_stream_fd what_eq give_up emit
  connect_to-Ended d a at_once fresh e = (_, ground (arith, e, quiet), made d fresh)
  connect_to-Ended d a pending fresh e = (_, ground (arith, e, quiet), waiting d fresh)
  connect_to-Ended d a refused fresh e = (_, ground (arith, e), dropped d fresh)

  connect_address-Ended :
      (ip : net.Text) (d : ℕ) (o : Option net.Address)
      → net.socket ≡ some d
      → net.make_nonblocking d ≡ true
      → net.to_address ip ≡ o
      → Returns net s c (connect_fresh net s ip port c)
  unfolding connect_fresh give_up emit
  connect_address-Ended ip d none fresh set e = (_, ground (arith, fresh, set, e), dropped d fresh)
  connect_address-Ended ip d (some a) fresh set e =
      let r = connect_to-Ended d a _ fresh refl in (r.0, ground (arith, fresh, set, e, r.1), r.2)

  connect_socket-Ended :
      (ip : net.Text) (d : ℕ) (set : Bool)
      → net.socket ≡ some d
      → net.make_nonblocking d ≡ set
      → Returns net s c (connect_fresh net s ip port c)
  unfolding connect_fresh give_up emit
  connect_socket-Ended ip d false fresh e = (_, ground (arith, fresh, e), dropped d fresh)
  connect_socket-Ended ip d true fresh e = connect_address-Ended ip d _ fresh e refl

  connect_fresh-Ended :
      (ip : net.Text) (o : Option ℕ)
      → net.socket ≡ o
      → Returns net s c (connect_fresh net s ip port c)
  unfolding connect_fresh give_up emit
  connect_fresh-Ended ip none e = (_, ground (arith, e), no_socket e)
  connect_fresh-Ended ip (some d) e = connect_socket-Ended ip d _ e refl

-- `connect` of a stream that has no descriptor and watches nothing returns, whatever the system
-- answers. Either the stream owns the new socket, and the callback was told or writing is watched to
-- tell it later; or the callback was told of an error, the stream has no descriptor, and a socket that
-- was made has been closed.
pub connect-Ended :
    (net : Net) (s : Stream) (ip : net.Text) (port c : ℕ)
    → s.fd ≡ none
    → s.connect_callback ≡ none
    → s.watched ≡ What.none
    → (s' : Stream) × (connect net s ip port c ≡ ok s') × Ended net s c s'
unfolding connect
connect-Ended net s ip port c no_fd idle quiet =
    let r = connect_fresh-Ended net s port c quiet ip _ refl in
    (r.0, ground (arith, no_fd, idle, r.1), r.2)

-- A connection that goes on in the background: whatever error it ends with, the callback is told on
-- the next writable event that the connection is complete.
pub failure_hidden :
    (net : Net) (s : Stream) (ip : net.Text) (a : net.Address) (port c d err : ℕ)
    → s.fd ≡ none
    → s.connect_callback ≡ none
    → s.watched ≡ What.none
    → net.socket ≡ some d
    → net.make_nonblocking d ≡ true
    → net.to_address ip ≡ some a
    → net.attach d a port ≡ pending
    → (s₁ : Stream) × (s₂ : Stream) × (connect net s ip port c ≡ ok s₁)
      × (connect_helper (some err) s₁ ≡ ok s₂)
      × (s₂.effects ≡ s.effects ++ connected c ∷ [])
      × (s₂.connect_callback ≡ none)
unfolding connect connect_fresh connect_to set_stream_fd what_eq connect_helper emit
failure_hidden net s ip a port c d err no_fd idle quiet fresh set parsed waits =
    let one : Stream = record s {
      fd = some d;
      connect_callback = some c;
      watched = ensure_write s.watched;
    } in
    (
      one,
      record one { connect_callback = none; effects = s.effects ++ connected c ∷ [] },
      ground (arith, no_fd, idle, quiet, fresh, set, parsed, waits),
      refl,
      refl,
      refl,
    )
