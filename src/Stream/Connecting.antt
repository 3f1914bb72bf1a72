-- ===== src/Stream/Connecting.antt =====
-- `connect` and `connectHelper` of src/stream.cc, and `SockHandler::ready`. The socket calls are
-- parameters.
use what_the_event.Common.{
  ℕ, Option, none, some, Bool, not, if◌then◌else◌, Outcome, ok, aborted, ◌>>=◌,
}
use what_the_event.Events.What.{What, is_read, is_write, ensure_write}
use what_the_event.Events.Registration.{what_eq}
use what_the_event.Stream.State.{Stream, connected, connect_failed, closed, emit}
use what_the_event.Stream.Writing.{write_helper}
use what_the_event.Stream.Reading.{User, Answer, read_helper}

-- What the call `::connect` answers: success, an error that says it goes on in the background, or
-- another error.
pub data Progress : Type 0 where
  at_once pending refused : Progress

-- The system: `socket`, `evutil_make_socket_nonblocking`, `inet_pton` and `::connect`. An address is
-- what `inet_pton` makes of the text.
pub record Net : Type 1 where
  pub Text : Type 0
  pub Address : Type 0
  pub socket : Option ℕ
  pub make_nonblocking : ℕ → Bool
  pub to_address : Text → Option Address
  pub attach : ℕ → Address → ℕ → Progress

-- After an error: the descriptor is closed, and the callback is told.
unfoldable pub give_up : Stream → Option ℕ → ℕ → Stream
unfolding emit
give_up s fd c =
    let shut : Stream = elim fd [ none ↦ s | some d ↦ emit s (closed d) ] in
    emit shut (connect_failed c)

-- `handler_.setFd(fd)`, which asserts that the handler is not registered.
unfoldable pub set_stream_fd : Stream → ℕ → Outcome Stream
unfolding what_eq
set_stream_fd s d = if what_eq s.watched What.none then ok (record s { fd = some d }) else aborted

unfoldable pub connect_to : (net : Net) → Stream → ℕ → net.Address → ℕ → ℕ → Outcome Stream
unfolding give_up emit set_stream_fd
connect_to net s d address port c = elim (net.attach d address port) as (λ _. Outcome Stream) [
  | pending ↦ (do
    s₁ ← set_stream_fd s d
    ok (record s₁ { connect_callback = some c; watched = ensure_write s₁.watched }))
  | refused ↦ ok (give_up s (some d) c)
  | at_once ↦ (do s₁ ← set_stream_fd s d; ok (emit s₁ (connected c)))
]

unfoldable pub connect_fresh : (net : Net) → Stream → net.Text → ℕ → ℕ → Outcome Stream
unfolding connect_to give_up
connect_fresh net s ip port c = elim net.socket as (λ _. Outcome Stream) [
  | none ↦ ok (give_up s none c)
  | some d ↦
      if not (net.make_nonblocking d)
      then ok (give_up s (some d) c)
      else elim (net.to_address ip) as (λ _. Outcome Stream) [
        | none ↦ ok (give_up s (some d) c)
        | some a ↦ connect_to net s d a port c
      ]
]

unfoldable pub connect : (net : Net) → Stream → net.Text → ℕ → ℕ → Outcome Stream
unfolding connect_fresh
connect net s ip port c = elim s.fd [
  | some _ ↦ aborted
  | none ↦ elim s.connect_callback [ some _ ↦ aborted | none ↦ connect_fresh net s ip port c ]
]

-- `status` is what `getsockopt` stores in `err`, or `none` when it fails. The test that follows is of
-- `error`, which is null there, and not of `err`.
unfoldable pub connect_helper : Option ℕ → Stream → Outcome Stream
unfolding emit
connect_helper status s = elim s.connect_callback [
  | none ↦ aborted
  | some c ↦
      let quiet : Stream = record s { connect_callback = none } in
      elim status [
        | none ↦ ok (emit quiet (connect_failed c))
        | some err ↦ ok (emit quiet (connected c))
      ]
]

-- The descriptor's answers to one event: to `getsockopt`, to the writes and to the reads.
pub record Answers : Type 0 where
  pub status : Option ℕ
  pub writes : ℕ → ℕ → Option ℕ
  pub reads : ℕ → Answer

-- The part of `ready` for an event that the descriptor can be written.
unfoldable pub ready_write : Answers → ℕ → Stream → Outcome Stream
unfolding connect_helper write_helper
ready_write answers fuel s = do
  s₁ ← elim s.connect_callback as (λ _. Outcome Stream) [
    | none ↦ ok s
    | some _ ↦ connect_helper answers.status s
  ]
  r ← write_helper answers.writes fuel 0 s₁
  ok r.1

unfoldable pub ready : Answers → User → (ℕ → Bool) → ℕ → What → Stream → Outcome Stream
unfolding ready_write read_helper
ready answers user alloc fuel event s =
    let read_part : Stream → Outcome Stream =
      λ t. (do r ← read_helper answers.reads user alloc fuel 0 t; ok r.1) in
    (do
      s₁ ← if is_write event then ready_write answers fuel s else ok s
      if is_read event then read_part s₁ else ok s₁)
