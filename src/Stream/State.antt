-- ===== src/Stream/State.antt =====
-- `StreamImpl` of src/stream.cc: its state, and the calls that its users make.
use what_the_event.Common.{
  ℕ, Option, none, some, Bool, false, not, ◌==◌, if◌then◌else◌, Outcome, ok, ◌>>=◌, List, [], ◌∷◌,
  ◌++◌,
}
use what_the_event.Events.What.{What, is_read, is_write, ensure_read, ensure_write}
use what_the_event.Buffer.Extent.{Cell}
use what_the_event.Buffer.Impl.{BufferImpl, empty_buffer, append, append_buffer}
use what_the_event.Stream.Requests.{Requests, enqueue, release}

-- What the stream does to the world: bytes sent, callbacks invoked (by number; `available` with what
-- the buffer holds), descriptors closed.
pub data Effect : Type 0 where
  sent : List Cell → Effect
  completed write_failed : ℕ → Effect
  available : ℕ → List Cell → Effect
  read_failed reached_eof : ℕ → Effect
  connected connect_failed : ℕ → Effect
  closed : ℕ → Effect

-- `watched` is what `handler_.watched()` answers: what was last registered.
pub record Stream : Type 0 where
  pub fd : Option ℕ
  pub watched : What
  pub requests : Requests
  pub read_callback : Option ℕ
  pub connect_callback : Option ℕ
  pub read_buffer : BufferImpl
  pub effects : List Effect

unfoldable pub emit : Stream → Effect → Stream
emit s e = record s { effects = s.effects ++ e ∷ [] }

-- An effect on a callback, if there is one.
unfoldable pub notify : Stream → Option ℕ → (ℕ → Effect) → Stream
unfolding emit
notify s callback effect = elim callback [ none ↦ s | some c ↦ emit s (effect c) ]

unfoldable pub is_callback : Option ℕ → ℕ → Bool
is_callback none c = false
is_callback (some d) c = d == c

unfoldable pub start_read : Stream → ℕ → Stream
unfolding is_callback
start_read s c =
    if is_callback s.read_callback c
    then s
    else record s { read_callback = some c; watched = ensure_read s.watched }

unfoldable pub stop_read : Stream → Stream
stop_read s =
    let quiet : Stream = record s { read_callback = none } in
    elim s.read_callback [
      | none ↦ s
      | some _ ↦
          if not (is_read s.watched)
          then quiet
          else (if is_write s.watched then record quiet { watched = What.write } else quiet)
    ]

-- The request is at the free address `p`.
unfoldable pub write : (ℕ → Bool) → Stream → ℕ → List Cell → ℕ → Option ℕ → Outcome Stream
write alloc s p buf size callback = do
  b ← append alloc empty_buffer buf size
  r ← enqueue s.requests p b callback
  ok (record s { requests = r; watched = ensure_write s.watched })

-- `write(Buffer *, …)`: the stream, and the caller's buffer afterwards.
unfoldable pub write_buffer : Stream → ℕ → BufferImpl → Option ℕ → Outcome (Stream × BufferImpl)
write_buffer s p o callback = do
  r ← enqueue s.requests p (append_buffer empty_buffer o).0 callback
  ok (record s { requests = r; watched = ensure_write s.watched }, (append_buffer empty_buffer o).1)

-- `handler_.unregister()` leaves nothing watched.
unfoldable pub close : Stream → Stream
unfolding notify emit
close s =
    let told = notify (notify s s.read_callback reached_eof) s.connect_callback connect_failed in
    let off : Stream = record told { watched = What.none } in
    elim s.fd [ none ↦ off | some d ↦ emit off (closed d) ]

-- The destructor. It does not close the descriptor.
unfoldable pub destroy : ℕ → Stream → Outcome Stream
destroy fuel s = do r ← release fuel s.requests; ok (record s { watched = What.none; requests = r })

-- `wrapFd`: a stream on a descriptor, that watches nothing.
unfoldable pub wrap_fd : ℕ → Stream
wrap_fd d = record {
  fd = some d;
  watched = What.none;
  requests = record { heap = λ _. none; head = none; tail = none };
  read_callback = none;
  connect_callback = none;
  read_buffer = empty_buffer;
  effects = [];
}
