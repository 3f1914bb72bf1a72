-- ===== src/Blocking/Life.antt =====
-- `BlockingStreamImpl` of src/blocking_stream.cc from `create` to its destructor.
use what_the_event.Common.{
  ℕ, suc, ◌≡◌, refl, sym, ap₂, subst, ◌∙◌, Option, none, some, Bool, true, false, if◌then◌else◌,
  Bool-cases, inl, inr, ◌==◌, ==→eq, Outcome, ok, List, [], ◌∷◌, ◌++◌, append-nil, append_assoc,
  arith,
}
use what_the_event.Events.What.{What}
use what_the_event.Stream.Requests.{release, consume_front}
use what_the_event.Stream.State.{
  Stream, Effect, reached_eof, closed, start_read, close, destroy, wrap_fd, notify, emit,
  is_callback,
}
use what_the_event.Stream.Queueing.{IsIdle}

pub record BlockingStream : Type 0 where
  pub stream : Stream
  pub auto_close : Bool

-- `BlockingStream::create`
unfoldable pub create : ℕ → Bool → BlockingStream
unfolding wrap_fd
create fd auto_close = record { stream = wrap_fd fd; auto_close = auto_close }

-- The destructor; resetting `stream_` is the destructor of the stream.
unfoldable pub dispose : ℕ → BlockingStream → Outcome Stream
unfolding close destroy
dispose fuel b = destroy fuel (if b.auto_close then close b.stream else b.stream)

-- What a blocking read does to the stream before it waits: the callback at `c` on its stack is
-- installed, and stays so.
unfoldable pub begin_read : BlockingStream → ℕ → BlockingStream
unfolding start_read
begin_read b c = record b { stream = start_read b.stream c }

-- What the destructor tells and closes.
abbrev pub last_words : Stream → Bool → List Effect
last_words s false = []
last_words s true =
    elim s.read_callback as (λ _. List Effect) [ none ↦ [] | some c ↦ reached_eof c ∷ [] ]
    ++ elim s.fd as (λ _. List Effect) [ none ↦ [] | some d ↦ closed d ∷ [] ]

close-tells :
    (s : Stream) (reading fd : Option ℕ)
    → s.connect_callback ≡ none
    → s.read_callback ≡ reading
    → s.fd ≡ fd
    → close s ≡ record s { watched = What.none; effects = s.effects ++ last_words s true }
unfolding close notify emit
close-tells s none none quiet r d = ground (arith, quiet, r, d, append-nil s.effects)
close-tells s none (some x) quiet r d = ground (arith, quiet, r, d)
close-tells s (some c) none quiet r d = ground (arith, quiet, r, d)
close-tells s (some c) (some x) quiet r d =
    ground (arith, quiet, r, d, append_assoc s.effects (reached_eof c ∷ []) (closed x ∷ []))

-- The destructor of a stream that has nothing to send and is not connecting.
pub dispose-tells :
    (f : ℕ) (s : Stream) (auto_close : Bool)
    → IsIdle s.requests
    → s.connect_callback ≡ none
    → (s' : Stream) × (dispose (suc f) (record { stream = s; auto_close = auto_close }) ≡ ok s')
      × (s'.effects ≡ s.effects ++ last_words s auto_close)
      × (s'.watched ≡ What.none)
      × IsIdle s'.requests
unfolding dispose destroy release consume_front
dispose-tells f s false idle quiet = (
  record s { watched = What.none },
  ground (arith, idle.0),
  sym (append-nil s.effects),
  refl,
  idle,
)
dispose-tells f s true idle quiet = (
  record s { watched = What.none; effects = s.effects ++ last_words s true },
  rw (close-tells s _ _ quiet refl refl) (ground (arith, idle.0)),
  refl,
  refl,
  idle,
)

begun_reading :
    (s : Stream) (c : ℕ) (reading : Option ℕ)
    → s.read_callback ≡ reading
    → ((start_read s c).read_callback ≡ some c)
      × ((start_read s c).requests ≡ s.requests)
      × ((start_read s c).connect_callback ≡ s.connect_callback)
      × ((start_read s c).fd ≡ s.fd)
      × ((start_read s c).effects ≡ s.effects)
unfolding start_read is_callback
begun_reading s c none e =
    (ground (arith, e), ground (arith, e), ground (arith, e), ground (arith, e), ground (arith, e))
begun_reading s c (some d) e = elim (Bool-cases (d == c)) [
  | inl same ↦ (
    ground (arith, e, same, ==→eq d c same),
    ground (arith, e, same),
    ground (arith, e, same),
    ground (arith, e, same),
    ground (arith, e, same),
  )
  | inr other ↦ (
    ground (arith, e, other),
    ground (arith, e, other),
    ground (arith, e, other),
    ground (arith, e, other),
    ground (arith, e, other),
  )
]

-- A blocking read leaves its callback in the stream, on a part of the stack that is given back when it
-- returns; the destructor of a stream that closes its descriptor calls it.
pub reader_told :
    (f d c : ℕ) (s : Stream)
    → IsIdle s.requests
    → s.connect_callback ≡ none
    → s.fd ≡ some d
    → (s' : Stream) × (dispose (suc f) (begin_read (record { stream = s; auto_close = true }) c)
        ≡ ok s')
      × (s'.effects ≡ s.effects ++ reached_eof c ∷ closed d ∷ [])
unfolding begin_read
reader_told f d c s idle quiet own =
    let started = begun_reading s c s.read_callback refl in
    let r =
      dispose-tells f (start_read s c) true (subst IsIdle (sym started.1) idle)
        (started.2 ∙ quiet) in
    (r.0, r.1, r.2 ∙ ap₂ ◌++◌ started.4 (ground (arith, started.0, started.3 ∙ own)))
