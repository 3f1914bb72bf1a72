-- ===== src/Stream/Orderly/Run.antt =====
-- Sequences of calls and events on a stream with at most one request.
use what_the_event.Common.{
  ℕ, suc, ◌≡◌, refl, ap, ◌∙◌, none, some, Option-cases, Bool, inl, inr, ok, List, [], ◌∷◌, ◌++◌,
  length, take_all, ==_refl, arith,
}
use what_the_event.Events.What.{is_read, is_write, ensure_read, ensure_write}
use what_the_event.Buffer.Extent.{Cell}
use what_the_event.Buffer.Impl.{empty_buffer}
use what_the_event.Buffer.Contents.{contents}
use what_the_event.Buffer.Append.{append-contents, append-one_more, empty-IsValid}
use what_the_event.Stream.State.{Stream, start_read, is_callback, wrap_fd}
use what_the_event.Stream.Queueing.{alone, unlinked}
use what_the_event.Stream.Sent.{write-alone}
use what_the_event.Stream.Reading.{User}
use what_the_event.Stream.Orderly.{
  Call, send, receive, writable, perform, perform_all, IsQuiet, IsOrderly, Allowed, AllAllowed,
}
use what_the_event.Stream.Orderly.Event.{
  busy-Sent, quiet-Sent, is_write-ensure, is_read-ensure_write, is_write-ensure_read,
}

module _ (alloc : ℕ → Bool) (user : User) (f : ℕ) where
  -- What a call comes to.
  abbrev Keeps : Call → Stream → List Cell → Type 0
  Keeps c s given =
      (s' : Stream) × (given' : List Cell) × (perform alloc user (suc (suc f)) c (s, given)
        ≡ ok (s', given'))
      × IsOrderly s' given'

  send_quiet :
      (buf : List Cell) (p c : ℕ) (s : Stream) (given : List Cell)
      → Allowed alloc (send buf p c)
      → IsQuiet s given
      → Keeps (send buf p c) s given
  unfolding perform
  send_quiet buf p c s given (some_bytes, small, granted) q =
      let n = length buf in
      let b =
        append-contents alloc empty_buffer buf n empty-IsValid (omega arith) small (omega arith)
          granted in
      let one =
        append-one_more alloc empty_buffer buf n empty-IsValid b.0 (omega arith) small granted
          b.1 in
      let held : contents b.0.extents ≡ buf = b.3 ∙ take_all n buf (omega arith) in
      let after : Stream = record s {
        requests = alone s.requests p (unlinked b.0 (some c));
        watched = ensure_write s.watched;
      } in
      (
        after,
        given ++ buf,
        ground (arith, q.idle.0, write-alone alloc s p buf n (some c) b.0 q.idle b.1),
        inr (record {
          place = p;
          request = unlinked b.0 (some c);
          callback = c;
          waiting = buf;
          sending = record {
            first = record { first = refl; live = rw (==_refl p) refl; valid = b.2 };
            alone = refl;
            callback = refl;
            single = omega (arith, one);
            held = held;
            connected = q.connected;
          };
          some_bytes = some_bytes;
          watched = is_write-ensure s.watched;
          sent = ap (λ x. x ++ buf) q.sent;
          reading = λ h. is_read-ensure_write s.watched q.watched ∙ q.reading h;
        }),
      )

  -- Reading is started where it was not watched.
  reading_started :
      (s : Stream) (c : ℕ)
      → s.read_callback ≡ none
      → start_read s c ≡ record s { read_callback = some c; watched = ensure_read s.watched }
  unfolding start_read is_callback
  reading_started s c e = ground (arith, e)

  receive_first :
      (c : ℕ) (s : Stream) (given : List Cell)
      → s.read_callback ≡ none
      → IsOrderly s given
      → IsOrderly (record s { read_callback = some c; watched = ensure_read s.watched }) given
  receive_first c s given e (inl q) = inl (record {
    idle = q.idle;
    watched = is_write-ensure_read s.watched (q.reading e) ∙ q.watched;
    connected = q.connected;
    sent = q.sent;
    reading = λ h. cc;
  })
  receive_first c s given e (inr q) = inr (record {
    place = q.place;
    request = q.request;
    callback = q.callback;
    waiting = q.waiting;
    sending = record {
      first = record {
        first = q.sending.first.first;
        live = q.sending.first.live;
        valid = q.sending.first.valid;
      };
      alone = q.sending.alone;
      callback = q.sending.callback;
      single = q.sending.single;
      held = q.sending.held;
      connected = q.sending.connected;
    };
    some_bytes = q.some_bytes;
    watched = is_write-ensure_read s.watched (q.reading e) ∙ q.watched;
    sent = q.sent;
    reading = λ h. cc;
  })

  perform-Keeps :
      (c : Call) (s : Stream) (given : List Cell)
      → Allowed alloc c
      → IsOrderly s given
      → Keeps c s given
  unfolding perform
  perform-Keeps (send buf p c) s given a (inl q) = send_quiet buf p c s given a q
  perform-Keeps (send buf p c) s given a (inr q) =
      (s, given, ground (arith, q.sending.first.first), inr q)
  perform-Keeps (receive c) s given a q = elim (Option-cases s.read_callback) [
    | inl e ↦ (
      record s { read_callback = some c; watched = ensure_read s.watched },
      given,
      ground (arith, e, reading_started s c e),
      receive_first c s given e q,
    )
    | inr (d, e) ↦ (s, given, ground (arith, e), q)
  ]
  perform-Keeps (writable answers) s given a (inl q) =
      let r = quiet-Sent alloc user f s given answers q in (r.0, given, rw (r.1) refl, r.2)
  perform-Keeps (writable answers) s given a (inr q) =
      let r = busy-Sent alloc user f s given answers q a in (r.0, given, rw (r.1) refl, r.2)

  -- A user that writes only when nothing is waiting, whatever was asked, and starts reading once, on a
  -- stream in order, with any events at which the descriptor can be written and takes all, some or
  -- nothing of what it is given, or answers with an error: every call returns, without an undefined
  -- access, a failed assertion or an exception; and the stream is in order again. That is, what has
  -- been sent and what is still waiting make up exactly the bytes that were given to it, in their order;
  -- writing is watched if and only if bytes are waiting; and there is no request where none are.
  pub perform_all-IsOrderly :
      (calls : List Call) (s : Stream) (given : List Cell)
      → AllAllowed alloc calls
      → IsOrderly s given
      → (s' : Stream) × (given' : List Cell) × (perform_all alloc user
            (suc (suc f))
            calls
            (s, given)
          ≡ ok (s', given'))
        × IsOrderly s' given'
  unfolding perform_all
  perform_all-IsOrderly [] s given a q = (s, given, refl, q)
  perform_all-IsOrderly (c ∷ calls) s given a q =
      let one = perform-Keeps c s given a.0 q in
      let rest = perform_all-IsOrderly calls one.0 one.1 a.1 one.3 in
      (rest.0, rest.1, rw (one.2) rest.2, rest.3)

-- A new stream on a descriptor is in order.
pub wrap_fd-IsOrderly : (fd : ℕ) → IsOrderly (wrap_fd fd) []
unfolding wrap_fd is_read is_write
wrap_fd-IsOrderly fd = inl (record {
  idle = (refl, refl);
  watched = refl;
  connected = refl;
  sent = refl;
  reading = λ e. refl;
})
