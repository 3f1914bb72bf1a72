-- ===== src/Echo/Round.antt =====
-- What a connection receives is sent back, once and in order.
use what_the_event.Common.{
  ℕ, suc, ◌<◌, ◌≤◌, ◌≡◌, refl, sym, ap, ◌∙◌, none, some, Bool, true, ok, List, [], ◌∷◌, ◌++◌,
  append_assoc, append-nil, length, ap₂, subst, ==_refl, List-cases, inl, inr, arith,
}
use what_the_event.Events.What.{What, is_read, is_write, ensure_write, remove_write}
use what_the_event.Buffer.Extent.{Cell}
use what_the_event.Buffer.Impl.{BufferImpl, empty_buffer, append_buffer, list_empty}
use what_the_event.Buffer.Contents.{contents, IsValid}
use what_the_event.Buffer.Append.{append_buffer-contents, empty-IsValid}
use what_the_event.Stream.Requests.{WriteRequest, Requests}
use what_the_event.Stream.State.{Stream, Effect, sent, completed, available, write_buffer}
use what_the_event.Stream.Writing.{write_helper}
use what_the_event.Stream.Queueing.{IsIdle, alone, unlinked, enqueue-alone}
use what_the_event.Stream.Pending.{all_sent}
use what_the_event.Stream.Reading.{received, chunk_size, read_helper, User}
use what_the_event.Stream.Received.{IsDrained, offered, appended, receive_loop-last}
use what_the_event.Stream.Connecting.{Answers, ready, ready_write}
use what_the_event.Echo.Server.{read_cb, write_cb, on_available, serve}

-- A connection between two messages.
pub record IsResting (s : Stream) : Type 0 where
  pub reading : s.read_callback ≡ some read_cb
  pub connected : s.connect_callback ≡ none
  pub watching : s.watched ≡ What.read
  pub idle : IsIdle s.requests
  pub drained : IsDrained s.read_buffer

-- The stream after the callback queued the bytes of its buffer.
abbrev pub queued : Stream → ℕ → BufferImpl → Stream
queued s p b = record s {
  requests = alone s.requests p (unlinked b (some write_cb));
  watched = ensure_write s.watched;
  read_buffer = empty_buffer;
}

pub moved :
    (b : BufferImpl)
    → 0 < length (contents b.extents)
    → (append_buffer empty_buffer b).1 ≡ empty_buffer
unfolding append_buffer list_empty
moved b h = elim (List-cases b.extents) [
  | inl e ↦ absurd (omega (arith, ap (λ es. length (contents es)) e))
  | inr (e, es, k) ↦ ground (arith, k)
]

pub on_available-queued :
    (place : Requests → ℕ) (c : ℕ) (s : Stream)
    → IsIdle s.requests
    → 0 < length (contents s.read_buffer.extents)
    → on_available place c s
      ≡ ok (queued s (place s.requests) (append_buffer empty_buffer s.read_buffer).0)
unfolding on_available write_buffer
on_available-queued place c s idle some_bytes =
    rw (enqueue-alone s.requests (place s.requests) _ (some write_cb) idle)
      (rw (moved s.read_buffer some_bytes) refl)

pub ready-read :
    (answers : Answers) (user : User) (alloc : ℕ → Bool) (f k : ℕ) (s s' : Stream)
    → read_helper answers.reads user alloc f 0 s ≡ ok (k, s')
    → ready answers user alloc f What.read s ≡ ok s'
unfolding ready is_read is_write
ready-read answers user alloc f k s s' e = rw e refl

pub ready-write :
    (answers : Answers) (user : User) (alloc : ℕ → Bool) (f k : ℕ) (s s' : Stream)
    → s.connect_callback ≡ none
    → write_helper answers.writes f 0 s ≡ ok (k, s')
    → ready answers user alloc f What.write s ≡ ok s'
unfolding ready ready_write is_read is_write write_helper
ready-write answers user alloc f k s s' none_waits e = ground (arith, none_waits, e)

-- The events of messages, one after the other: a read of some bytes, fewer than a chunk, and then a
-- descriptor that takes all it is given.
pub data Messages : List (What × Answers) → List (List Cell) → Type 0 where
  over : Messages [] []
  message :
      {events : List (What × Answers)} {ds : List (List Cell)} (d : List Cell) (r w : Answers)
      → r.reads 0 ≡ received d
      → 0 < length d
      → length d < chunk_size
      → ((k n : ℕ) → w.writes k n ≡ some n)
      → Messages events ds
      → Messages ((What.read, r) ∷ (What.write, w) ∷ events) (d ∷ ds)

-- What a connection does with messages.
abbrev pub echoed : List (List Cell) → List Effect
echoed [] = []
echoed (d ∷ ds) = available read_cb d ∷ sent d ∷ completed write_cb ∷ echoed ds

module _ (place : Requests → ℕ) (alloc : ℕ → Bool)
    (granted : (n : ℕ) → n ≤ chunk_size → alloc n ≡ true) where
  echo_read :
      (f : ℕ) (s : Stream) (d : List Cell) (r : Answers)
      → IsResting s
      → r.reads 0 ≡ received d
      → 0 < length d
      → length d < chunk_size
      → (b : BufferImpl) × (ready r (on_available place) alloc (suc f) What.read s
          ≡ ok (
              queued
                (offered r.reads (on_available place) alloc read_cb granted s b)
                (place s.requests)
                (append_buffer empty_buffer b).0))
        × IsValid (append_buffer empty_buffer b).0
        × (contents (append_buffer empty_buffer b).0.extents ≡ d)
        × (contents b.extents ≡ d)
  unfolding read_helper
  echo_read f s d r q gives some_bytes short =
      let user = on_available place in
      let b = appended r.reads user alloc read_cb granted s.read_buffer d q.drained (omega arith) in
      let t : Stream = offered r.reads user alloc read_cb granted s b.0 in
      let used = on_available-queued place read_cb t q.idle (omega (arith, ap length b.3)) in
      let m = append_buffer-contents empty_buffer b.0 empty-IsValid b.2 (omega (arith, b.2.fits)) in
      (
        b.0,
        ready-read r user alloc (suc f) 1 s _ (
            receive_loop-last r.reads user alloc read_cb granted f 0 s _ d b.0 q.reading gives
              some_bytes short b.1 used),
        m.0,
        m.2 ∙ b.3,
        b.3,
      )

  echo_message :
      (f : ℕ) (s : Stream) (d : List Cell) (r w : Answers)
      → IsResting s
      → r.reads 0 ≡ received d
      → 0 < length d
      → length d < chunk_size
      → ((k n : ℕ) → w.writes k n ≡ some n)
      → (s₁ : Stream) × (s₂ : Stream) × (ready r
            (on_available place)
            alloc
            (suc (suc f))
            What.read
            s
          ≡ ok s₁)
        × (ready w (on_available place) alloc (suc (suc f)) What.write s₁ ≡ ok s₂)
        × (s₂.effects ≡ s.effects ++ echoed (d ∷ []))
        × IsResting s₂
  unfolding ensure_write remove_write
  echo_message f s d r w q gives some_bytes short all =
      let user = on_available place in
      let now = echo_read (suc f) s d r q gives some_bytes short in
      let t : Stream = offered r.reads user alloc read_cb granted s now.0 in
      let b : BufferImpl = (append_buffer empty_buffer now.0).0 in
      let p : ℕ = place s.requests in
      let one : Stream = queued t p b in
      let request : WriteRequest = unlinked b (some write_cb) in
      let out =
        all_sent w.writes (suc f) 0 one p request [] all
          (refl, rw (==_refl p) refl, now.2, omega (arith, ap length now.3), refl) (refl, tt)
          (omega arith) in
      (
        one,
        out.1,
        now.1,
        ready-write w user alloc (suc (suc f)) out.0 one out.1 q.connected out.2,
        out.3
            ∙ append_assoc s.effects (available read_cb (contents now.0.extents) ∷ [])
                (sent (contents b.extents) ∷ completed write_cb ∷ [])
            ∙ ap₂ (λ x y. s.effects ++ available read_cb x ∷ sent y ∷ completed write_cb ∷ []) now.4
                now.3,
        record {
          reading = out.6.read_callback ∙ q.reading;
          connected = out.6.connect_callback ∙ q.connected;
          watching = out.5 ∙ ap (λ x. remove_write (ensure_write x)) q.watching;
          idle = out.4;
          drained = subst IsDrained (sym out.6.read_buffer) (empty-IsValid, refl);
        },
      )

-- A connection that rests between messages, whatever they are: every message is handed to the
-- connection once and sent back whole before the next one, and the connection rests again.
pub messages_echoed :
    (place : Requests → ℕ) (alloc : ℕ → Bool) (f : ℕ) (s : Stream) (events : List (What × Answers))
    (ds : List (List Cell))
    → ((n : ℕ) → n ≤ chunk_size → alloc n ≡ true)
    → IsResting s
    → Messages events ds
    → (s' : Stream) × (serve place alloc (suc (suc f)) events s ≡ ok s')
      × (s'.effects ≡ s.effects ++ echoed ds)
      × IsResting s'
unfolding serve
messages_echoed place alloc f s events ds granted q over = (s, refl, sym (append-nil s.effects), q)
messages_echoed place alloc f s events ds granted q
      (message {events = later} {ds = more} d r w gives some_bytes short all rest) =
    let now = echo_message place alloc granted f s d r w q gives some_bytes short all in
    let after = messages_echoed place alloc f now.1 later more granted now.5 rest in
    (
      after.0,
      rw now.2 (rw now.3 after.1),
      after.2
          ∙ ap (λ x. x ++ echoed more) now.4
          ∙ append_assoc s.effects (echoed (d ∷ [])) (echoed more),
      after.3,
    )
