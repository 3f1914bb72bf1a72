-- ===== src/Stream/Directions.antt =====
-- Which directions a stream watches after its users' calls.
use what_the_event.Common.{ℕ, ◌≡◌, ◌≢◌, refl, ap, Option, none, Bool, false, not, ok, List, arith}
use what_the_event.Events.What.{What, is_read, is_write, ensure_read, ensure_write}
use what_the_event.Buffer.Extent.{Cell}
use what_the_event.Buffer.Impl.{BufferImpl, empty_buffer, append}
use what_the_event.Stream.Requests.{Requests, enqueue}
use what_the_event.Stream.State.{Stream, start_read, stop_read, write, is_callback}
use what_the_event.Stream.Queueing.{IsIdle, two_in_order}

-- `startRead` and then `stopRead`, on a stream without a callback that does not yet watch reading:
-- writing is watched as before, but reading is still watched unless writing was.
pub start_stop :
    (s : Stream) (c : ℕ)
    → s.read_callback ≡ none
    → is_read s.watched ≡ false
    → ((stop_read (start_read s c)).read_callback ≡ none)
      × (is_write (stop_read (start_read s c)).watched ≡ is_write s.watched)
      × (is_read (stop_read (start_read s c)).watched ≡ not (is_write s.watched))
unfolding start_read stop_read is_callback is_read is_write ensure_read
start_stop s c quiet unread = go s.watched refl
  where
    go :
        (w : What)
        → s.watched ≡ w
        → ((stop_read (start_read s c)).read_callback ≡ none)
          × (is_write (stop_read (start_read s c)).watched ≡ is_write s.watched)
          × (is_read (stop_read (start_read s c)).watched ≡ not (is_write s.watched))
    go What.none e = rw (quiet, e) (refl, refl, refl)
    go What.write e = rw (quiet, e) (refl, refl, refl)
    go What.read e = ground (arith, unread, e)
    go What.read_write e = ground (arith, unread, e)

write-enqueues :
    (alloc : ℕ → Bool) (s : Stream) (p : ℕ) (buf : List Cell) (size : ℕ) (callback : Option ℕ)
    (b : BufferImpl) (r : Requests)
    → append alloc empty_buffer buf size ≡ ok b
    → enqueue s.requests p b callback ≡ ok r
    → write alloc s p buf size callback
      ≡ ok (record s { requests = r; watched = ensure_write s.watched })
unfolding write
write-enqueues alloc s p buf size callback b r made queued = rw made (rw queued refl)

-- Two writes in a row on an idle stream that is reading: the second one stops the stream from
-- watching for bytes to read, with its read callback still installed.
pub second_write_deaf :
    (alloc : ℕ → Bool) (s : Stream) (p q : ℕ) (buf buf' : List Cell) (size size' : ℕ)
    (c d : Option ℕ) (b b' : BufferImpl)
    → IsIdle s.requests
    → q ≢ p
    → s.watched ≡ What.read
    → append alloc empty_buffer buf size ≡ ok b
    → append alloc empty_buffer buf' size' ≡ ok b'
    → (s₁ : Stream) × (s₂ : Stream) × (write alloc s p buf size c ≡ ok s₁)
      × (write alloc s₁ q buf' size' d ≡ ok s₂)
      × (s₁.watched ≡ What.read_write)
      × (s₂.watched ≡ What.write)
      × (s₂.read_callback ≡ s.read_callback)
unfolding ensure_write
second_write_deaf alloc s p q buf buf' size size' c d b b' idle n reading made made' =
    let r = two_in_order s.requests p q b b' c d idle n in
    let one : Stream = record s { requests = r.0; watched = ensure_write s.watched } in
    (
      one,
      record one { requests = r.1; watched = ensure_write one.watched },
      write-enqueues alloc s p buf size c b r.0 made r.4,
      write-enqueues alloc one q buf' size' d b' r.1 made' r.5,
      ap ensure_write reading,
      ap (λ w. ensure_write (ensure_write w)) reading,
      refl,
    )
