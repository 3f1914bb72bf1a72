-- ===== src/Stream/Sent.antt =====
-- `write` on an idle stream followed by the event that the descriptor can be written.
use what_the_event.Common.{
  ℕ, suc, ◌<◌, ◌^◌, ◌≤◌, ◌≡◌, refl, ap, ◌∙◌, Option, some, Bool, true, ok, List, [], ◌∷◌, ◌++◌,
  take, length, length-take, ==_refl, arith,
}
use what_the_event.Events.What.{ensure_write, remove_write}
use what_the_event.Buffer.Extent.{Cell}
use what_the_event.Buffer.Impl.{BufferImpl, empty_buffer, append}
use what_the_event.Buffer.Contents.{IsValid}
use what_the_event.Buffer.Append.{append-contents}
use what_the_event.Stream.State.{Stream, sent, completed, write}
use what_the_event.Stream.Writing.{write_helper}
use what_the_event.Stream.Queueing.{IsIdle, alone, unlinked, enqueue-alone}
use what_the_event.Stream.Whole.{everything_sent}

pub empty_buffer-IsValid : IsValid empty_buffer
empty_buffer-IsValid = record { sized = tt; full = tt; counted = refl; fits = omega arith }

pub write-alone :
    (alloc : ℕ → Bool) (s : Stream) (p : ℕ) (buf : List Cell) (size : ℕ) (callback : Option ℕ)
    (b : BufferImpl)
    → IsIdle s.requests
    → append alloc empty_buffer buf size ≡ ok b
    → write alloc s p buf size callback
      ≡ ok (record s {
        requests = alone s.requests p (unlinked b callback);
        watched = ensure_write s.watched;
      })
unfolding write
write-alone alloc s p buf size callback b idle made =
    rw made (rw (enqueue-alone s.requests p b callback idle) refl)

-- Bytes written to an idle stream, once the descriptor can be written and takes all it is given: they
-- are sent, all and in order, before the callback is told; the stream is idle again, and watches what
-- it watched before, less writing.
pub write_then_sent :
    (alloc : ℕ → Bool) (kernel : ℕ → ℕ → Option ℕ) (f calls : ℕ) (s : Stream) (p : ℕ)
    (buf : List Cell) (size c : ℕ)
    → IsIdle s.requests
    → 0 < size
    → size ≤ length buf
    → size ≤ 2 ^ 63
    → alloc size ≡ true
    → ((k n : ℕ) → kernel k n ≡ some n)
    → (s₁ : Stream) × (calls' : ℕ) × (s₂ : Stream) × (write alloc s p buf size (some c) ≡ ok s₁)
      × (write_helper kernel (suc (suc f)) calls s₁ ≡ ok (calls', s₂))
      × (s₂.effects ≡ (s.effects ++ sent (take size buf) ∷ []) ++ completed c ∷ [])
      × IsIdle s₂.requests
      × (s₂.watched ≡ remove_write (ensure_write s.watched))
write_then_sent alloc kernel f calls s p buf size c idle some_bytes given small granted all =
    let b =
      append-contents alloc empty_buffer buf size empty_buffer-IsValid given small (omega arith)
        granted in
    let after : Stream = record s {
      requests = alone s.requests p (unlinked b.0 (some c));
      watched = ensure_write s.watched;
    } in
    let sending =
      everything_sent kernel f calls after p (unlinked b.0 (some c)) c
        (record { first = refl; live = rw (==_refl p) refl; valid = b.2 }) refl refl
        (omega (arith, ap length b.3, length-take size buf)) all in
    (
      after,
      sending.0,
      sending.1,
      write-alone alloc s p buf size (some c) b.0 idle b.1,
      sending.2,
      sending.3 ∙ ap (λ d. (s.effects ++ sent d ∷ []) ++ completed c ∷ []) b.3,
      sending.4,
      sending.5,
    )
