-- ===== src/Stream/Sending.antt =====
-- What `writeHelper` sends, and what is left of the request, by how the descriptor answers.
use what_the_event.Common.{
  ℕ, suc, ◌+◌, ◌<◌, ◌^◌, ◌≡◌, refl, sym, ap, ◌∙◌, Option, none, some, Bool, true, false, ◌||◌, ltb,
  ok, List, [], ◌∷◌, ◌++◌, take, drop, add64, add64-eq, size_max, ==_refl, arith, append-nil,
  lt→ltb,
}
use what_the_event.Buffer.Extent.{Cell}
use what_the_event.Buffer.Impl.{BufferImpl, peek_extents, drain}
use what_the_event.Buffer.Contents.{contents, IsValid}
use what_the_event.Buffer.Drain.{drain-contents}
use what_the_event.Buffer.Peek.{lent}
use what_the_event.Stream.Requests.{WriteRequest}
use what_the_event.Stream.State.{Stream, sent, write_failed, emit, notify}
use what_the_event.Stream.Writing.{write_extents, write_helper}
use what_the_event.Stream.Rounds.{Unread, lent-all, writing, written, write_helper-stops}

-- The request at `p` is at the head of the list, and its buffer is sound.
pub record IsFirst (s : Stream) (p : ℕ) (w : WriteRequest) : Type 0 where
  pub first : s.requests.head ≡ some p
  pub live : s.requests.heap p ≡ some w
  pub valid : IsValid w.buffer

pub write_extents-step :
    (kernel : ℕ → ℕ → Option ℕ) (calls : ℕ) (out : List Cell) (total : ℕ) (blocked : Bool) (n : ℕ)
    (c : List Cell) (gs : List (ℕ × List Cell)) (k : ℕ)
    → kernel calls n ≡ some k
    → write_extents kernel calls out total blocked ((n, c) ∷ gs)
      ≡ write_extents kernel (suc calls) (out ++ take k c) (add64 total k) (blocked || ltb k n) gs
unfolding write_extents
write_extents-step kernel calls out total blocked n c gs k h = ground arith

write_extents-error :
    (kernel : ℕ → ℕ → Option ℕ) (calls : ℕ) (out : List Cell) (total : ℕ) (blocked : Bool) (n : ℕ)
    (c : List Cell) (gs : List (ℕ × List Cell))
    → kernel calls n ≡ none
    → write_extents kernel calls out total blocked ((n, c) ∷ gs)
      ≡ record { calls = suc calls; out = out; total = total; blocked = blocked; failed = true }
unfolding write_extents
write_extents-error kernel calls out total blocked n c gs h = ground arith

-- The request at `p` is still at the head of the list, with what `dropped` bytes off its buffer
-- leave, and all else in the stream is as it was but for the effects.
pub record Kept (s s' : Stream) (p : ℕ) (w : WriteRequest) (dropped : ℕ) : Type 0 where
  pub buffer : BufferImpl
  pub head : s'.requests.head ≡ some p
  pub request : s'.requests.heap p ≡ some (record w { buffer = buffer })
  pub left : contents buffer.extents ≡ drop dropped (contents w.buffer.extents)
  pub valid : IsValid buffer
  pub drained : drain w.buffer dropped ≡ ok buffer
  pub watched : s'.watched ≡ s.watched
  pub unread : Unread s s'

-- A buffer of one region, of which the descriptor takes only a part: that part is sent, and the
-- request keeps exactly the rest for the next time, without a word to its callback.
pub short_write :
    (kernel : ℕ → ℕ → Option ℕ) (f calls : ℕ) (s : Stream) (p : ℕ) (w : WriteRequest) (n : ℕ)
    (c : List Cell) (k : ℕ)
    → IsFirst s p w
    → peek_extents w.buffer size_max ≡ (n, c) ∷ []
    → kernel calls n ≡ some k
    → k < n
    → n < 2 ^ 64
    → (s' : Stream) × (write_helper kernel (suc f) calls s ≡ ok (suc calls, s'))
      × (s'.effects ≡ s.effects ++ sent (take k (contents w.buffer.extents)) ∷ [])
      × Kept s s' p w k
unfolding write_extents
short_write kernel f calls s p w n c k q regions some_bytes short fits =
    let all : contents w.buffer.extents ≡ c =
      sym (lent-all w.buffer q.valid).0 ∙ ap lent regions ∙ append-nil c in
    let one : add64 0 k ≡ k = add64-eq 0 k (omega arith) ∙ omega arith in
    let round : writing kernel calls s p w (n, c) [] q.first q.live regions
        ≡ record { calls = suc calls; out = take k c; total = k; blocked = true; failed = false } =
      write_extents-step kernel calls [] 0 false n c [] k some_bytes
      ∙ rw (lt→ltb k n short, one) refl in
    let after : BufferImpl → Stream = written kernel calls s p w (n, c) [] q.first q.live regions in
    let b = drain-contents w.buffer k q.valid (omega arith) in
    (
      after b.0,
      write_helper-stops kernel calls s p w (n, c) [] q.first q.live regions f _ b.0 round b.1 refl,
      ap (λ r. s.effects ++ sent r.out ∷ []) round
          ∙ ap (λ d. s.effects ++ sent (take k d) ∷ []) (sym all),
      record {
        buffer = b.0;
        head = q.first;
        request = rw (==_refl p) refl;
        left = b.3;
        valid = b.2;
        drained = b.1;
        watched = refl;
        unread = record {
          fd = refl;
          read_callback = refl;
          connect_callback = refl;
          read_buffer = refl;
        };
      },
    )

-- A write that ends in an error, an error that only says to try again among them: nothing is sent,
-- the request is kept whole with writing watched as before, and the callback is told of a failure.
pub failed_write :
    (kernel : ℕ → ℕ → Option ℕ) (f calls : ℕ) (s : Stream) (p : ℕ) (w : WriteRequest) (n : ℕ)
    (c : List Cell) (gs : List (ℕ × List Cell)) (callback : ℕ)
    → IsFirst s p w
    → w.callback ≡ some callback
    → peek_extents w.buffer size_max ≡ (n, c) ∷ gs
    → kernel calls n ≡ none
    → (s' : Stream) × (write_helper kernel (suc f) calls s ≡ ok (suc calls, s'))
      × (s'.effects ≡ (s.effects ++ sent [] ∷ []) ++ write_failed callback ∷ [])
      × Kept s s' p w 0
unfolding write_extents notify emit
failed_write kernel f calls s p w n c gs callback q call regions error =
    let round : writing kernel calls s p w (n, c) gs q.first q.live regions
        ≡ record { calls = suc calls; out = []; total = 0; blocked = false; failed = true } =
      write_extents-error kernel calls [] 0 false n c gs error in
    let b = drain-contents w.buffer 0 q.valid (omega arith) in
    let after : BufferImpl → Stream = written kernel calls s p w (n, c) gs q.first q.live regions in
    (
      emit (after b.0) (write_failed callback),
      write_helper-stops kernel calls s p w (n, c) gs q.first q.live regions f _ b.0 round b.1 refl
          ∙ ap (λ o. ok (suc calls, notify (after b.0) o write_failed)) call,
      ap (λ r. (s.effects ++ sent r.out ∷ []) ++ write_failed callback ∷ []) round,
      record {
        buffer = b.0;
        head = q.first;
        request = rw (==_refl p) refl;
        left = b.3;
        valid = b.2;
        drained = b.1;
        watched = refl;
        unread = record {
          fd = refl;
          read_callback = refl;
          connect_callback = refl;
          read_buffer = refl;
        };
      },
    )

-- A buffer of two regions, of which the descriptor takes only a part of the first and then accepts
-- bytes of the second: what is sent lacks the rest of the first region, and the bytes that are kept
-- for the next time are counted as if none had been left out.
pub gap_sent :
    (kernel : ℕ → ℕ → Option ℕ) (f calls : ℕ) (s : Stream) (p : ℕ) (w : WriteRequest) (n m : ℕ)
    (c d : List Cell) (k j : ℕ)
    → IsFirst s p w
    → peek_extents w.buffer size_max ≡ (n, c) ∷ (m, d) ∷ []
    → kernel calls n ≡ some k
    → k < n
    → kernel (suc calls) m ≡ some j
    → k + j < 2 ^ 64
    → (s' : Stream) × (write_helper kernel (suc f) calls s ≡ ok (suc (suc calls), s'))
      × (contents w.buffer.extents ≡ c ++ d)
      × (s'.effects ≡ s.effects ++ sent (take k c ++ take j d) ∷ [])
      × Kept s s' p w (k + j)
unfolding write_extents
gap_sent kernel f calls s p w n m c d k j q regions first_part short second fits =
    let all : contents w.buffer.extents ≡ c ++ d =
      sym (lent-all w.buffer q.valid).0 ∙ ap lent regions ∙ ap (◌++◌ c) (append-nil d) in
    let one : add64 0 k ≡ k = add64-eq 0 k (omega arith) ∙ omega arith in
    let round : writing kernel calls s p w (n, c) ((m, d) ∷ []) q.first q.live regions ≡ record {
      calls = suc (suc calls);
      out = take k c ++ take j d;
      total = k + j;
      blocked = true;
      failed = false;
    } =
      write_extents-step kernel calls [] 0 false n c ((m, d) ∷ []) k first_part
      ∙ write_extents-step kernel (suc calls) (take k c) (add64 0 k) (false || ltb k n) m d [] j
          second
      ∙ rw (lt→ltb k n short, one, add64-eq k j fits) refl in
    let b = drain-contents w.buffer (k + j) q.valid fits in
    let after : BufferImpl → Stream =
      written kernel calls s p w (n, c) ((m, d) ∷ []) q.first q.live regions in
    (
      after b.0,
      write_helper-stops kernel calls s p w (n, c) ((m, d) ∷ []) q.first q.live regions f _ b.0
          round b.1 refl,
      all,
      ap (λ r. s.effects ++ sent r.out ∷ []) round,
      record {
        buffer = b.0;
        head = q.first;
        request = rw (==_refl p) refl;
        left = b.3;
        valid = b.2;
        drained = b.1;
        watched = refl;
        unread = record {
          fd = refl;
          read_callback = refl;
          connect_callback = refl;
          read_buffer = refl;
        };
      },
    )
