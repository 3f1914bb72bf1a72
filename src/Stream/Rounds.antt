-- ===== src/Stream/Rounds.antt =====
-- One round of `writeHelper`: how it ends when the write stops short, and when it takes everything.
use what_the_event.Common.{
  ℕ, suc, ◌≡◌, refl, ap, ◌∙◌, Option, none, some, true, false, ◌||◌, if◌then◌else◌, ok, List, [],
  ◌∷◌, ◌++◌, size_max, ==_refl, arith, take_all,
}
use what_the_event.Buffer.Extent.{Cell}
use what_the_event.Buffer.Impl.{BufferImpl, peek_extents, drain}
use what_the_event.Buffer.Contents.{contents, IsValid}
use what_the_event.Buffer.Peek.{lent, AllRegions, peek_extents-contents}
use what_the_event.Stream.Requests.{WriteRequest, put, load, consume_front, drop_front}
use what_the_event.Stream.State.{Stream, sent, write_failed, notify}
use what_the_event.Stream.Writing.{
  Writing, write_extents, write_request, write_loop, write_helper, finish_request,
}
use what_the_event.Stream.Queueing.{consume_at}

-- What writing leaves alone.
pub record Unread (s s' : Stream) : Type 0 where
  pub fd : s'.fd ≡ s.fd
  pub read_callback : s'.read_callback ≡ s.read_callback
  pub connect_callback : s'.connect_callback ≡ s.connect_callback
  pub read_buffer : s'.read_buffer ≡ s.read_buffer

pub Unread-trans : (s t u : Stream) → Unread s t → Unread t u → Unread s u
Unread-trans s t u x y = record {
  fd = y.fd ∙ x.fd;
  read_callback = y.read_callback ∙ x.read_callback;
  connect_callback = y.connect_callback ∙ x.connect_callback;
  read_buffer = y.read_buffer ∙ x.read_buffer;
}

-- All of a sound buffer is lent to the writer.
pub lent-all :
    (b : BufferImpl)
    → IsValid b
    → (lent (peek_extents b size_max) ≡ contents b.extents) × AllRegions (peek_extents b size_max)
lent-all b v =
    let r = peek_extents-contents b size_max v (omega arith) in
    (r.0 ∙ take_all size_max (contents b.extents) (omega (arith, v.counted, v.fits)), r.1)

module _ (kernel : ℕ → ℕ → Option ℕ) (calls : ℕ) (s : Stream) (p : ℕ) (w : WriteRequest)
    (g : ℕ × List Cell) (gs : List (ℕ × List Cell)) (first : s.requests.head ≡ some p)
    (live : s.requests.heap p ≡ some w) (regions : peek_extents w.buffer size_max ≡ g ∷ gs) where
  abbrev pub writing : Writing
  writing = write_extents kernel calls [] 0 false (g ∷ gs)

  -- The stream after the writes, with the buffer that is left.
  abbrev pub written : BufferImpl → Stream
  written b = record s {
    effects = s.effects ++ sent writing.out ∷ [];
    requests = record (s.requests) {
      heap = put s.requests.heap p (some (record w { buffer = b }));
    };
  }

  module _ (b : BufferImpl) (drained : drain w.buffer writing.total ≡ ok b) where
    requested : write_request kernel calls s p w (g ∷ gs) ≡ ok (writing, written b)
    unfolding write_request
    requested = rw drained

    write_loop-stops :
        (f : ℕ)
        → (writing.blocked || writing.failed) ≡ true
        → write_loop kernel (suc f) calls (some p) s
          ≡ ok (
            writing.calls,
            if writing.failed then notify (written b) w.callback write_failed else written b,
          )
    unfolding write_loop load
    write_loop-stops f stop = ground (arith, live, regions, requested, stop)

    -- When everything was taken the request is dropped, and the next one has its turn.
    pub write_loop-next :
        (f : ℕ)
        → (writing.blocked || writing.failed) ≡ false
        → write_loop kernel (suc f) calls (some p) s
          ≡ write_loop kernel f writing.calls w.next (
              finish_request
                (written b)
                w.callback
                w.next
                (drop_front (written b).requests p w.next))
    unfolding write_loop load
    write_loop-next f go = ground (arith, live, regions, requested, go, consumed)
      where
        consumed :
            consume_front (written b).requests
            ≡ ok (w.next, drop_front (written b).requests p w.next)
        consumed =
            consume_at (written b).requests p (record w { buffer = b }) first (rw (==_refl p) refl)

    write_loop-goes :
        (f : ℕ)
        → (writing.blocked || writing.failed) ≡ false
        → w.next ≡ none
        → write_loop kernel (suc (suc f)) calls (some p) s
          ≡ ok (
            writing.calls,
            finish_request (written b) w.callback none (drop_front (written b).requests p none),
          )
    unfolding write_loop
    write_loop-goes f go last =
        write_loop-next (suc f) go
        ∙ ap
            (λ k.
              write_loop kernel (suc f) writing.calls k
                (finish_request (written b) w.callback k (drop_front (written b).requests p k)))
            last

    -- When everything was taken from the only request, it is dropped and its callback told.
    pub write_helper-finishes :
        (f : ℕ)
        → (writing.blocked || writing.failed) ≡ false
        → w.next ≡ none
        → write_helper kernel (suc (suc f)) calls s
          ≡ ok (
            writing.calls,
            finish_request (written b) w.callback none (drop_front (written b).requests p none),
          )
    unfolding write_helper
    write_helper-finishes f go last =
        ap (λ h. write_loop kernel (suc (suc f)) calls h s) first ∙ write_loop-goes f go last

  -- When the writes stop short, what was taken is off the buffer, the request stays, and its
  -- callback hears of an error.
  pub write_helper-stops :
      (f : ℕ) (r : Writing) (b : BufferImpl)
      → writing ≡ r
      → drain w.buffer r.total ≡ ok b
      → (r.blocked || r.failed) ≡ true
      → write_helper kernel (suc f) calls s
        ≡ ok (r.calls, if r.failed then notify (written b) w.callback write_failed else written b)
  unfolding write_helper
  write_helper-stops f r b round drained stop =
      ap (λ h. write_loop kernel (suc f) calls h s) first
      ∙ write_loop-stops b (ap (λ r. drain w.buffer r.total) round ∙ drained) f
          (ap (λ r. r.blocked || r.failed) round ∙ stop)
      ∙ ap
          (λ r.
            ok
              (r.calls, if r.failed then notify (written b) w.callback write_failed else written b))
          round
