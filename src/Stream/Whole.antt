-- ===== src/Stream/Whole.antt =====
-- What `writeHelper` does when the descriptor takes all of a request.
use what_the_event.Common.{
  ℕ, suc, ◌+◌, ◌<◌, ◌^◌, ◌≡◌, refl, sym, ap, ◌∙◌, subst, Option, none, some, false, ◌||◌, ok, List,
  [], ◌∷◌, ◌++◌, take, length, add64-eq, size_max, arith, take_all, append-nil, append_assoc,
  length-append, List-cases, inl, inr, le→ltb,
}
use what_the_event.Events.What.{remove_write}
use what_the_event.Buffer.Extent.{Cell}
use what_the_event.Buffer.Impl.{BufferImpl, peek_extents}
use what_the_event.Buffer.Contents.{contents}
use what_the_event.Buffer.Drain.{drain-contents}
use what_the_event.Buffer.Peek.{lent, AllRegions}
use what_the_event.Stream.Requests.{WriteRequest, Requests, drop_front}
use what_the_event.Stream.State.{Stream, sent, completed, emit, notify}
use what_the_event.Stream.Writing.{Writing, write_extents, write_helper, finish_request}
use what_the_event.Stream.Queueing.{IsIdle}
use what_the_event.Stream.Rounds.{lent-all, writing, written, write_helper-finishes}
use what_the_event.Stream.Sending.{IsFirst, write_extents-step}

-- All regions were written.
pub record Whole (r : Writing) (out : List Cell) (total : ℕ) : Type 0 where
  pub taken : r.out ≡ out
  pub count : r.total ≡ total
  pub fine : (r.blocked || r.failed) ≡ false

pub write_extents-Whole :
    (kernel : ℕ → ℕ → Option ℕ) (calls : ℕ) (out : List Cell) (total : ℕ)
    (gs : List (ℕ × List Cell))
    → ((k n : ℕ) → kernel k n ≡ some n)
    → AllRegions gs
    → total + length (lent gs) < 2 ^ 64
    → Whole
        (write_extents kernel calls out total false gs)
        (out ++ lent gs)
        (total + length (lent gs))
unfolding write_extents
write_extents-Whole kernel calls out total [] all r h = record {
  taken = sym (append-nil out);
  count = omega arith;
  fine = refl;
}
write_extents-Whole kernel calls out total ((n, c) ∷ gs) all r h =
    let sum : total + n + length (lent gs) ≡ total + length (c ++ lent gs) =
      omega (arith, length-append c (lent gs), r.0.1) in
    let later =
      write_extents-Whole kernel (suc calls) (out ++ take n c) (total + n) gs all r.1
        (omega (arith, sum)) in
    let here : write_extents kernel calls out total false ((n, c) ∷ gs)
        ≡ write_extents kernel (suc calls) (out ++ take n c) (total + n) false gs =
      write_extents-step kernel calls out total false n c gs n (all calls n)
      ∙ rw (le→ltb n n (omega arith), add64-eq total n (omega (arith, sum))) refl in
    rw here (record {
      taken =
          later.taken
          ∙ append_assoc out (take n c) (lent gs)
          ∙ ap (λ d. out ++ (d ++ lent gs)) (take_all n c (omega (arith, r.0.1)));
      count = later.count ∙ sum;
      fine = later.fine;
    })

-- The stream after its only request was completed.
abbrev pub idle_again : Stream → Requests → ℕ → Stream
idle_again s r c = record s {
  requests = r;
  watched = remove_write s.watched;
  effects = s.effects ++ completed c ∷ [];
}

pub finish_request-last :
    (s : Stream) (callback : Option ℕ) (r : Requests) (c : ℕ)
    → callback ≡ some c
    → finish_request s callback none r ≡ idle_again s r c
unfolding finish_request notify emit
finish_request-last s callback r c call = rw call refl

-- A descriptor that takes all it is given: two rounds of the loop send all bytes of the only request
-- in order; the list is then empty, writing is no longer watched, and the callback is told last.
pub everything_sent :
    (kernel : ℕ → ℕ → Option ℕ) (f calls : ℕ) (s : Stream) (p : ℕ) (w : WriteRequest) (c : ℕ)
    → IsFirst s p w
    → w.next ≡ none
    → w.callback ≡ some c
    → 0 < length (contents w.buffer.extents)
    → ((k n : ℕ) → kernel k n ≡ some n)
    → (calls' : ℕ) × (s' : Stream) × (write_helper kernel (suc (suc f)) calls s ≡ ok (calls', s'))
      × (s'.effects ≡ (s.effects ++ sent (contents w.buffer.extents) ∷ []) ++ completed c ∷ [])
      × IsIdle s'.requests
      × (s'.watched ≡ remove_write s.watched)
unfolding drop_front
everything_sent kernel f calls s p w c q last call some_bytes all =
    elim (List-cases (peek_extents w.buffer size_max)) [
      | inl none_lent ↦
          absurd (omega (arith, ap length (sym (lent-all w.buffer q.valid).0 ∙ ap lent none_lent)))
      | inr (g, gs, regions) ↦
          let a = lent-all w.buffer q.valid in
          let held : lent (g ∷ gs) ≡ contents w.buffer.extents = ap lent (sym regions) ∙ a.0 in
          let fits : length (lent (g ∷ gs)) < 2 ^ 64 =
            omega (arith, ap length held, q.valid.counted, q.valid.fits) in
          let done =
            write_extents-Whole kernel calls [] 0 (g ∷ gs) all (subst AllRegions regions a.1)
              (omega (arith, fits)) in
          let round : Writing = writing kernel calls s p w g gs q.first q.live regions in
          let after : BufferImpl → Stream =
            written kernel calls s p w g gs q.first q.live regions in
          let b = drain-contents w.buffer round.total q.valid (omega (arith, done.count, fits)) in
          (
            _,
            idle_again (after b.0) (drop_front (after b.0).requests p none) c,
            write_helper-finishes kernel calls s p w g gs q.first q.live regions b.0 b.1 f done.fine
                  last
                ∙ ap (λ t. ok (round.calls, t))
                    (finish_request-last (after b.0) w.callback _ c call),
            ap (λ d. (s.effects ++ sent d ∷ []) ++ completed c ∷ []) (done.taken ∙ held),
            (refl, refl),
            refl,
          )
    ]
