-- ===== src/Stream/Pending.antt =====
-- Any number of requests that wait in a chain, written by one call of `writeHelper`.
use what_the_event.Common.{
  ℕ, zero, suc, ◌<◌, ◌^◌, ◌≡◌, refl, sym, ap, subst, ◌∙◌, Option, none, some, true, false, ◌==◌,
  ==_refl, ok, List, [], ◌∷◌, ◌++◌, append_assoc, append-nil, length, size_max, arith, List-cases,
  inl, inr, has, has-apart, AllDifferent,
}
use what_the_event.Events.What.{What, remove_write}
use what_the_event.Buffer.Impl.{BufferImpl, peek_extents}
use what_the_event.Buffer.Contents.{contents, IsValid}
use what_the_event.Buffer.Drain.{drain-contents}
use what_the_event.Buffer.Peek.{lent, AllRegions}
use what_the_event.Stream.Requests.{WriteRequest, Requests, drop_front}
use what_the_event.Stream.State.{Stream, Effect, sent, completed, notify, emit}
use what_the_event.Stream.Writing.{Writing, write_loop, write_helper, finish_request}
use what_the_event.Stream.Queueing.{IsIdle}
use what_the_event.Stream.Rounds.{Unread, Unread-trans, lent-all, writing, written, write_loop-next}
use what_the_event.Stream.Whole.{write_extents-Whole}

-- From a pointer the `next_` pointers lead through these requests, each sound and with bytes to send.
abbrev pub Pending : (ℕ → Option WriteRequest) → Option ℕ → List (ℕ × WriteRequest) → Type 0
Pending heap p [] = p ≡ none
Pending heap p ((a, w) ∷ more) =
    (p ≡ some a)
    × (heap a ≡ some w)
    × IsValid w.buffer
    × (0 < length (contents w.buffer.extents))
    × Pending heap w.next more

abbrev pub addresses : List (ℕ × WriteRequest) → List ℕ
addresses [] = []
addresses ((a, w) ∷ more) = a ∷ addresses more

-- A request's callback, if it has one, is told.
abbrev pub told : Option ℕ → List Effect
told none = []
told (some c) = completed c ∷ []

-- What the requests do in turn: their bytes go out, and then their callback is told.
abbrev pub all_told : List (ℕ × WriteRequest) → List Effect
all_told [] = []
all_told ((a, w) ∷ more) = sent (contents w.buffer.extents) ∷ (told w.callback ++ all_told more)

Pending-frame :
    (heap heap' : ℕ → Option WriteRequest) (p : Option ℕ) (ws : List (ℕ × WriteRequest))
    → Pending heap p ws
    → ((q : ℕ) → has q (addresses ws) ≡ true → heap' q ≡ heap q)
    → Pending heap' p ws
Pending-frame heap heap' p [] e same = e
Pending-frame heap heap' p ((a, w) ∷ more) q same = (
  q.0,
  same a (ground (arith, ==_refl a)) ∙ q.1,
  q.2,
  q.3,
  Pending-frame heap heap' w.next more q.4 (λ r h. same r (ground (arith, h))),
)

-- What one request leaves when all of it was written.
record Done (s s' : Stream) (p : ℕ) (w : WriteRequest) : Type 0 where
  effects : s'.effects ≡ s.effects ++ sent (contents w.buffer.extents) ∷ told w.callback
  head : s'.requests.head ≡ w.next
  others : (q : ℕ) → (p == q) ≡ false → s'.requests.heap q ≡ s.requests.heap q
  tail : w.next ≡ none → s'.requests.tail ≡ none
  watched :
      s'.watched
      ≡ (elim w.next as (λ _. What) [ none ↦ remove_write s.watched | some _ ↦ s.watched ])
  beside : Unread s s'

-- The stream after a request is finished.
abbrev finished : Stream → Option ℕ → Option ℕ → Requests → Stream
finished t callback next r = record t {
  requests = r;
  watched = elim next as (λ _. What) [ none ↦ remove_write t.watched | some _ ↦ t.watched ];
  effects = t.effects ++ told callback;
}

notify-told :
    (t : Stream) (callback : Option ℕ)
    → notify t callback completed ≡ record t { effects = t.effects ++ told callback }
unfolding notify emit
notify-told t none = ap (λ e. record t { effects = e }) (sym (append-nil t.effects))
notify-told t (some c) = refl

finish_request-finished :
    (t : Stream) (callback next : Option ℕ) (r : Requests)
    → finish_request t callback next r ≡ finished t callback next r
unfolding finish_request
finish_request-finished t callback next r = notify-told _ callback

write_loop-none :
    (kernel : ℕ → ℕ → Option ℕ) (f calls : ℕ) (s : Stream)
    → write_loop kernel (suc f) calls none s ≡ ok (calls, s)
unfolding write_loop
write_loop-none kernel f calls s = refl

module _ (kernel : ℕ → ℕ → Option ℕ) (all : (k n : ℕ) → kernel k n ≡ some n) where
  write_loop-Done :
      (f calls : ℕ) (s : Stream) (p : ℕ) (w : WriteRequest)
      → s.requests.head ≡ some p
      → s.requests.heap p ≡ some w
      → IsValid w.buffer
      → 0 < length (contents w.buffer.extents)
      → (calls' : ℕ) × (s' : Stream) × (write_loop kernel (suc f) calls (some p) s
          ≡ write_loop kernel f calls' w.next s')
        × Done s s' p w
  unfolding drop_front
  write_loop-Done f calls s p w first live valid some_bytes =
      elim (List-cases (peek_extents w.buffer size_max)) [
        | inl none_lent ↦
            absurd (omega (arith, ap length (sym (lent-all w.buffer valid).0 ∙ ap lent none_lent)))
        | inr (g, gs, regions) ↦
            let a = lent-all w.buffer valid in
            let held : lent (g ∷ gs) ≡ contents w.buffer.extents = ap lent (sym regions) ∙ a.0 in
            let fits : length (lent (g ∷ gs)) < 2 ^ 64 =
              omega (arith, ap length held, valid.counted, valid.fits) in
            let done =
              write_extents-Whole kernel calls [] 0 (g ∷ gs) all (subst AllRegions regions a.1)
                (omega (arith, fits)) in
            let round : Writing = writing kernel calls s p w g gs first live regions in
            let after : BufferImpl → Stream = written kernel calls s p w g gs first live regions in
            let b = drain-contents w.buffer round.total valid (omega (arith, done.count, fits)) in
            let left : Requests = drop_front (after b.0).requests p w.next in
            (
              round.calls,
              finished (after b.0) w.callback w.next left,
              write_loop-next kernel calls s p w g gs first live regions b.0 b.1 f done.fine
                  ∙ ap (write_loop kernel f round.calls w.next)
                      (finish_request-finished (after b.0) w.callback w.next left),
              record {
                effects =
                    append_assoc s.effects (sent round.out ∷ []) (told w.callback)
                    ∙ ap (λ d. s.effects ++ sent d ∷ told w.callback) (done.taken ∙ held);
                head = refl;
                others = λ q h. rw h refl;
                tail = λ e. rw e refl;
                watched = refl;
                beside = record {
                  fd = refl;
                  read_callback = refl;
                  connect_callback = refl;
                  read_buffer = refl;
                };
              },
            )
      ]

  write_loop-Pending :
      (f calls : ℕ) (s : Stream) (p : ℕ) (w : WriteRequest) (more : List (ℕ × WriteRequest))
      → s.requests.head ≡ some p
      → Pending s.requests.heap s.requests.head ((p, w) ∷ more)
      → AllDifferent (addresses ((p, w) ∷ more))
      → length more < f
      → (calls' : ℕ) × (s' : Stream) × (write_loop kernel (suc f) calls (some p) s
          ≡ ok (calls', s'))
        × (s'.effects ≡ s.effects ++ all_told ((p, w) ∷ more))
        × IsIdle s'.requests
        × (s'.watched ≡ remove_write s.watched)
        × Unread s s'
  write_loop-Pending zero calls s p w more first q d h = absurd (omega arith)
  write_loop-Pending (suc f) calls s p w [] first q d h =
      let r = write_loop-Done (suc f) calls s p w first q.1 q.2 q.3 in
      let watching = λ (k : Option ℕ). elim k as (λ _. What) [
        | none ↦ remove_write s.watched
        | some _ ↦ s.watched
      ] in
      (
        r.0,
        r.1,
        r.2 ∙ ap (λ k. write_loop kernel (suc f) r.0 k r.1) q.4 ∙ write_loop-none kernel f r.0 r.1,
        r.3.effects
            ∙ ap (λ x. s.effects ++ sent (contents w.buffer.extents) ∷ x)
                (sym (append-nil (told w.callback))),
        (r.3.head ∙ q.4, r.3.tail q.4),
        r.3.watched ∙ ap watching q.4,
        r.3.beside,
      )
  write_loop-Pending (suc f) calls s p w ((a, v) ∷ more) first q d h =
      let r = write_loop-Done (suc f) calls s p w first q.1 q.2 q.3 in
      let watching = λ (k : Option ℕ). elim k as (λ _. What) [
        | none ↦ remove_write s.watched
        | some _ ↦ s.watched
      ] in
      let apart = λ (k : ℕ) (e : has k (addresses ((a, v) ∷ more)) ≡ true).
        r.3.others k (has-apart p (addresses ((a, v) ∷ more)) k d.0 e) in
      let left = Pending-frame s.requests.heap r.1.requests.heap w.next ((a, v) ∷ more) q.4 apart in
      let rest =
        write_loop-Pending f r.0 r.1 a v more (r.3.head ∙ q.4.0)
          (subst (λ k. Pending r.1.requests.heap k ((a, v) ∷ more)) (sym r.3.head) left) d.1
          (omega arith) in
      (
        rest.0,
        rest.1,
        r.2 ∙ ap (λ k. write_loop kernel (suc f) r.0 k r.1) q.4.0 ∙ rest.2,
        rest.3
            ∙ ap (λ x. x ++ all_told ((a, v) ∷ more)) r.3.effects
            ∙ append_assoc s.effects (sent (contents w.buffer.extents) ∷ told w.callback)
                (all_told ((a, v) ∷ more)),
        rest.4,
        rest.5 ∙ ap remove_write (r.3.watched ∙ ap watching q.4.0),
        Unread-trans s r.1 rest.1 r.3.beside rest.6,
      )

-- A descriptor that takes all it is given, and any number of requests that wait in a chain: one call
-- of `writeHelper`, with one round more than there are requests, sends the bytes of each in turn and
-- then tells its callback; afterwards nothing is queued and writing is no longer watched, and what belongs to reading is as it was.
pub all_sent :
    (kernel : ℕ → ℕ → Option ℕ) (f calls : ℕ) (s : Stream) (p : ℕ) (w : WriteRequest)
    (more : List (ℕ × WriteRequest))
    → ((k n : ℕ) → kernel k n ≡ some n)
    → Pending s.requests.heap s.requests.head ((p, w) ∷ more)
    → AllDifferent (addresses ((p, w) ∷ more))
    → length more < f
    → (calls' : ℕ) × (s' : Stream) × (write_helper kernel (suc f) calls s ≡ ok (calls', s'))
      × (s'.effects ≡ s.effects ++ all_told ((p, w) ∷ more))
      × IsIdle s'.requests
      × (s'.watched ≡ remove_write s.watched)
      × Unread s s'
unfolding write_helper
all_sent kernel f calls s p w more all q d h =
    let r = write_loop-Pending kernel all f calls s p w more q.0 q d h in
    (r.0, r.1, ap (λ k. write_loop kernel (suc f) calls k s) q.0 ∙ r.2, r.3, r.4, r.5, r.6)
