-- ===== src/Stream/Orderly/Event.antt =====
-- An event at which the descriptor can be written, on a stream with at most one request.
use what_the_event.Common.{
  ℕ, suc, ◌<◌, ◌≤◌, ◌^◌, ◌≡◌, refl, sym, ap, ◌∙◌, Option, none, some, Option-cases, Bool, true,
  false, ◌||◌, le→ltb, inl, inr, ok, List, [], ◌∷◌, ◌++◌, length, take, drop, take_all, length-drop,
  take-append-drop, append-nil, append_assoc, add64, add64-eq, size_max, arith,
}
use native.Mathlib.Decide.{dec_lt}
use what_the_event.Events.What.{What, is_read, is_write, ensure_read, ensure_write, remove_write}
use what_the_event.Buffer.Extent.{Cell}
use what_the_event.Buffer.Impl.{drain, peek_extents}
use what_the_event.Buffer.Contents.{contents}
use what_the_event.Buffer.Drain.{drain-contents}
use what_the_event.Buffer.Single.{one_region, drain-no_longer}
use what_the_event.Stream.Requests.{WriteRequest, drop_front}
use what_the_event.Stream.State.{Stream, sent, completed, write_failed}
use what_the_event.Stream.Output.{output, output-append}
use what_the_event.Stream.Writing.{Writing, write_extents, write_helper, write_loop}
use what_the_event.Stream.Whole.{idle_again, finish_request-last}
use what_the_event.Stream.Queueing.{IsIdle}
use what_the_event.Stream.Rounds.{Unread, writing, written, write_helper-finishes}
use what_the_event.Stream.Sending.{write_extents-step, Kept, short_write, failed_write}
use what_the_event.Stream.Reading.{User}
use what_the_event.Stream.Connecting.{Answers, ready}
use what_the_event.Echo.Round.{ready-write}
use what_the_event.Blocking.Pieces.{IsSending}
use what_the_event.Stream.Orderly.{IsQuiet, IsBusy, IsOrderly}

-- What is waiting is lent as one region.
sending-region :
    (s : Stream) (p : ℕ) (w : WriteRequest) (c : ℕ) (d : List Cell)
    → IsSending s p w c d
    → 0 < length d
    → (peek_extents w.buffer size_max ≡ (length d, d) ∷ []) × (length d < 2 ^ 64)
sending-region s p w c d q some_bytes = (
  one_region w.buffer q.first.valid q.single (omega (arith, ap length q.held))
      ∙ ap (λ x. (length x, x) ∷ []) q.held,
  omega (arith, ap length q.held, q.first.valid.counted, q.first.valid.fits),
)

-- A buffer of one region, all of which the descriptor takes: the request is done.
whole_write :
    (kernel : ℕ → ℕ → Option ℕ) (f calls : ℕ) (s : Stream) (p : ℕ) (w : WriteRequest) (c : ℕ)
    (d : List Cell)
    → IsSending s p w c d
    → 0 < length d
    → kernel calls (length d) ≡ some (length d)
    → (s' : Stream) × (write_helper kernel (suc (suc f)) calls s ≡ ok (suc calls, s'))
      × (s'.effects ≡ (s.effects ++ sent d ∷ []) ++ completed c ∷ [])
      × IsIdle s'.requests
      × (s'.watched ≡ remove_write s.watched)
      × Unread s s'
unfolding drop_front write_extents
whole_write kernel f calls s p w c d q some_bytes all =
    let m = length d in
    let (regions, small) = sending-region s p w c d q some_bytes in
    let count : add64 0 m ≡ m = add64-eq 0 m (omega arith) ∙ omega arith in
    let now : Writing = writing kernel calls s p w (m, d) [] q.first.first q.first.live regions in
    let round : now
        ≡ record { calls = suc calls; out = d; total = m; blocked = false; failed = false } =
      write_extents-step kernel calls [] 0 false m d [] m all
      ∙ rw (le→ltb m m (omega arith), count, take_all m d (omega arith)) refl in
    let b = drain-contents w.buffer m q.first.valid (omega arith) in
    let after : Stream =
      written kernel calls s p w (m, d) [] q.first.first q.first.live regions b.0 in
    (
      idle_again after (drop_front after.requests p none) c,
      write_helper-finishes kernel calls s p w (m, d) [] q.first.first q.first.live regions b.0
            (ap (λ r. drain w.buffer r.total) round ∙ b.1) f (ap (λ r. r.blocked || r.failed) round)
            q.alone
          ∙ ap (λ t. ok (now.calls, t)) (finish_request-last after w.callback _ c q.callback)
          ∙ ap (λ r. ok (r.calls, idle_again after (drop_front after.requests p none) c)) round,
      ap (λ r. (s.effects ++ sent r.out ∷ []) ++ completed c ∷ []) round,
      (refl, refl),
      refl,
      record { fd = refl; read_callback = refl; connect_callback = refl; read_buffer = refl },
    )

pub is_write-ensure : (w : What) → is_write (ensure_write w) ≡ true
unfolding is_write ensure_write
is_write-ensure What.none = refl
is_write-ensure What.read = refl
is_write-ensure What.write = refl
is_write-ensure What.read_write = refl

is_write-remove : (w : What) → is_write (remove_write w) ≡ false
unfolding is_write remove_write
is_write-remove What.none = refl
is_write-remove What.read = refl
is_write-remove What.write = refl
is_write-remove What.read_write = refl

is_read-remove : (w : What) → is_read (remove_write w) ≡ is_read w
unfolding is_read remove_write
is_read-remove What.none = refl
is_read-remove What.read = refl
is_read-remove What.write = refl
is_read-remove What.read_write = refl

pub is_read-ensure_write : (w : What) → is_write w ≡ false → is_read (ensure_write w) ≡ is_read w
unfolding is_read is_write ensure_write
is_read-ensure_write What.none e = refl
is_read-ensure_write What.read e = refl
is_read-ensure_write What.write e = cc
is_read-ensure_write What.read_write e = cc

pub is_write-ensure_read : (w : What) → is_read w ≡ false → is_write (ensure_read w) ≡ is_write w
unfolding is_read is_write ensure_read
is_write-ensure_read What.none e = refl
is_write-ensure_read What.read e = cc
is_write-ensure_read What.write e = refl
is_write-ensure_read What.read_write e = cc

-- What an event at which the descriptor can be written comes to.
abbrev pub Sent : (ℕ → Bool) → User → ℕ → Answers → Stream → List Cell → Type 0
Sent alloc user f a s given =
    (s' : Stream) × (ready a user alloc f What.write s ≡ ok s') × IsOrderly s' given

module _ (alloc : ℕ → Bool) (user : User) (f : ℕ) where
  -- A request of which some bytes are left.
  left-IsBusy :
      (s s' : Stream) (p : ℕ) (w : WriteRequest) (c : ℕ) (d given : List Cell) (k : ℕ)
      → IsSending s p w c d
      → Kept s s' p w k
      → k < length d
      → is_write s.watched ≡ true
      → (s.read_callback ≡ none → is_read s.watched ≡ false)
      → output s'.effects ≡ output s.effects ++ take k d
      → output s.effects ++ d ≡ given
      → IsBusy s' given
  left-IsBusy s s' p w c d given k q kept less on reading out whole = record {
    place = p;
    request = record w { buffer = kept.buffer };
    callback = c;
    waiting = drop k d;
    sending = record {
      first = record { first = kept.head; live = kept.request; valid = kept.valid };
      alone = q.alone;
      callback = q.callback;
      single = omega (arith, q.single, drain-no_longer w.buffer kept.buffer k kept.drained);
      held = kept.left ∙ ap (drop k) q.held;
      connected = kept.unread.connect_callback ∙ q.connected;
    };
    some_bytes = omega (arith, length-drop k d);
    watched = ap is_write kept.watched ∙ on;
    sent =
        ap (λ x. x ++ drop k d) out
        ∙ append_assoc (output s.effects) (take k d) (drop k d)
        ∙ ap (λ x. output s.effects ++ x) (take-append-drop k d)
        ∙ whole;
    reading = λ e. ap is_read kept.watched ∙ reading (sym kept.unread.read_callback ∙ e);
  }

  busy-failed :
      (s : Stream) (given : List Cell) (a : Answers) (q : IsBusy s given)
      → a.writes 0 (length q.waiting) ≡ none
      → Sent alloc user (suc (suc f)) a s given
  busy-failed s given a q e =
      let d = q.waiting in
      let (regions, small) =
        sending-region s q.place q.request q.callback d q.sending q.some_bytes in
      let r =
        failed_write a.writes (suc f) 0 s q.place q.request (length d) d [] q.callback
          q.sending.first q.sending.callback regions e in
      (
        r.0,
        ready-write a user alloc (suc (suc f)) 1 s r.0 q.sending.connected r.1,
        inr (
            left-IsBusy s r.0 q.place q.request q.callback d given 0 q.sending r.3 q.some_bytes
              q.watched q.reading
              (ap output r.2
                ∙ output-append (s.effects ++ sent [] ∷ []) (write_failed q.callback ∷ [])
                ∙ append-nil (output (s.effects ++ sent [] ∷ []))
                ∙ output-append s.effects (sent [] ∷ []))
              q.sent),
      )

  busy-short :
      (s : Stream) (given : List Cell) (a : Answers) (q : IsBusy s given) (k : ℕ)
      → a.writes 0 (length q.waiting) ≡ some k
      → k < length q.waiting
      → Sent alloc user (suc (suc f)) a s given
  busy-short s given a q k e less =
      let d = q.waiting in
      let (regions, small) =
        sending-region s q.place q.request q.callback d q.sending q.some_bytes in
      let r =
        short_write a.writes (suc f) 0 s q.place q.request (length d) d k q.sending.first regions e
          less small in
      (
        r.0,
        ready-write a user alloc (suc (suc f)) 1 s r.0 q.sending.connected r.1,
        inr (
            left-IsBusy s r.0 q.place q.request q.callback d given k q.sending r.3 less q.watched
              q.reading
              (ap output r.2
                ∙ output-append s.effects (sent (take k (contents q.request.buffer.extents)) ∷ [])
                ∙ ap (λ x. output s.effects ++ x)
                    (append-nil (take k (contents q.request.buffer.extents))
                      ∙ ap (take k) q.sending.held))
              q.sent),
      )

  busy-whole :
      (s : Stream) (given : List Cell) (a : Answers) (q : IsBusy s given)
      → a.writes 0 (length q.waiting) ≡ some (length q.waiting)
      → Sent alloc user (suc (suc f)) a s given
  busy-whole s given a q e =
      let d = q.waiting in
      let r = whole_write a.writes f 0 s q.place q.request q.callback d q.sending q.some_bytes e in
      (
        r.0,
        ready-write a user alloc (suc (suc f)) 1 s r.0 q.sending.connected r.1,
        inl (record {
          idle = r.3;
          watched = ap is_write r.4 ∙ is_write-remove s.watched;
          connected = r.5.connect_callback ∙ q.sending.connected;
          sent =
              ap output r.2
              ∙ output-append (s.effects ++ sent d ∷ []) (completed q.callback ∷ [])
              ∙ append-nil (output (s.effects ++ sent d ∷ []))
              ∙ output-append s.effects (sent d ∷ [])
              ∙ ap (λ x. output s.effects ++ x) (append-nil d)
              ∙ q.sent;
          reading = λ h.
              ap is_read r.4 ∙ is_read-remove s.watched ∙ q.reading (sym r.5.read_callback ∙ h);
        }),
      )

  -- Whatever the descriptor answers.
  pub busy-Sent :
      (s : Stream) (given : List Cell) (a : Answers)
      → IsBusy s given
      → ((n k : ℕ) → a.writes 0 n ≡ some k → k ≤ n)
      → Sent alloc user (suc (suc f)) a s given
  busy-Sent s given a q no_more = elim (Option-cases (a.writes 0 (length q.waiting))) [
    | inl e ↦ busy-failed s given a q e
    | inr (k, e) ↦ elim (dec_lt k (length q.waiting)) [
      | yes less ↦ busy-short s given a q k e less
      | no full ↦
          let same : k ≡ length q.waiting = omega (arith, no_more (length q.waiting) k e, full) in
          busy-whole s given a q (e ∙ ap some same)
    ]
  ]

  pub quiet-Sent :
      (s : Stream) (given : List Cell) (a : Answers)
      → IsQuiet s given
      → Sent alloc user (suc (suc f)) a s given
  unfolding write_helper write_loop
  quiet-Sent s given a q = (
    s,
    ready-write a user alloc (suc (suc f)) 0 s s q.connected (ground (arith, q.idle.0)),
    inl q,
  )
