-- ===== src/Loop/Burst.antt =====
-- Operations that another thread posts while the loop waits, and the wake-up that they make.
use what_the_event.Common.{
  ℕ, ◌<◌, ◌≡◌, refl, sym, ap, ◌∙◌, inl, inr, Option, none, some, Bool, true, false, not, ◌&&◌, ◌==◌,
  ok, List, [], ◌∷◌, ◌++◌, map, append_assoc, append-nil, arith,
}
use what_the_event.Events.What.{What}
use what_the_event.Events.Libevent.{Libevent, IsLibevent}
use what_the_event.Events.Handler.{from_flags, all_bits_set}
use what_the_event.Loop.Driver.{Operation, Base, run_queue}
use what_the_event.Loop.Deferred.{after, run_operations-after}
use what_the_event.Loop.Channel.{
  Kernel, IsPipe, Channel, pipe, init_notify, is_positive, in_loop_thread, push_operation,
  signal_notify_queue, consume_notification_call, receive_notifications, notify_ready,
  libevent_callback, post, post_all, post_and_wait,
}

pub run_queue-after : (b : Base) → run_queue b ≡ after b b.queue []
unfolding run_queue
run_queue-after b = run_operations-after b b.queue

from_flags-read : (l : Libevent) → IsLibevent l → from_flags l l.ev_read ≡ What.read
unfolding from_flags all_bits_set
from_flags-read l d = rw (d.read_bit, d.write_bit) refl

module _ (k : Kernel) (c : Channel) (me t : ℕ) (b : Base) (away : b.loop_thread ≡ some t)
    (other : (t == me) ≡ false) where
  -- Where something waits already, no byte is written.
  post-behind :
      (o : Operation) (q : Operation) (qs : List Operation) (w : k.World)
      → post k c me false o (record b { queue = q ∷ qs }) w
        ≡ ok (true, record b { queue = q ∷ qs ++ o ∷ [] }, w)
  unfolding post in_loop_thread push_operation
  post-behind o q qs w = ground (arith, away, other)

  post_all-behind :
      (os : List Operation) (q : Operation) (qs : List Operation) (w : k.World)
      → post_all k c me os (record b { queue = q ∷ qs }) w
        ≡ ok (map (λ o. true) os, record b { queue = q ∷ qs ++ os }, w)
  unfolding post_all
  post_all-behind [] q qs w = ap (λ x. ok ([], record b { queue = q ∷ x }, w)) (sym (append-nil qs))
  post_all-behind (o ∷ os) q qs w = rw (post-behind o q qs w) (
      rw (post_all-behind os q (qs ++ o ∷ []) w) (
        ap (λ x. ok (true ∷ map (λ o. true) os, record b { queue = q ∷ x }, w))
          (append_assoc qs (o ∷ []) os)))

  -- The first operation on an empty queue, in a channel that is a pipe.
  post-first :
      (o : Operation) (w : k.World) (answer : Option ℕ)
      → b.queue ≡ []
      → c.kind ≡ pipe
      → (k.write w c.write_end 1).0 ≡ answer
      → post k c me false o b w
        ≡ ok (is_positive answer, record b { queue = o ∷ [] }, (k.write w c.write_end 1).1)
  unfolding post in_loop_thread push_operation signal_notify_queue is_positive
  post-first o w answer empty kind wrote = ground (arith, away, other, empty, kind, wrote)

-- A byte is in the pipe: `libeventCallback` runs the queue.
woken_runs :
    (k : Kernel) (c : Channel) (l : Libevent) (p : IsPipe k c.read_end c.write_end) (b : Base)
    (w : k.World)
    → IsLibevent l
    → 0 < p.held w
    → libevent_callback k c l l.ev_read b w ≡ (run_queue b, (k.read w c.read_end 8).1)
unfolding libevent_callback notify_ready receive_notifications consume_notification_call is_positive
woken_runs k c l p b w d some_bytes =
    let r = p.read-held w 8 some_bytes in rw (from_flags-read l d) (ground (arith, r.0, some_bytes))

-- Any number of operations, at least one, that another thread posts one after the other while the loop
-- waits on another thread with its queue empty and its pipe too, the one write to the pipe not failing:
-- each call returns true, all operations are on the queue in their order, and the pipe holds a single
-- byte. When libevent then reports that the pipe can be read, all of them run, in that order, and both
-- the queue and the pipe are empty again, so that there is no second wake-up.
pub one_wake_up :
    (k : Kernel) (l : Libevent) (r w : ℕ) (c : Channel) (p : IsPipe k c.read_end c.write_end)
    (me t : ℕ) (b : Base) (world : k.World) (o : Operation) (os : List Operation)
    → IsLibevent l
    → init_notify (some (r, w)) ≡ some c
    → b.loop_thread ≡ some t
    → (t == me) ≡ false
    → b.queue ≡ []
    → p.held world ≡ 0
    → (k.write world c.write_end 1).0 ≡ some 1
    → (w₁ : k.World) × (w₂ : k.World) × (post_all k c me (o ∷ os) b world
        ≡ ok (map (λ x. true) (o ∷ os), record b { queue = o ∷ os }, w₁))
      × (p.held w₁ ≡ 1)
      × (libevent_callback k c l l.ev_read (record b { queue = o ∷ os }) w₁
          ≡ (after b (o ∷ os) [], w₂))
      × (p.held w₂ ≡ 0)
unfolding post_all init_notify is_positive
one_wake_up k l r w c p me t b world o os d made away other empty nothing wrote =
    let w₁ = (k.write world c.write_end 1).1 in
    let kind : c.kind ≡ pipe = ground (arith, made) in
    let one : p.held w₁ ≡ 1 = elim (p.write-one world) [
      | inl (e, h) ↦ omega (arith, h, nothing)
      | inr (e, h) ↦ absurd (ground (arith, e, wrote))
    ] in
    let taken = p.read-held w₁ 8 (omega (arith, one)) in
    (
      w₁,
      (k.read w₁ c.read_end 8).1,
      rw (post-first k c me t b away other o world (some 1) empty kind wrote)
          (rw (post_all-behind k c me t b away other os o [] w₁) refl),
      one,
      woken_runs k c l p (record b { queue = o ∷ os }) w₁ d (omega (arith, one))
          ∙ ap (λ x. (x, (k.read w₁ c.read_end 8).1))
              (run_queue-after (record b { queue = o ∷ os })),
      omega (arith, taken.1, one),
    )

-- A write to the pipe that fails, as it does when a signal comes, in a call of `runOnEventLoopAndWait`
-- from another thread, or with `defer`, while the queue is empty: the call returns false at once, but
-- the operation stays on the queue and the next run of the queue runs it, after the caller's stack that
-- it refers to is gone.
pub refused_runs_later :
    (k : Kernel) (r w : ℕ) (c : Channel) (me : ℕ) (defer : Bool) (b : Base) (world : k.World)
    (o : Operation)
    → init_notify (some (r, w)) ≡ some c
    → (not defer && in_loop_thread b me) ≡ false
    → b.queue ≡ []
    → (k.write world c.write_end 1).0 ≡ none
    → (b' : Base) × (world' : k.World) × (post_and_wait k c me defer o b world
        ≡ ok (some false, b', world'))
      × (b'.queue ≡ o ∷ [])
      × (run_queue b' ≡ after b (o ∷ []) [])
unfolding post_and_wait post push_operation signal_notify_queue is_positive init_notify
refused_runs_later k r w c me defer b world o made away empty failed =
    let kind : c.kind ≡ pipe = ground (arith, made) in
    let b' : Base = record b { queue = o ∷ [] } in
    (
      b',
      (k.write world c.write_end 1).1,
      ground (arith, away, empty, kind, failed),
      refl,
      run_queue-after b',
    )
