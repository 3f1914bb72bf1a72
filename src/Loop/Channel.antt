-- ===== src/Loop/Channel.antt =====
-- How a thread wakes the loop: `runOnEventLoop`, `runOnEventLoopAndWait`, `signalNotifyQueue`,
-- `consumeNotification` and `receiveNotifications` of src/libevent_event_base.cc, over the system's
-- reads and writes.
use what_the_event.Common.{
  ℕ, ◌+◌, ◌-◌, ◌≡◌, ◌⊎◌, Option, none, some, Bool, true, false, ltb, ◌==◌, not, ◌&&◌, if◌then◌else◌,
  min, Outcome, ok, aborted, ◌>>=◌, List, [], ◌∷◌, ◌++◌, ◌<◌,
}
use what_the_event.Events.What.{What}
use what_the_event.Events.Libevent.{Libevent}
use what_the_event.Events.Handler.{from_flags}
use what_the_event.Loop.Driver.{Operation, Base, run_operation, run_queue}

-- The reads and writes of the system: descriptor and size, and what it answers, `none` being an error.
pub record Kernel : Type 1 where
  pub World : Type 0
  pub write : World → ℕ → ℕ → Option ℕ × World
  pub read : World → ℕ → ℕ → Option ℕ × World

-- What is documented of a pipe: a byte is written, or the write fails and writes nothing; a read when
-- there are bytes takes as many as were asked for, or all.
pub record IsPipe (k : Kernel) (read_end write_end : ℕ) : Type 0 where
  pub held : k.World → ℕ
  pub write-one :
      (w : k.World)
      → ((k.write w write_end 1).0 ≡ some 1) × (held (k.write w write_end 1).1 ≡ held w + 1)
        ⊎ ((k.write w write_end 1).0 ≡ none) × (held (k.write w write_end 1).1 ≡ held w)
  pub read-held :
      (w : k.World) (n : ℕ)
      → 0 < held w
      → ((k.read w read_end n).0 ≡ some (min n (held w)))
        × (held (k.read w read_end n).1 ≡ held w - min n (held w))

-- `Notify::Type`
pub data ChannelType : Type 0 where
  pipe socket_pair eventfd : ChannelType

-- `type` and `fds` of `Notify`
pub record Channel : Type 0 where
  pub kind : ChannelType
  pub read_end : ℕ
  pub write_end : ℕ

-- `initNotify` where there are pipes and no eventfd, by what `pipe` answers; `none` where it throws.
unfoldable pub init_notify : Option (ℕ × ℕ) → Option Channel
init_notify none = none
init_notify (some (r, w)) = some (record { kind = pipe; read_end = r; write_end = w })

-- Whether a result is above 0.
unfoldable pub is_positive : Option ℕ → Bool
is_positive none = false
is_positive (some n) = ltb 0 n

-- `inLoopThread`, in the thread `me`
unfoldable pub in_loop_thread : Base → ℕ → Bool
in_loop_thread b me = elim b.loop_thread [ none ↦ true | some t ↦ t == me ]

-- `push`: whether the queue was empty.
unfoldable pub push_operation : Base → Operation → Bool × Base
push_operation b o =
    let empty : Bool = elim b.queue [ [] ↦ true | _ ∷ _ ↦ false ] in
    (empty, record b { queue = b.queue ++ o ∷ [] })

module _ (k : Kernel) (c : Channel) where
  -- `signalNotifyQueue`, compiled without eventfd
  unfoldable pub signal_notify_queue : k.World → Outcome (Bool × k.World)
  unfolding is_positive
  signal_notify_queue w =
      let r = k.write w c.write_end 1 in
      elim c.kind [
        | pipe ↦ ok (is_positive r.0, r.1)
        | socket_pair ↦ ok (is_positive r.0, r.1)
        | eventfd ↦ aborted
      ]

  -- `consumeNotification`
  unfoldable pub consume_notification_call : k.World → Bool × k.World
  unfolding is_positive
  consume_notification_call w = let r = k.read w c.read_end 8 in (is_positive r.0, r.1)

  -- `receiveNotifications`
  unfoldable pub receive_notifications : Base → k.World → Base × k.World
  unfolding consume_notification_call run_queue
  receive_notifications b w =
      let r = consume_notification_call w in (if r.0 then run_queue b else b, r.1)

  -- `NotifyHandler::ready`
  unfoldable pub notify_ready : What → Base → k.World → Base × k.World
  unfolding receive_notifications
  notify_ready What.read b w = receive_notifications b w
  notify_ready event b w = (b, w)

  -- `libeventCallback` for the handler of the channel, with the flags that libevent gives.
  unfoldable pub libevent_callback : Libevent → ℕ → Base → k.World → Base × k.World
  unfolding notify_ready
  libevent_callback l flags b w = notify_ready (from_flags l flags) b w

  -- `runOnEventLoop`, in the thread `me`
  unfoldable pub post : ℕ → Bool → Operation → Base → k.World → Outcome (Bool × Base × k.World)
  unfolding push_operation in_loop_thread
  post me defer o b w =
      let pushed = push_operation b o in
      let kicked : Outcome (Bool × Base × k.World) =
        signal_notify_queue w >>= λ r. ok (r.0, pushed.1, r.1) in
      if not defer && in_loop_thread b me
      then ok (true, run_operation b o, w)
      else if pushed.0
      then kicked
      else ok (true, pushed.1, w)

  -- Operations posted one after the other, and what each call returned.
  unfoldable pub post_all :
      ℕ → List Operation → Base → k.World → Outcome (List Bool × Base × k.World)
  unfolding post
  post_all me [] b w = ok ([], b, w)
  post_all me (o ∷ os) b w = do
    r ← post me false o b w
    rest ← post_all me os r.1 r.2
    ok (r.0 ∷ rest.0, rest.1, rest.2)

  -- `runOnEventLoopAndWait` as far as the wait: `some` result where it returns before.
  unfoldable pub post_and_wait :
      ℕ → Bool → Operation → Base → k.World → Outcome (Option Bool × Base × k.World)
  post_and_wait me defer o b w =
      if not defer && in_loop_thread b me
      then ok (some true, run_operation b o, w)
      else (post me defer o b w >>= λ r. ok (if r.0 then none else some false, r.1, r.2))
