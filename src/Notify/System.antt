-- ===== src/Notify/System.antt =====
-- The queue and its threads, one shared access at a time. A node is known by the number of the
-- exchange that installed it; the first one, which holds no operation, is 0.
use what_the_event.Common.{
  ℕ, suc, ◌+◌, ◌-◌, ◌<◌, ◌≡◌, Option, none, some, Bool, true, false, List, [], ◌∷◌, ◌++◌, ◌==◌,
  if◌then◌else◌, min,
}

-- Where a call of `runOnEventLoop` stands in a thread, with the locals that are live there.
pub data Producer : Type 0 where
  idle : Producer
  swapped : (prev cur : ℕ) → Producer  -- after `head_.exchange(cur)`
  tested : (prev cur : ℕ) (empty_at_init : Bool) → Producer  -- after the first load of `tail_`
  linked : (prev : ℕ) (empty_at_init : Bool) → Producer  -- after `prev->next.store(cur)`
  kick : Producer  -- `push` has returned true

-- Where the loop thread stands.
pub data Consumer : Type 0 where
  waiting : Consumer  -- in `event_base_loop`
  running : Consumer  -- in `runOpsInQueue`, before `pop`
  got : (next : ℕ) → Consumer  -- in `pop`, with a `next` that is not null

-- `bytes` is what the pipe holds, `ran` the operations that have run, in order.
pub record State (A : Type 0) : Type 0 where
  pub head : ℕ
  pub tail : ℕ
  pub next : ℕ → Option ℕ
  pub item : ℕ → A
  pub bytes : ℕ
  pub ran : List A
  pub consumer : Consumer
  pub producers : ℕ → Producer

-- A table with one place rewritten.
abbrev pub rewrite : {A : Type 0} (table : ℕ → A) (place : ℕ) (entry : A) → ℕ → A
rewrite table place entry = λ other. if place == other then entry else table other

-- `receiveNotifications` reads up to eight bytes at once.
abbrev pub consume_notification : ℕ → ℕ
consume_notification bytes = bytes - min 8 bytes

pub data Step {A : Type 0} (s : State A) : State A → Type 0 where
  -- `push`
  exchange :
      (i : ℕ) (a : A)
      → s.producers i ≡ idle
      → Step s (record s {
        head = suc s.head;
        next = rewrite s.next (suc s.head) none;
        item = rewrite s.item (suc s.head) a;
        producers = rewrite s.producers i (swapped s.head (suc s.head));
      })
  test_tail :
      (i prev cur : ℕ)
      → s.producers i ≡ swapped prev cur
      → Step s (record s { producers = rewrite s.producers i (tested prev cur (prev == s.tail)) })
  link :
      (i prev cur : ℕ) (empty_at_init : Bool)
      → s.producers i ≡ tested prev cur empty_at_init
      → Step s (record s {
        next = rewrite s.next prev (some cur);
        producers = rewrite s.producers i (linked prev empty_at_init);
      })
  return_true :
      (i prev : ℕ)
      → s.producers i ≡ linked prev true
      → Step s (record s { producers = rewrite s.producers i kick })
  test_again :
      (i prev : ℕ)
      → s.producers i ≡ linked prev false
      → Step s
          (record s { producers = rewrite s.producers i (if s.tail == prev then kick else idle) })
  -- `signalNotifyQueue`
  signal :
      (i : ℕ)
      → s.producers i ≡ kick
      → Step s (record s { bytes = s.bytes + 1; producers = rewrite s.producers i idle })
  -- The loop thread goes round for another event, or wakes up for a byte in the pipe.
  go_round : s.consumer ≡ waiting → Step s (record s { consumer = running })
  wake_up :
      s.consumer ≡ waiting
      → 0 < s.bytes
      → Step s (record s { consumer = running; bytes = consume_notification s.bytes })
  -- `pop`
  pop_empty : s.consumer ≡ running → s.next s.tail ≡ none → Step s (record s { consumer = waiting })
  pop_next :
      (n : ℕ)
      → s.consumer ≡ running
      → s.next s.tail ≡ some n
      → Step s (record s { consumer = got n })
  advance :
      (n : ℕ)
      → s.consumer ≡ got n
      → Step s (record s { tail = n; ran = s.ran ++ s.item n ∷ []; consumer = running })

pub data Reach {A : Type 0} (s : State A) : State A → Type 0 where
  start : Reach s s
  then_step : {t u : State A} → Reach s t → Step t u → Reach s u

-- After the constructor: one node, nothing pushed, no call under way, the loop about to run.
abbrev pub initial : {A : Type 0} → A → State A
initial a = record {
  head = 0;
  tail = 0;
  next = λ _. none;
  item = λ _. a;
  bytes = 0;
  ran = [];
  consumer = running;
  producers = λ _. idle;
}
