-- ===== src/Loop/Driver.antt =====
-- `loop`, `runOpsInQueue` and `runOnEventLoop` of src/libevent_event_base.cc, seen from the thread
-- that runs the loop. What `event_base_loop` does in each round is a parameter.
use what_the_event.Common.{
  ℕ, zero, suc, Option, none, some, Bool, true, false, not, ◌&&◌, ◌||◌, ◌==◌, if◌then◌else◌,
  Outcome, ok, out_of_fuel, ◌>>=◌, List, [], ◌∷◌, ◌++◌,
}

pub data LoopMode : Type 0 where
  once until_empty forever : LoopMode

-- An operation on the queue: one of a user, or the one that `stop` makes.
pub data Operation : Type 0 where
  work : ℕ → Operation
  finish : Operation

-- `timer` is whether the persistent timer is registered, and `ran` what has been run.
pub record Base : Type 0 where
  pub terminate : Bool
  pub loop_thread : Option ℕ
  pub finished : Bool
  pub timer : Bool
  pub queue : List Operation
  pub ran : List Operation

-- One round, from the end of `runOpsInQueue` to the next one: whether `event_base_loop` answers that no
-- events are registered; whether it finds a byte in the pipe; and what other threads push before
-- `receiveNotifications` looks at the queue for the last time, if there is one, and after that.
pub record Poll : Type 0 where
  pub empty : Bool
  pub woken : Bool
  pub pushed : List Operation
  pub late : List Operation

-- Only the operation that `stop` makes sets `terminate_`.
unfoldable pub run_operation : Base → Operation → Base
run_operation b (work n) = record b { ran = b.ran ++ work n ∷ [] }
run_operation b finish = record b { ran = b.ran ++ finish ∷ []; terminate = true }

unfoldable pub run_operations : Base → List Operation → Base
unfolding run_operation
run_operations b [] = b
run_operations b (o ∷ os) = run_operations (run_operation b o) os

-- `runOpsInQueue`
unfoldable pub run_queue : Base → Base
unfolding run_operations
run_queue b = run_operations (record b { queue = [] }) b.queue

-- `receiveNotifications`, if there is a byte in the pipe.
unfoldable pub receive_if_woken : Bool → Base → Base
unfolding run_queue
receive_if_woken true b = run_queue b
receive_if_woken false b = b

-- One round: the queue, and `event_base_loop`.
unfoldable pub turn : Base → Poll → Base
unfolding run_queue receive_if_woken
turn b p =
    let polled : Base = run_queue b in
    let heard : Base =
      receive_if_woken p.woken (record polled { queue = polled.queue ++ p.pushed }) in
    record heard { queue = heard.queue ++ p.late }

-- Whether the loop is left after a round.
unfoldable pub leaves : LoopMode → Poll → Base → Bool
leaves once p b = true
leaves until_empty p b = p.empty || b.terminate
leaves forever p b = b.terminate

-- The `do … while`, with the number of rounds so far.
unfoldable pub turns : (ℕ → Poll) → LoopMode → ℕ → ℕ → Base → Outcome (ℕ × Base)
turns polls mode zero k b = out_of_fuel
turns polls mode (suc f) k b =
    let rest = turns polls mode f (suc k) (turn b (polls k)) in
    if leaves mode (polls k) (turn b (polls k)) then ok (suc k, turn b (polls k)) else rest

unfoldable pub is_forever : LoopMode → Bool
is_forever forever = true
is_forever _ = false

unfoldable pub begin : ℕ → LoopMode → Base → Base
unfolding is_forever
begin me mode b = record b {
  loop_thread = some me;
  finished = false;
  timer = is_forever mode || b.timer;
}

unfoldable pub end : LoopMode → Base → Base
unfolding is_forever
end mode b = record b {
  terminate = false;
  loop_thread = none;
  finished = true;
  timer = not (is_forever mode) && b.timer;
}

-- `loop` on the thread `me`: the number of rounds, and the base.
unfoldable pub loop : (ℕ → Poll) → ℕ → LoopMode → ℕ → Base → Outcome (ℕ × Base)
unfolding begin end
loop polls me mode fuel b = do r ← turns polls mode fuel 0 (begin me mode b); ok (r.0, end mode r.1)

-- `runOnEventLoop` with `defer` false, on the thread `me`.
unfoldable pub run_on_event_loop : ℕ → Base → Operation → Base
unfolding run_operation
run_on_event_loop me b o =
    let pushed : Base = record b { queue = b.queue ++ o ∷ [] } in
    elim b.loop_thread as (λ _. Base) [
      | none ↦ run_operation b o
      | some t ↦ if t == me then run_operation b o else pushed
    ]
