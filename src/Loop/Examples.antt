-- ===== src/Loop/Examples.antt =====
-- Runs of the loop, and its theorem applied there.
use what_the_event.Common.{
  ℕ, ◌+◌, ◌-◌, min, inl, some, ◌≡◌, refl, ◌==◌, if◌then◌else◌, none, true, false, ok, out_of_fuel,
  List, [], ◌∷◌, ◌++◌, arith,
}
use what_the_event.Loop.Driver.{
  forever, Operation, work, finish, Base, Poll, run_operation, run_operations, run_queue,
  receive_if_woken, turn, leaves, turns, begin, end, is_forever, loop, run_on_event_loop,
}
use what_the_event.Events.Table.{table, table-IsLibevent}
use what_the_event.Loop.Channel.{
  Kernel, IsPipe, Channel, pipe, init_notify, in_loop_thread, libevent_callback, post_all,
  post_and_wait,
}
use what_the_event.Loop.Burst.{one_wake_up, refused_runs_later}
use what_the_event.Loop.Deferred.{run_deferring, drain_queue, last, next, drain_queue-Generations}
use what_the_event.Loop.Ends.{now, later, loop-Until}

abbrev resting : Base
resting = record {
  terminate = false;
  loop_thread = none;
  finished = false;
  timer = false;
  queue = work 1 ∷ [];
  ran = [];
}

-- Work is pushed in the first round, and `stop` is called in the second, in which some work comes too
-- late.
abbrev two_rounds : ℕ → Poll
two_rounds k = record {
  empty = false;
  woken = if k == 0 then false else true;
  pushed = if k == 0 then work 2 ∷ [] else finish ∷ work 3 ∷ [];
  late = if k == 0 then [] else work 4 ∷ [];
}

loop-Until_example :
    (b' : Base) × (loop two_rounds 9 forever 2 resting ≡ ok (2, b'))
    × (b'.ran ++ b'.queue ≡ work 1 ∷ work 2 ∷ finish ∷ work 3 ∷ work 4 ∷ [])
    × (b'.queue ≡ work 4 ∷ [])
    × (b'.terminate ≡ false)
    × (b'.loop_thread ≡ none)
    × (b'.finished ≡ true)
    × (b'.timer ≡ false)
loop-Until_example =
    loop-Until two_rounds 9 forever 2 1 resting refl refl (later refl (now refl)) (omega arith)

-- After a `stop` while no loop runs, the next loop is left after one round, in any mode.
stopped_before :
    loop
      (λ k. record { empty = false; woken = false; pushed = []; late = [] })
      9
      forever
      1
      (run_on_event_loop 9 (record resting { queue = [] }) finish)
    ≡ ok (1, record resting { queue = []; ran = finish ∷ []; finished = true })
unfolding loop turns turn receive_if_woken run_queue run_operations run_operation leaves begin end
    is_forever run_on_event_loop
stopped_before = refl

-- The first operation pushes two others, and the second of these one more.
abbrev pushes : Operation → List Operation
pushes (work n) = if n == 1 then work 2 ∷ work 3 ∷ [] else if n == 3 then finish ∷ [] else []
pushes finish = []

-- As many rounds as there are operations are too few.
one_round_short : drain_queue pushes 4 resting ≡ out_of_fuel
unfolding drain_queue run_deferring run_operation
one_round_short = refl

drain_queue-Generations_example :
    drain_queue pushes 5 resting
    ≡ ok (record resting {
      ran = work 1 ∷ work 2 ∷ work 3 ∷ finish ∷ [];
      terminate = true;
      queue = [];
    })
drain_queue-Generations_example =
    drain_queue-Generations pushes (work 1 ∷ work 2 ∷ work 3 ∷ finish ∷ []) 5 resting
      (next (work 1 ∷ []) (next (work 2 ∷ work 3 ∷ []) (next (finish ∷ []) last))) (omega arith)

-- A pipe by the number of bytes in it, which take any descriptor for it, and one whose writes fail.
abbrev memory : Kernel
memory = record {
  World = ℕ;
  write = λ w fd n. (some n, w + n);
  read = λ w fd n. (some (min n w), w - min n w);
}

abbrev failing : Kernel
failing = record {
  World = ℕ;
  write = λ w fd n. (none, w);
  read = λ w fd n. (some (min n w), w - min n w);
}

abbrev memory-IsPipe : IsPipe memory 3 4
memory-IsPipe = record {
  held = λ w. w;
  write-one = λ w. inl (refl, refl);
  read-held = λ w n h. (refl, refl);
}

-- The loop is driven by thread 9.
abbrev looping : Base
looping = record resting { loop_thread = some 9; queue = [] }

abbrev channel : Channel
channel = record { kind = pipe; read_end = 3; write_end = 4 }

one_wake_up_example :
    (w₁ : ℕ) × (w₂ : ℕ) × (post_all memory channel 5 (work 1 ∷ work 2 ∷ finish ∷ []) looping 0
      ≡ ok (true ∷ true ∷ true ∷ [], record looping { queue = work 1 ∷ work 2 ∷ finish ∷ [] }, w₁))
    × (w₁ ≡ 1)
    × (libevent_callback memory channel table 0x02
          (record looping { queue = work 1 ∷ work 2 ∷ finish ∷ [] })
          w₁
        ≡ (record looping { ran = work 1 ∷ work 2 ∷ finish ∷ []; terminate = true }, w₂))
    × (w₂ ≡ 0)
unfolding init_notify
one_wake_up_example =
    one_wake_up memory table 3 4 channel memory-IsPipe 5 9 looping 0 (work 1) (work 2 ∷ finish ∷ [])
      table-IsLibevent refl refl refl refl refl refl

refused_runs_later_example :
    (b' : Base) × (w : ℕ) × (post_and_wait failing channel 5 false (work 1) looping 0
      ≡ ok (some false, b', w))
    × (b'.queue ≡ work 1 ∷ [])
    × (run_queue b' ≡ record looping { ran = work 1 ∷ [] })
unfolding in_loop_thread init_notify
refused_runs_later_example =
    refused_runs_later failing 3 4 channel 5 false looping 0 (work 1) refl refl refl refl
