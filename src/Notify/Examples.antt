-- ===== src/Notify/Examples.antt =====
-- Two threads that push one operation each, interleaved with the loop thread.
use what_the_event.Common.{ℕ, ◌<◌, ◌≤◌, ◌≡◌, refl, [], ◌∷◌, true, arith}
use what_the_event.Notify.System.{
  waiting, State, exchange, test_tail, link, return_true, signal, wake_up, pop_empty, pop_next,
  advance, Reach, start, then_step, initial,
}
use what_the_event.Notify.Invariant.{items}
use what_the_event.Notify.Delivery.{Quiet, Pops, ran_in_order, store_before_free, drain_completes}

abbrev origin : State ℕ
origin = initial 0

-- The loop thread finds nothing and waits.
resting : (s : State ℕ) × Reach origin s
resting = (_, then_step start (pop_empty refl refl))

-- Thread 4 has exchanged, but not stored its node.
half_pushed : (s : State ℕ) × Reach origin s
unfolding resting
half_pushed = (_, then_step (then_step resting.1 (exchange 4 70 refl)) (test_tail 4 0 1 refl))

-- It has stored it.
linked_now : (s : State ℕ) × Reach origin s
unfolding half_pushed
linked_now = (_, then_step half_pushed.1 (link 4 0 1 true refl))

-- It has signalled; the loop thread has woken up.
woken : (s : State ℕ) × Reach origin s
unfolding linked_now
woken = (
  _,
  then_step (then_step (then_step linked_now.1 (return_true 4 0 refl)) (signal 4 refl))
      (wake_up refl (omega arith)),
)

-- And has run the operation.
finished : (s : State ℕ) × Reach origin s
unfolding woken
finished = (
  _,
  then_step (then_step (then_step woken.1 (pop_next 1 refl refl)) (advance 1 refl))
      (pop_empty refl refl),
)

woken-Quiet : Quiet woken.0
unfolding woken
woken-Quiet i = ground arith

finished_ran : finished.0.ran ≡ 70 ∷ []
unfolding finished
finished_ran = refl

ran_in_order_example :
    (finished.0.ran ≡ items finished.0.item finished.0.tail) × (finished.0.tail ≤ finished.0.head)
ran_in_order_example = ran_in_order 0 finished.1

store_before_free_example : (half_pushed.0.tail ≤ 0) × (0 < half_pushed.0.head)
unfolding half_pushed
store_before_free_example = store_before_free 0 half_pushed.1 4 0 refl

drain_completes_example :
    (t : State ℕ) × Pops woken.0 t
    × (t.consumer ≡ waiting)
    × (t.ran ≡ items woken.0.item woken.0.head)
unfolding woken
drain_completes_example = drain_completes 0 woken.1 woken-Quiet refl
