-- ===== src/Loop/Rounds.antt =====
-- What one round of `loop` runs, and what it leaves on the queue.
use what_the_event.Common.{
  ℕ, zero, suc, ◌≡◌, refl, ap, sym, ◌∙◌, Bool, true, false, ◌||◌, List, [], ◌∷◌, ◌++◌, append_assoc,
  append-nil, arith,
}
use what_the_event.Loop.Driver.{
  Operation, work, finish, Base, Poll, run_operation, run_operations, run_queue, receive_if_woken,
  turn,
}

-- Whether one of the operations is that of `stop`.
abbrev pub stops : List Operation → Bool
stops [] = false
stops (work n ∷ os) = stops os
stops (finish ∷ os) = true

stops-append : (xs ys : List Operation) → stops (xs ++ ys) ≡ (stops xs || stops ys)
stops-append [] ys = refl
stops-append (work n ∷ xs) ys = stops-append xs ys
stops-append (finish ∷ xs) ys = refl

-- Of these operations, those that a round that is woken up runs, and those that it does not.
abbrev pub taken_in : Bool → List Operation → List Operation
taken_in true os = os
taken_in false os = []

abbrev pub left_over : Bool → List Operation → List Operation
left_over true os = []
left_over false os = os

taken_in-left_over : (w : Bool) (os : List Operation) → taken_in w os ++ left_over w os ≡ os
taken_in-left_over true os = append-nil os
taken_in-left_over false os = refl

-- What a round runs that begins with this queue, and what it leaves on the queue: what no wake-up came
-- for, and what came too late.
abbrev pub ran_in : List Operation → Poll → List Operation
ran_in q p = q ++ taken_in p.woken p.pushed

abbrev pub left_by : Poll → List Operation
left_by p = left_over p.woken p.pushed ++ p.late

-- What is pushed over `n` rounds from the k-th on.
abbrev pub pushed_by : (ℕ → Poll) → ℕ → ℕ → List Operation
pushed_by polls k zero = []
pushed_by polls k (suc n) = ((polls k).pushed ++ (polls k).late) ++ pushed_by polls (suc k) n

-- A round runs or leaves what there was and what is pushed.
ran_in-left_by :
    (q : List Operation) (p : Poll) → ran_in q p ++ left_by p ≡ q ++ (p.pushed ++ p.late)
ran_in-left_by q p =
    append_assoc q (taken_in p.woken p.pushed) (left_by p)
    ∙ ap (λ x. q ++ x)
        (sym (append_assoc (taken_in p.woken p.pushed) (left_over p.woken p.pushed) p.late)
          ∙ ap (λ x. x ++ p.late) (taken_in-left_over p.woken p.pushed))

run_operations-ran : (b : Base) (os : List Operation) → (run_operations b os).ran ≡ b.ran ++ os
unfolding run_operations run_operation
run_operations-ran b [] = sym (append-nil b.ran)
run_operations-ran b (work n ∷ os) =
    run_operations-ran (run_operation b (work n)) os ∙ append_assoc b.ran (work n ∷ []) os
run_operations-ran b (finish ∷ os) =
    run_operations-ran (run_operation b finish) os ∙ append_assoc b.ran (finish ∷ []) os

run_operations-terminate :
    (b : Base) (os : List Operation) → (run_operations b os).terminate ≡ (b.terminate || stops os)
unfolding run_operations run_operation
run_operations-terminate b [] = ground arith
run_operations-terminate b (work n ∷ os) = run_operations-terminate (run_operation b (work n)) os
run_operations-terminate b (finish ∷ os) =
    run_operations-terminate (run_operation b finish) os ∙ ground arith

run_operations-queue : (b : Base) (os : List Operation) → (run_operations b os).queue ≡ b.queue
unfolding run_operations run_operation
run_operations-queue b [] = refl
run_operations-queue b (work n ∷ os) = run_operations-queue (run_operation b (work n)) os
run_operations-queue b (finish ∷ os) = run_operations-queue (run_operation b finish) os

run_operations-timer : (b : Base) (os : List Operation) → (run_operations b os).timer ≡ b.timer
unfolding run_operations run_operation
run_operations-timer b [] = refl
run_operations-timer b (work n ∷ os) = run_operations-timer (run_operation b (work n)) os
run_operations-timer b (finish ∷ os) = run_operations-timer (run_operation b finish) os

-- What the queue is run for.
pub record Ran (b : Base) (os left : List Operation) (b' : Base) : Type 0 where
  pub ran : b'.ran ≡ b.ran ++ os
  pub queue : b'.queue ≡ left
  pub terminate : b'.terminate ≡ (b.terminate || stops os)
  pub timer : b'.timer ≡ b.timer

run_queue-Ran : (b : Base) → Ran b b.queue [] (run_queue b)
unfolding run_queue
run_queue-Ran b =
    let emptied : Base = record b { queue = [] } in
    record {
      ran = run_operations-ran emptied b.queue;
      queue = run_operations-queue emptied b.queue;
      terminate = run_operations-terminate emptied b.queue;
      timer = run_operations-timer emptied b.queue;
    }

receive_if_woken-Ran :
    (w : Bool) (b : Base) → Ran b (taken_in w b.queue) (left_over w b.queue) (receive_if_woken w b)
unfolding receive_if_woken
receive_if_woken-Ran true b = run_queue-Ran b
receive_if_woken-Ran false b = record {
  ran = sym (append-nil b.ran);
  queue = refl;
  terminate = ground arith;
  timer = refl;
}

-- A round runs what is on the queue, and what is pushed in it if it is woken up.
pub turn-Ran : (b : Base) (p : Poll) → Ran b (ran_in b.queue p) (left_by p) (turn b p)
unfolding turn
turn-Ran b p =
    let polled : Base = run_queue b in
    let one = run_queue-Ran b in
    let came : Base = record polled { queue = polled.queue ++ p.pushed } in
    let two = receive_if_woken-Ran p.woken came in
    let there : came.queue ≡ p.pushed = ap (λ q. q ++ p.pushed) one.queue in
    record {
      ran =
          two.ran
          ∙ ap (λ q. polled.ran ++ taken_in p.woken q) there
          ∙ ap (λ r. r ++ taken_in p.woken p.pushed) one.ran
          ∙ append_assoc b.ran b.queue (taken_in p.woken p.pushed);
      queue = ap (λ q. q ++ p.late) (two.queue ∙ ap (left_over p.woken) there);
      terminate =
          two.terminate
          ∙ ap (λ q. polled.terminate || stops (taken_in p.woken q)) there
          ∙ ap (λ t. t || stops (taken_in p.woken p.pushed)) one.terminate
          ∙ or_assoc b.terminate (stops b.queue) (stops (taken_in p.woken p.pushed))
          ∙ ap (λ t. b.terminate || t) (sym (stops-append b.queue (taken_in p.woken p.pushed)));
      timer = two.timer ∙ one.timer;
    }
  where
    or_assoc : (x y z : Bool) → ((x || y) || z) ≡ (x || (y || z))
    or_assoc true y z = refl
    or_assoc false y z = refl

pub turn-kept :
    (b : Base) (p : Poll)
    → (turn b p).ran ++ (turn b p).queue ≡ b.ran ++ (b.queue ++ (p.pushed ++ p.late))
turn-kept b p =
    let t = turn-Ran b p in
    ap (λ q. (turn b p).ran ++ q) t.queue
    ∙ ap (λ r. r ++ left_by p) t.ran
    ∙ append_assoc b.ran (ran_in b.queue p) (left_by p)
    ∙ ap (λ x. b.ran ++ x) (ran_in-left_by b.queue p)
