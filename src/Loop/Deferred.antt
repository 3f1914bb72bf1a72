-- ===== src/Loop/Deferred.antt =====
-- `runOpsInQueue` of src/libevent_event_base.cc where operations push others with `defer`.
use what_the_event.Common.{
  ℕ, zero, suc, ◌+◌, ◌<◌, ◌≡◌, refl, sym, ap, subst, ◌∙◌, Bool, true, ◌||◌, Outcome, ok,
  out_of_fuel, List, [], ◌∷◌, ◌++◌, length, ◌-◌, length-append, append-nil, append_assoc, arith,
}
use what_the_event.Loop.Driver.{
  Operation, work, finish, Base, run_operation, run_operations, run_queue,
}
use what_the_event.Loop.Rounds.{stops}

module _ (spawned : Operation → List Operation) where
  -- An operation runs, and what it pushes goes to the end of the queue.
  unfoldable pub run_deferring : Base → Operation → Base
  unfolding run_operation
  run_deferring b o =
      let done : Base = run_operation b o in record done { queue = done.queue ++ spawned o }

  -- `runOpsInQueue`: `pop` and run until the queue is empty.
  unfoldable pub drain_queue : ℕ → Base → Outcome Base
  unfolding run_deferring
  drain_queue zero b = out_of_fuel
  drain_queue (suc f) b = elim b.queue as (λ _. Outcome Base) [
    | [] ↦ ok b
    | o ∷ os ↦ drain_queue f (run_deferring (record b { queue = os }) o)
  ]

  -- What these push, in their order.
  abbrev pub all_spawned : List Operation → List Operation
  all_spawned [] = []
  all_spawned (o ∷ os) = spawned o ++ all_spawned os

  -- The queue, then what its operations push, then what those push, until nothing is pushed.
  pub data Generations : List Operation → List Operation → Type 0 where
    last : Generations [] []
    next :
        (q : List Operation) {more : List Operation}
        → Generations (all_spawned q) more
        → Generations q (q ++ more)

-- The base when these have run, one of them perhaps that of `stop`, and these are on the queue.
abbrev pub after : Base → List Operation → List Operation → Base
after b os q = record b { ran = b.ran ++ os; terminate = b.terminate || stops os; queue = q }

after-same :
    (b : Base) {r r' q q' : List Operation} {t t' : Bool}
    → r ≡ r'
    → t ≡ t'
    → q ≡ q'
    → record b { ran = r; terminate = t; queue = q }
      ≡ record b { ran = r'; terminate = t'; queue = q' }
after-same b e k h = λ i. record b { ran = e i; terminate = k i; queue = h i }

stops-append :
    (t : Bool) (os ps : List Operation) → ((t || stops os) || stops ps) ≡ (t || stops (os ++ ps))
stops-append t [] ps = ground arith
stops-append t (work n ∷ os) ps = stops-append t os ps
stops-append t (finish ∷ os) ps = ground arith

module _ (spawned : Operation → List Operation) where
  -- One operation runs.
  drain_queue-step :
      (o : Operation) (os : List Operation) (k : ℕ) (b : Base)
      → drain_queue spawned (suc k) (record b { queue = o ∷ os })
        ≡ drain_queue spawned k (after b (o ∷ []) (os ++ spawned o))
  unfolding drain_queue run_deferring run_operation
  drain_queue-step (work n) os k b =
      ap (drain_queue spawned k) (after-same b refl (ground arith) refl)
  drain_queue-step finish os k b =
      ap (drain_queue spawned k) (after-same b refl (ground arith) refl)

  -- The operations at the front run first.
  drain_queue-front :
      (q r : List Operation) (f : ℕ) (b : Base)
      → drain_queue spawned (length q + f) (record b { queue = q ++ r })
        ≡ drain_queue spawned f (after b q (r ++ all_spawned spawned q))
  drain_queue-front [] r f b =
      ap (λ k. drain_queue spawned k (record b { queue = r })) (omega arith)
      ∙ ap (drain_queue spawned f)
          (after-same b (sym (append-nil b.ran)) (ground arith) (sym (append-nil r)))
  drain_queue-front (o ∷ os) r f b =
      ap (λ k. drain_queue spawned k (record b { queue = o ∷ (os ++ r) })) (omega arith)
      ∙ drain_queue-step o (os ++ r) (length os + f) b
      ∙ ap (drain_queue spawned (length os + f))
          (after-same b refl refl (append_assoc os r (spawned o)))
      ∙ drain_queue-front os (r ++ spawned o) f (after b (o ∷ []) [])
      ∙ ap (drain_queue spawned f) (
          after-same b (append_assoc b.ran (o ∷ []) os) (stops-append b.terminate (o ∷ []) os)
            (append_assoc r (spawned o) (all_spawned spawned os)))

  drain_queue-all :
      (q all : List Operation) (k : ℕ) (b : Base)
      → Generations spawned q all
      → drain_queue spawned (length all + suc k) (record b { queue = q }) ≡ ok (after b all [])
  unfolding drain_queue
  drain_queue-all _ _ k b last =
      let rounds : 0 + suc k ≡ suc k = omega arith in
      ap (λ m. drain_queue spawned m (record b { queue = [] })) rounds
      ∙ ap ok (after-same b (sym (append-nil b.ran)) (ground arith) refl)
  drain_queue-all _ _ k b (next q {more = more} g) =
      let sum : length (q ++ more) + suc k ≡ length q + (length more + suc k) =
        omega (arith, length-append q more) in
      ap (λ m. drain_queue spawned m (record b { queue = q })) sum
      ∙ ap (λ x. drain_queue spawned (length q + (length more + suc k)) (record b { queue = x }))
          (sym (append-nil q))
      ∙ drain_queue-front q [] (length more + suc k) b
      ∙ drain_queue-all (all_spawned spawned q) more k (after b q []) g
      ∙ ap ok (after-same b (append_assoc b.ran q more) (stops-append b.terminate q more) refl)

  -- `runOpsInQueue` where operations push others on the loop thread, to be run later: if at some
  -- point nothing more is pushed, it returns, with one round more than there are operations in all;
  -- every operation has run once, those that were on the queue first, then those that these pushed,
  -- then those that those pushed, each in the order of their pushes; nothing is left on the queue,
  -- and the loop is asked to end exactly if it was before or an operation of `stop` was among them.
  pub drain_queue-Generations :
      (all : List Operation) (f : ℕ) (b : Base)
      → Generations spawned b.queue all
      → length all < f
      → drain_queue spawned f b ≡ ok (after b all [])
  drain_queue-Generations all f b g enough =
      let rounds : f ≡ length all + suc (f - length all - 1) = omega arith in
      ap (λ m. drain_queue spawned m b) rounds
      ∙ drain_queue-all b.queue all (f - length all - 1) b g

pub run_operations-after :
    (b : Base) (os : List Operation) → run_operations (record b { queue = [] }) os ≡ after b os []
unfolding run_operations run_operation
run_operations-after b [] = after-same b (sym (append-nil b.ran)) (ground arith) refl
run_operations-after b (work n ∷ os) =
    run_operations-after (record b { ran = b.ran ++ work n ∷ [] }) os
    ∙ after-same b (append_assoc b.ran (work n ∷ []) os) refl refl
run_operations-after b (finish ∷ os) =
    run_operations-after (record b { ran = b.ran ++ finish ∷ []; terminate = true }) os
    ∙ after-same b (append_assoc b.ran (finish ∷ []) os) (ground arith) refl

-- Where no operation pushes another this is what `run_queue` does.
pub drain_queue-run_queue :
    (b : Base) (f : ℕ) → length b.queue < f → drain_queue (λ o. []) f b ≡ ok (run_queue b)
unfolding run_queue
drain_queue-run_queue b f enough =
    drain_queue-Generations (λ o. []) b.queue f b (flat b.queue) enough
    ∙ ap ok (sym (run_operations-after b b.queue))
  where
    none_spawned : (q : List Operation) → all_spawned (λ o. []) q ≡ []
    none_spawned [] = refl
    none_spawned (o ∷ q) = none_spawned q

    flat : (q : List Operation) → Generations (λ o. []) q q
    flat q =
        subst (Generations (λ o. []) q) (append-nil q)
          (next q (subst (λ x. Generations (λ o. []) x []) (sym (none_spawned q)) last))
