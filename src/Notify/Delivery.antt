-- ===== src/Notify/Delivery.antt =====
-- Every operation that is pushed runs, once, in the order of the exchanges, and no node is used
-- after it was freed.
use what_the_event.Common.{
  ℕ, zero, suc, Bool, true, false, ◌+◌, ◌-◌, ◌<◌, ◌≤◌, ◌≡◌, refl, ap, ◌∙◌, some, [], ◌∷◌, ◌++◌, inl,
  inr, arith, Option-cases,
}
use native.Mathlib.Decide.{dec_lt}
use what_the_event.Notify.System.{
  idle, waiting, running, State, Step, pop_empty, pop_next, advance, Reach, start, then_step,
  initial,
}
use what_the_event.Notify.Invariant.{open_at, items, Inv, initial-Inv}
use what_the_event.Notify.Moves.{Step-Inv, next-head}

Reach-Inv : {A : Type 0} {s t : State A} → Inv s → Reach s t → Inv t
Reach-Inv v start = v
Reach-Inv v (then_step r st) = Step-Inv st (Reach-Inv v r)

-- No call of `push` is under way, nor a signal after one.
abbrev pub Quiet : {A : Type 0} → State A → Type 0
Quiet s = (i : ℕ) → s.producers i ≡ idle

next_of_tail :
    {A : Type 0} (s : State A)
    → Inv s
    → Quiet s
    → s.tail < s.head
    → s.next s.tail ≡ some (suc s.tail)
next_of_tail s v q h = elim (Option-cases (s.next s.tail)) [
  | inl e ↦ let (i, p) = v.gaps s.tail h e in absurd (ground (arith, q i))
  | inr (n, e) ↦ e ∙ ap some (v.chained s.tail n e).0
]

module _ {A : Type 0} (a : A) {s : State A} (r : Reach (initial a) s) where
  v : Inv s
  v = Reach-Inv (initial-Inv a) r

  -- In every reachable state the operations that have run are those of the first `tail` exchanges,
  -- in the order of the exchanges, each once; and `tail` is at most the number of exchanges.
  pub ran_in_order : (s.ran ≡ items s.item s.tail) × (s.tail ≤ s.head)
  ran_in_order = (v.in_order, v.ordered)

  -- The node whose `next` a call of `push` is about to store to has not been freed: `pop` frees the
  -- nodes before `tail` only.
  pub store_before_free : (i n : ℕ) → open_at (s.producers i) ≡ some n → (s.tail ≤ n) × (n < s.head)
  store_before_free i n e = elim (dec_lt n s.tail) [
    | yes gone ↦ absurd (ground (arith, v.unset i n e, v.passed n gone))
    | no there ↦ (omega arith, ground (arith, v.locals i))
  ]

-- The steps of `pop`, from the start of `runOpsInQueue` to its end: no other thread's, and no other
-- round of the loop.
abbrev pub is_pop : {A : Type 0} {s t : State A} → Step s t → Bool
is_pop (pop_next n c e) = true
is_pop (advance n c) = true
is_pop (pop_empty c e) = true
is_pop _ = false

pub data Pops {A : Type 0} (s : State A) : State A → Type 0 where
  entry : Pops s s
  then_pop : {t u : State A} → Pops s t → (st : Step t u) → is_pop st ≡ true → Pops s u

Pops-trans : {A : Type 0} {s t u : State A} → Pops s t → Pops t u → Pops s u
Pops-trans r entry = r
Pops-trans r (then_pop q st e) = then_pop (Pops-trans r q) st e

Pops-Inv : {A : Type 0} {s t : State A} → Inv s → Pops s t → Inv t
Pops-Inv v entry = v
Pops-Inv v (then_pop q st e) = Step-Inv st (Pops-Inv v q)

-- What `runOpsInQueue` comes to.
record Drained {A : Type 0} (s : State A) : Type 0 where
  last : State A
  path : Pops s last
  rests : last.consumer ≡ waiting
  all : last.ran ≡ items s.item s.head

-- One operation popped and run.
abbrev popped : {A : Type 0} → State A → State A
popped s = record s {
  tail = suc s.tail;
  ran = s.ran ++ s.item (suc s.tail) ∷ [];
  consumer = running;
}

pop_one :
    {A : Type 0} (s : State A)
    → Inv s
    → Quiet s
    → s.consumer ≡ running
    → s.tail < s.head
    → Pops s (popped s)
pop_one s inv q c h =
    then_pop (then_pop entry (pop_next (suc s.tail) c (next_of_tail s inv q h)) refl)
      (advance (suc s.tail) refl) refl

drain :
    {A : Type 0} (k : ℕ) (s : State A)
    → Inv s
    → Quiet s
    → s.consumer ≡ running
    → s.head ≡ k + s.tail
    → Drained s
drain zero s inv q c h = record {
  last = record s { consumer = waiting };
  path = then_pop entry (pop_empty c (ap s.next caught_up ∙ next-head s inv)) refl;
  rests = refl;
  all = inv.in_order ∙ ap (items s.item) caught_up;
}
  where
    caught_up : s.tail ≡ s.head
    caught_up = omega arith
drain (suc k) s inv q c h =
    let one = pop_one s inv q c (omega arith) in
    let d = drain k (popped s) (Pops-Inv inv one) q refl (omega arith) in
    record { last = d.last; path = Pops-trans one d.path; rests = d.rests; all = d.all }

-- Once no call is under way, one run of `runOpsInQueue`, with the steps of `pop` alone, runs all that
-- was pushed and not yet run, and comes back to the wait.
pub drain_completes :
    {A : Type 0} (a : A) {s : State A}
    → Reach (initial a) s
    → Quiet s
    → s.consumer ≡ running
    → (t : State A) × Pops s t × (t.consumer ≡ waiting) × (t.ran ≡ items s.item s.head)
drain_completes a {s} r q c = (d.last, d.path, d.rests, d.all)
  where
    inv : Inv s
    inv = Reach-Inv (initial-Inv a) r

    d : Drained s
    d = drain (s.head - s.tail) s inv q c (omega (arith, inv.ordered))
