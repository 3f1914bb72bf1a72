-- ===== src/Loop/Ends.antt =====
-- When `loop` returns, what has run by then and what has not.
use what_the_event.Common.{
  ℕ, zero, suc, ◌+◌, ◌<◌, ◌≡◌, refl, ap, sym, ◌∙◌, none, Bool, true, false, not, ◌&&◌, ◌||◌, ok,
  List, ◌++◌, append_assoc, append-nil, subst, arith,
}
use what_the_event.Loop.Driver.{
  LoopMode, once, until_empty, forever, Operation, Base, Poll, turn, leaves, turns, begin, end,
  is_forever, loop,
}
use what_the_event.Loop.Rounds.{stops, ran_in, left_by, pushed_by, turn-Ran, turn-kept}

-- Whether the mode asks to leave after a round that begins with this queue.
abbrev pub is_last : LoopMode → List Operation → Poll → Bool
is_last once q p = true
is_last until_empty q p = p.empty || stops (ran_in q p)
is_last forever q p = stops (ran_in q p)

-- Of the rounds from the k-th on, which begins with this queue, the n-th is the first to be the last.
pub data Until (polls : ℕ → Poll) (mode : LoopMode) : List Operation → ℕ → ℕ → Type 0 where
  now : {q : List Operation} {k : ℕ} → is_last mode q (polls k) ≡ true → Until polls mode q k zero
  later :
      {q : List Operation} {k n : ℕ}
      → is_last mode q (polls k) ≡ false
      → Until polls mode (left_by (polls k)) (suc k) n
      → Until polls mode q k (suc n)

leaves-is_last :
    (mode : LoopMode) (b : Base) (p : Poll)
    → b.terminate ≡ false
    → leaves mode p (turn b p) ≡ is_last mode b.queue p
unfolding leaves
leaves-is_last once b p going = refl
leaves-is_last until_empty b p going =
    ap (λ t. p.empty || t)
      ((turn-Ran b p).terminate ∙ ap (λ t. t || stops (ran_in b.queue p)) going)
leaves-is_last forever b p going =
    (turn-Ran b p).terminate ∙ ap (λ t. t || stops (ran_in b.queue p)) going

-- A round that is not the last runs no `stop`.
is_last-stops :
    (mode : LoopMode) (q : List Operation) (p : Poll)
    → is_last mode q p ≡ false
    → stops (ran_in q p) ≡ false
is_last-stops once q p e = cc
is_last-stops until_empty q p e = or_false p.empty (stops (ran_in q p)) e
  where
    or_false : (x y : Bool) → (x || y) ≡ false → y ≡ false
    or_false true y h = cc
    or_false false y h = h
is_last-stops forever q p e = e

-- What has run and what is left, after the rounds.
record Turned (polls : ℕ → Poll) (k n : ℕ) (b b' : Base) : Type 0 where
  kept : b'.ran ++ b'.queue ≡ b.ran ++ (b.queue ++ pushed_by polls k (suc n))
  left : b'.queue ≡ left_by (polls (k + n))
  timer : b'.timer ≡ b.timer

turns-Until :
    (polls : ℕ → Poll) (mode : LoopMode) (f k n : ℕ) (b : Base)
    → b.terminate ≡ false
    → Until polls mode b.queue k n
    → n < f
    → (b' : Base) × (turns polls mode f k b ≡ ok (k + suc n, b')) × Turned polls k n b b'
unfolding turns
turns-Until polls mode zero k n b going u h = absurd (omega arith)
turns-Until polls mode (suc f) k zero b going (now e) h = (
  turn b (polls k),
  rw (leaves-is_last mode b (polls k) going ∙ e) (ap (λ m. ok (m, turn b (polls k))) (omega arith)),
  record {
    kept =
        turn-kept b (polls k)
        ∙ ap (λ x. b.ran ++ (b.queue ++ x)) (sym (append-nil ((polls k).pushed ++ (polls k).late)));
    left = (turn-Ran b (polls k)).queue ∙ ap (λ m. left_by (polls m)) (omega arith);
    timer = (turn-Ran b (polls k)).timer;
  },
)
turns-Until polls mode (suc f) k (suc n) b going (later e u) h =
    let t = turn-Ran b (polls k) in
    let after : Base = turn b (polls k) in
    let calm = is_last-stops mode b.queue (polls k) e in
    let r =
      turns-Until polls mode f (suc k) n after (ground (arith, t.terminate, going, calm))
        (subst (λ q. Until polls mode q (suc k) n) (sym t.queue) u) (omega arith) in
    let more = pushed_by polls (suc k) (suc n) in
    (
      r.0,
      rw (leaves-is_last mode b (polls k) going ∙ e) (r.1 ∙ ap (λ m. ok (m, r.0)) (omega arith)),
      record {
        kept =
            r.2.kept
            ∙ sym (append_assoc after.ran after.queue more)
            ∙ ap (λ x. x ++ more) (turn-kept b (polls k))
            ∙ append_assoc b.ran (b.queue ++ ((polls k).pushed ++ (polls k).late)) more
            ∙ ap (λ x. b.ran ++ x) (append_assoc b.queue ((polls k).pushed ++ (polls k).late) more);
        left = r.2.left ∙ ap (λ m. left_by (polls m)) (omega arith);
        timer = r.2.timer ∙ t.timer;
      },
    )

-- `loop`, in each mode, on a base that was not stopped before: it returns after the first round that
-- the mode asks to be the last (any for ONCE, one that runs the operation of `stop`, and for UNTIL_EMPTY
-- one after which nothing is registered). All that was on the queue and all that was pushed has then
-- been run, each once and in order, except for what is still on the queue: what was pushed in the last
-- round and no wake-up came for, or after that one. The flags are reset, waiters may go on, and no timer
-- is left.
pub loop-Until :
    (polls : ℕ → Poll) (me : ℕ) (mode : LoopMode) (f n : ℕ) (b : Base)
    → b.terminate ≡ false
    → b.timer ≡ false
    → Until polls mode b.queue 0 n
    → n < f
    → (b' : Base) × (loop polls me mode f b ≡ ok (suc n, b'))
      × (b'.ran ++ b'.queue ≡ b.ran ++ (b.queue ++ pushed_by polls 0 (suc n)))
      × (b'.queue ≡ left_by (polls n))
      × (b'.terminate ≡ false)
      × (b'.loop_thread ≡ none)
      × (b'.finished ≡ true)
      × (b'.timer ≡ false)
unfolding loop begin end is_forever
loop-Until polls me mode f n b going untimed u h =
    let r = turns-Until polls mode f 0 n (begin me mode b) going u h in
    (
      end mode r.0,
      rw r.1 (ap (λ m. ok (m, end mode r.0)) (omega arith)),
      r.2.kept,
      r.2.left ∙ ap (λ m. left_by (polls m)) (omega arith),
      refl,
      refl,
      refl,
      no_timer mode r.0 r.2.timer,
    )
  where
    no_timer :
        (m : LoopMode) (t : Base)
        → t.timer ≡ (is_forever m || b.timer)
        → (not (is_forever m) && t.timer) ≡ false
    no_timer once t e = e ∙ untimed
    no_timer until_empty t e = e ∙ untimed
    no_timer forever t e = refl
