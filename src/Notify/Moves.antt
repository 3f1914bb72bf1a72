-- ===== src/Notify/Moves.antt =====
-- Every step keeps `Inv`: the steps of `push`, one lemma each, then those of the loop thread.
use what_the_event.Common.{
  ℕ, zero, suc, ◌+◌, ◌<◌, ◌≤◌, ◌≡◌, refl, sym, ap, ap₂, ◌∙◌, none, some, Bool, true, false, [], ◌∷◌,
  ◌++◌, inl, inr, arith, ◌==◌, if◌then◌else◌, Bool-cases, Option-cases, ne→==,
}
use what_the_event.Notify.System.{
  Producer, idle, swapped, tested, linked, kick, Consumer, waiting, running, got, State, Step,
  exchange, test_tail, link, return_true, test_again, signal, go_round, wake_up, pop_empty,
  pop_next, advance, rewrite, consume_notification,
}
use what_the_event.Notify.Invariant.{open_at, Locals, items, Inv}

items-rewrite :
    {A : Type 0} (f : ℕ → A) (h : ℕ) (a : A) (n : ℕ)
    → n ≤ h
    → items (rewrite f (suc h) a) n ≡ items f n
items-rewrite f h a zero le = refl
items-rewrite f h a (suc n) le =
    ap₂ (λ xs x. xs ++ x ∷ []) (items-rewrite f h a n (omega arith))
      (rw (ne→== (suc h) (suc n) (omega arith)))

open_at-lt : (h : ℕ) (p : Producer) (n : ℕ) → Locals h p → open_at p ≡ some n → n < h
open_at-lt h p n l e = ground arith

module _ {A : Type 0} (s : State A) (v : Inv s) where
  open v use {ordered, chained, passed, gaps, locals, unset, unique, held, awake, in_order}

  pub next-head : s.next s.head ≡ none
  next-head = elim (Option-cases (s.next s.head)) [
    | inl e ↦ e
    | inr (m, e) ↦ absurd (omega (arith, (chained s.head m e).1))
  ]

  exchange-Inv :
      (i : ℕ) (a : A)
      → s.producers i ≡ idle
      → Inv (record s {
        head = suc s.head;
        next = rewrite s.next (suc s.head) none;
        item = rewrite s.item (suc s.head) a;
        producers = rewrite s.producers i (swapped s.head (suc s.head));
      })
  exchange-Inv i a e = record {
    ordered = omega (arith, ordered);
    chained = λ n m h. ground (arith, chained n m);
    passed = λ n h. ground (arith, passed n, ordered);
    gaps = λ n h q. elim (Bool-cases (n == s.head)) [
      | inl last ↦ (i, ground arith)
      | inr old ↦ let (j, p) = gaps n (ground arith) (ground arith) in (j, ground arith)
    ];
    locals = λ j. ground (arith, locals j);
    unset = λ j n h. ground (arith, unset j n, next-head);
    unique = λ j k n p q. ground (
      arith,
      unique j k n,
      open_at-lt s.head (s.producers j) n (locals j),
      open_at-lt s.head (s.producers k) n (locals k),
    );
    held = λ n h. ground (arith, held n, ordered);
    awake = λ n h q. elim (awake n h (ground (arith, ordered))) [
      | inl b ↦ inl b
      | inr (j, w) ↦ inr (j, ground arith)
    ];
    in_order = in_order ∙ sym (items-rewrite s.item s.head a s.tail ordered);
  }

  test_tail-Inv :
      (i prev cur : ℕ)
      → s.producers i ≡ swapped prev cur
      → Inv (record s { producers = rewrite s.producers i (tested prev cur (prev == s.tail)) })
  test_tail-Inv i prev cur e = record {
    ordered = ordered;
    chained = chained;
    passed = passed;
    gaps = λ n h q. let (j, p) = gaps n h q in (j, ground arith);
    locals = λ j. ground (arith, locals j, locals i);
    unset = λ j n h. ground (arith, unset j n, unset i n);
    unique = λ j k n p q. ground (arith, unique j k n, unique i k n, unique j i n);
    held = held;
    awake = λ n h q. elim (awake n h q) [ inl b ↦ inl b | inr (j, w) ↦ inr (j, ground arith) ];
    in_order = in_order;
  }

  link-Inv :
      (i prev cur : ℕ) (b : Bool)
      → s.producers i ≡ tested prev cur b
      → Inv (record s {
        next = rewrite s.next prev (some cur);
        producers = rewrite s.producers i (linked prev b);
      })
  link-Inv i prev cur b e = record {
    ordered = ordered;
    chained = λ n m h. ground (arith, chained n m, locals i);
    passed = λ n h. ground (arith, passed n, locals i);
    gaps = λ n h q. let (j, p) = gaps n h (ground arith) in (j, ground arith);
    locals = λ j. ground (arith, locals j);
    unset = λ j n h. ground (arith, unset j n, unique i j prev);
    unique = λ j k n p q. ground (arith, unique j k n);
    held = λ n h. ground (arith, held n, unset i prev);
    awake = λ n h q. elim (Bool-cases (prev == s.tail)) [
      | inl last ↦ inr (i, ground arith)
      | inr other ↦ elim (awake n h (ground arith)) [
        | inl w ↦ inl w
        | inr (j, w) ↦ inr (j, ground arith)
      ]
    ];
    in_order = in_order;
  }

  return_true-Inv :
      (i prev : ℕ)
      → s.producers i ≡ linked prev true
      → Inv (record s { producers = rewrite s.producers i kick })
  return_true-Inv i prev e = record {
    ordered = ordered;
    chained = chained;
    passed = passed;
    gaps = λ n h q. let (j, p) = gaps n h q in (j, ground arith);
    locals = λ j. ground (arith, locals j);
    unset = λ j n h. ground (arith, unset j n);
    unique = λ j k n p q. ground (arith, unique j k n);
    held = held;
    awake = λ n h q. elim (awake n h q) [ inl b ↦ inl b | inr (j, w) ↦ inr (j, ground arith) ];
    in_order = in_order;
  }

  test_again-Inv :
      (i prev : ℕ)
      → s.producers i ≡ linked prev false
      → Inv (record s { producers = rewrite s.producers i (if s.tail == prev then kick else idle) })
  test_again-Inv i prev e = record {
    ordered = ordered;
    chained = chained;
    passed = passed;
    gaps = λ n h q. let (j, p) = gaps n h q in (j, ground arith);
    locals = λ j. ground (arith, locals j);
    unset = λ j n h. ground (arith, unset j n);
    unique = λ j k n p q. ground (arith, unique j k n);
    held = held;
    awake = λ n h q. elim (awake n h q) [ inl b ↦ inl b | inr (j, w) ↦ inr (j, ground arith) ];
    in_order = in_order;
  }

  signal-Inv :
      (i : ℕ)
      → s.producers i ≡ kick
      → Inv (record s { bytes = s.bytes + 1; producers = rewrite s.producers i idle })
  signal-Inv i e = record {
    ordered = ordered;
    chained = chained;
    passed = passed;
    gaps = λ n h q. let (j, p) = gaps n h q in (j, ground arith);
    locals = λ j. ground (arith, locals j);
    unset = λ j n h. ground (arith, unset j n);
    unique = λ j k n p q. ground (arith, unique j k n);
    held = held;
    awake = λ n h q. inl (omega arith);
    in_order = in_order;
  }

  -- The loop thread goes to another place, and all else that `Inv` reads stays.
  move_on-Inv :
      (c : Consumer) (bytes : ℕ)
      → ((n : ℕ) → c ≡ got n → s.next s.tail ≡ some n)
      → (c ≡ waiting → s.next s.tail ≡ none)
      → Inv (record s { consumer = c; bytes = bytes })
  move_on-Inv c bytes h w = record {
    ordered = ordered;
    chained = chained;
    passed = passed;
    gaps = gaps;
    locals = locals;
    unset = unset;
    unique = unique;
    held = h;
    awake = λ n e q. absurd (cc (w e));
    in_order = in_order;
  }

  advance-Inv :
      (n : ℕ)
      → s.consumer ≡ got n
      → Inv (record s { tail = n; ran = s.ran ++ s.item n ∷ []; consumer = running })
  advance-Inv n e = record {
    ordered = omega (arith, (chained s.tail n (held n e)).1, (chained s.tail n (held n e)).0);
    chained = chained;
    passed = λ k h. ground (arith, passed k, held n e, chained s.tail n);
    gaps = gaps;
    locals = locals;
    unset = unset;
    unique = unique;
    held = λ m h. cc;
    awake = λ m h q. cc;
    in_order =
        let m : n ≡ suc s.tail = (chained s.tail n (held n e)).0 in
        ap₂ (λ xs k. xs ++ s.item k ∷ []) in_order m ∙ sym (ap (items s.item) m);
  }

pub Step-Inv : {A : Type 0} {s t : State A} → Step s t → Inv s → Inv t
Step-Inv {s} (exchange i a e) v = exchange-Inv s v i a e
Step-Inv {s} (test_tail i prev cur e) v = test_tail-Inv s v i prev cur e
Step-Inv {s} (link i prev cur b e) v = link-Inv s v i prev cur b e
Step-Inv {s} (return_true i prev e) v = return_true-Inv s v i prev e
Step-Inv {s} (test_again i prev e) v = test_again-Inv s v i prev e
Step-Inv {s} (signal i e) v = signal-Inv s v i e
Step-Inv {s} (go_round e) v = move_on-Inv s v running s.bytes (λ n h. cc) (λ h. cc)
Step-Inv {s} (wake_up e h) v =
    move_on-Inv s v running (consume_notification s.bytes) (λ n h. cc) (λ h. cc)
Step-Inv {s} (pop_empty e h) v = move_on-Inv s v waiting s.bytes (λ n q. cc) (λ q. h)
Step-Inv {s} (pop_next n e h) v = move_on-Inv s v (got n) s.bytes (λ m q. cc) (λ q. cc)
Step-Inv {s} (advance n e) v = advance-Inv s v n e
