-- ===== src/Mpsc/Life.antt =====
-- The life of a queue: its constructor, calls of `push` and `pop`, and its destructor.
use what_the_event.Common.{
  ℕ, suc, ◌+◌, ◌<◌, ◌≤◌, ◌≡◌, ◌⊎◌, refl, ap, subst, Option, none, some, Bool, true, false,
  Option-cases, inl, inr, Outcome, ok, bad_alloc, ◌>>=◌, List, [], ◌∷◌, ◌++◌, length, length-append,
  arith,
}
use what_the_event.Mpsc.Store.{Node, Queue, construct, push, pop, destroy}
use what_the_event.Mpsc.Kept.{
  Holds, is_nil, construct-Holds, push-Holds, pop-Holds, pop_none, destroy-heap,
}

pub data Call (A : Type 0) : Type 0 where
  put : A → Call A
  take_one : Call A

-- What a call returns: whether the queue was empty, or the item.
pub data Reply (A : Type 0) : Type 0 where
  pushed : Bool → Reply A
  popped : Option (Option A) → Reply A

module _ {A : Type 0} where
  abbrev pub none_left : List A → Bool
  none_left [] = true
  none_left (x ∷ xs) = false

  -- What a first-in first-out list of items answers.
  abbrev pub replies : List A → List (Call A) → List (Reply A)
  replies q [] = []
  replies q (put x ∷ calls) = pushed (none_left q) ∷ replies (q ++ x ∷ []) calls
  replies [] (take_one ∷ calls) = popped none ∷ replies [] calls
  replies (x ∷ q) (take_one ∷ calls) = popped (some (some x)) ∷ replies q calls

  module _ (fresh : (ℕ → Option (Node A)) → Option ℕ) where
    -- `fresh` is where `mkAligned` puts a node, or `none` when it throws.
    unfoldable pub perform : Queue A → Call A → Outcome (Reply A × Queue A)
    perform q (put x) = elim (fresh q.node) as (λ _. Outcome (Reply A × Queue A)) [
      | none ↦ bad_alloc
      | some p ↦ push q p x >>= λ r. ok (pushed r.0, r.1)
    ]
    perform q take_one = pop q >>= λ r. ok (popped r.0, r.1)

    unfoldable pub run : Queue A → List (Call A) → Outcome (List (Reply A) × Queue A)
    unfolding perform
    run q [] = ok ([], q)
    run q (call ∷ calls) = do r ← perform q call; rest ← run r.1 calls; ok (r.0 ∷ rest.0, rest.1)

    -- The replies, and the heap in the end.
    unfoldable pub life :
        ℕ → (ℕ → Option (Node A)) → List (Call A) → Outcome (List (Reply A) × (ℕ → Option (Node A)))
    unfolding run
    life fuel heap calls =
        elim (fresh heap) as (λ _. Outcome (List (Reply A) × (ℕ → Option (Node A)))) [
          | none ↦ bad_alloc
          | some p ↦ (do
            r ← run (construct heap p) calls
            after ← destroy fuel r.1
            ok (r.0, after))
        ]

    module _ (heap : ℕ → Option (Node A))
        (free : (m : ℕ → Option (Node A)) (p : ℕ) → fresh m ≡ some p → m p ≡ none) where
      abbrev items : List (ℕ × A) → List A
      items [] = []
      items ((p, x) ∷ xs) = x ∷ items xs

      -- Some node could not be had.
      abbrev Refused : Type 0
      Refused = (m : ℕ → Option (Node A)) × (fresh m ≡ none)

      abbrev Answered : Outcome (List (Reply A) × Queue A) → List (Reply A) → ℕ → Type 0
      Answered o replied n =
          (q : Queue A) × (d : Option A) × (xs : List (ℕ × A)) × (o ≡ ok (replied, q))
          × Holds heap q d xs
          × (length xs ≤ n)

      items-append :
          (xs : List (ℕ × A)) (p : ℕ) (y : A) → items (xs ++ (p, y) ∷ []) ≡ items xs ++ y ∷ []
      items-append [] p y = refl
      items-append ((b, x) ∷ xs) p y = ap (◌∷◌ x) (items-append xs p y)

      none_left-items : (xs : List (ℕ × A)) → is_nil heap xs ≡ none_left (items xs)
      none_left-items [] = refl
      none_left-items ((b, x) ∷ xs) = refl

      -- The rest of a run, put behind the reply to its first call.
      after_reply :
          (q q' : Queue A) (call : Call A) (x : Reply A) (calls : List (Call A))
          (replied : List (Reply A)) (n k : ℕ)
          → perform q call ≡ ok (x, q')
          → ((run q' calls ≡ bad_alloc) × Refused) ⊎ Answered (run q' calls) replied k
          → k ≤ n
          → ((run q (call ∷ calls) ≡ bad_alloc) × Refused)
            ⊎ Answered (run q (call ∷ calls)) (x ∷ replied) n
      unfolding run
      after_reply q q' call x calls replied n k step (inl (e, refused)) le =
          inl (rw step (rw e refl), refused)
      after_reply q q' call x calls replied n k step (inr (q2, d, xs, e, h, shorter)) le =
          inr (q2, d, xs, rw step (rw e refl), h, omega arith)

      run-replies :
          (calls : List (Call A)) (q : Queue A) (d : Option A) (xs : List (ℕ × A))
          → Holds heap q d xs
          → ((run q calls ≡ bad_alloc) × Refused)
            ⊎ Answered (run q calls) (replies (items xs) calls) (length xs + length calls)
      unfolding run perform
      run-replies [] q d xs h = inr (q, d, xs, refl, h, omega arith)
      run-replies (put x ∷ calls) q d xs h = elim (Option-cases (fresh q.node)) [
        | inl e ↦ inl (ground (arith, e), (q.node, e))
        | inr (p, e) ↦
            let r = push-Holds heap q d xs p x h (free q.node p e) in
            let step : perform q (put x) ≡ ok (pushed (none_left (items xs)), r.0) =
              ground (arith, e, r.1, none_left-items xs) in
            after_reply q r.0 (put x) (pushed (none_left (items xs))) calls
              (replies (items xs ++ x ∷ []) calls) (length xs + suc (length calls))
              (length (xs ++ (p, x) ∷ []) + length calls) step
              (subst
                (λ is.
                  ((run r.0 calls ≡ bad_alloc) × Refused)
                  ⊎ Answered (run r.0 calls) (replies is calls)
                      (length (xs ++ (p, x) ∷ []) + length calls))
                (items-append xs p x) (run-replies calls r.0 d (xs ++ (p, x) ∷ []) r.2))
              (omega (arith, length-append xs ((p, x) ∷ [])))
      ]
      run-replies (take_one ∷ calls) q d [] h =
          let e = pop_none heap q d h in
          after_reply q q take_one (popped none) calls (replies [] calls) (0 + suc (length calls))
            (0 + length calls) (rw e refl) (run-replies calls q d [] h) (omega arith)
      run-replies (take_one ∷ calls) q d ((b, x) ∷ xs) h =
          let r = pop-Holds heap q d b x xs h in
          after_reply q r.0 take_one (popped (some (some x))) calls (replies (items xs) calls)
            (suc (length xs) + suc (length calls)) (length xs + length calls) (rw (r.1) refl)
            (run-replies calls r.0 none xs r.2) (omega arith)

      -- From its construction on a queue answers `push` and `pop` like a first-in first-out list:
      -- `push` tells whether the list was empty, and `pop` gives each item once. No call and no step
      -- of the destructor reads a node that is not on the heap, and when the destructor is done the
      -- heap is what it was before. The one other end is the exception of an allocation, and then
      -- `fresh` refuses some heap. `free` says that an allocation returns an address not in use; the
      -- destructor has fuel for one more round than there were calls.
      pub life-replies :
          (calls : List (Call A)) (fuel : ℕ)
          → length calls < fuel
          → ((life fuel heap calls ≡ bad_alloc) × Refused)
            ⊎ (after : ℕ → Option (Node A)) × (life fuel heap calls ≡ ok (replies [] calls, after))
              × ((p : ℕ) → after p ≡ heap p)
      unfolding life
      life-replies calls fuel enough = elim (Option-cases (fresh heap)) [
        | inl e ↦ inl (ground (arith, e), (heap, e))
        | inr (p, e) ↦
            elim (run-replies calls (construct heap p) none []
              (construct-Holds heap p (free heap p e))) [
                | inl (thrown, refused) ↦ inl (ground (arith, e, thrown), refused)
                | inr (q, d, xs, ran, h, shorter) ↦
                    let r = destroy-heap heap fuel q d xs h (omega arith) in
                    inr (r.0, ground (arith, e, ran, r.1), r.2)
              ]
      ]
