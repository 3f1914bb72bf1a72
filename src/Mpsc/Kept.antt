-- ===== src/Mpsc/Kept.antt =====
-- What `push`, `pop` and the destructor make of a queue, and of the heap around it.
use what_the_event.Common.{
  ℕ, zero, suc, ◌<◌, ◌≡◌, refl, sym, ap, ◌∙◌, subst, Option, none, some, Bool, true, false, ◌||◌,
  if◌then◌else◌, ◌==◌, ==_refl, ==→eq, Bool-cases, inl, inr, ok, List, [], ◌∷◌, ◌++◌, length, has,
  AllDifferent, has-apart, has-append, arith,
}
use what_the_event.Mpsc.Store.{Node, Queue, stored, construct, push, pop, advance, destroy}
use what_the_event.Mpsc.Chain.{
  Links, places, linked, Links-last, Links-live, Links-push, Links-first, Links-changed, first_next,
  live_apart,
}

module _ {A : Type 0} (heap : ℕ → Option (Node A)) where
  -- The queue has these items at these places, and the data `d` in its first node. Its nodes are on the
  -- heap in addition to what was there before.
  pub record Holds (q : Queue A) (d : Option A) (xs : List (ℕ × A)) : Type 0 where
    pub links : Links q.node q.tail d xs q.head
    pub different : AllDifferent (q.tail ∷ places xs)
    pub outside : (p : ℕ) → has p (q.tail ∷ places xs) ≡ false → q.node p ≡ heap p
    pub added : (p : ℕ) → has p (q.tail ∷ places xs) ≡ true → heap p ≡ none

  pub construct-Holds : (p : ℕ) → heap p ≡ none → Holds (construct heap p) none []
  unfolding construct
  construct-Holds p free = record {
    links = (refl, ground (arith, ==_refl p));
    different = (refl, tt);
    outside = λ q e. ground (arith, e);
    added = λ q e. ap heap (==→eq q p (ground (arith, e))) ∙ free;
  }

  abbrev pub is_nil : List (ℕ × A) → Bool
  is_nil [] = true
  is_nil (x ∷ xs) = false

  places-append :
      (xs : List (ℕ × A)) (p : ℕ) (y : A) → places (xs ++ (p, y) ∷ []) ≡ places xs ++ p ∷ []
  places-append [] p y = refl
  places-append ((b, x) ∷ xs) p y = ap (◌∷◌ b) (places-append xs p y)

  AllDifferent-last :
      (xs : List ℕ) (p : ℕ) → AllDifferent xs → has p xs ≡ false → AllDifferent (xs ++ p ∷ [])
  AllDifferent-last [] p d h = (refl, tt)
  AllDifferent-last (x ∷ xs) p d h = (
    has-append x xs (p ∷ []) ∙ ground (arith, d.0, h),
    AllDifferent-last xs p d.1 (ground (arith, h)),
  )

  has-last : (q p : ℕ) (xs : List ℕ) → has q (xs ++ p ∷ []) ≡ (has q xs || (q == p))
  has-last q p xs = has-append q xs (p ∷ []) ∙ ground arith

  has_more :
      (xs : List (ℕ × A)) (a p r : ℕ) (y : A)
      → has r (a ∷ places (xs ++ (p, y) ∷ [])) ≡ (has r (a ∷ places xs) || (r == p))
  has_more xs a p r y =
      ap (λ ps. has r (a ∷ ps)) (places-append xs p y) ∙ has-last r p (a ∷ places xs)

  told :
      (q : Queue A) (d : Option A) (xs : List (ℕ × A))
      → Holds q d xs
      → (if q.head == q.tail then true else (q.tail == q.head)) ≡ is_nil xs
  told q d [] h = ground (arith, h.links.0)
  told q d ((b, x) ∷ more) h = ground (
    arith,
    has-apart q.tail (b ∷ places more) q.head h.different.0
        (Links-last q.node b q.head (some x) more h.links.1).0,
  )

  pub push-Holds :
      (q : Queue A) (d : Option A) (xs : List (ℕ × A)) (p : ℕ) (y : A)
      → Holds q d xs
      → q.node p ≡ none
      → (q' : Queue A) × (push q p y ≡ ok (is_nil xs, q')) × Holds q' d (xs ++ (p, y) ∷ [])
  unfolding push
  push-Holds q d xs p y h free =
      let (inside, e, last) = Links-last q.node q.tail q.head d xs h.links in
      let fresh = Links-live q.node q.tail q.head p d xs h.links free in
      let apart = live_apart q.node q.head p _ last free in
      (
        record { node = linked q.node p q.head e y; head = p; tail = q.tail },
        ground (arith, apart, last, told q d xs h),
        record {
          links = Links-push q.node q.tail q.head p d e xs y h.links h.different free last;
          different =
              subst (λ ps. AllDifferent (q.tail ∷ ps)) (sym (places-append xs p y))
                (AllDifferent-last (q.tail ∷ places xs) p h.different fresh);
          outside = λ r o.
              let out = sym (has_more xs q.tail p r y) ∙ o in
              let old : has r (q.tail ∷ places xs) ≡ false = ground (arith, out) in
              ground
                (arith, out, has-apart r (q.tail ∷ places xs) q.head old inside, h.outside r old);
          added = λ r o. elim (Bool-cases (r == p)) [
            | inl same ↦ ap heap (==→eq r p same) ∙ sym (h.outside p fresh) ∙ free
            | inr other ↦ h.added r (ground (arith, sym (has_more xs q.tail p r y) ∙ o, other))
          ];
        },
      )

  -- The list without its first node, which was freed.
  advance-Holds :
      (q : Queue A) (d : Option A) (b : ℕ) (x : A) (more : List (ℕ × A))
      → Holds q d ((b, x) ∷ more)
      → (q' : Queue A) × (advance q b ≡ ok (some (some x), q')) × Holds q' none more
  unfolding advance
  advance-Holds q d b x more h =
      let now : ℕ → Option (Node A) =
        stored (stored q.node q.tail none) b
          (some (record { item = none; next = first_next more })) in
      let first = Links-first q.node b q.head (some x) more h.links.1 in
      (
        record { node = now; head = q.head; tail = b },
        ground (arith, first, h.different.0),
        record {
          links =
              Links-changed q.node now b q.head (some x) none more h.links.1
                (ground (arith, ==_refl b))
                (λ r e. ground (
                  arith,
                  has-apart b (places more) r h.different.1.0 e,
                  has-apart q.tail (b ∷ places more) r h.different.0 (ground (arith, e)),
                ));
          different = h.different.1;
          outside = λ r o. elim (Bool-cases (r == q.tail)) [
            | inl freed ↦ ground (arith, o, freed, h.added r (ground (arith, freed)))
            | inr other ↦ ground (arith, o, other, h.outside r (ground (arith, o, other)))
          ];
          added = λ r o. h.added r (ground (arith, o));
        },
      )

  pub pop-Holds :
      (q : Queue A) (d : Option A) (b : ℕ) (x : A) (more : List (ℕ × A))
      → Holds q d ((b, x) ∷ more)
      → (q' : Queue A) × (pop q ≡ ok (some (some x), q')) × Holds q' none more
  unfolding pop
  pop-Holds q d b x more h =
      let r = advance-Holds q d b x more h in (r.0, ground (arith, h.links.0, r.1), r.2)

  pub pop_none : (q : Queue A) (d : Option A) → Holds q d [] → pop q ≡ ok (none, q)
  unfolding pop
  pop_none q d h = ground (arith, h.links.1)

  -- The destructor pops what is left and frees the last node.
  pub destroy-heap :
      (f : ℕ) (q : Queue A) (d : Option A) (xs : List (ℕ × A))
      → Holds q d xs
      → length xs < f
      → (after : ℕ → Option (Node A)) × (destroy f q ≡ ok after) × ((p : ℕ) → after p ≡ heap p)
  unfolding destroy
  destroy-heap zero q d xs h k = absurd (omega arith)
  destroy-heap (suc f) q d [] h k =
      let last : q.node q.head ≡ some (record { item = d; next = none }) =
        ap q.node (sym h.links.0) ∙ h.links.1 in
      (
        stored q.node q.head none,
        rw (pop_none q d h) (rw last refl),
        λ p. elim (Bool-cases (p == q.tail)) [
          | inl here ↦ ground (arith, here, h.links.0, h.added p (ground (arith, here)))
          | inr other ↦ ground (arith, other, h.links.0, h.outside p (ground (arith, other)))
        ],
      )
  destroy-heap (suc f) q d ((b, x) ∷ more) h k =
      let r = pop-Holds q d b x more h in
      let rest = destroy-heap f r.0 none more r.2 (omega arith) in (rest.0, rw (r.1) rest.1, rest.2)
