-- ===== src/Mpsc/Chain.antt =====
-- The list that the nodes of a queue form, and what `push` and `pop` do to it.
use what_the_event.Common.{
  ℕ, ◌≡◌, refl, sym, ap, ◌∙◌, Option, none, some, true, false, ◌==◌, ==_refl, ==→eq, Bool-cases,
  inl, inr, List, [], ◌∷◌, ◌++◌, has, AllDifferent, has-apart, arith,
}
use what_the_event.Mpsc.Store.{Node, stored}

module _ {A : Type 0} where
  -- From the node at `a`, with this data, the `next` pointers lead through these nodes to `h`.
  abbrev pub Links : (ℕ → Option (Node A)) → ℕ → Option A → List (ℕ × A) → ℕ → Type 0
  Links m a d [] h = (a ≡ h) × (m a ≡ some (record { item = d; next = none }))
  Links m a d ((b, x) ∷ more) h =
      (m a ≡ some (record { item = d; next = some b })) × Links m b (some x) more h

  abbrev pub places : List (ℕ × A) → List ℕ
  places [] = []
  places ((b, x) ∷ more) = b ∷ places more

  pub Links-frame :
      (m m' : ℕ → Option (Node A)) (a h : ℕ) (d : Option A) (xs : List (ℕ × A))
      → ((q : ℕ) → has q (a ∷ places xs) ≡ true → m' q ≡ m q)
      → Links m a d xs h
      → Links m' a d xs h
  Links-frame m m' a h d [] same l = (l.0, same a (ground (arith, ==_refl a)) ∙ l.1)
  Links-frame m m' a h d ((b, x) ∷ more) same l = (
    same a (ground (arith, ==_refl a)) ∙ l.0,
    Links-frame m m' b h (some x) more (λ q e. same q (ground (arith, e))) l.1,
  )

  -- The last node.
  pub Links-last :
      (m : ℕ → Option (Node A)) (a h : ℕ) (d : Option A) (xs : List (ℕ × A))
      → Links m a d xs h
      → (has h (a ∷ places xs) ≡ true)
        × (e : Option A) × (m h ≡ some (record { item = e; next = none }))
  Links-last m a h d [] l =
      (ground (arith, ap (λ q. q == a) (sym l.0), ==_refl a), d, ap m (sym l.0) ∙ l.1)
  Links-last m a h d ((b, x) ∷ more) l =
      let r = Links-last m b h (some x) more l.1 in (ground (arith, r.0), r.1, r.2)

  -- Every node of the list is on the heap.
  pub Links-live :
      (m : ℕ → Option (Node A)) (a h q : ℕ) (d : Option A) (xs : List (ℕ × A))
      → Links m a d xs h
      → m q ≡ none
      → has q (a ∷ places xs) ≡ false
  Links-live m a h q d [] l free = elim (Bool-cases (q == a)) [
    | inl e ↦ absurd (ground (arith, ap m (==→eq q a e), l.1, free))
    | inr e ↦ ground (arith, e)
  ]
  Links-live m a h q d ((b, x) ∷ more) l free = elim (Bool-cases (q == a)) [
    | inl e ↦ absurd (ground (arith, ap m (==→eq q a e), l.0, free))
    | inr e ↦ ground (arith, e, Links-live m b h q (some x) more l.1 free)
  ]

  -- The node of `y` is put at `p` and linked behind the last one, at `h`.
  abbrev pub linked : (ℕ → Option (Node A)) → ℕ → ℕ → Option A → A → ℕ → Option (Node A)
  linked m p h e y =
      stored (stored m p (some (record { item = some y; next = none }))) h
        (some (record { item = e; next = some p }))

  pub live_apart :
      (m : ℕ → Option (Node A)) (q p : ℕ) (n : Node A)
      → m q ≡ some n
      → m p ≡ none
      → (q == p) ≡ false
  live_apart m q p n here free = elim (Bool-cases (q == p)) [
    | inl e ↦ absurd (ground (arith, ap m (==→eq q p e), here, free))
    | inr e ↦ e
  ]

  pub Links-push :
      (m : ℕ → Option (Node A)) (a h p : ℕ) (d e : Option A) (xs : List (ℕ × A)) (y : A)
      → Links m a d xs h
      → AllDifferent (a ∷ places xs)
      → m p ≡ none
      → m h ≡ some (record { item = e; next = none })
      → Links (linked m p h e y) a d (xs ++ (p, y) ∷ []) p
  Links-push m a h p d e [] y l apart free last =
      let same : ◌≡◌ {A = Option (Node A)} (some (record { item = e; next = none }))
          (some (record { item = d; next = none })) =
        sym last ∙ ap m (sym l.0) ∙ l.1 in
      (
        ground (arith, ap (λ q. q == a) (sym l.0), ==_refl a, same),
        (refl, ground (arith, live_apart m h p _ last free, ==_refl p)),
      )
  Links-push m a h p d e ((b, x) ∷ more) y l apart free last = (
    ground (
      arith,
      l.0,
      has-apart a (b ∷ places more) h apart.0 (Links-last m b h (some x) more l.1).0,
      live_apart m a p _ l.0 free,
    ),
    Links-push m b h p (some x) e more y l.1 apart.1 free last,
  )

  -- The next of the first node.
  abbrev pub first_next : List (ℕ × A) → Option ℕ
  first_next [] = none
  first_next ((b, x) ∷ more) = some b

  pub Links-first :
      (m : ℕ → Option (Node A)) (a h : ℕ) (d : Option A) (xs : List (ℕ × A))
      → Links m a d xs h
      → m a ≡ some (record { item = d; next = first_next xs })
  Links-first m a h d [] l = l.1
  Links-first m a h d ((b, x) ∷ more) l = l.0

  -- Other data in the first node.
  pub Links-changed :
      (m m' : ℕ → Option (Node A)) (a h : ℕ) (d e : Option A) (xs : List (ℕ × A))
      → Links m a d xs h
      → m' a ≡ some (record { item = e; next = first_next xs })
      → ((q : ℕ) → has q (places xs) ≡ true → m' q ≡ m q)
      → Links m' a e xs h
  Links-changed m m' a h d e [] l first same = (l.0, first)
  Links-changed m m' a h d e ((b, x) ∷ more) l first same =
      (first, Links-frame m m' b h (some x) more same l.1)
