-- ===== src/Mpsc/Examples.antt =====
-- Runs of the queue on small inputs.
use what_the_event.Common.{
  ℕ, ◌≡◌, ◌⊎◌, refl, sym, ◌∙◌, Option, none, some, Bool, true, false, if◌then◌else◌, Outcome, ok,
  bad_alloc, List, [], ◌∷◌, Bool-cases, inl, inr, ap, arith,
}
use what_the_event.Mpsc.Store.{Node, construct, push, pop, advance, destroy}
use what_the_event.Mpsc.Life.{
  Call, put, take_one, Reply, pushed, popped, replies, perform, run, life, life-replies,
}

abbrev is_free : Option (Node ℕ) → Bool
is_free none = true
is_free (some n) = false

-- An allocator of two cells; the address of a freed node is used again.
abbrev two_cells : (ℕ → Option (Node ℕ)) → Option ℕ
two_cells m = if is_free (m 1) then some 1 else if is_free (m 2) then some 2 else none

abbrev no_nodes : ℕ → Option (Node ℕ)
no_nodes p = none

is_free-none : (n : Option (Node ℕ)) → is_free n ≡ true → n ≡ none
is_free-none none e = refl
is_free-none (some n) e = ground (arith, e)

two_cells-free : (m : ℕ → Option (Node ℕ)) (p : ℕ) → two_cells m ≡ some p → m p ≡ none
two_cells-free m p e = elim (Bool-cases (is_free (m 1))) [
  | inl one ↦ let here : 1 ≡ p = ground (arith, e, one) in ap m (sym here) ∙ is_free-none (m 1) one
  | inr other ↦ elim (Bool-cases (is_free (m 2))) [
    | inl two ↦
        let here : 2 ≡ p = ground (arith, e, other, two) in ap m (sym here) ∙ is_free-none (m 2) two
    | inr full ↦ absurd (ground (arith, e, other, full))
  ]
]

abbrev calls : List (Call ℕ)
calls = put 7 ∷ take_one ∷ put 8 ∷ take_one ∷ take_one ∷ []

abbrev answered : Outcome (List (Reply ℕ) × (ℕ → Option (Node ℕ))) → Option (List (Reply ℕ))
answered (ok r) = some r.0
answered o = none

-- The second item is put where the first node was.
life-answered :
    answered (life two_cells 9 no_nodes calls)
    ≡ some (
        pushed true
        ∷ popped (some (some 7))
        ∷ pushed true
        ∷ popped (some (some 8))
        ∷ popped none
        ∷ [])
unfolding life run perform construct push pop advance destroy
life-answered = refl

-- A third node is not to be had.
life-refused : life two_cells 9 no_nodes (put 7 ∷ put 8 ∷ []) ≡ bad_alloc
unfolding life run perform construct push pop advance destroy
life-refused = refl

life-replies_example :
    ((life two_cells 6 no_nodes calls ≡ bad_alloc)
      × ((m : ℕ → Option (Node ℕ)) × (two_cells m ≡ none)))
    ⊎ (after : ℕ → Option (Node ℕ)) × (life two_cells 6 no_nodes calls
        ≡ ok (replies [] calls, after))
      × ((p : ℕ) → after p ≡ no_nodes p)
life-replies_example = life-replies two_cells no_nodes two_cells-free calls 6 (omega arith)
