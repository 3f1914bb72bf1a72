-- ===== src/Buffer/Ring/Span.antt =====
-- Chains of linked nodes, and the ring that they form with a head.
use what_the_event.Common.{
  has, AllDifferent, has-apart, ℕ, ◌≡◌, sym, ap, ◌∙◌, List, [], ◌∷◌, ◌++◌, true, false, ◌==◌, arith,
}
use what_the_event.Buffer.Ring.Links.{Links}

-- From `a` the links lead through `xs`, the last of which (or `a`) is `z`, and back.
abbrev pub Span : Links → ℕ → List ℕ → ℕ → Type 0
Span l a [] z = a ≡ z
Span l a (x ∷ xs) z = (l.next a ≡ x) × (l.prev x ≡ a) × Span l x xs z

-- From the head the links lead round through `xs`; all these nodes are different.
pub record IsRing (l : Links) (head : ℕ) (xs : List ℕ) : Type 0 where
  pub span : Span l head xs (l.prev head)
  pub closed : l.next (l.prev head) ≡ head
  pub different : AllDifferent (head ∷ xs)

-- The last node of a chain is one of its nodes.
pub has-last : (l : Links) (a : ℕ) (xs : List ℕ) (z : ℕ) → Span l a xs z → has z (a ∷ xs) ≡ true
has-last l a [] z e = ground (arith, e)
has-last l a (x ∷ xs) z s = ground (arith, has-last l x xs z s.2)

-- A chain stays when the links from its nodes but the last, and those back to its nodes, stay.
pub Span-frame :
    (l l' : Links) (a : ℕ) (xs : List ℕ) (z : ℕ)
    → Span l a xs z
    → AllDifferent (a ∷ xs)
    → ((q : ℕ) → has q (a ∷ xs) ≡ true → (q == z) ≡ false → l'.next q ≡ l.next q)
    → ((q : ℕ) → has q xs ≡ true → l'.prev q ≡ l.prev q)
    → Span l' a xs z
Span-frame l l' a [] z e d n p = e
Span-frame l l' a (x ∷ xs) z s d n p = (
  n a (ground arith) (has-apart a (x ∷ xs) z d.0 (has-last l x xs z s.2)) ∙ s.0,
  p x (ground arith) ∙ s.1,
  Span-frame l l' x xs z s.2 d.1 (λ q h. n q (ground (arith, h))) (λ q h. p q (ground (arith, h))),
)

-- Two chains with a link between them.
pub Span-join :
    (l : Links) (a : ℕ) (xs : List ℕ) (z f : ℕ) (ys : List ℕ) (t : ℕ)
    → Span l a xs z
    → l.next z ≡ f
    → l.prev f ≡ z
    → Span l f ys t
    → Span l a (xs ++ f ∷ ys) t
Span-join l a [] z f ys t e n p s = (ap l.next e ∙ n, p ∙ sym e, s)
Span-join l a (x ∷ xs) z f ys t (i, j, r) n p s = (i, j, Span-join l x xs z f ys t r n p s)
