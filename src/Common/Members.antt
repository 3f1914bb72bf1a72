-- ===== src/Common/Members.antt =====
-- Which numbers a list has, and lists without repetition.
use Prim.Native.Nat.{ℕ}
use mathlib.Core.Path.{◌≡◌, refl, ap, ◌∙◌}
use mathlib.Core.Logic.{inl, inr}
use mathlib.Core.Bool.{Bool, true, false, ◌||◌}
use mathlib.Core.List.{List, [], ◌∷◌, ◌++◌}
use native.Mathlib.Omega.{arith}
use what_the_event.Common.Tests.{◌==◌, ==→eq, Bool-cases}

abbrev pub has : ℕ → List ℕ → Bool
has q [] = false
has q (x ∷ xs) = (q == x) || has q xs

-- No number stands twice.
abbrev pub AllDifferent : List ℕ → Type 0
AllDifferent [] = Unit
AllDifferent (x ∷ xs) = (has x xs ≡ false) × AllDifferent xs

pub has-append : (q : ℕ) (xs ys : List ℕ) → has q (xs ++ ys) ≡ (has q xs || has q ys)
has-append q [] ys = refl
has-append q (x ∷ xs) ys = ground (arith, has-append q xs ys)

pub has-apart :
    (q : ℕ) (ys : List ℕ) (r : ℕ) → has q ys ≡ false → has r ys ≡ true → (q == r) ≡ false
has-apart q ys r out inside = elim (Bool-cases (q == r)) [
  | inl same ↦ ground (arith, out, inside, ap (λ a. has a ys) (==→eq q r same))
  | inr apart ↦ apart
]

-- What all-different numbers say of two parts.
pub AllDifferent-parts :
    (xs ys : List ℕ)
    → AllDifferent (xs ++ ys)
    → AllDifferent xs × AllDifferent ys × ((q : ℕ) → has q xs ≡ true → has q ys ≡ false)
AllDifferent-parts [] ys d = (tt, d, λ q h. ground (arith, h))
AllDifferent-parts (x ∷ xs) ys d =
    let r = AllDifferent-parts xs ys d.1 in
    (
      (ground (arith, d.0, has-append x xs ys), r.0),
      r.1,
      λ q h. elim (Bool-cases (q == x)) [
        | inl same ↦ ap (λ a. has a ys) (==→eq q x same) ∙ ground (arith, d.0, has-append x xs ys)
        | inr other ↦ r.2 q (ground (arith, h, other))
      ],
    )
