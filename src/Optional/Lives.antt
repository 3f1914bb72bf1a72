-- ===== src/Optional/Lives.antt =====
-- What assignments leave in an Optional, and which objects are never destroyed.
use what_the_event.Common.{
  ℕ, suc, ◌+◌, ◌≡◌, refl, subst, Bool, true, false, ◌&&◌, Option, none, some, Outcome, ok, ◌>>=◌,
  List, [], ◌∷◌, if◌then◌else◌, arith,
}
use what_the_event.Optional.Storage.{
  Optional, Answer, got, threw, nothing, just, construct, construct_from, clear, assign, value,
}

module _ {A : Type 0} where
  -- Assignments in turn, from an empty Optional or from one with a value.
  unfoldable pub assign_all : Optional A → List (Option A) → Outcome (Optional A)
  assign_all o [] = ok o
  assign_all o (a ∷ more) = do
    o' ← assign o (elim a as (λ _. Optional A) [ none ↦ nothing | some x ↦ just x ])
    assign_all o' more

  -- What is there after the assignments.
  abbrev pub latest : Option A → List (Option A) → Option A
  latest a [] = a
  latest a (b ∷ more) = latest b more

  abbrev pub is_some : Option A → Bool
  is_some none = false
  is_some (some a) = true

  -- How often a value was assigned where there was one.
  abbrev pub overwrites : Option A → List (Option A) → ℕ
  overwrites a [] = 0
  overwrites a (b ∷ more) = (if is_some a && is_some b then 1 else 0) + overwrites b more

  -- The Optional holds this; `lost` objects can no longer be destroyed.
  pub record Has (o : Optional A) (a : Option A) (lost : ℕ) : Type 0 where
    pub flag : o.engaged ≡ is_some a
    pub kept : (x : A) → a ≡ some x → o.storage ≡ some x
    pub tally : o.made ≡ o.ended + lost + (if is_some a then 1 else 0)

  nothing-Has : Has nothing none 0
  unfolding nothing
  nothing-Has = record { flag = refl; kept = λ x e. ground (arith, e); tally = refl }

  assign-Has :
      (o : Optional A) (a b : Option A) (lost : ℕ)
      → Has o a lost
      → (o' : Optional A) × (assign o
            (elim b as (λ _. Optional A) [ none ↦ nothing | some x ↦ just x ])
          ≡ ok o')
        × Has o' b (lost + (if is_some a && is_some b then 1 else 0))
  unfolding assign construct_from construct clear nothing just
  assign-Has o none none lost h = (
    o,
    ground (arith, h.flag),
    record { flag = h.flag; kept = h.kept; tally = omega (arith, h.tally) },
  )
  assign-Has o none (some x) lost h = (
    construct o x,
    ground (arith, h.flag),
    record { flag = refl; kept = λ y e. e; tally = omega (arith, h.tally) },
  )
  assign-Has o (some a) none lost h = (
    record o { engaged = false; ended = suc o.ended },
    ground (arith, h.flag),
    record { flag = refl; kept = λ y e. ground (arith, e); tally = omega (arith, h.tally) },
  )
  assign-Has o (some a) (some x) lost h = (
    construct o x,
    ground (arith, h.flag),
    record { flag = refl; kept = λ y e. e; tally = omega (arith, h.tally) },
  )

  assign_all-Has :
      (o : Optional A) (a : Option A) (lost : ℕ) (more : List (Option A))
      → Has o a lost
      → (o' : Optional A) × (assign_all o more ≡ ok o')
        × Has o' (latest a more) (lost + overwrites a more)
  unfolding assign_all
  assign_all-Has o a lost [] h = (o, refl, subst (Has o a) (omega arith) h)
  assign_all-Has o a lost (b ∷ more) h =
      let r = assign-Has o a b lost h in
      let rest = assign_all-Has r.0 b (lost + (if is_some a && is_some b then 1 else 0)) more r.2 in
      (rest.0, rw (r.1) rest.1, subst (Has rest.0 (latest b more)) (omega arith) rest.2)

  -- What `value` gives for what is there.
  abbrev pub answer : Option A → Answer A
  answer none = threw
  answer (some x) = got x

  value-Has : (o : Optional A) (a : Option A) (lost : ℕ) → Has o a lost → value o ≡ ok (answer a)
  unfolding value
  value-Has o none lost h = ground (arith, h.flag)
  value-Has o (some x) lost h = ground (arith, h.flag, h.kept x refl)

  -- Assignments in turn to an empty Optional, and its destructor. No assignment reads an object that is
  -- not there; `value` gives what was assigned last, and throws if that was empty; afterwards as many
  -- objects were never destroyed as values were assigned while there was one.
  pub overwrites_leak :
      (more : List (Option A))
      → (o : Optional A) × (assign_all nothing more ≡ ok o)
        × (value o ≡ ok (answer (latest none more)))
        × ((clear o).made ≡ (clear o).ended + overwrites none more)
  unfolding clear
  overwrites_leak more =
      let r = assign_all-Has nothing none 0 more nothing-Has in
      (
        r.0,
        r.1,
        value-Has r.0 (latest none more) (0 + overwrites none more) r.2,
        cleared r.0 (latest none more) (overwrites none more)
            (subst (Has r.0 (latest none more)) (omega arith) r.2),
      )
    where
      cleared :
          (o : Optional A) (a : Option A) (lost : ℕ)
          → Has o a lost
          → (clear o).made ≡ (clear o).ended + lost
      cleared o none lost h = rw (h.flag, clear) (omega (arith, h.tally))
      cleared o (some a) lost h = rw (h.flag, clear) (omega (arith, h.tally))
