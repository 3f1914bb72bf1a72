-- ===== src/Common/Results.antt =====
-- How a call of the source ends: with a result, or in one of the ways of not giving one.
pub data Outcome (A : Type 0) : Type 0 where
  ok : A → Outcome A
  -- undefined behaviour: an access outside an object, or through a dangling pointer
  fault : Outcome A
  -- `new` threw std::bad_alloc
  bad_alloc : Outcome A
  -- an `assert` of the source failed
  aborted : Outcome A
  -- the model's bound on a loop was reached
  out_of_fuel : Outcome A

-- The next call is made if this one gave a result.
infixl 5 ◌>>=◌
abbrev pub ◌>>=◌ : {A B : Type 0} (call : Outcome A) (next : A → Outcome B) → Outcome B
ok a >>= next = next a
fault >>= next = fault
bad_alloc >>= next = bad_alloc
aborted >>= next = aborted
out_of_fuel >>= next = out_of_fuel
