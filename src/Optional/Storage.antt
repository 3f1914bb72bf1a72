-- ===== src/Optional/Storage.antt =====
-- `Optional<T>` of src/optional.h, with the number of objects of type `T` that were constructed in its
-- storage and of those that were destroyed there.
use what_the_event.Common.{
  ℕ, suc, Bool, true, false, not, ◌&&◌, Option, none, some, Outcome, ok, fault, if◌then◌else◌,
}

-- `engaged_` and `value_`, which holds no object, or one that need not be alive any more.
pub record Optional (A : Type 0) : Type 0 where
  pub engaged : Bool
  pub storage : Option A
  pub made : ℕ
  pub ended : ℕ

-- `Optional()`
unfoldable pub nothing : {A : Type 0} → Optional A
nothing = record { engaged = false; storage = none; made = 0; ended = 0 }

-- What `value` does: it gives the object, or throws std::logic_error.
pub data Answer (A : Type 0) : Type 0 where
  got : A → Answer A
  threw : Answer A

module _ {A : Type 0} where
  -- placement `new` in the storage
  unfoldable pub construct : Optional A → A → Optional A
  construct o a = record { engaged = true; storage = some a; made = suc o.made; ended = o.ended }

  -- `Optional(T const &)` and `Optional(T &&)`
  unfoldable pub just : A → Optional A
  unfolding construct nothing
  just a = construct nothing a

  -- `clear`, which the destructor calls
  unfoldable pub clear : Optional A → Optional A
  clear o = if o.engaged then record o { engaged = false; ended = suc o.ended } else o

  -- The object in the storage of `src`, which must be there.
  unfoldable pub construct_from : Optional A → Optional A → Outcome (Optional A)
  unfolding construct
  construct_from o src = elim src.storage [ none ↦ fault | some a ↦ ok (construct o a) ]

  -- `operator=`
  unfoldable pub assign : Optional A → Optional A → Outcome (Optional A)
  unfolding construct_from clear
  assign o src =
      if not o.engaged && not src.engaged
      then ok o
      else (if o.engaged && not src.engaged then ok (clear o) else construct_from o src)

  -- `Optional(Optional &&)`
  unfoldable pub move_from : Optional A → Outcome (Optional A)
  unfolding construct_from nothing
  move_from src = if src.engaged then construct_from nothing src else ok nothing

  unfoldable pub value : Optional A → Outcome (Answer A)
  value o =
      let object : Outcome (Answer A) = elim o.storage [ none ↦ fault | some a ↦ ok (got a) ] in
      if not o.engaged then ok threw else object
