-- ===== src/Optional/Examples.antt =====
-- Three assignments, of which one overwrites a value.
use what_the_event.Common.{ℕ, ◌+◌, ◌≡◌, none, some, ok, List, [], ◌∷◌, Option}
use what_the_event.Optional.Storage.{Optional, got, nothing, clear, value}
use what_the_event.Optional.Lives.{assign_all, overwrites_leak}

abbrev assigned : List (Option ℕ)
assigned = some 4 ∷ some 5 ∷ none ∷ some 6 ∷ []

overwrites_leak_example :
    (o : Optional ℕ) × (assign_all nothing assigned ≡ ok o)
    × (value o ≡ ok (got 6))
    × ((clear o).made ≡ (clear o).ended + 1)
overwrites_leak_example = overwrites_leak assigned
