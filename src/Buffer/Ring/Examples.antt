-- ===== src/Buffer/Ring/Examples.antt =====
-- Two rings on a small store, and the theorems applied to them.
use what_the_event.Common.{ℕ, refl, [], ◌∷◌, some, ◌==◌, if◌then◌else◌}
use what_the_event.Buffer.Extent.{InternalExtent}
use what_the_event.Buffer.Impl.{BufferImpl, append_buffer}
use what_the_event.Buffer.Ring.Chain.{Store, Handle, append_ring, Holds, Left}
use what_the_event.Buffer.Ring.Refine.{append_ring-refines}

abbrev extent_of : ℕ → InternalExtent
extent_of q = record { size = 1; bytes = some q ∷ []; read_offset = 0; write_offset = 1 }

-- The head 1 with the extents 2 and 3, and the head 5 with the extent 6.
abbrev two_rings : Store
two_rings = record {
  links = record {
    next = λ q.
        if q == 1
        then 2
        else (if q == 2 then 3 else (if q == 3 then 1 else (if q == 5 then 6 else 5)));
    prev = λ q.
        if q == 1
        then 3
        else (if q == 2 then 1 else (if q == 3 then 2 else (if q == 5 then 6 else 5)));
  };
  extent = extent_of;
}

abbrev first_head : Handle
first_head = record { head = 1; size = 2 }

abbrev second_head : Handle
second_head = record { head = 5; size = 1 }

abbrev first_buffer : BufferImpl
first_buffer = record { extents = extent_of 2 ∷ extent_of 3 ∷ []; size = 2 }

abbrev second_buffer : BufferImpl
second_buffer = record { extents = extent_of 6 ∷ []; size = 1 }

first-Holds : Holds two_rings first_head (2 ∷ 3 ∷ []) first_buffer
first-Holds = record {
  ring = record {
    span = (refl, refl, (refl, refl, refl));
    closed = refl;
    different = (refl, (refl, (refl, tt)));
  };
  extents = refl;
  size = refl;
}

second-Holds : Holds two_rings second_head (6 ∷ []) second_buffer
second-Holds = record {
  ring = record { span = (refl, refl, refl); closed = refl; different = (refl, (refl, tt)) };
  extents = refl;
  size = refl;
}

append_ring-refines_example :
    Left
      (append_ring two_rings first_head second_head)
      (2 ∷ 3 ∷ 6 ∷ [])
      (append_buffer first_buffer second_buffer)
append_ring-refines_example =
    append_ring-refines two_rings first_head second_head (2 ∷ 3 ∷ []) (6 ∷ []) first_buffer
      second_buffer first-Holds second-Holds (refl, (refl, (refl, (refl, (refl, tt)))))
