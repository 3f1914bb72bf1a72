-- ===== src/Buffer/Examples.antt =====
-- Runs of the buffer on small inputs, and its theorems applied there.
use what_the_event.Common.{
  ℕ, ◌-◌, ◌≤◌, ◌<◌, ◌^◌, ◌≡◌, refl, List, [], ◌∷◌, ◌++◌, ok, fault, ◌>>=◌, true, some, inr, length,
  take, drop, min, arith, Bool, leb, add64, sub64,
}
use what_the_event.Buffer.Extent.{Cell, InternalExtent, fresh_extent, copyout, consume}
use what_the_event.Buffer.Impl.{BufferImpl, empty_buffer, prepend, read, read_loop, peek}
use what_the_event.Buffer.Contents.{contents, IsSized, IsValid}
use what_the_event.Buffer.Read.{read-contents}
use what_the_event.Buffer.Served.{short_read-IsServed}
use what_the_event.Buffer.Prepend.{prepend-contents}
use what_the_event.Buffer.Agree.{peek-read}
use what_the_event.Buffer.Client.{
  Call, put, append_from, prepend_from, drop_bytes, get, copy, view, answers, run, run-answers,
}

-- An allocator that grants what fits in half of the address space.
abbrev granting : ℕ → Bool
granting n = leb n (2 ^ 63 - 1)

abbrev three : List Cell
three = some 1 ∷ some 2 ∷ some 3 ∷ []

abbrev full_extent : List Cell → ℕ → InternalExtent
full_extent bytes r = record {
  size = length bytes;
  bytes = bytes;
  read_offset = r;
  write_offset = length bytes;
}

abbrev two_extents : BufferImpl
two_extents = record { extents = full_extent three 0 ∷ full_extent three 0 ∷ []; size = 6 }

-- The first two bytes of the first extent have been read.
abbrev half_read : BufferImpl
half_read = record { extents = full_extent three 2 ∷ []; size = 1 }

abbrev reserved : BufferImpl
reserved = record { extents = fresh_extent 2 ∷ []; size = 0 }

three-IsSized : (r : ℕ) → r ≤ 3 → IsSized (full_extent three r)
three-IsSized r h = record { object = refl; within = h; fits = omega arith }

two_extents-IsValid : IsValid two_extents
two_extents-IsValid = record {
  sized = (three-IsSized 0 (omega arith), (three-IsSized 0 (omega arith), tt));
  full = (refl, (refl, tt));
  counted = refl;
  fits = omega arith;
}

half_read-IsValid : IsValid half_read
half_read-IsValid = record {
  sized = (three-IsSized 2 (omega arith), tt);
  full = (refl, tt);
  counted = refl;
  fits = omega arith;
}

empty_buffer-IsValid : IsValid empty_buffer
empty_buffer-IsValid = record { sized = tt; full = tt; counted = refl; fits = omega arith }

-- An overrun of the array: five bytes are asked for, six are copied.
read_inside : read two_extents 5 5 ≡ fault
unfolding read read_loop copyout consume add64 sub64
read_inside = refl

read_boundary :
    read two_extents 3 3 ≡ ok (three, 3, record { extents = full_extent three 0 ∷ []; size = 3 })
unfolding read read_loop copyout consume add64 sub64
read_boundary = refl

read-contents_example :
    (b' : BufferImpl) × (read two_extents 9 9
      ≡ ok (
        take 9 (contents two_extents.extents),
        min 9 (length (contents two_extents.extents)),
        b',
      ))
    × IsValid b'
    × (contents b'.extents ≡ drop 9 (contents two_extents.extents))
read-contents_example =
    read-contents two_extents 9 two_extents-IsValid (omega arith)
      (short_read-IsServed 9 0 two_extents.extents (omega arith))

prepend-contents_example :
    (b' : BufferImpl) × (prepend granting half_read three 2 ≡ ok b')
    × IsValid b'
    × (contents b'.extents ≡ take 2 three ++ contents half_read.extents)
prepend-contents_example =
    prepend-contents granting half_read three 2 half_read-IsValid (omega arith) (omega arith)
      (omega arith) refl (inr refl)

peek-read_example : peek two_extents 5 5 ≡ (read two_extents 5 5 >>= λ r. ok (r.0, r.1))
peek-read_example = peek-read two_extents 5 5 two_extents-IsValid

granting_enough : (n : ℕ) → n < 2 ^ 63 → granting n ≡ true
granting_enough n h = ground arith

-- Bytes go in at both ends, are looked at and leave.
abbrev calls : List Call
calls =
    put three
    ∷ append_from two_extents
    ∷ copy 12
    ∷ prepend_from half_read
    ∷ drop_bytes 2
    ∷ view 3
    ∷ get 100
    ∷ []

run-answers_example :
    (b' : BufferImpl) × (run granting half_read calls
      ≡ ok ((answers (contents half_read.extents) calls).0, b'))
    × IsValid b'
    × (contents b'.extents ≡ (answers (contents half_read.extents) calls).1)
run-answers_example = run-answers granting granting_enough half_read calls half_read-IsValid (
  (omega arith, omega arith),
  (
    (two_extents-IsValid, omega arith),
    (
      (omega arith, omega arith),
      (
        (half_read-IsValid, omega arith),
        (omega arith, (omega arith, ((omega arith, omega arith), tt))),
      ),
    ),
  ),
)

-- What the calls are answered.
calls_answered :
    (answers (contents half_read.extents) calls).0
    ≡ []
      ∷ []
      ∷ (some 3 ∷ three ++ three ++ three)
      ∷ []
      ∷ []
      ∷ three
      ∷ (three ++ three ++ three)
      ∷ []
calls_answered = refl
