-- ===== src/Aligned/Examples.antt =====
-- Two objects next to each other.
use what_the_event.Common.{
  ℕ, ◌+◌, ◌/◌, ◌%◌, ◌≡◌, ◌≢◌, refl, Option, some, none, ok, ◌==◌, if◌then◌else◌, inl, arith,
}
use what_the_event.Aligned.Lines.{
  cache_line, pad_size, object_size, allocate_aligned, mk_aligned, lines_apart,
}

-- The first object, of 24 bytes, is put at 640, and the second, of 70 bytes, at 704.
abbrev arena : ℕ → ℕ → Option ℕ
arena size alignment = if alignment == 64 then (if size == 64 then some 640 else some 704) else none

-- The arena keeps to the alignment that it was asked for.
arena_aligned : (size alignment r : ℕ) → arena size alignment ≡ some r → r % alignment ≡ 0
arena_aligned size alignment r e = ground (arith, e)

arena_first : mk_aligned arena 24 ≡ ok 640
unfolding mk_aligned allocate_aligned object_size pad_size
arena_first = refl

arena_second : mk_aligned arena 70 ≡ ok 704
unfolding mk_aligned allocate_aligned object_size pad_size
arena_second = refl

arena_next : 640 + object_size 24 ≡ 704
unfolding object_size pad_size
arena_next = refl

lines_apart_example : (640 + 24) / cache_line ≢ (704 + 0) / cache_line
lines_apart_example =
    lines_apart arena 24 70 640 704 24 0 arena_aligned arena_first arena_second
      (inl (omega (arith, arena_next))) (omega arith) (omega arith)
