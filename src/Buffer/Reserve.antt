-- ===== src/Buffer/Reserve.antt =====
-- `reserve` makes room at the end, and what it does to the bytes that can be read.
use what_the_event.Common.{
  ℕ, ◌+◌, ◌-◌, ◌≤◌, ◌<◌, ◌^◌, ◌≡◌, refl, ap, ◌∙◌, [], ◌∷◌, ◌++◌, ok, bad_alloc, none, some, length,
  get_last?, sub64-eq, sub64_wraps, length-append, append-nil, replicate, length-replicate, arith,
  true, false, Bool, Option-cases, inl, inr,
}
use what_the_event.Buffer.Extent.{Cell, InternalExtent, appendable, fresh_extent}
use what_the_event.Buffer.Impl.{BufferImpl, reserve}
use what_the_event.Buffer.Append.{get_last?-All, full-appendable}
use what_the_event.Buffer.Contents.{contents, contents-append, IsSized, IsFull, IsValid}

-- Where the last extent has more room than is asked for, the size that `reserve` asks of the
-- allocator wraps below zero, to at least 2 ^ 64 less that room; no allocator grants that.
pub reserve_wraps :
    (alloc : ℕ → Bool) (b : BufferImpl) (e : InternalExtent) (size : ℕ)
    → get_last? b.extents ≡ some e
    → e.write_offset ≤ e.size
    → e.size < 2 ^ 64
    → size < e.size - e.write_offset
    → ((n : ℕ) → 2 ^ 64 - e.size ≤ n → alloc n ≡ false)
    → reserve alloc b size ≡ bad_alloc
unfolding reserve appendable
reserve_wraps alloc b e size last within fits over refuses = ground (
  arith,
  sub64-eq e.size e.write_offset within fits,
  sub64_wraps size (e.size - e.write_offset) over (omega arith),
  refuses (2 ^ 64 - (e.size - e.write_offset - size)) (omega arith),
)

-- `reserve(size)` on a sound buffer, where the allocator grants the request: it returns, `size()` is
-- as before, but `size` bytes that nothing has written can be read behind the others, so that
-- `size()` no longer counts what a reader gets.
pub reserve_readable :
    (alloc : ℕ → Bool) (b : BufferImpl) (size : ℕ)
    → IsValid b
    → alloc size ≡ true
    → 0 < size
    → size < 2 ^ 64
    → (b' : BufferImpl) × (reserve alloc b size ≡ ok b')
      × (b'.size ≡ b.size)
      × (contents b'.extents ≡ contents b.extents ++ replicate size none)
      × (length (contents b'.extents) ≡ b'.size + size)
unfolding reserve
reserve_readable alloc b size v granted pos small = (after, runs, refl, held, counted)
  where
    after : BufferImpl
    after = record b { extents = b.extents ++ fresh_extent size ∷ [] }

    runs : reserve alloc b size ≡ ok after
    runs = elim (Option-cases (get_last? b.extents)) [
      | inl e ↦ ground (arith, e, granted)
      | inr (x, e) ↦ ground (
        arith,
        e,
        granted,
        full-appendable x (get_last?-All IsFull b.extents x v.full e)
            (get_last?-All IsSized b.extents x v.sized e),
        sub64-eq size 0 (omega arith) small,
      )
    ]

    held : contents after.extents ≡ contents b.extents ++ replicate size none
    held =
        contents-append b.extents (fresh_extent size ∷ [])
        ∙ ap (◌++◌ (contents b.extents)) (append-nil (replicate size none))

    counted : length (contents after.extents) ≡ b.size + size
    counted = omega (
      arith,
      v.counted,
      ap length held,
      length-append (contents b.extents) (replicate size none),
      length-replicate {A = Cell} size none,
    )
