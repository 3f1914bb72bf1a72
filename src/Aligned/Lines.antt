-- ===== src/Aligned/Lines.antt =====
-- `CacheAligned<T>`, `allocateAligned` and `mkAligned` of src/cache_aligned.h. A type is known by its
-- size.
use what_the_event.Common.{
  ℕ, ◌+◌, ◌-◌, ◌*◌, ◌/◌, ◌%◌, ◌≤◌, ◌≡◌, ◌≢◌, Option-cases, ◌⊎◌, inl, inr, ltb, if◌then◌else◌,
  Option, none, some, Outcome, ok, bad_alloc, ◌==◌, arith,
}

-- `CACHE_LINE_SIZE`
abbrev pub cache_line : ℕ
cache_line = 64

-- The size of `pad`
unfoldable pub pad_size : ℕ → ℕ
pad_size n = if ltb n cache_line then cache_line - n else 1

-- `sizeof(CacheAligned<T>)`: the members, rounded up to the alignment of the struct.
unfoldable pub object_size : ℕ → ℕ
unfolding pad_size
object_size n = (n + pad_size n + (cache_line - 1)) / cache_line * cache_line

-- `allocateAligned`; `memalign size alignment` is the pointer that `posix_memalign` stores, 0 being
-- null, or `none` for an error.
unfoldable pub allocate_aligned : (ℕ → ℕ → Option ℕ) → ℕ → ℕ → Outcome ℕ
allocate_aligned memalign size alignment = elim (memalign size alignment) [
  | none ↦ bad_alloc
  | some p ↦ if p == 0 then bad_alloc else ok p
]

-- `mkAligned`, by the address of the object
unfoldable pub mk_aligned : (ℕ → ℕ → Option ℕ) → ℕ → Outcome ℕ
unfolding allocate_aligned
mk_aligned memalign n = allocate_aligned memalign (object_size n) cache_line

-- The struct takes the whole lines that its member begins, and a line more where that ends with a line:
-- there is always some padding behind it.
pub object_size-lines : (n : ℕ) → object_size n ≡ (n / cache_line + 1) * cache_line
unfolding object_size pad_size
object_size-lines n = ground arith

mk_aligned-multiple :
    (memalign : ℕ → ℕ → Option ℕ) (n p : ℕ)
    → ((size alignment r : ℕ) → memalign size alignment ≡ some r → r % alignment ≡ 0)
    → mk_aligned memalign n ≡ ok p
    → p % cache_line ≡ 0
unfolding mk_aligned allocate_aligned
mk_aligned-multiple memalign n p aligned here =
    elim (Option-cases (memalign (object_size n) cache_line)) [
      | inl e ↦ ground (arith, e, here)
      | inr (r, e) ↦ ground (arith, e, here, aligned (object_size n) cache_line r e)
    ]

-- Objects that `posix_memalign` puts at multiples of the alignment, and that do not overlap, have no
-- cache line in common, and there is padding behind the member of each: a byte of one member, or the one
-- just behind it, is never on the line of a byte of the other, or of the one just behind that.
pub lines_apart :
    (memalign : ℕ → ℕ → Option ℕ) (n m p q x y : ℕ)
    → ((size alignment r : ℕ) → memalign size alignment ≡ some r → r % alignment ≡ 0)
    → mk_aligned memalign n ≡ ok p
    → mk_aligned memalign m ≡ ok q
    → (p + object_size n ≤ q) ⊎ (q + object_size m ≤ p)
    → x ≤ n
    → y ≤ m
    → (p + x) / cache_line ≢ (q + y) / cache_line
lines_apart memalign n m p q x y aligned here there apart h k same = elim apart [
  | inl before ↦ omega (
    arith,
    mk_aligned-multiple memalign n p aligned here,
    mk_aligned-multiple memalign m q aligned there,
    object_size-lines n,
    before,
  )
  | inr after ↦ omega (
    arith,
    mk_aligned-multiple memalign n p aligned here,
    mk_aligned-multiple memalign m q aligned there,
    object_size-lines m,
    after,
  )
]
