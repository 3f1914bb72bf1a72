-- ===== src/Buffer/Prepend.antt =====
-- `prepend` puts bytes in front: rightly, into a new extent or into a gap of exactly their number.
use what_the_event.Common.{
  ℕ, suc, ◌+◌, ◌-◌, ◌≤◌, ◌<◌, ◌^◌, ◌≡◌, refl, sym, ap, ◌∙◌, List, [], ◌∷◌, ◌++◌, ok, ◌⊎◌, inl, inr,
  min, length, take, drop, add64, add64-eq, sub64-eq, length-append, length-drop, length-take,
  subst, List-cases, drop-append_ge, drop-drop, arith, true, Bool, lt→ltb, le→ltb, ne→==,
  append_assoc,
}
use what_the_event.Buffer.Extent.{Cell, InternalExtent, prependable, prepend_extent}
use what_the_event.Buffer.Impl.{BufferImpl, prepend, prepend_loop}
use what_the_event.Buffer.Copy.{memcpy-eq, Filled, append_fresh}
use native.Mathlib.Decide.{dec_lt}
use what_the_event.Buffer.Contents.{All, content, contents, IsSized, IsFull, IsValid}

-- The bytes before the first that can be read: the room that `prepend` sees in the first extent.
abbrev pub gap : List InternalExtent → ℕ
gap [] = 0
gap (e ∷ es) = e.read_offset

module _ (alloc : ℕ → Bool) (buf : List Cell) (n : ℕ) (f : ℕ) where
  -- With no gap the data go to a new extent.
  pub prepend_loop-new :
      (es : List InternalExtent) (d : Filled buf n)
      → n < 2 ^ 64
      → alloc n ≡ true
      → gap es ≡ 0
      → prepend_loop (suc f) alloc buf n es ≡ ok (d.extent ∷ es)
  unfolding prepend_loop prependable
  prepend_loop-new [] d h granted g =
      rw (granted, d.runs, sub64-eq n n (omega arith) h, le→ltb 0 (n - n) (omega arith))
  prepend_loop-new (e ∷ es) d h granted g =
      rw (g, granted, d.runs, sub64-eq n n (omega arith) h, le→ltb 0 (n - n) (omega arith))

-- The first extent after `prepend` has copied `k` bytes into its gap: they go to its first byte, and
-- the reader starts `k` bytes before where it did.
abbrev pub refilled : InternalExtent → List Cell → ℕ → InternalExtent
refilled e buf k = record e {
  bytes = take k buf ++ drop (0 + k) e.bytes;
  read_offset = e.read_offset - k;
}

module _ (e : InternalExtent) (buf : List Cell) (n : ℕ) (s : IsSized e) (room : 0 < e.read_offset)
    (enough : n ≤ length buf) where
  prepend_extent-refilled :
      (k : ℕ) → min e.read_offset n ≡ k → prepend_extent e buf n ≡ ok (k, refilled e buf k)
  unfolding prepend_extent
  prepend_extent-refilled k m = rw (
    ne→== e.read_offset 0 (omega arith),
    m,
    memcpy-eq e.bytes 0 buf k (omega (arith, s.object, s.within)) (omega arith),
    sub64-eq e.read_offset k (omega arith) (omega (arith, s.within, s.fits)),
  )

  pub refilled-IsSized : (k : ℕ) → min e.read_offset n ≡ k → IsSized (refilled e buf k)
  refilled-IsSized k m = record {
    object = omega (
      arith,
      s.object,
      s.within,
      length-append (take k buf) (drop (0 + k) e.bytes),
      length-take k buf,
      length-drop (0 + k) e.bytes,
    );
    within = omega (arith, s.within);
    fits = s.fits;
  }

  module _ (alloc : ℕ → Bool) (f : ℕ) (es : List InternalExtent) (small : n < 2 ^ 64) where
    -- The gap takes all the data.
    prepend_loop-gap :
        n ≤ e.read_offset → prepend_loop (suc f) alloc buf n (e ∷ es) ≡ ok (refilled e buf n ∷ es)
    unfolding prepend_loop prependable
    prepend_loop-gap h = rw (
      ne→== e.read_offset 0 (omega arith),
      prepend_extent-refilled n (omega arith),
      sub64-eq n n (omega arith) small,
      le→ltb 0 (n - n) (omega arith),
    )

    -- The gap takes a part, and the loop goes on, with the same `buf`.
    pub prepend_loop-more :
        e.read_offset < n
        → prepend_loop (suc f) alloc buf n (e ∷ es)
          ≡ prepend_loop f alloc buf (n - e.read_offset) (refilled e buf e.read_offset ∷ es)
    unfolding prepend_loop prependable
    prepend_loop-more h = rw (
      ne→== e.read_offset 0 (omega arith),
      prepend_extent-refilled e.read_offset (omega arith),
      sub64-eq n e.read_offset (omega arith) small,
      lt→ltb 0 (n - e.read_offset) (omega arith),
    )

module _ (e : InternalExtent) (buf : List Cell) (n : ℕ) (enough : n ≤ length buf) where
  -- A gap of exactly `n` bytes: the reader starts with the data.
  pub content-refilled :
      (k : ℕ) → k ≤ n → e.read_offset ≡ k → content (refilled e buf k) ≡ take k buf ++ content e
  content-refilled k h g =
      let start : e.read_offset - k ≡ 0 = omega arith in
      let sum : 0 + k ≡ e.read_offset = omega arith in
      ap (λ j. drop j (take k buf ++ drop (0 + k) e.bytes)) start
      ∙ ap (λ j. take k buf ++ drop j e.bytes) sum

  -- A gap of at least twice `n`: the reader starts with what was there before.
  content_stale :
      n + n ≤ e.read_offset → content (refilled e buf n) ≡ drop (e.read_offset - n) e.bytes
  content_stale h =
      drop-append_ge (take n buf) (drop (0 + n) e.bytes) (e.read_offset - n) (e.read_offset - n - n)
        (omega (arith, length-take n buf))
      ∙ drop-drop (0 + n) (e.read_offset - n - n) (e.read_offset - n) e.bytes (omega arith)

-- A chain with new bytes in front of it, behind the count of them all.
prepended-IsValid :
    (b : BufferImpl) (es : List InternalExtent) (new : List Cell) (n : ℕ)
    → IsValid b
    → All IsSized es
    → All IsFull es
    → contents es ≡ new ++ contents b.extents
    → length new ≡ n
    → b.size + n < 2 ^ 64
    → IsValid (record { extents = es; size = add64 b.size n })
prepended-IsValid b es new n v s f held count fits = record {
  sized = s;
  full = f;
  counted =
      add64-eq b.size n fits
      ∙ omega (arith, v.counted, ap length held, length-append new (contents b.extents));
  fits = omega (arith, add64-eq b.size n fits);
}

-- How `prepend` ends on a sound buffer when it puts `new` in front.
abbrev pub Prepends : (ℕ → Bool) → BufferImpl → List Cell → ℕ → List Cell → Type 0
Prepends alloc b buf size new =
    (b' : BufferImpl) × (prepend alloc b buf size ≡ ok b')
    × IsValid b'
    × (contents b'.extents ≡ new ++ contents b.extents)

module _ (alloc : ℕ → Bool) (b : BufferImpl) (buf : List Cell) (size : ℕ) (v : IsValid b)
    (enough : size ≤ length buf) (small : size ≤ 2 ^ 63) (fits : b.size + size < 2 ^ 64) where
  pub Prepends-of :
      (es : List InternalExtent) (new : List Cell)
      → prepend_loop (suc size) alloc buf size b.extents ≡ ok es
      → All IsSized es
      → All IsFull es
      → contents es ≡ new ++ contents b.extents
      → length new ≡ size
      → Prepends alloc b buf size new
  unfolding prepend
  Prepends-of es new runs s f held count =
      (_, rw runs refl, prepended-IsValid b es new size v s f held count fits, held)

  prepend-new : gap b.extents ≡ 0 → alloc size ≡ true → Prepends alloc b buf size (take size buf)
  prepend-new g granted =
      Prepends-of (d.extent ∷ b.extents) (take size buf)
        (prepend_loop-new alloc buf size size b.extents d (omega arith) granted g)
        (d.sized, v.sized) (d.full, v.full) (ap (λ c. c ++ contents b.extents) d.holds)
        (omega (arith, length-take size buf))
    where
      d : Filled buf size
      d = append_fresh buf size enough small

  module _ (e : InternalExtent) (es : List InternalExtent) (chain : b.extents ≡ e ∷ es)
      (room : 0 < e.read_offset) where
    sized : All IsSized (e ∷ es)
    sized = subst (All IsSized) chain v.sized

    full : All IsFull (e ∷ es)
    full = subst (All IsFull) chain v.full

    prepend-exact : e.read_offset ≡ size → Prepends alloc b buf size (take size buf)
    prepend-exact g =
        Prepends-of (refilled e buf size ∷ es) (take size buf)
          (ap (prepend_loop (suc size) alloc buf size) chain
            ∙ prepend_loop-gap e buf size sized.0 room enough alloc size es (omega arith)
                (omega arith))
          (refilled-IsSized e buf size sized.0 room enough size (omega arith), sized.1)
          (full.0, full.1)
          (ap (λ c. c ++ contents es) (content-refilled e buf size enough size (omega arith) g)
            ∙ append_assoc (take size buf) (content e) (contents es)
            ∙ ap (λ es. take size buf ++ contents es) (sym chain))
          (omega (arith, length-take size buf))

-- `prepend` on a sound buffer whose first extent has been read from the start, or by exactly `size`
-- bytes, where the allocator grants the request: it returns, and the buffer is sound and holds the
-- `size` bytes before what it held.
pub prepend-contents :
    (alloc : ℕ → Bool) (b : BufferImpl) (buf : List Cell) (size : ℕ)
    → IsValid b
    → size ≤ length buf
    → size ≤ 2 ^ 63
    → b.size + size < 2 ^ 64
    → alloc size ≡ true
    → (gap b.extents ≡ 0) ⊎ (gap b.extents ≡ size)
    → (b' : BufferImpl) × (prepend alloc b buf size ≡ ok b')
      × IsValid b'
      × (contents b'.extents ≡ take size buf ++ contents b.extents)
prepend-contents alloc b buf size v enough small fits granted (inl g) =
    prepend-new alloc b buf size v enough small fits g granted
prepend-contents alloc b buf size v enough small fits granted (inr g) =
    elim (List-cases b.extents) [
      | inl none_there ↦
          prepend-new alloc b buf size v enough small fits (ap gap none_there) granted
      | inr (e, es, chain) ↦ elim (dec_lt 0 e.read_offset) [
        | yes room ↦
            prepend-exact alloc b buf size v enough small fits e es chain room
              (sym (ap gap chain) ∙ g)
        | no start ↦
            prepend-new alloc b buf size v enough small fits (ap gap chain ∙ omega arith) granted
      ]
    ]

-- A gap at least twice as large as the data: nothing of `buf` can be read afterwards; the bytes
-- that the reader had passed last come back in its place.
pub prepend_stale :
    (alloc : ℕ → Bool) (b : BufferImpl) (e : InternalExtent) (es : List InternalExtent)
    (buf : List Cell) (size : ℕ)
    → IsValid b
    → b.extents ≡ e ∷ es
    → size ≤ length buf
    → 0 < e.read_offset
    → size + size ≤ e.read_offset
    → (b' : BufferImpl) × (prepend alloc b buf size ≡ ok b')
      × (contents b'.extents ≡ drop (e.read_offset - size) e.bytes ++ contents es)
unfolding prepend
prepend_stale alloc b e es buf size v chain enough room wide = (
  record { extents = refilled e buf size ∷ es; size = add64 b.size size },
  rw
      (ap (prepend_loop (suc size) alloc buf size) chain
        ∙ prepend_loop-gap e buf size s room enough alloc size es (omega (arith, s.within, s.fits))
            (omega arith))
      refl,
  ap (λ c. c ++ contents es) (content_stale e buf size enough wide),
)
  where
    s : IsSized e
    s = (subst (All IsSized) chain v.sized).0
