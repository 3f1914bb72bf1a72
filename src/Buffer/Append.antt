-- ===== src/Buffer/Append.antt =====
-- `append` puts bytes at the end, and `append(Buffer *)`, `prepend(Buffer *)` join two chains.
use what_the_event.Common.{
  ℕ, ◌+◌, ◌≤◌, ◌<◌, ◌^◌, ◌≡◌, refl, sym, ap, ◌∙◌, List, [], ◌∷◌, ◌++◌, ok, fault, some, ◌>>=◌, inl,
  inr, le→ltb, Bool-cases, length, take, add64, sub64-eq, add64-eq, length-append, length-take,
  arith, true, Bool, get_last?, get_last?-append, set_last-append, Option-cases, subst, append-nil,
}
use what_the_event.Buffer.Extent.{Cell, InternalExtent, fresh_extent, appendable}
use what_the_event.Buffer.Copy.{Filled, append_fresh, append_extent_overrun}
use what_the_event.Buffer.Impl.{
  BufferImpl, empty_buffer, append, append_loop, append_last, with_tail, new_extent, append_buffer,
  prepend_buffer, list_empty,
}
use what_the_event.Buffer.Contents.{
  All, All-append, content, contents, contents-append, IsSized, IsFull, IsValid,
}

pub get_last?-All :
    (holds : InternalExtent → Type 0) (es : List InternalExtent) (e : InternalExtent)
    → All holds es
    → get_last? es ≡ some e
    → holds e
get_last?-All holds [] e h last = cc
get_last?-All holds (x ∷ []) e h last = subst holds (cc) h.0
get_last?-All holds (x ∷ y ∷ es) e h last = get_last?-All holds (y ∷ es) e h.1 last

pub full-appendable : (e : InternalExtent) → IsFull e → IsSized e → appendable e ≡ 0
unfolding appendable
full-appendable e f s = sub64-eq e.size e.write_offset (omega arith) s.fits ∙ omega arith

module _ (alloc : ℕ → Bool) (es : List InternalExtent) (n : ℕ) where
  -- Where the last extent has no room, a new one is made.
  with_tail_full :
      All IsSized es
      → All IsFull es
      → with_tail alloc es n ≡ (new_extent alloc n >>= λ cur. ok (es ++ cur ∷ []))
  unfolding with_tail new_extent
  with_tail_full s f = elim (Option-cases (get_last? es)) [
    | inl e ↦ rw (e, with_tail)
    | inr (x, e) ↦ ground (
      arith,
      e,
      full-appendable x (get_last?-All IsFull es x f e) (get_last?-All IsSized es x s e),
    )
  ]

  append_last_fresh :
      (buf : List Cell) (d : Filled buf n)
      → n < 2 ^ 64
      → append_last (es ++ fresh_extent n ∷ []) buf n ≡ ok (0, es ++ d.extent ∷ [])
  unfolding append_last
  append_last_fresh buf d h =
      rw (get_last?-append es (fresh_extent n), append_last)
        (rw (d.runs, set_last-append es (fresh_extent n) d.extent, sub64-eq n n (omega arith) h)
          (ap (λ k. ok (k, es ++ d.extent ∷ [])) (omega arith)))

module _ (alloc : ℕ → Bool) (b : BufferImpl) (buf : List Cell) (size : ℕ) (v : IsValid b) where
  -- `append` makes one more extent.
  append_runs :
      (h : size ≤ length buf) (k : size ≤ 2 ^ 63)
      → alloc size ≡ true
      → append alloc b buf size
        ≡ ok (record {
          extents = b.extents ++ (append_fresh buf size h k).extent ∷ [];
          size = add64 b.size size;
        })
  unfolding append append_loop new_extent
  append_runs h k granted =
      rw (with_tail_full alloc b.extents size v.sized v.full, granted)
        (rw (
          append_last_fresh alloc b.extents size buf (append_fresh buf size h k) (omega arith),
          le→ltb size 0 (omega arith),
        ))

  pub append-one_more :
      (b' : BufferImpl)
      → size ≤ length buf
      → size ≤ 2 ^ 63
      → alloc size ≡ true
      → append alloc b buf size ≡ ok b'
      → length b'.extents ≡ length b.extents + 1
  append-one_more b' h k granted made =
      let d = append_fresh buf size h k in
      let same = sym (append_runs h k granted) ∙ made in
      let sum = length-append b.extents (d.extent ∷ []) in ground (arith, same, sum)

  -- The new extent of `append` on a sound buffer, behind the others.
  pub append-extent :
      size ≤ length buf
      → size ≤ 2 ^ 63
      → b.size + size < 2 ^ 64
      → alloc size ≡ true
      → (e : InternalExtent) × (append alloc b buf size
          ≡ ok (record { extents = b.extents ++ e ∷ []; size = b.size + size }))
        × (content e ≡ take size buf)
        × IsValid (record { extents = b.extents ++ e ∷ []; size = b.size + size })
  append-extent h k l granted = (d.extent, runs, d.holds, valid)
    where
      d : Filled buf size
      d = append_fresh buf size h k

      runs :
          append alloc b buf size
          ≡ ok (record { extents = b.extents ++ d.extent ∷ []; size = b.size + size })
      runs =
          append_runs h k granted
          ∙ ap (λ n. ok (record { extents = b.extents ++ d.extent ∷ []; size = n }))
              (add64-eq b.size size l)

      valid : IsValid (record { extents = b.extents ++ d.extent ∷ []; size = b.size + size })
      valid = record {
        sized = All-append IsSized b.extents (d.extent ∷ []) v.sized (d.sized, tt);
        full = All-append IsFull b.extents (d.extent ∷ []) v.full (d.full, tt);
        counted = omega (
          arith,
          v.counted,
          ap length (contents-append b.extents (d.extent ∷ [])),
          length-append (contents b.extents) (contents (d.extent ∷ [])),
          ap length (append-nil (content d.extent) ∙ d.holds),
          length-take size buf,
        );
        fits = omega arith;
      }

  -- `append` on a sound buffer, where the allocator grants the request: it returns, and the buffer
  -- is sound and holds the `size` bytes after what it held.
  pub append-contents :
      size ≤ length buf
      → size ≤ 2 ^ 63
      → b.size + size < 2 ^ 64
      → alloc size ≡ true
      → (b' : BufferImpl) × (append alloc b buf size ≡ ok b')
        × IsValid b'
        × (contents b'.extents ≡ contents b.extents ++ take size buf)
  append-contents h k l granted =
      let r = append-extent h k l granted in
      (
        record { extents = b.extents ++ r.0 ∷ []; size = b.size + size },
        r.1,
        r.3,
        contents-append b.extents (r.0 ∷ [])
            ∙ ap (◌++◌ (contents b.extents)) (append-nil (content r.0) ∙ r.2),
      )

-- If the last extent has room left (as after `reserve`), but less than there is data, `append`
-- writes past the end of that extent.
pub append_overrun :
    (alloc : ℕ → Bool) (b : BufferImpl) (e : InternalExtent) (buf : List Cell) (size : ℕ)
    → get_last? b.extents ≡ some e
    → IsSized e
    → e.size ≤ 2 ^ 63
    → e.write_offset < e.size
    → e.size < e.write_offset + size
    → size ≤ 2 ^ 63
    → append alloc b buf size ≡ fault
unfolding append append_loop with_tail append_last appendable
append_overrun alloc b e buf size last s small room over k = ground (
  arith,
  sub64-eq e.size e.write_offset (omega arith) s.fits,
  append_extent_overrun e buf size room small s.object over k,
)

-- Two sound chains in a row.
join-IsValid :
    (x y : BufferImpl) (n : ℕ)
    → IsValid x
    → IsValid y
    → n ≡ x.size + y.size
    → n < 2 ^ 64
    → IsValid (record { extents = x.extents ++ y.extents; size = n })
join-IsValid x y n v w sum fits = record {
  sized = All-append IsSized x.extents y.extents v.sized w.sized;
  full = All-append IsFull x.extents y.extents v.full w.full;
  counted = omega (
    arith,
    v.counted,
    w.counted,
    ap length (contents-append x.extents y.extents),
    length-append (contents x.extents) (contents y.extents),
  );
  fits = fits;
}

pub empty-IsValid : IsValid empty_buffer
empty-IsValid = record { sized = tt; full = tt; counted = refl; fits = omega arith }

-- This buffer and the other one after one of them was moved into the other: `all` is what they held.
abbrev pub Moved : BufferImpl × BufferImpl → List Cell → Type 0
Moved (b', o') all =
    IsValid b' × IsValid o' × (contents b'.extents ≡ all) × (o'.extents ≡ []) × (o'.size ≡ 0)

list_empty-eq : (b : BufferImpl) → list_empty b ≡ true → b.extents ≡ []
unfolding list_empty
list_empty-eq b h = ground arith

module _ (b o : BufferImpl) (v : IsValid b) (w : IsValid o) (fits : b.size + o.size < 2 ^ 64) where
  nothing : list_empty o ≡ true → contents o.extents ≡ []
  nothing h = ap contents (list_empty-eq o h)

  sum : add64 b.size o.size ≡ b.size + o.size
  sum = add64-eq b.size o.size fits

  -- `append(Buffer *)` moves all that the other buffer held to the end of this one. Both are sound
  -- afterwards, and the other one is empty.
  pub append_buffer-contents : Moved (append_buffer b o) (contents b.extents ++ contents o.extents)
  unfolding append_buffer
  append_buffer-contents = elim (Bool-cases (list_empty o)) [
    | inl e ↦
        rw (e, append_buffer)
          (
            v,
            w,
            sym (append-nil (contents b.extents))
                ∙ ap (◌++◌ (contents b.extents)) (sym (nothing e)),
            list_empty-eq o e,
            w.counted ∙ ap length (nothing e),
          )
    | inr e ↦
        rw (e, append_buffer)
          (
            join-IsValid b o _ v w sum (omega (arith, sum)),
            empty-IsValid,
            contents-append b.extents o.extents,
            refl,
            refl,
          )
  ]

  -- `prepend(Buffer *)` moves all that the other buffer held to the front of this one. Both are
  -- sound afterwards, and the other one is empty.
  pub prepend_buffer-contents :
      Moved (prepend_buffer b o) (contents o.extents ++ contents b.extents)
  unfolding prepend_buffer
  prepend_buffer-contents = elim (Bool-cases (list_empty o)) [
    | inl e ↦
        rw (e, prepend_buffer)
          (
            v,
            w,
            ap (λ c. c ++ contents b.extents) (sym (nothing e)),
            list_empty-eq o e,
            w.counted ∙ ap length (nothing e),
          )
    | inr e ↦
        rw (e, prepend_buffer)
          (
            join-IsValid o b _ w v (sum ∙ omega arith) (omega (arith, sum)),
            empty-IsValid,
            contents-append o.extents b.extents,
            refl,
            refl,
          )
  ]
