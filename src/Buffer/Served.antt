-- ===== src/Buffer/Served.antt =====
-- One round of the loop of `read`, and where its copies fit into the array of the caller.
use what_the_event.Common.{
  ℕ, ◌+◌, ◌-◌, ◌≤◌, ◌<◌, ◌^◌, ◌≡◌, ◌∙◌, List, [], ◌∷◌, ◌++◌, ok, fault, min, length, take, add64-eq,
  sub64-eq, length-append, take_all, arith, lt→ltb, le→ltb,
}
use what_the_event.Buffer.Extent.{Cell, InternalExtent, consume}
use what_the_event.Buffer.Impl.{read_loop}
use what_the_event.Buffer.Contents.{
  content, contents, IsSized, Consumed, consume-Consumed, copyout-eq,
}

-- The copies that the loop makes from `total` on stay within `size` bytes. Each copy is asked for
-- `size` bytes, not for those that are left.
abbrev pub IsServed : ℕ → ℕ → List InternalExtent → Type 0
IsServed size total [] = Unit
IsServed size total (e ∷ es) =
    total < size
    → (total + min size (length (content e)) ≤ size) × IsServed size (total + length (content e)) es

-- Where the buffer has no more than `size` bytes, they do.
pub short_read-IsServed :
    (size total : ℕ) (es : List InternalExtent)
    → total + length (contents es) ≤ size
    → IsServed size total es
short_read-IsServed size total [] h = tt
short_read-IsServed size total (e ∷ es) h = λ _. (
  omega (arith, length-append (content e) (contents es)),
  short_read-IsServed size (total + length (content e)) es
      (omega (arith, length-append (content e) (contents es))),
)

-- Where the first extent has at least `size`, they do.
pub wide_read-IsServed :
    (size : ℕ) (e : InternalExtent) (es : List InternalExtent)
    → size ≤ length (content e)
    → IsServed size 0 (e ∷ es)
wide_read-IsServed size e [] h = λ _. (omega arith, tt)
wide_read-IsServed size e (x ∷ es) h = λ _. (omega arith, λ k. absurd (omega arith))

-- Three ways on from an extent: the loop has ended, the extent is used up, the extent is cut.
module _ (size : ℕ) (out : List Cell) (total left : ℕ) (e : InternalExtent)
    (es : List InternalExtent) where
  pub read_loop_done :
      size ≤ total
      → read_loop size size out total left (e ∷ es)
        ≡ ok (record { out = out; total = total; left = left; rest = e ∷ es })
  unfolding read_loop
  read_loop_done h = ground arith

  module _ (s : IsSized e) (more : total < size) (small : size < 2 ^ 64)
      (most : left < 2 ^ 64) where
    pub read_loop_used :
        total + length (content e) ≤ size
        → length (content e) ≤ left
        → read_loop size size out total left (e ∷ es)
          ≡ read_loop size size
              (out ++ content e)
              (total + length (content e))
              (left - length (content e))
              es
    unfolding read_loop
    read_loop_used h k = rw (
      lt→ltb total size more,
      copyout-eq e size s,
      least,
      take_all (length (content e)) (content e) (omega arith),
      le→ltb size (total + length (content e)) h,
      used,
      add64-eq total (length (content e)) (omega arith),
      sub64-eq left (length (content e)) k most,
    )
      where
        least : min size (length (content e)) ≡ length (content e)
        least = omega arith

        used : (consume e (length (content e))).0 ≡ 0
        used =
            Consumed.remain (consume-Consumed e (length (content e)) s (omega arith)) ∙ omega arith

    pub read_loop_cut :
        total ≡ 0
        → size < length (content e)
        → size ≤ left
        → read_loop size size out total left (e ∷ es)
          ≡ ok (record {
            out = out ++ take size (content e);
            total = size;
            left = left - size;
            rest = (consume e size).1 ∷ es;
          })
    unfolding read_loop
    read_loop_cut h k l =
        rw (lt→ltb total size more, copyout-eq e size s)
          (ground (arith, least, add64-eq total size, sub64-eq left size, c.remain))
      where
        least : min size (length (content e)) ≡ size
        least = omega arith

        c : Consumed e size
        c = consume-Consumed e _ s (omega arith)

    pub read_loop_overrun :
        size < total + min size (length (content e))
        → read_loop size size out total left (e ∷ es) ≡ fault
    unfolding read_loop
    read_loop_overrun h = rw (lt→ltb total size more, copyout-eq e size s, lt→ltb size _ h)
