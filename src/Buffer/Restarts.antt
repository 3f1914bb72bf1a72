-- ===== src/Buffer/Restarts.antt =====
-- `prepend` of more than the gap in front takes.
use what_the_event.Common.{
  ℕ, zero, suc, ◌+◌, ◌-◌, ◌≤◌, ◌<◌, ◌^◌, ◌≡◌, refl, sym, ap, ap₂, ◌∙◌, List, ◌∷◌, ◌++◌, ok, length,
  take, length-append, length-take, subst, arith, true, Bool, append_assoc,
}
use what_the_event.Buffer.Extent.{Cell, InternalExtent}
use what_the_event.Buffer.Impl.{BufferImpl, prepend_loop}
use what_the_event.Buffer.Copy.{Filled, append_fresh}
use what_the_event.Buffer.Contents.{All, content, contents, IsSized, IsFull, IsValid}
use what_the_event.Buffer.Prepend.{
  Prepends, Prepends-of, refilled, refilled-IsSized, prepend_loop-more, prepend_loop-new,
  content-refilled,
}

-- A gap of `r` bytes smaller than the data: the loop starts over with `buf`, so that the buffer holds
-- the first `size - r` bytes of `buf` and then the first `r`, instead of all `size` in order.
pub prepend_restarts :
    (alloc : ℕ → Bool) (b : BufferImpl) (e : InternalExtent) (es : List InternalExtent)
    (buf : List Cell) (size : ℕ)
    → IsValid b
    → b.extents ≡ e ∷ es
    → size ≤ length buf
    → size ≤ 2 ^ 63
    → b.size + size < 2 ^ 64
    → 0 < e.read_offset
    → e.read_offset < size
    → alloc (size - e.read_offset) ≡ true
    → Prepends alloc b buf size (take (size - e.read_offset) buf ++ take e.read_offset buf)
prepend_restarts alloc b e es buf zero v chain enough small fits room less granted =
    absurd (omega arith)
prepend_restarts alloc b e es buf (suc n) v chain enough small fits room less granted =
    Prepends-of alloc b buf (suc n) v enough small fits (d.extent ∷ refilled e buf r ∷ es) _ runs
      (d.sized, (refilled-IsSized e buf (suc n) s.0 room enough r (omega arith), s.1))
      (d.full, subst (All IsFull) chain v.full) held
      (omega (
        arith,
        length-append (take (suc n - r) buf) (take r buf),
        length-take (suc n - r) buf,
        length-take r buf,
      ))
  where
    r : ℕ
    r = e.read_offset

    s : All IsSized (e ∷ es)
    s = subst (All IsSized) chain v.sized

    d : Filled buf (suc n - r)
    d = append_fresh buf (suc n - r) (omega arith) (omega arith)

    runs :
        prepend_loop (suc (suc n)) alloc buf (suc n) b.extents
        ≡ ok (d.extent ∷ refilled e buf r ∷ es)
    runs =
        ap (prepend_loop (suc (suc n)) alloc buf (suc n)) chain
        ∙ prepend_loop-more e buf (suc n) s.0 room enough alloc (suc n) es (omega arith) less
        ∙ prepend_loop-new alloc buf (suc n - r) n (refilled e buf r ∷ es) d (omega arith) granted
            (omega arith)

    held :
        contents (d.extent ∷ refilled e buf r ∷ es)
        ≡ (take (suc n - r) buf ++ take r buf) ++ contents b.extents
    held =
        ap₂ (λ x y. x ++ (y ++ contents es)) d.holds
          (content-refilled e buf (suc n) enough r (omega arith) refl)
        ∙ ap (◌++◌ (take (suc n - r) buf)) (append_assoc (take r buf) (content e) (contents es))
        ∙ sym (append_assoc (take (suc n - r) buf) (take r buf) (contents (e ∷ es)))
        ∙ ap (λ c. (take (suc n - r) buf ++ take r buf) ++ contents c) (sym chain)
