-- ===== src/Buffer/Cut.antt =====
-- `append` and `read` where it matters which extents the bytes are in.
use what_the_event.Common.{
  ℕ, ◌-◌, ◌<◌, ◌≡◌, refl, ap, List, [], ◌∷◌, ok, length, length-append, length-drop, take, drop,
  arith,
}
use what_the_event.Buffer.Extent.{InternalExtent, consume}
use what_the_event.Buffer.Impl.{read}
use what_the_event.Buffer.Contents.{content, contents, IsValid, consume-Consumed}
use what_the_event.Buffer.Served.{read_loop_cut}

-- A read of a part of the first extent.
pub cut_read :
    (e : InternalExtent) (es : List InternalExtent) (z n : ℕ)
    → IsValid (record { extents = e ∷ es; size = z })
    → 0 < n
    → n < length (content e)
    → (e' : InternalExtent) × (read (record { extents = e ∷ es; size = z }) n n
        ≡ ok (take n (content e), n, record { extents = e' ∷ es; size = z - n }))
      × (content e' ≡ drop n (content e))
      × IsValid (record { extents = e' ∷ es; size = z - n })
unfolding read
cut_read e es z n v some_bytes less =
    let c = consume-Consumed e n v.sized.0 (omega arith) in
    let all = length-append (content e) (contents es) in
    (
      (consume e n).1,
      rw
          (read_loop_cut n [] 0 z e es v.sized.0 some_bytes (omega (arith, v.counted, v.fits, all))
            v.fits refl less (omega (arith, v.counted, all)))
          refl,
      c.dropped,
      record {
        sized = (c.sized, v.sized.1);
        full = (c.full v.full.0, v.full.1);
        counted = omega (
          arith,
          v.counted,
          all,
          length-append (content (consume e n).1) (contents es),
          ap length c.dropped,
          length-drop n (content e),
        );
        fits = omega (arith, v.fits);
      },
    )
