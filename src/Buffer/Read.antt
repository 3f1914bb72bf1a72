-- ===== src/Buffer/Read.antt =====
-- `read` copies from the front and consumes.
use what_the_event.Common.{
  ℕ, ◌+◌, ◌-◌, ◌≤◌, ◌<◌, ◌^◌, ◌≡◌, ap, ap₂, ◌∙◌, List, [], ◌∷◌, ◌++◌, Outcome, ok, fault, min,
  length, take, drop, length-append, length-drop, arith,
}
use what_the_event.Buffer.Extent.{Cell, InternalExtent}
use what_the_event.Buffer.Impl.{BufferImpl, read, read_loop}
use what_the_event.Buffer.Contents.{All, content, contents, IsSized, IsValid}
use native.Mathlib.Decide.{dec_le}
use what_the_event.Buffer.Served.{IsServed, read_loop_used, read_loop_overrun}
use what_the_event.Buffer.ReadLoop.{ReadDone, read_loop-ReadDone}

-- `read(buf, size, &nread)` on a sound buffer, where the copies fit (`IsServed`): it returns, it has
-- copied the first `size` bytes, or all if there are fewer, `nread` is their number, and the buffer
-- is sound and holds the rest.
pub read-contents :
    (b : BufferImpl) (size : ℕ)
    → IsValid b
    → size < 2 ^ 64
    → IsServed size 0 b.extents
    → (b' : BufferImpl) × (read b size size
        ≡ ok (take size (contents b.extents), min size (length (contents b.extents)), b'))
      × IsValid b'
      × (contents b'.extents ≡ drop size (contents b.extents))
unfolding read
read-contents b size v small served =
    (after, rw d.runs returned, valid, d.rest ∙ ap (λ k. drop k (contents b.extents)) all_left)
  where
    d : ReadDone size [] 0 b.size b.extents
    d = read_loop-ReadDone size [] 0 b.size b.extents small v.sized v.counted v.fits served

    all_left : size - 0 ≡ size
    all_left = omega arith

    after : BufferImpl
    after = record { extents = d.last.rest; size = d.last.left }

    result : List Cell → ℕ → Outcome (List Cell × ℕ × BufferImpl)
    result out nread = ok (out, nread, after)

    returned :
        result d.last.out d.last.total
        ≡ result (take size (contents b.extents)) (min size (length (contents b.extents)))
    returned =
        ap₂ result (d.copied ∙ ap (λ k. take k (contents b.extents)) all_left)
          (d.counted ∙ omega arith)

    valid : IsValid after
    valid = record {
      sized = d.sized;
      full = d.full v.full;
      counted = d.remaining;
      fits = omega (
        arith,
        v.fits,
        v.counted,
        d.remaining,
        ap length d.rest,
        length-drop (size - 0) (contents b.extents),
      );
    }

-- If a copy does not fit, the loop writes past the `size` bytes of the caller's array.
read_loop_unserved :
    (size : ℕ) (out : List Cell) (total left : ℕ) (es : List InternalExtent)
    → size < 2 ^ 64
    → All IsSized es
    → left ≡ length (contents es)
    → left < 2 ^ 64
    → ¬ IsServed size total es
    → read_loop size size out total left es ≡ fault
read_loop_unserved size out total left [] small s l k over = absurd (over tt)
read_loop_unserved size out total left (e ∷ es) small s l k over = elim (dec_le size total) [
  | yes ended ↦ absurd (over (λ h. absurd (omega arith)))
  | no more ↦ elim (dec_le (total + min size (length (content e))) size) [
    | no wide ↦ read_loop_overrun size out total left e es s.0 (omega arith) small k (omega arith)
    | yes fits ↦ elim (dec_le (length (content e)) size) [
      | no cut ↦ absurd (over (λ _. (fits, IsServed_ended size _ es (omega arith))))
      | yes used ↦
          read_loop_used size out total left e es s.0 (omega arith) small k (omega arith)
            (omega (arith, l, length-append (content e) (contents es)))
          ∙ read_loop_unserved size (out ++ content e) (total + length (content e))
              (left - length (content e)) es small s.1
              (omega (arith, l, length-append (content e) (contents es))) (omega arith)
              (λ h. over (λ _. (fits, h)))
    ]
  ]
]
  where
    IsServed_ended : (n total : ℕ) (es : List InternalExtent) → n ≤ total → IsServed n total es
    IsServed_ended n total [] h = tt
    IsServed_ended n total (e ∷ es) h = λ k. absurd (omega arith)

-- `read` on a sound buffer overruns the caller's array of `size` bytes exactly where some copy does
-- not fit, although the buffer's contract asks for no more than that array.
pub read_overrun :
    (b : BufferImpl) (size : ℕ)
    → IsValid b
    → size < 2 ^ 64
    → ¬ IsServed size 0 b.extents
    → read b size size ≡ fault
unfolding read
read_overrun b size v small over =
    rw (read_loop_unserved size [] 0 b.size b.extents small v.sized v.counted v.fits over)
