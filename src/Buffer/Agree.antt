-- ===== src/Buffer/Agree.antt =====
-- `peek(buf, size, nread)` gives what `read(buf, size, nread)` would give.
use what_the_event.Common.{
  ℕ, ◌+◌, ◌-◌, ◌<◌, ◌≤◌, ◌^◌, ◌≡◌, refl, ◌∙◌, List, [], ◌∷◌, ◌++◌, Outcome, ok, fault, bad_alloc,
  aborted, out_of_fuel, ◌>>=◌, min, length, take, Bool-cases, inl, inr, ◌==◌, add64, sub64,
  add64-eq, length-append, arith, ==→ne, lt→ltb, le→ltb,
}
use what_the_event.Buffer.Extent.{Cell, InternalExtent}
use what_the_event.Buffer.Impl.{BufferImpl, Reading, read, read_loop, peek, peek_loop}
use what_the_event.Buffer.Contents.{
  All, content, contents, IsSized, IsValid, consume-Consumed, copyout-eq,
}
use native.Mathlib.Decide.{dec_le}

-- What `read` tells its caller.
abbrev told : Reading → Outcome (List Cell × ℕ)
told r = ok (r.out, r.total)

abbrev returned : Reading → Outcome (List Cell × ℕ × BufferImpl)
returned r = ok (r.out, r.total, record { extents = r.rest; size = r.left })

peek_loop-done :
    (room size : ℕ) (out : List Cell) (total : ℕ) (es : List InternalExtent)
    → size ≤ total
    → peek_loop room size out total es ≡ ok (out, total)
unfolding peek_loop
peek_loop-done room size out total [] h = refl
peek_loop-done room size out total (e ∷ es) h = rw (le→ltb total size h) refl

peek_loop-read_loop :
    (room size : ℕ) (out : List Cell) (total left : ℕ) (es : List InternalExtent)
    → All IsSized es
    → total + length (contents es) < 2 ^ 64
    → peek_loop room size out total es ≡ (read_loop room size out total left es >>= told)
unfolding peek_loop read_loop
peek_loop-read_loop room size out total left [] s h = refl
peek_loop-read_loop room size out total left (e ∷ es) s h = elim (dec_le size total) [
  | yes done ↦ rw (le→ltb total size done) refl
  | no more ↦
      let k : ℕ = min size (length (content e)) in
      let c = consume-Consumed e k s.0 (omega arith) in
      let all = length-append (content e) (contents es) in
      elim (Bool-cases (length (content e) - k == 0)) [
        | inl emptied ↦
            let rest =
              peek_loop-read_loop room size (out ++ take k (content e)) (add64 total k)
                (sub64 left k) es s.1 (omega (arith, all, add64-eq total k)) in
            rw (lt→ltb total size (omega arith), copyout-eq e size s.0)
              (ground (arith, c.remain, emptied, rest))
        | inr kept ↦
            let enough =
              peek_loop-done room size (out ++ take k (content e)) (add64 total k) es
                (omega (arith, all, add64-eq total k, ==→ne _ _ kept)) in
            rw (lt→ltb total size (omega arith), copyout-eq e size s.0)
              (ground (arith, c.remain, kept, enough))
      ]
]

-- On a sound buffer `peek` into an array of any room ends as `read` into that array does, with the
-- same bytes and the same count where there is a result; it also writes out of bounds in the same
-- cases.
pub peek-read :
    (b : BufferImpl) (room size : ℕ)
    → IsValid b
    → peek b room size ≡ (read b room size >>= λ r. ok (r.0, r.1))
unfolding peek read
peek-read b room size v =
    peek_loop-read_loop room size [] 0 b.size b.extents v.sized (omega (arith, v.counted, v.fits))
    ∙ joined (read_loop room size [] 0 b.size b.extents)
  where
    joined : (o : Outcome Reading) → (o >>= told) ≡ ((o >>= returned) >>= λ r. ok (r.0, r.1))
    joined (ok r) = refl
    joined fault = refl
    joined bad_alloc = refl
    joined aborted = refl
    joined out_of_fuel = refl
