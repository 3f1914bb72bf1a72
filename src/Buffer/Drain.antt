-- ===== src/Buffer/Drain.antt =====
-- `drain` drops bytes from the front, for every count.
use what_the_event.Common.{
  ℕ, zero, suc, ◌-◌, ◌≤◌, ◌<◌, ◌^◌, ◌≡◌, refl, sym, ap, ◌∙◌, List, [], ◌∷◌, ◌++◌, ok, min, length,
  drop, sub64, sub64-eq, length-append, length-drop, drop_all, drop-append_le, drop-append_ge,
  arith,
}
use what_the_event.Buffer.Extent.{InternalExtent, consume}
use what_the_event.Buffer.Impl.{BufferImpl, drain, drain_loop}
use what_the_event.Buffer.Contents.{
  All, content, contents, IsSized, IsFull, IsValid, Consumed, readable-length, consume-Consumed,
}
use native.Mathlib.Decide.{dec_le}

record Drained (f remain : ℕ) (es : List InternalExtent) : Type 0 where
  chain : List InternalExtent
  runs : drain_loop f remain es ≡ ok (remain - length (contents es), chain)
  rest : contents chain ≡ drop remain (contents es)
  sized : All IsSized chain
  full : All IsFull es → All IsFull chain

drain_none : (f : ℕ) (es : List InternalExtent) → All IsSized es → 0 < f → Drained f 0 es
unfolding drain_loop
drain_none f [] s h = record { chain = []; runs = refl; rest = refl; sized = tt; full = λ _. tt }
drain_none zero (e ∷ es) s h = absurd (omega arith)
drain_none (suc f) (e ∷ es) s h = record {
  chain = e ∷ es;
  runs = ground arith;
  rest = refl;
  sized = s;
  full = λ h. h;
}

module _ (f r : ℕ) (e : InternalExtent) (es : List InternalExtent) (sized : IsSized e) where
  drain_loop-removed :
      length (content e) ≤ suc r
      → suc r < 2 ^ 64
      → drain_loop (suc f) (suc r) (e ∷ es) ≡ drain_loop f (suc r - length (content e)) es
  unfolding drain_loop
  drain_loop-removed h k =
      ground
        (arith, readable-length e sized, least, c.remain, sub64-eq (suc r) (length (content e)) h k)
    where
      least : min (suc r) (length (content e)) ≡ length (content e)
      least = omega arith

      c : Consumed e (length (content e))
      c = consume-Consumed e _ sized (omega arith)

  drain_loop-kept :
      suc r < length (content e)
      → suc r < 2 ^ 64
      → drain_loop (suc f) (suc r) (e ∷ es) ≡ drain_loop f 0 ((consume e (suc r)).1 ∷ es)
  unfolding drain_loop
  drain_loop-kept h k =
      ground
        (arith, readable-length e sized, least, c.remain, sub64-eq (suc r) (suc r) (omega arith) k)
    where
      least : min (suc r) (length (content e)) ≡ suc r
      least = omega arith

      c : Consumed e (suc r)
      c = consume-Consumed e _ sized (omega arith)

-- The extent in front is used up, or only cut.
drain_loop-Drained :
    (f remain : ℕ) (es : List InternalExtent)
    → All IsSized es
    → length es < f
    → remain < 2 ^ 64
    → Drained f remain es
unfolding drain_loop
drain_loop-Drained f remain [] s h k = record {
  chain = [];
  runs = ap (λ n. ok (n, [])) (omega arith);
  rest = sym (drop_all remain [] (omega arith));
  sized = tt;
  full = λ _. tt;
}
drain_loop-Drained zero remain (e ∷ es) s h k = absurd (omega arith)
drain_loop-Drained (suc f) zero (e ∷ es) s h k = drain_none (suc f) (e ∷ es) s (omega arith)
drain_loop-Drained (suc f) (suc r) (e ∷ es) s h k = elim (dec_le (length (content e)) (suc r)) [
  | yes le ↦
      let d =
        drain_loop-Drained f (suc r - length (content e)) es s.1 (omega arith) (omega arith) in
      record {
        chain = d.chain;
        runs =
            drain_loop-removed f r e es s.0 le k
            ∙ d.runs
            ∙ ap (λ n. ok (n, d.chain)) (omega (arith, length-append (content e) (contents es)));
        rest =
            d.rest
            ∙ sym (
                drop-append_ge (content e) (contents es) (suc r) (suc r - length (content e))
                  (omega arith));
        sized = d.sized;
        full = λ p. d.full p.1;
      }
  | no gt ↦
      let c = consume-Consumed e (suc r) s.0 (omega arith) in
      let d = drain_none f ((consume e (suc r)).1 ∷ es) (c.sized, s.1) (omega arith) in
      record {
        chain = d.chain;
        runs =
            drain_loop-kept f r e es s.0 (omega arith) k
            ∙ d.runs
            ∙ ap (λ n. ok (n, d.chain)) (omega (arith, length-append (content e) (contents es)));
        rest =
            d.rest
            ∙ ap (λ c. c ++ contents es) c.dropped
            ∙ sym (drop-append_le (suc r) (content e) (contents es) (omega arith));
        sized = d.sized;
        full = λ p. d.full (c.full p.0, p.1);
      }
]

-- `drain` of any count, on a sound buffer, returns; it drops that many bytes from the front, all of
-- them if there are no more, and leaves the buffer sound.
pub drain-contents :
    (b : BufferImpl) (count : ℕ)
    → IsValid b
    → count < 2 ^ 64
    → (b' : BufferImpl) × (drain b count ≡ ok b')
      × IsValid b'
      × (contents b'.extents ≡ drop count (contents b.extents))
unfolding drain
drain-contents b count v h = (after, rw d.runs refl, valid, d.rest)
  where
    d : Drained (suc (length b.extents)) count b.extents
    d = drain_loop-Drained _ count b.extents v.sized (omega arith) h

    left : ℕ
    left = count - length (contents b.extents)

    after : BufferImpl
    after = record { extents = d.chain; size = sub64 b.size (sub64 count left) }

    removed : sub64 b.size (sub64 count left) ≡ length (contents b.extents) - count
    removed =
        ap (sub64 b.size) (sub64-eq count left (omega arith) h)
        ∙ sub64-eq b.size (count - left) (omega (arith, v.counted)) v.fits
        ∙ omega (arith, v.counted)

    valid : IsValid after
    valid = record {
      sized = d.sized;
      full = d.full v.full;
      counted = removed ∙ sym (ap length d.rest ∙ length-drop count (contents b.extents));
      fits = omega (arith, removed, v.counted, v.fits);
    }
