-- ===== src/Buffer/Single.antt =====
-- Buffers of at most one extent: what is in them is lent as one region, also after a part is drained.
use what_the_event.Common.{
  ℕ, zero, suc, ◌≤◌, ◌<◌, ◌≡◌, refl, sym, ap, ◌∙◌, List, [], ◌∷◌, ok, Outcome, out_of_fuel, fault,
  bad_alloc, aborted, ◌>>=◌, length, min, ltb, ◌==◌, Bool-cases, inl, inr, append-nil, arith,
  size_max, sub64, add64, take_all,
}
use what_the_event.Buffer.Extent.{Cell, InternalExtent, readable, consume}
use what_the_event.Buffer.Impl.{BufferImpl, drain, drain_loop, peek_extents, peek_extents_loop}
use what_the_event.Buffer.Contents.{contents, IsValid}
use what_the_event.Buffer.Peek.{lent, AllRegions, peek_extents-contents}

drain_loop-no_longer :
    (f r q : ℕ) (es es' : List InternalExtent)
    → drain_loop f r es ≡ ok (q, es')
    → length es' ≤ length es
unfolding drain_loop
drain_loop-no_longer f r q [] es' h = ground (arith, h)
drain_loop-no_longer zero r q (e ∷ es) es' h = ground (arith, h)
drain_loop-no_longer (suc f) r q (e ∷ es) es' h =
    let n : ℕ = min r (readable e) in
    elim (Bool-cases (ltb 0 r)) [
      | inl going ↦ elim (Bool-cases ((consume e n).0 == 0)) [
        | inl emptied ↦
            let rest = drain_loop-no_longer f (sub64 r n) q es es' in
            ground (arith, h, going, emptied, rest)
        | inr kept ↦
            let rest = drain_loop-no_longer f (sub64 r n) q ((consume e n).1 ∷ es) es' in
            ground (arith, h, going, kept, rest)
      ]
      | inr over ↦ ground (arith, h, over)
    ]

pub drain-no_longer :
    (b b' : BufferImpl) (count : ℕ) → drain b count ≡ ok b' → length b'.extents ≤ length b.extents
unfolding drain
drain-no_longer b b' count h = from (drain_loop (suc (length b.extents)) count b.extents) refl h
  where
    from :
        (o : Outcome (ℕ × List InternalExtent))
        → drain_loop (suc (length b.extents)) count b.extents ≡ o
        → (o >>= λ r. ok (record { extents = r.1; size = sub64 b.size (sub64 count r.0) })) ≡ ok b'
        → length b'.extents ≤ length b.extents
    from (ok r) e k =
        let shorter = drain_loop-no_longer _ count r.0 b.extents r.1 e in ground (arith, k, shorter)
    from fault e k = ground (arith, k)
    from bad_alloc e k = ground (arith, k)
    from aborted e k = ground (arith, k)
    from out_of_fuel e k = ground (arith, k)

peek_extents_loop-no_longer :
    (size total : ℕ) (es : List InternalExtent)
    → length (peek_extents_loop size total es) ≤ length es
unfolding peek_extents_loop
peek_extents_loop-no_longer size total [] = omega arith
peek_extents_loop-no_longer size total (e ∷ es) =
    ground (arith, peek_extents_loop-no_longer size (add64 total (readable e)) es)

-- All of a sound buffer with one extent is lent as one region.
pub one_region :
    (b : BufferImpl)
    → IsValid b
    → length b.extents ≤ 1
    → 0 < length (contents b.extents)
    → peek_extents b size_max ≡ (length (contents b.extents), contents b.extents) ∷ []
unfolding peek_extents
one_region b v small some_bytes =
    let a = peek_extents-contents b size_max v (omega arith) in
    let all : lent (peek_extents b size_max) ≡ contents b.extents =
      a.0 ∙ take_all size_max (contents b.extents) (omega (arith, v.counted, v.fits)) in
    one (peek_extents b size_max) (contents b.extents) all a.1 few some_bytes
  where
    few : length (peek_extents b size_max) ≤ 1
    few = omega (arith, peek_extents_loop-no_longer size_max 0 b.extents)

    one :
        (gs : List (ℕ × List Cell)) (c : List Cell)
        → lent gs ≡ c
        → AllRegions gs
        → length gs ≤ 1
        → 0 < length c
        → gs ≡ (length c, c) ∷ []
    one [] c all r h k = absurd (omega (arith, ap length all))
    one ((n, d) ∷ []) c all r h k =
        let same : d ≡ c = sym (append-nil d) ∙ all in
        ap (λ m. (m, d) ∷ []) (omega (arith, r.0.1)) ∙ ap (λ x. (length x, x) ∷ []) same
    one (g ∷ g' ∷ gs) c all r h k = absurd (omega arith)
