-- ===== src/Blocking/Leftover.antt =====
-- A blocking read of fewer bytes than have come, and the next one.
use what_the_event.Common.{
  ℕ, ◌+◌, ◌-◌, ◌<◌, ◌^◌, ◌≡◌, refl, ap, ◌∙◌, Bool, true, false, le→ltb, Outcome, ok, fault,
  bad_alloc, aborted, out_of_fuel, ◌>>=◌, ltb, if◌then◌else◌, ◌≤◌, List, [], ◌∷◌, take, drop,
  take_all, length, length-drop, append-nil, add64, add64-eq, sub64, sub64-eq, arith,
}
use what_the_event.Buffer.Extent.{Cell, InternalExtent}
use what_the_event.Buffer.Impl.{BufferImpl, empty_buffer, append}
use what_the_event.Buffer.Contents.{content, contents, IsValid}
use what_the_event.Buffer.Append.{append-extent, empty-IsValid}
use what_the_event.Buffer.Read.{read_overrun}
use what_the_event.Buffer.Cut.{cut_read}
use what_the_event.Stream.Reading.{received, chunk_size}
use what_the_event.Blocking.Reader.{
  BlockingReadCallback, new_callback, on_available, on_eof, take_chunk, Round, loop_once, wait_loop,
  blocking_read,
}

-- The callback object of a read of `n` bytes that has stored these, as many as it was asked for.
abbrev pub filled : ℕ → List Cell → BlockingReadCallback
filled n c = record { copied = c; size = n; nread = n; eof = false; error = false }

either-ok :
    (m : Outcome (BlockingReadCallback × BufferImpl)) (t : Bool)
    → (m >>= λ r. if t then ok (r.0, r.1) else ok (r.0, r.1)) ≡ m
either-ok (ok r) true = refl
either-ok (ok r) false = refl
either-ok fault t = refl
either-ok bad_alloc t = refl
either-ok aborted t = refl
either-ok out_of_fuel t = refl

-- A round that brings one chunk.
loop_once-single :
    (alloc : ℕ → Bool) (cb : BlockingReadCallback) (b : BufferImpl) (c : List Cell)
    → 0 < length c
    → loop_once alloc ((received c) ∷ []) cb b ≡ take_chunk alloc c cb b
unfolding loop_once
loop_once-single alloc cb b [] h = absurd (omega arith)
loop_once-single alloc cb b (x ∷ c) h =
    either-ok (take_chunk alloc (x ∷ c) cb b) (ltb (length (x ∷ c)) chunk_size)

-- A round whose first chunk the callback overruns with.
loop_once-fault :
    (alloc : ℕ → Bool) (cb : BlockingReadCallback) (b : BufferImpl) (c : List Cell) (more : Round)
    → 0 < length c
    → take_chunk alloc c cb b ≡ fault
    → loop_once alloc (received c ∷ more) cb b ≡ fault
unfolding loop_once
loop_once-fault alloc cb b [] more h e = absurd (omega arith)
loop_once-fault alloc cb b (x ∷ c) more h e = rw e refl

module _ (alloc : ℕ → Bool) (later : List Round) where
  -- A read for which the first extent is enough, in the round that brings some bytes.
  first_serves :
      (b : BufferImpl) (c : List Cell) (e : InternalExtent) (es : List InternalExtent) (z n : ℕ)
      → append alloc b c (length c) ≡ ok (record { extents = e ∷ es; size = z })
      → IsValid (record { extents = e ∷ es; size = z })
      → 0 < length c
      → 0 < n
      → n < length (content e)
      → n < 2 ^ 63
      → (e' : InternalExtent) × (blocking_read alloc ((received c ∷ []) ∷ later) n b
          ≡ ok (filled n (take n (content e)), record { extents = e' ∷ es; size = z - n }))
        × (content e' ≡ drop n (content e))
        × IsValid (record { extents = e' ∷ es; size = z - n })
  unfolding blocking_read wait_loop take_chunk on_available
  first_serves b c e es z n came v arrived some_bytes less small =
      let r = cut_read e es z n v some_bytes less in
      let room : sub64 n 0 ≡ n = sub64-eq n 0 (omega arith) (omega arith) ∙ omega arith in
      let count : add64 0 n ≡ n = add64-eq 0 n (omega arith) ∙ omega arith in
      (
        r.0,
        rw (loop_once-single alloc (new_callback n) b c arrived)
            (rw came (rw room (rw (r.1) (rw count (rw (le→ltb n n (omega arith)) refl))))),
        r.2,
        r.3,
      )

  -- The end of the stream is told without a look at what is left in the buffer.
  at_end :
      (b : BufferImpl) (n : ℕ) (more : Round)
      → blocking_read alloc ((received [] ∷ more) ∷ later) n b
        ≡ ok (record (new_callback n) { eof = true }, b)
  unfolding blocking_read wait_loop loop_once on_eof
  at_end b n more = ground arith

  -- A read that ends within the second extent.
  second_overruns :
      (b : BufferImpl) (d : List Cell) (e x : InternalExtent) (z n : ℕ) (more : Round)
      → append alloc b d (length d) ≡ ok (record { extents = e ∷ x ∷ []; size = z })
      → IsValid (record { extents = e ∷ x ∷ []; size = z })
      → 0 < length d
      → 0 < length (content e)
      → length (content e) < n
      → n < length (content e) + length (content x)
      → n < 2 ^ 63
      → blocking_read alloc ((received d ∷ more) ∷ later) n b ≡ fault
  unfolding blocking_read wait_loop take_chunk on_available
  second_overruns b d e x z n more came v arrived some_left beyond less small =
      let over =
        read_overrun (record { extents = e ∷ x ∷ []; size = z }) n v (omega arith)
          (λ h. absurd (omega (arith, ((h (omega arith)).1 (omega arith)).0))) in
      let room : sub64 n 0 ≡ n = sub64-eq n 0 (omega arith) (omega arith) ∙ omega arith in
      let overrun : take_chunk alloc d (new_callback n) b ≡ fault =
        rw came (rw room (rw over refl)) in
      rw (loop_once-fault alloc (new_callback n) b d more arrived overrun) refl

-- A new stream, a read of `n` bytes when more have come in one chunk of at most 4096, and then a read of
-- more than were left. The first read returns its `n` bytes and leaves the others in the stream's buffer.
-- If the end of the stream follows, the second one reports 0 bytes and the end, and the bytes stay where
-- they are; if another chunk follows with so many bytes that some would be left again, it writes past the
-- caller's array.
pub leftover_lost :
    (alloc : ℕ → Bool) (later : List Round) (more : Round) (c d : List Cell) (n m : ℕ)
    → ((k : ℕ) → k < 2 ^ 63 → alloc k ≡ true)
    → 0 < n
    → n < length c
    → length c - n < m
    → m < length c - n + length d
    → length c ≤ chunk_size
    → length d ≤ chunk_size
    → (b : BufferImpl) × (blocking_read alloc ((received c ∷ []) ∷ later) n empty_buffer
        ≡ ok (filled n (take n c), b))
      × (contents b.extents ≡ drop n c)
      × (blocking_read alloc ((received [] ∷ more) ∷ later) m b
          ≡ ok (record (new_callback m) { eof = true }, b))
      × (blocking_read alloc ((received d ∷ more) ∷ later) m b ≡ fault)
leftover_lost alloc later rest c d n m granted some_bytes more over less short short' =
    let came =
      append-extent alloc empty_buffer c (length c) empty-IsValid (omega arith) (omega arith)
        (omega arith) (granted (length c) (omega arith)) in
    let whole : content (came.0) ≡ c = came.2 ∙ take_all (length c) c (omega arith) in
    let one =
      first_serves alloc later empty_buffer c came.0 [] (0 + length c) n (came.1) came.3
        (omega arith) some_bytes (omega (arith, ap length whole)) (omega arith) in
    let b : BufferImpl = record { extents = one.0 ∷ []; size = 0 + length c - n } in
    let kept : content (one.0) ≡ drop n c = one.2 ∙ ap (drop n) whole in
    let next =
      append-extent alloc b d (length d) one.3 (omega arith) (omega arith) (omega arith)
        (granted (length d) (omega arith)) in
    (
      b,
      one.1 ∙ ap (λ x. ok (filled n (take n x), b)) whole,
      append-nil (content (one.0)) ∙ kept,
      at_end alloc later b m rest,
      second_overruns alloc later b d one.0 next.0 (0 + length c - n + length d) m rest next.1
          next.3 (omega arith) (omega (arith, ap length kept, length-drop n c))
          (omega (arith, ap length kept, length-drop n c))
          (omega (
            arith,
            ap length kept,
            length-drop n c,
            ap length (next.2 ∙ take_all (length d) d (omega arith)),
          ))
          (omega arith),
    )
