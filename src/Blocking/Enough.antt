-- ===== src/Blocking/Enough.antt =====
-- A blocking read returns once as many bytes have come as were asked for.
use what_the_event.Common.{
  ℕ, ◌+◌, ◌-◌, ◌<◌, ◌^◌, ◌≤◌, ◌≡◌, refl, sym, ap, ◌∙◌, Bool, true, false, not, ◌&&◌, ◌||◌, ◌⊎◌, inl,
  inr, ltb, lt→ltb, le→ltb, ok, List, [], ◌∷◌, ◌++◌, length, length-append, arith,
}
use what_the_event.Buffer.Extent.{Cell}
use what_the_event.Buffer.Impl.{BufferImpl}
use what_the_event.Stream.Received.{IsDrained}
use what_the_event.Blocking.Reader.{
  BlockingReadCallback, new_callback, Round, loop_once, wait_loop, blocking_read,
}
use what_the_event.Blocking.Chunks.{
  concat, concat-append, Brings, given, given-append, told, loop_once-Brings,
}

-- Rounds that bring these chunks: in the last one they come to make up `n` bytes, or the stream ends or
-- fails before or when they do.
pub data Fills : ℕ → List Round → List (List Cell) → Bool → Bool → Type 0 where
  last :
      {n : ℕ} {round : Round} {cs : List (List Cell)} {eof error : Bool}
      → Brings round cs eof error
      → length (concat cs) ≤ n
      → (length (concat cs) ≡ n) ⊎ ((eof || error) ≡ true)
      → Fills n (round ∷ []) cs eof error
  more :
      {n : ℕ} {round : Round} {rounds : List Round} {cs ds : List (List Cell)} {eof error : Bool}
      → Brings round cs false false
      → length (concat cs) < n
      → Fills (n - length (concat cs)) rounds ds eof error
      → Fills n (round ∷ rounds) (cs ++ ds) eof error

module _ (alloc : ℕ → Bool) (granted : (n : ℕ) → n < 2 ^ 63 → alloc n ≡ true) where
  wait_loop-goes :
      (cb cb' : BlockingReadCallback) (b b' : BufferImpl) (r : Round) (rounds : List Round)
      → loop_once alloc r cb b ≡ ok (cb', b')
      → cb'.nread < cb'.size
      → cb'.error ≡ false
      → cb'.eof ≡ false
      → wait_loop alloc (r ∷ rounds) cb b ≡ wait_loop alloc rounds cb' b'
  unfolding wait_loop
  wait_loop-goes cb cb' b b' r rounds once less fine not_over =
      rw once (rw (lt→ltb cb'.nread cb'.size less, fine, not_over) refl)

  wait_loop-ends :
      (cb cb' : BlockingReadCallback) (b b' : BufferImpl) (r : Round) (rounds : List Round)
      → loop_once alloc r cb b ≡ ok (cb', b')
      → (ltb cb'.nread cb'.size && not cb'.error && not cb'.eof) ≡ false
      → wait_loop alloc (r ∷ rounds) cb b ≡ ok (cb', b')
  unfolding wait_loop
  wait_loop-ends cb cb' b b' r rounds once enough = rw once (rw enough refl)

  -- The test of the loop fails when enough has come, or the stream has ended or failed.
  enough-ends :
      (nread n size : ℕ) (cs : List (List Cell)) (eof error : Bool)
      → nread + n ≡ size
      → (length (concat cs) ≡ n) ⊎ ((eof || error) ≡ true)
      → (ltb (nread + length (concat cs)) size && not error && not eof) ≡ false
  enough-ends nread n size cs eof error room (inl all) =
      rw (le→ltb (nread + length (concat cs)) size (omega arith)) refl
  enough-ends nread n size cs eof error room (inr told_so) = ground (arith, told_so)

  wait_loop-Fills :
      (cb : BlockingReadCallback) (b : BufferImpl) (n : ℕ) (rounds later : List Round)
      (chunks : List (List Cell)) (eof error : Bool)
      → IsDrained b
      → cb.nread + n ≡ cb.size
      → cb.size < 2 ^ 63
      → cb.eof ≡ false
      → cb.error ≡ false
      → Fills n rounds chunks eof error
      → (b' : BufferImpl) × (wait_loop alloc (rounds ++ later) cb b
          ≡ ok (told cb chunks eof error, b'))
        × ((eof || error) ≡ false → length (concat chunks) ≡ n)
        × IsDrained b'
  wait_loop-Fills cb b n _ later cs eof error e room small not_over fine
        (last {round = round} f fits enough) =
      let r =
        loop_once-Brings alloc granted cb b n round cs eof error e room small not_over fine f
          fits in
      (
        r.0,
        wait_loop-ends cb (told cb cs eof error) b r.0 round later r.1
            (enough-ends cb.nread n cb.size cs eof error room enough),
        λ quiet. elim enough [ inl all ↦ all | inr h ↦ cc ],
        r.2,
      )
  wait_loop-Fills cb b n _ later _ eof error e room small not_over fine
        (more {round = round} {rounds = rounds} {cs = cs} {ds = ds} f part g) =
      let r =
        loop_once-Brings alloc granted cb b n round cs false false e room small not_over fine f
          (omega arith) in
      let w =
        wait_loop-Fills (told cb cs false false) r.0 (n - length (concat cs)) rounds later ds eof
          error r.2 (omega arith) small refl refl g in
      let joined = concat-append cs ds in
      (
        w.0,
        wait_loop-goes cb (told cb cs false false) b r.0 round (rounds ++ later) r.1 (omega arith)
              refl refl
            ∙ w.1
            ∙ ap (λ x. ok (record x { eof = eof; error = error }, w.0))
                (given-append cb (concat cs) (concat ds) ∙ ap (given cb) (sym joined)),
        λ h. ap length joined ∙ length-append (concat cs) (concat ds) ∙ omega (arith, w.2 h),
        w.3,
      )

-- A blocking read of `size` bytes with nothing left over from before, where the reads of the rounds
-- bring no more than that. When the chunks, one or several to a round, come to exactly `size`
-- bytes, or the stream ends or fails: it ends with that round, by an exception if the stream has
-- failed, and waits for no further one, has stored the bytes of all chunks in order, reports their
-- number, which is `size` if the stream has not ended or failed, knows which of these it was, also
-- when it came behind the last bytes in the same round, and leaves nothing in the stream's buffer.
pub blocking_read-Fills :
    (alloc : ℕ → Bool) (size : ℕ) (b : BufferImpl) (rounds later : List Round)
    (chunks : List (List Cell)) (eof error : Bool)
    → ((n : ℕ) → n < 2 ^ 63 → alloc n ≡ true)
    → size < 2 ^ 63
    → IsDrained b
    → Fills size rounds chunks eof error
    → (cb : BlockingReadCallback) × (b' : BufferImpl) × (blocking_read alloc
          (rounds ++ later)
          size
          b
        ≡ ok (cb, b'))
      × (cb.copied ≡ concat chunks)
      × (cb.nread ≡ length (concat chunks))
      × ((eof || error) ≡ false → cb.nread ≡ size)
      × (cb.eof ≡ eof)
      × (cb.error ≡ error)
      × IsDrained b'
unfolding blocking_read
blocking_read-Fills alloc size b rounds later chunks eof error granted small e f =
    let w =
      wait_loop-Fills alloc granted (new_callback size) b size rounds later chunks eof error e
        (omega arith) small refl refl f in
    (
      record (given (new_callback size) (concat chunks)) { eof = eof; error = error },
      w.0,
      w.1,
      refl,
      omega arith,
      λ h. omega (arith, w.2 h),
      refl,
      refl,
      w.3,
    )
