-- ===== src/Buffer/Client.antt =====
-- A buffer refines a queue of bytes: no sequence of calls tells them apart, as long as the calls stay
-- clear of the cases in which `append`, `read` and `prepend` go wrong.
use what_the_event.Common.{
  ℕ, ◌+◌, ◌<◌, ◌≤◌, ◌^◌, ◌≡◌, refl, sym, ap, subst, ◌∙◌, List, [], ◌∷◌, ◌++◌, Outcome, ok, ◌>>=◌,
  Bool, true, length, take, drop, take_all, arith,
}
use what_the_event.Buffer.Extent.{Cell}
use what_the_event.Buffer.Impl.{
  BufferImpl, append, append_buffer, prepend_buffer, drain, read, peek, peek_extents,
}
use what_the_event.Buffer.Contents.{contents, IsValid}
use what_the_event.Buffer.Append.{append-contents, append_buffer-contents, prepend_buffer-contents}
use what_the_event.Buffer.Drain.{drain-contents}
use what_the_event.Buffer.Read.{read-contents}
use what_the_event.Buffer.Served.{short_read-IsServed}
use what_the_event.Buffer.Agree.{peek-read}
use what_the_event.Buffer.Peek.{lent, peek_extents-contents}

-- A call of a client. `append_from` and `prepend_from` take another buffer.
pub data Call : Type 0 where
  put : List Cell → Call
  append_from prepend_from : BufferImpl → Call
  drop_bytes : ℕ → Call
  get copy view : ℕ → Call

-- What the queue answers to a call, and holds afterwards.
abbrev pub answer : List Cell → Call → List Cell × List Cell
answer q (put c) = ([], q ++ c)
answer q (append_from o) = ([], q ++ contents o.extents)
answer q (prepend_from o) = ([], contents o.extents ++ q)
answer q (drop_bytes n) = ([], drop n q)
answer q (get n) = (take n q, drop n q)
answer q (copy n) = (take n q, q)
answer q (view n) = (take n q, q)

-- The answers to the calls in turn, and what is held in the end.
abbrev pub answers : List Cell → List Call → List (List Cell) × List Cell
answers q [] = ([], q)
answers q (call ∷ calls) =
    let r = answer q call in let rest = answers r.1 calls in (r.0 ∷ rest.0, rest.1)

-- The same on a buffer: the bytes that `read` and `peek` store in an array of just the room asked
-- for, and those in the regions that `peek` lends.
unfoldable pub perform : (ℕ → Bool) → BufferImpl → Call → Outcome (List Cell × BufferImpl)
perform alloc b (put c) = append alloc b c (length c) >>= λ b'. ok ([], b')
perform alloc b (append_from o) = ok ([], (append_buffer b o).0)
perform alloc b (prepend_from o) = ok ([], (prepend_buffer b o).0)
perform alloc b (drop_bytes n) = drain b n >>= λ b'. ok ([], b')
perform alloc b (get n) = read b n n >>= λ r. ok (r.0, r.2)
perform alloc b (copy n) = peek b n n >>= λ r. ok (r.0, b)
perform alloc b (view n) = ok (lent (peek_extents b n), b)

unfoldable pub run : (ℕ → Bool) → BufferImpl → List Call → Outcome (List (List Cell) × BufferImpl)
unfolding perform
run alloc b [] = ok ([], b)
run alloc b (call ∷ calls) = do
  r ← perform alloc b call
  rest ← run alloc r.1 calls
  ok (r.0 ∷ rest.0, rest.1)

-- The calls that the buffer gets right: sizes fit the machine, and `read` and `peek` into an array ask
-- for no less than is held.
abbrev pub IsAllowed : List Cell → Call → Type 0
IsAllowed q (put c) = (length c < 2 ^ 63) × (length q + length c < 2 ^ 64)
IsAllowed q (append_from o) = IsValid o × (length q + length (contents o.extents) < 2 ^ 64)
IsAllowed q (prepend_from o) = IsValid o × (length q + length (contents o.extents) < 2 ^ 64)
IsAllowed q (drop_bytes n) = n < 2 ^ 64
IsAllowed q (get n) = (length q ≤ n) × (n < 2 ^ 64)
IsAllowed q (copy n) = (length q ≤ n) × (n < 2 ^ 64)
IsAllowed q (view n) = n < 2 ^ 64

abbrev pub AllAllowed : List Cell → List Call → Type 0
AllAllowed q [] = Unit
AllAllowed q (call ∷ calls) = IsAllowed q call × AllAllowed (answer q call).1 calls

module _ (alloc : ℕ → Bool) (granted : (n : ℕ) → n < 2 ^ 63 → alloc n ≡ true) where
  -- One call answers as the queue does, and leaves a sound buffer that holds what the queue does.
  pub perform-answer :
      (b : BufferImpl) (call : Call)
      → IsValid b
      → IsAllowed (contents b.extents) call
      → (b' : BufferImpl) × (perform alloc b call ≡ ok ((answer (contents b.extents) call).0, b'))
        × IsValid b'
        × (contents b'.extents ≡ (answer (contents b.extents) call).1)
  unfolding perform
  perform-answer b (put c) v a =
      let r =
        append-contents alloc b c (length c) v (omega arith) (omega (arith, a.0))
          (omega (arith, v.counted)) (granted (length c) a.0) in
      (
        r.0,
        rw (r.1) refl,
        r.2,
        r.3 ∙ ap (◌++◌ (contents b.extents)) (take_all (length c) c (omega arith)),
      )
  perform-answer b (append_from o) v a =
      let r = append_buffer-contents b o v a.0 (omega (arith, v.counted, a.0.counted)) in
      ((append_buffer b o).0, refl, r.0, r.2)
  perform-answer b (prepend_from o) v a =
      let r = prepend_buffer-contents b o v a.0 (omega (arith, v.counted, a.0.counted)) in
      ((prepend_buffer b o).0, refl, r.0, r.2)
  perform-answer b (drop_bytes n) v a =
      let r = drain-contents b n v a in (r.0, rw (r.1) refl, r.2, r.3)
  perform-answer b (get n) v a =
      let r = read-contents b n v a.1 (short_read-IsServed n 0 b.extents (omega arith)) in
      (r.0, rw (r.1) refl, r.2, r.3)
  perform-answer b (copy n) v a =
      let r = read-contents b n v a.1 (short_read-IsServed n 0 b.extents (omega arith)) in
      (b, rw (peek-read b n n v) (rw (r.1) refl), v, refl)
  perform-answer b (view n) v a =
      (b, ap (λ c. ok (c, b)) (peek_extents-contents b n v a).0, v, refl)

  run-perform :
      (b b' : BufferImpl) (call : Call) (calls : List Call) (c : List Cell)
      → perform alloc b call ≡ ok (c, b')
      → run alloc b (call ∷ calls) ≡ (run alloc b' calls >>= λ rest. ok (c ∷ rest.0, rest.1))
  unfolding run
  run-perform b b' call calls c e = rw e refl

  -- Every sequence of allowed calls on a sound buffer returns, with the answers that the queue of its
  -- bytes gives, and leaves a sound buffer that holds what the queue then does.
  pub run-answers :
      (b : BufferImpl) (calls : List Call)
      → IsValid b
      → AllAllowed (contents b.extents) calls
      → (b' : BufferImpl) × (run alloc b calls ≡ ok ((answers (contents b.extents) calls).0, b'))
        × IsValid b'
        × (contents b'.extents ≡ (answers (contents b.extents) calls).1)
  unfolding run
  run-answers b [] v a = (b, refl, v, refl)
  run-answers b (call ∷ calls) v a =
      let now = perform-answer b call v a.0 in
      let same : (answer (contents b.extents) call).1 ≡ contents now.0.extents = sym now.3 in
      let later = run-answers now.0 calls now.2 (subst (λ q. AllAllowed q calls) same a.1) in
      let asked : List Cell = (answer (contents b.extents) call).0 in
      (
        later.0,
        run-perform b now.0 call calls asked now.1
            ∙ ap (λ o. o >>= λ rest. ok (asked ∷ rest.0, rest.1)) later.1
            ∙ ap (λ q. ok (asked ∷ (answers q calls).0, later.0)) now.3,
        later.2,
        later.3 ∙ ap (λ q. (answers q calls).1) now.3,
      )
