-- ===== src/Blocking/Chunks.antt =====
-- What a blocking read takes in over one round of the event loop.
use what_the_event.Common.{
  ℕ, ◌+◌, ◌-◌, ◌<◌, ◌^◌, ◌≤◌, ◌≡◌, refl, sym, ap, ap₂, ◌∙◌, Bool, true, false, lt→ltb, le→ltb, ok,
  List, [], ◌∷◌, ◌++◌, take, take_all, drop_all, min, length, length-append, append_assoc,
  append-nil, add64, add64-eq, sub64, sub64-eq, arith,
}
use what_the_event.Buffer.Extent.{Cell}
use what_the_event.Buffer.Impl.{BufferImpl}
use what_the_event.Buffer.Contents.{contents, IsValid}
use what_the_event.Buffer.Append.{append-contents}
use what_the_event.Buffer.Read.{read-contents}
use what_the_event.Buffer.Served.{short_read-IsServed}
use what_the_event.Stream.Received.{IsDrained}
use what_the_event.Stream.Reading.{again, broken, received, chunk_size}
use what_the_event.Blocking.Reader.{
  BlockingReadCallback, on_available, on_eof, on_error, take_chunk, Round, loop_once,
}

abbrev pub concat : List (List Cell) → List Cell
concat [] = []
concat (c ∷ cs) = c ++ concat cs

pub concat-append : (cs ds : List (List Cell)) → concat (cs ++ ds) ≡ concat cs ++ concat ds
concat-append [] ds = refl
concat-append (c ∷ cs) ds =
    ap (λ x. c ++ x) (concat-append cs ds) ∙ sym (append_assoc c (concat cs) (concat ds))

-- The chunks that one round brings, none of more than 4096 bytes, and whether the stream then ends (the
-- first flag) or fails (the second): `readHelper` reads on after a full chunk.
pub data Brings : Round → List (List Cell) → Bool → Bool → Type 0 where
  silent : Brings [] [] false false
  retried : {more : Round} → Brings (again ∷ more) [] false false
  over : {more : Round} → Brings (received [] ∷ more) [] true false
  failed : {more : Round} → Brings (broken ∷ more) [] false true
  short :
      {more : Round} (c : List Cell)
      → 0 < length c
      → length c < chunk_size
      → Brings (received c ∷ more) (c ∷ []) false false
  full :
      {more : Round} {cs : List (List Cell)} {eof error : Bool} (c : List Cell)
      → length c ≡ chunk_size
      → Brings more cs eof error
      → Brings (received c ∷ more) (c ∷ cs) eof error

-- The callback object after it was given the bytes.
abbrev pub given : BlockingReadCallback → List Cell → BlockingReadCallback
given cb c = record cb { copied = cb.copied ++ c; nread = cb.nread + length c }

pub given-append :
    (cb : BlockingReadCallback) (c d : List Cell) → given (given cb c) d ≡ given cb (c ++ d)
given-append cb c d =
    ap (λ x. record (given (given cb c) d) { copied = x }) (append_assoc cb.copied c d)
    ∙ ap (λ k. record (given cb (c ++ d)) { nread = k }) (omega (arith, length-append c d))

-- The object with these flags, which are its own but for what has just been told.
with_flags :
    (cb : BlockingReadCallback) (e e' r r' : Bool)
    → e ≡ e'
    → r ≡ r'
    → record (given cb []) { eof = e'; error = r' } ≡ record cb { eof = e; error = r }
with_flags cb e e' r r' h k =
    ap (λ c. record cb { copied = c; nread = cb.nread + 0; eof = e'; error = r' })
      (append-nil cb.copied)
    ∙ ap (λ n. record cb { nread = n; eof = e'; error = r' }) (omega arith)
    ∙ ap₂ (λ x y. record cb { eof = x; error = y }) (sym h) (sym k)

on_available-all :
    (cb : BlockingReadCallback) (b : BufferImpl) (n : ℕ)
    → IsValid b
    → cb.nread + n ≡ cb.size
    → cb.size < 2 ^ 64
    → length (contents b.extents) ≤ n
    → (b' : BufferImpl) × (on_available cb b ≡ ok (given cb (contents b.extents), b'))
      × IsDrained b'
unfolding on_available
on_available-all cb b n v room small fits =
    let r = read-contents b n v (omega arith) (short_read-IsServed n 0 b.extents (omega arith)) in
    let left : sub64 cb.size cb.nread ≡ n =
      sub64-eq cb.size cb.nread (omega arith) small ∙ omega arith in
    let count : add64 cb.nread (min n (length (contents b.extents)))
        ≡ cb.nread + length (contents b.extents) =
      add64-eq cb.nread _ (omega arith) ∙ omega arith in
    (
      r.0,
      rw left (rw (r.1) (rw (count, take_all n (contents b.extents) fits) refl)),
      (r.2, r.3 ∙ drop_all n (contents b.extents) fits),
    )

-- What a round comes to.
abbrev pub told : BlockingReadCallback → List (List Cell) → Bool → Bool → BlockingReadCallback
told cb cs eof error = record (given cb (concat cs)) { eof = eof; error = error }

module _ (alloc : ℕ → Bool) (granted : (n : ℕ) → n < 2 ^ 63 → alloc n ≡ true) where
  take_chunk-given :
      (cb : BlockingReadCallback) (b : BufferImpl) (n : ℕ) (c : List Cell)
      → IsDrained b
      → cb.nread + n ≡ cb.size
      → cb.size < 2 ^ 63
      → length c ≤ n
      → (b' : BufferImpl) × (take_chunk alloc c cb b ≡ ok (given cb c, b')) × IsDrained b'
  unfolding take_chunk
  take_chunk-given cb b n c (v, e) room small fits =
      let a =
        append-contents alloc b c (length c) v (omega arith) (omega arith)
          (omega (arith, v.counted, ap length e)) (granted (length c) (omega arith)) in
      let held : contents a.0.extents ≡ c =
        a.3 ∙ ap (λ x. x ++ take (length c) c) e ∙ take_all (length c) c (omega arith) in
      let r = on_available-all cb a.0 n a.2 room (omega arith) (omega (arith, ap length held)) in
      (r.0, rw a.1 (r.1 ∙ ap (λ d. ok (given cb d, r.0)) held), r.2)

  pub loop_once-Brings :
      (cb : BlockingReadCallback) (b : BufferImpl) (n : ℕ) (round : Round) (cs : List (List Cell))
      (eof error : Bool)
      → IsDrained b
      → cb.nread + n ≡ cb.size
      → cb.size < 2 ^ 63
      → cb.eof ≡ false
      → cb.error ≡ false
      → Brings round cs eof error
      → length (concat cs) ≤ n
      → (b' : BufferImpl) × (loop_once alloc round cb b ≡ ok (told cb cs eof error, b'))
        × IsDrained b'
  unfolding loop_once on_eof on_error
  loop_once-Brings cb b n _ _ _ _ e room small not_over fine silent fits =
      (b, ap (λ x. ok (x, b)) (sym (with_flags cb cb.eof false cb.error false not_over fine)), e)
  loop_once-Brings cb b n _ _ _ _ e room small not_over fine retried fits =
      (b, ap (λ x. ok (x, b)) (sym (with_flags cb cb.eof false cb.error false not_over fine)), e)
  loop_once-Brings cb b n _ _ _ _ e room small not_over fine over fits =
      (b, ap (λ x. ok (x, b)) (sym (with_flags cb true true cb.error false refl fine)), e)
  loop_once-Brings cb b n _ _ _ _ e room small not_over fine failed fits =
      (b, ap (λ x. ok (x, b)) (sym (with_flags cb cb.eof false true true not_over refl)), e)
  loop_once-Brings cb b n _ _ _ _ e room small not_over fine (short [] some_bytes part) fits =
      absurd (omega arith)
  loop_once-Brings cb b n _ _ _ _ e room small not_over fine (short (x ∷ c) some_bytes part) fits =
      let whole = append-nil (x ∷ c) in
      let r = take_chunk-given cb b n (x ∷ c) e room small (omega (arith, ap length whole)) in
      (
        r.0,
        rw r.1 (
            rw (lt→ltb (length (x ∷ c)) chunk_size part) (
              ap (λ y. ok (y, r.0))
                (sym (
                  ap {A = BlockingReadCallback} (λ y. record y { eof = false; error = false })
                    (sym (given-append cb (x ∷ c) []))
                  ∙ with_flags (given cb (x ∷ c)) cb.eof false cb.error false not_over fine)))),
        r.2,
      )
  loop_once-Brings cb b n _ _ _ _ e room small not_over fine (full [] size rest) fits =
      absurd (omega arith)
  loop_once-Brings cb b n _ _ eof error e room small not_over fine
        (full {more = after} {cs = cs} (x ∷ c) size rest) fits =
      let both = length-append (x ∷ c) (concat cs) in
      let r = take_chunk-given cb b n (x ∷ c) e room small (omega (arith, both)) in
      let w =
        loop_once-Brings (given cb (x ∷ c)) r.0 (n - length (x ∷ c)) after cs eof error r.2
          (omega (arith, both)) small not_over fine rest (omega (arith, both)) in
      (
        w.0,
        rw r.1 (
            rw (le→ltb (length (x ∷ c)) chunk_size (omega arith)) (
              w.1
              ∙ ap (λ y. ok (record y { eof = eof; error = error }, w.0))
                  (given-append cb (x ∷ c) (concat cs)))),
        w.2,
      )
