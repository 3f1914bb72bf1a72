-- ===== src/Blocking/Wire.antt =====
-- Two blocking streams of src/blocking_stream.cc, one at each end of a connection.
use what_the_event.Common.{
  ℕ, suc, ◌+◌, ◌-◌, inl, ◌<◌, ◌^◌, ◌≡◌, refl, sym, ap, ◌∙◌, Bool, true, false, if◌then◌else◌, ok,
  List, [], ◌∷◌, ◌++◌, map, length, length-append, append-nil, arith,
}
use what_the_event.Buffer.Extent.{Cell}
use what_the_event.Buffer.Impl.{BufferImpl, empty_buffer}
use what_the_event.Buffer.Append.{empty-IsValid}
use what_the_event.Stream.State.{Stream, Effect, closed}
use what_the_event.Stream.Output.{output, output-append}
use what_the_event.Stream.Reading.{User}
use what_the_event.Stream.Received.{IsDrained}
use what_the_event.Blocking.Reader.{BlockingReadCallback, Round, blocking_read}
use what_the_event.Blocking.Chunks.{concat, concat-append, Brings}
use what_the_event.Blocking.Enough.{Fills, last, more, blocking_read-Fills}
use what_the_event.Blocking.Session.{Job, session, AllTaken, all_done, session-sent}

-- Rounds that bring these chunks, the last of them with at least one byte, behind which the stream may
-- end (the first flag) or fail (the second) in the same round.
pub data Arrives : List Round → List (List Cell) → Bool → Bool → Type 0 where
  at_last :
      {round : Round} {cs : List (List Cell)} {eof error : Bool}
      → Brings round cs eof error
      → 0 < length (concat cs)
      → Arrives (round ∷ []) cs eof error
  then_more :
      {round : Round} {rounds : List Round} {cs ds : List (List Cell)} {eof error : Bool}
      → Brings round cs false false
      → Arrives rounds ds eof error
      → Arrives (round ∷ rounds) (cs ++ ds) eof error

Arrives-some :
    {rounds : List Round} {cs : List (List Cell)} {eof error : Bool}
    → Arrives rounds cs eof error
    → 0 < length (concat cs)
Arrives-some (at_last b some_bytes) = some_bytes
Arrives-some (then_more {cs = cs} {ds = ds} b a) =
    omega (
      arith,
      Arrives-some a,
      ap length (concat-append cs ds),
      length-append (concat cs) (concat ds),
    )

Arrives-Fills :
    (n : ℕ) (rounds : List Round) (cs : List (List Cell)) (eof error : Bool)
    → length (concat cs) ≡ n
    → Arrives rounds cs eof error
    → Fills n rounds cs eof error
Arrives-Fills n _ cs _ _ e (at_last b some_bytes) = last b (omega (arith, e)) (inl e)
Arrives-Fills n _ _ eof error e (then_more {rounds = rounds} {cs = cs} {ds = ds} b a) =
    let whole : length (concat cs) + length (concat ds) ≡ n =
      omega (arith, e, ap length (concat-append cs ds), length-append (concat cs) (concat ds)) in
    more b (omega (arith, whole, Arrives-some a))
      (Arrives-Fills (n - length (concat cs)) rounds ds eof error (omega (arith, whole)) a)

abbrev pub written_bytes : List Job → List Cell
written_bytes js = concat (map (λ j. j.bytes) js)

-- Closing sends nothing.
output-closing :
    (es : List Effect) (fd : ℕ) (auto_close : Bool)
    → output (es ++ (if auto_close then closed fd ∷ [] else [])) ≡ output es
output-closing es fd true = output-append es (closed fd ∷ []) ∙ append-nil (output es)
output-closing es fd false = ap output (append-nil es)

-- One end writes any messages, one call of `write` for each, and is destroyed; the other end reads
-- as many bytes as they have together, which is at least one. Whatever pieces the first descriptor
-- takes the bytes in, and whatever chunks, one or several to a round, they arrive in at the other
-- end: all the writes return, what went out is what arrives, the read ends in the round that brings
-- the last byte, by an exception if it knows of an error, and it has stored the bytes of all
-- messages, in order, and left nothing in its stream. It knows of an end or an error exactly if
-- that came behind the last byte in the same round.
pub write_read :
    (alloc alloc' : ℕ → Bool) (user : User) (f fd : ℕ) (auto_close : Bool) (js : List Job)
    (pss : List (List (List Cell))) (rounds later : List Round) (chunks : List (List Cell))
    (eof error : Bool)
    → ((k : ℕ) → k < 2 ^ 63 → alloc' k ≡ true)
    → AllTaken alloc js pss
    → length (written_bytes js) < 2 ^ 63
    → Arrives rounds chunks eof error
    → concat chunks ≡ written_bytes js
    → (s : Stream) × (cb : BlockingReadCallback) × (b : BufferImpl) × (session alloc user
          (suc (suc f))
          fd
          auto_close
          js
        ≡ ok (false, s))
      × (output s.effects ≡ concat chunks)
      × (blocking_read alloc' (rounds ++ later) (length (written_bytes js)) empty_buffer
          ≡ ok (cb, b))
      × (cb.copied ≡ written_bytes js)
      × (cb.nread ≡ length (written_bytes js))
      × (cb.eof ≡ eof)
      × (cb.error ≡ error)
      × IsDrained b
write_read alloc alloc' user f fd auto_close js pss rounds later chunks eof error granted taken
      small arrives same =
    let n = length (written_bytes js) in
    let w = session-sent alloc user f fd auto_close js pss taken in
    let r =
      blocking_read-Fills alloc' n empty_buffer rounds later chunks eof error granted small
        (empty-IsValid, refl) (Arrives-Fills n rounds chunks eof error (ap length same) arrives) in
    (
      w.0,
      r.0,
      r.1,
      w.1,
      ap output w.2 ∙ output-closing (all_done js pss) fd auto_close ∙ w.3 ∙ sym same,
      r.2,
      r.3 ∙ same,
      r.4 ∙ ap length same,
      r.6,
      r.7,
      r.8,
    )
