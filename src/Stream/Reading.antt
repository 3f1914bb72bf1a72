-- ===== src/Stream/Reading.antt =====
-- `StreamImpl::readHelper` of src/stream.cc. `kernel k` is what the k-th read of up to 4096 bytes
-- answers, and `user` what an `available` callback does: it may take bytes from the buffer that it is
-- given, and call the stream.
use what_the_event.Common.{
  ℕ, zero, suc, none, some, Bool, ltb, if◌then◌else◌, Outcome, ok, out_of_fuel, ◌>>=◌, List, [],
  ◌∷◌, length,
}
use what_the_event.Buffer.Extent.{Cell}
use what_the_event.Buffer.Impl.{append}
use what_the_event.Buffer.Contents.{contents}
use what_the_event.Stream.State.{Stream, available, read_failed, reached_eof, emit, notify}

-- The answer of `xread`: an error to try again after, another error, or bytes, none at the end.
pub data Answer : Type 0 where
  again broken : Answer
  received : List Cell → Answer

-- `sizeof(buf)`
abbrev pub chunk_size : ℕ
chunk_size = 4096

abbrev pub User : Type 0
User = ℕ → Stream → Outcome Stream

-- `readCallback_->available(&readBuffer_)`, if there is a callback
unfoldable pub deliver : User → Stream → Outcome Stream
unfolding emit
deliver user s = elim s.read_callback [
  | none ↦ ok s
  | some c ↦ user c (emit s (available c (contents s.read_buffer.extents)))
]

-- The loop, with the number of reads so far.
unfoldable pub receive_loop :
    (ℕ → Answer) → User → (ℕ → Bool) → ℕ → ℕ → Stream → Outcome (ℕ × Stream)
unfolding notify
receive_loop kernel user alloc zero calls s = out_of_fuel
receive_loop kernel user alloc (suc f) calls s = elim (kernel calls) [
  | again ↦ ok (suc calls, s)
  | broken ↦ ok (suc calls, notify s s.read_callback read_failed)
  | received [] ↦ ok (suc calls, notify s s.read_callback reached_eof)
  | received (x ∷ c) ↦ (do
    b ← append alloc s.read_buffer (x ∷ c) (length (x ∷ c))
    s' ← deliver user (record s { read_buffer = b })
    let rest = receive_loop kernel user alloc f (suc calls) s'
    if ltb (length (x ∷ c)) chunk_size then ok (suc calls, s') else rest)
]

unfoldable pub read_helper :
    (ℕ → Answer) → User → (ℕ → Bool) → ℕ → ℕ → Stream → Outcome (ℕ × Stream)
read_helper kernel user alloc fuel calls s = receive_loop kernel user alloc fuel calls s
