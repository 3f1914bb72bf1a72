-- ===== src/Blocking/Reader.antt =====
-- `BlockingReadCallback` and `BlockingStreamImpl::read` of src/blocking_stream.cc, over
-- `readHelper` of src/stream.cc.
use what_the_event.Common.{
  ℕ, Bool, true, false, not, ◌&&◌, ltb, if◌then◌else◌, Outcome, ok, out_of_fuel, ◌>>=◌, List, [],
  ◌∷◌, ◌++◌, length, add64, sub64,
}
use what_the_event.Buffer.Extent.{Cell}
use what_the_event.Buffer.Impl.{BufferImpl, append, read}
use what_the_event.Stream.Reading.{Answer, again, broken, received, chunk_size}

-- `copied` is what has been stored at `buffer_`.
pub record BlockingReadCallback : Type 0 where
  pub copied : List Cell
  pub size : ℕ
  pub nread : ℕ
  pub eof : Bool
  pub error : Bool

abbrev pub new_callback : ℕ → BlockingReadCallback
new_callback size = record { copied = []; size = size; nread = 0; eof = false; error = false }

-- `available`: the array has room for `size_ - nread_` more.
unfoldable pub on_available :
    BlockingReadCallback → BufferImpl → Outcome (BlockingReadCallback × BufferImpl)
on_available cb b =
    let room = sub64 cb.size cb.nread in
    (do
      r ← read b room room
      ok (record cb { copied = cb.copied ++ r.0; nread = add64 cb.nread r.1 }, r.2))

-- `eof` and `error`
unfoldable pub on_eof : BlockingReadCallback → BlockingReadCallback
on_eof cb = record cb { eof = true }

unfoldable pub on_error : BlockingReadCallback → BlockingReadCallback
on_error cb = record cb { error = true }

-- What `readHelper` does with one chunk that it has read.
unfoldable pub take_chunk :
    (ℕ → Bool)
    → List Cell
    → BlockingReadCallback
    → BufferImpl
    → Outcome (BlockingReadCallback × BufferImpl)
unfolding on_available
take_chunk alloc c cb b = do b' ← append alloc b c (length c); on_available cb b'

-- One round of `base_->loop(ONCE)`, by the answers to the reads of up to 4096 bytes that `readHelper`
-- makes in it; after these there is nothing to read.
abbrev pub Round : Type 0
Round = List Answer

unfoldable pub loop_once :
    (ℕ → Bool)
    → Round
    → BlockingReadCallback
    → BufferImpl
    → Outcome (BlockingReadCallback × BufferImpl)
unfolding take_chunk on_eof on_error
loop_once alloc [] cb b = ok (cb, b)
loop_once alloc (again ∷ more) cb b = ok (cb, b)
loop_once alloc (broken ∷ more) cb b = ok (on_error cb, b)
loop_once alloc (received [] ∷ more) cb b = ok (on_eof cb, b)
loop_once alloc (received (x ∷ c) ∷ more) cb b = do
  (cb', b') ← take_chunk alloc (x ∷ c) cb b
  let rest = loop_once alloc more cb' b'
  if ltb (length (x ∷ c)) chunk_size then ok (cb', b') else rest

-- The `do … while`, over the rounds that are to come; it is still waiting when they are over.
unfoldable pub wait_loop :
    (ℕ → Bool)
    → List Round
    → BlockingReadCallback
    → BufferImpl
    → Outcome (BlockingReadCallback × BufferImpl)
wait_loop alloc [] cb b = out_of_fuel
wait_loop alloc (r ∷ rounds) cb b = do
  (cb', b') ← loop_once alloc r cb b
  let rest = wait_loop alloc rounds cb' b'
  if ltb cb'.nread cb'.size && not cb'.error && not cb'.eof then rest else ok (cb', b')

-- `read`: the callback object when it returns or throws, which it does when `error` is set.
unfoldable pub blocking_read :
    (ℕ → Bool) → List Round → ℕ → BufferImpl → Outcome (BlockingReadCallback × BufferImpl)
unfolding wait_loop
blocking_read alloc rounds size b = wait_loop alloc rounds (new_callback size) b
