-- ===== src/Stream/Writing.antt =====
-- `StreamImpl::writeHelper` of src/stream.cc. `kernel k n` is what the k-th write of `n` bytes to the
-- descriptor answers: the number of bytes taken, or `none` for an error.
use what_the_event.Common.{
  ℕ, zero, suc, Option, none, some, Bool, true, false, ◌||◌, ltb, if◌then◌else◌, Outcome, ok,
  aborted, out_of_fuel, ◌>>=◌, List, [], ◌∷◌, ◌++◌, take, add64, size_max,
}
use what_the_event.Events.What.{What, remove_write}
use what_the_event.Buffer.Extent.{Cell}
use what_the_event.Buffer.Impl.{peek_extents, drain}
use what_the_event.Stream.Requests.{WriteRequest, Requests, put, load, consume_front}
use what_the_event.Stream.State.{Stream, sent, completed, write_failed, emit, notify}

-- The locals of the loop over the extents; `out` is what the descriptor has taken.
pub record Writing : Type 0 where
  pub calls : ℕ
  pub out : List Cell
  pub total : ℕ
  pub blocked : Bool
  pub failed : Bool

unfoldable pub write_extents :
    (ℕ → ℕ → Option ℕ) → ℕ → List Cell → ℕ → Bool → List (ℕ × List Cell) → Writing
write_extents kernel calls out total blocked [] = record {
  calls = calls;
  out = out;
  total = total;
  blocked = blocked;
  failed = false;
}
write_extents kernel calls out total blocked ((n, c) ∷ gs) = elim (kernel calls n) [
  | none ↦ record { calls = suc calls; out = out; total = total; blocked = blocked; failed = true }
  | some w ↦
      write_extents kernel (suc calls) (out ++ take w c) (add64 total w) (blocked || ltb w n) gs
]

-- The stream after a request was done: the first is dropped, and after the last one writing is no
-- longer watched, before the callback is told.
unfoldable pub finish_request : Stream → Option ℕ → Option ℕ → Requests → Stream
unfolding notify
finish_request s callback next requests =
    let watched = elim next as (λ _. What) [ none ↦ remove_write s.watched | some _ ↦ s.watched ] in
    notify (record s { requests = requests; watched = watched }) callback completed

-- One request that could be written: what was sent, and the stream with the buffer drained.
unfoldable pub write_request :
    (ℕ → ℕ → Option ℕ)
    → ℕ
    → Stream
    → ℕ
    → WriteRequest
    → List (ℕ × List Cell)
    → Outcome (Writing × Stream)
unfolding emit
write_request kernel calls s p w regions =
    let r = write_extents kernel calls [] 0 false regions in
    (do
      b ← drain w.buffer r.total
      let heap = put s.requests.heap p (some (record w { buffer = b }))
      ok (r, record (emit s (sent r.out)) { requests = record (s.requests) { heap = heap } }))

-- The loop over the requests, with the number of writes so far and the request at hand.
unfoldable pub write_loop : (ℕ → ℕ → Option ℕ) → ℕ → ℕ → Option ℕ → Stream → Outcome (ℕ × Stream)
write_loop kernel zero calls req s = out_of_fuel
write_loop kernel (suc f) calls none s = ok (calls, s)
write_loop kernel (suc f) calls (some p) s = do
  w ← load s.requests p
  let regions = peek_extents w.buffer size_max
  let go_on = (do
    (r, s') ← write_request kernel calls s p w regions
    let stopped = if r.failed then notify s' w.callback write_failed else s'
    let next_round = (do
      (next, requests) ← consume_front s'.requests
      write_loop kernel f r.calls next (finish_request s' w.callback next requests))
    if r.blocked || r.failed then ok (r.calls, stopped) else next_round)
  elim regions as (λ _. Outcome (ℕ × Stream)) [ [] ↦ aborted | _ ∷ _ ↦ go_on ]

unfoldable pub write_helper : (ℕ → ℕ → Option ℕ) → ℕ → ℕ → Stream → Outcome (ℕ × Stream)
write_helper kernel fuel calls s = write_loop kernel fuel calls s.requests.head s
