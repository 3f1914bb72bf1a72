-- ===== src/Blocking/Writer.antt =====
-- `BlockingWriteCallback` and `BlockingStreamImpl::write` of src/blocking_stream.cc, over the events
-- that the loop brings.
use what_the_event.Common.{
  ℕ, Bool, true, false, if◌then◌else◌, ◌==◌, some, Outcome, ok, aborted, out_of_fuel, ◌>>=◌, List,
  [], ◌∷◌, length, drop,
}
use what_the_event.Events.What.{What}
use what_the_event.Events.Registration.{what_eq}
use what_the_event.Buffer.Extent.{Cell}
use what_the_event.Stream.State.{Stream, Effect, completed, write_failed, write}
use what_the_event.Stream.Reading.{User}
use what_the_event.Stream.Connecting.{Answers, ready}

pub record BlockingWriteCallback : Type 0 where
  pub error : Bool
  pub complete : Bool

abbrev pub new_write_callback : BlockingWriteCallback
new_write_callback = record { error = false; complete = false }

-- What the callback at `c` is told by the stream: `complete` and `error`.
unfoldable pub heard : ℕ → List Effect → BlockingWriteCallback → BlockingWriteCallback
heard c [] cb = cb
heard c (completed d ∷ es) cb = heard c es (if d == c then record cb { complete = true } else cb)
heard c (write_failed d ∷ es) cb = heard c es (if d == c then record cb { error = true } else cb)
heard c (e ∷ es) cb = heard c es cb

-- `base_->loop(UNTIL_EMPTY)`, where the stream is all that is registered: it is left when nothing is
-- watched any more, and is still waiting when the events are over.
unfoldable pub loop_until_empty :
    (ℕ → Bool) → User → ℕ → List (What × Answers) → Stream → Outcome Stream
unfolding what_eq
loop_until_empty alloc user fuel [] s = if what_eq s.watched What.none then ok s else out_of_fuel
loop_until_empty alloc user fuel ((event, answers) ∷ events) s =
    let next : Outcome Stream = (do
      s' ← ready answers user alloc fuel event s
      loop_until_empty alloc user fuel events s') in
    if what_eq s.watched What.none then ok s else next

-- `write`, with the callback object at `c` and the request at `p`: whether it throws, and the stream.
unfoldable pub blocking_write :
    (ℕ → Bool)
    → User
    → ℕ
    → List (What × Answers)
    → Stream
    → ℕ
    → List Cell
    → ℕ
    → ℕ
    → Outcome (Bool × Stream)
unfolding loop_until_empty heard
blocking_write alloc user fuel events s p buf size c = do
  s₁ ← write alloc s p buf size (some c)
  s₂ ← loop_until_empty alloc user fuel events s₁
  let cb = heard c (drop (length s.effects) s₂.effects) new_write_callback
  if cb.error then ok (true, s₂) else if cb.complete then ok (false, s₂) else aborted
