-- ===== src/Stream/Orderly.antt =====
-- A user of a stream that writes only when nothing is waiting and starts reading once, among events at
-- which the descriptor can be written.
pub mod Event
pub mod Run
use what_the_event.Common.{
  ℕ, zero, suc, ◌+◌, ◌-◌, ◌<◌, ◌≤◌, ◌^◌, ◌≡◌, refl, sym, ap, ap₂, subst, ◌∙◌, Option, none, some,
  Option-cases, Bool, true, false, if◌then◌else◌, ◌||◌, ltb, lt→ltb, le→ltb, inl, inr, ◌⊎◌, Outcome,
  ok, out_of_fuel, ◌>>=◌, List, [], ◌∷◌, ◌++◌, length, length-append, take, drop, take_all,
  drop_all, length-drop, length-take, take-append-drop, append-nil, append_assoc, ==_refl, add64,
  add64-eq, size_max, arith,
}
use native.Mathlib.Decide.{dec_lt}
use what_the_event.Events.What.{What, is_read, is_write, ensure_read, ensure_write, remove_write}
use what_the_event.Buffer.Extent.{Cell}
use what_the_event.Buffer.Impl.{BufferImpl, empty_buffer, append, drain, peek_extents}
use what_the_event.Buffer.Contents.{contents, IsValid}
use what_the_event.Buffer.Append.{append-contents, append-one_more, empty-IsValid}
use what_the_event.Buffer.Drain.{drain-contents}
use what_the_event.Buffer.Single.{one_region, drain-no_longer}
use what_the_event.Stream.Requests.{WriteRequest, Requests, drop_front}
use what_the_event.Stream.State.{
  Stream, Effect, sent, completed, write_failed, write, start_read, is_callback, emit, notify,
  wrap_fd,
}
use what_the_event.Stream.Output.{output, output-append}
use what_the_event.Stream.Writing.{Writing, write_extents, write_helper, write_loop, finish_request}
use what_the_event.Stream.Whole.{idle_again, finish_request-last}
use what_the_event.Stream.Queueing.{IsIdle, alone, unlinked}
use what_the_event.Stream.Rounds.{Unread, writing, written, write_helper-finishes}
use what_the_event.Stream.Sending.{IsFirst, write_extents-step, Kept, short_write, failed_write}
use what_the_event.Stream.Sent.{write-alone}
use what_the_event.Stream.Reading.{User}
use what_the_event.Stream.Connecting.{Answers, ready}
use what_the_event.Echo.Round.{ready-write}
use what_the_event.Blocking.Pieces.{IsSending}

-- A wish to write these bytes, with the places of the request and of the callback, a wish to read, and
-- an event.
pub data Call : Type 0 where
  send : List Cell → ℕ → ℕ → Call
  receive : ℕ → Call
  writable : Answers → Call

module _ (alloc : ℕ → Bool) (user : User) (fuel : ℕ) where
  -- The stream, and all bytes that were given to it.
  unfoldable pub perform : Call → Stream × List Cell → Outcome (Stream × List Cell)
  perform (send buf p c) (s, given) = elim s.requests.head as (λ _. Outcome (Stream × List Cell)) [
    | none ↦ write alloc s p buf (length buf) (some c) >>= λ s'. ok (s', given ++ buf)
    | some _ ↦ ok (s, given)
  ]
  perform (receive c) (s, given) = elim s.read_callback as (λ _. Outcome (Stream × List Cell)) [
    | none ↦ ok (start_read s c, given)
    | some _ ↦ ok (s, given)
  ]
  perform (writable answers) (s, given) =
      ready answers user alloc fuel What.write s >>= λ s'. ok (s', given)

  unfoldable pub perform_all : List Call → Stream × List Cell → Outcome (Stream × List Cell)
  unfolding perform
  perform_all [] x = ok x
  perform_all (c ∷ more) x = do y ← perform c x; perform_all more y

-- Nothing waits, and writing is not watched.
pub record IsQuiet (s : Stream) (given : List Cell) : Type 0 where
  pub idle : IsIdle s.requests
  pub watched : is_write s.watched ≡ false
  pub connected : s.connect_callback ≡ none
  pub sent : output s.effects ≡ given
  pub reading : s.read_callback ≡ none → is_read s.watched ≡ false

-- One request waits, with the bytes that have not been sent, and writing is watched.
pub record IsBusy (s : Stream) (given : List Cell) : Type 0 where
  pub place : ℕ
  pub request : WriteRequest
  pub callback : ℕ
  pub waiting : List Cell
  pub sending : IsSending s place request callback waiting
  pub some_bytes : 0 < length waiting
  pub watched : is_write s.watched ≡ true
  pub sent : output s.effects ++ waiting ≡ given
  pub reading : s.read_callback ≡ none → is_read s.watched ≡ false

abbrev pub IsOrderly : Stream → List Cell → Type 0
IsOrderly s given = IsQuiet s given ⊎ IsBusy s given

-- A write of no more bytes than it was asked for.
abbrev pub Allowed : (ℕ → Bool) → Call → Type 0
Allowed alloc (send buf p c) =
    (0 < length buf) × (length buf ≤ 2 ^ 63) × (alloc (length buf) ≡ true)
Allowed alloc (receive c) = Unit
Allowed alloc (writable answers) = (n k : ℕ) → answers.writes 0 n ≡ some k → k ≤ n

abbrev pub AllAllowed : (ℕ → Bool) → List Call → Type 0
AllAllowed alloc [] = Unit
AllAllowed alloc (c ∷ more) = Allowed alloc c × AllAllowed alloc more
