-- ===== src/Blocking/Examples.antt =====
-- A blocking read of five bytes that come in two chunks.
use what_the_event.Common.{
  fault, ℕ, ◌-◌, ◌^◌, ◌≡◌, refl, Bool, true, false, ◌||◌, some, leb, ok, out_of_fuel, none, inr,
  List, [], ◌∷◌, ◌++◌, arith,
}
use what_the_event.Buffer.Extent.{Cell}
use what_the_event.Buffer.Impl.{BufferImpl, empty_buffer}
use what_the_event.Stream.Received.{IsDrained}
use what_the_event.Blocking.Reader.{new_callback, BlockingReadCallback, blocking_read}
use what_the_event.Events.What.{What}
use what_the_event.Stream.State.{closed, Stream, sent, completed, start_read}
use what_the_event.Stream.Output.{output}
use what_the_event.Stream.Queueing.{IsIdle}
use what_the_event.Stream.Reading.{User, again, broken, received}
use what_the_event.Stream.Connecting.{Answers}
use what_the_event.Blocking.Writer.{blocking_write}
use what_the_event.Blocking.Pieces.{whole, part}
use what_the_event.Blocking.Written.{blocking_write_stuck}
use what_the_event.Blocking.Chunks.{over, short}
use what_the_event.Blocking.Enough.{last, more, blocking_read-Fills}
use what_the_event.Buffer.Contents.{contents}
use what_the_event.Blocking.Leftover.{filled, leftover_lost}
use what_the_event.Blocking.Wire.{at_last, then_more, write_read}
use what_the_event.Blocking.Session.{Job, session, all_done, session-sent}

abbrev three : List Cell
three = some 1 ∷ some 2 ∷ some 3 ∷ []

abbrev two : List Cell
two = some 4 ∷ some 5 ∷ []

abbrev late_four : List Cell
late_four = some 2 ∷ some 3 ∷ some 4 ∷ some 5 ∷ []

abbrev granting : ℕ → Bool
granting n = leb n (2 ^ 63 - 1)

blocking_read-Fills_example :
    (cb : BlockingReadCallback) × (b' : BufferImpl) × (blocking_read granting
        ((received three ∷ []) ∷ (received two ∷ []) ∷ (received [] ∷ []) ∷ (broken ∷ []) ∷ [])
        7
        empty_buffer
      ≡ ok (cb, b'))
    × (cb.copied ≡ three ++ two)
    × (cb.nread ≡ 5)
    × ((true || false) ≡ false → cb.nread ≡ 7)
    × (cb.eof ≡ true)
    × (cb.error ≡ false)
    × IsDrained b'
blocking_read-Fills_example =
    blocking_read-Fills granting 7 empty_buffer
      ((received three ∷ []) ∷ (received two ∷ []) ∷ (received [] ∷ []) ∷ []) ((broken ∷ []) ∷ [])
      (three ∷ two ∷ []) true false (λ n h. ground arith) (omega arith)
      (record { sized = tt; full = tt; counted = refl; fits = omega arith }, refl)
      (more (short three (omega arith) (omega arith)) (omega arith) (
        more (short two (omega arith) (omega arith)) (omega arith)
          (last over (omega arith) (inr refl))))

-- A descriptor that takes one byte, one that takes everything, and the end of the stream.
abbrev one_byte : Answers
one_byte = record { status = none; writes = λ k n. some 1; reads = λ k. again }

abbrev open_wide : Answers
open_wide = record { status = none; writes = λ k n. some n; reads = λ k. again }

abbrev hung_up : Answers
hung_up = record { status = none; writes = λ k n. none; reads = λ k. received [] }

abbrev no_reader : User
no_reader c s = ok s

abbrev unused : Stream
unused = record {
  fd = some 5;
  watched = What.none;
  requests = record { heap = λ _. none; head = none; tail = none };
  read_callback = none;
  connect_callback = none;
  read_buffer = empty_buffer;
  effects = [];
}

abbrev two_writes : List Job
two_writes =
    record {
      bytes = three;
      place = 100;
      callback = 7;
      events = (What.write, one_byte) ∷ (What.write, open_wide) ∷ [];
    }
    ∷ record { bytes = two; place = 100; callback = 8; events = (What.write, open_wide) ∷ [] }
    ∷ []

abbrev two_takings : List (List (List Cell))
two_takings = ((some 1 ∷ []) ∷ (some 2 ∷ some 3 ∷ []) ∷ []) ∷ (two ∷ []) ∷ []

session-sent_example :
    (s : Stream) × (session granting no_reader 2 5 true two_writes ≡ ok (false, s))
    × (s.effects
        ≡ sent (some 1 ∷ [])
          ∷ sent (some 2 ∷ some 3 ∷ [])
          ∷ completed 7
          ∷ sent two
          ∷ completed 8
          ∷ closed 5
          ∷ [])
    × (output (all_done two_writes two_takings) ≡ three ++ two)
    × (s.watched ≡ What.none)
    × IsIdle s.requests
session-sent_example = session-sent granting no_reader 0 5 true two_writes two_takings (
  omega arith,
  omega arith,
  refl,
  part one_byte 1 refl (omega arith) (whole open_wide (λ k n. refl)),
  (omega arith, omega arith, refl, whole open_wide (λ k n. refl), tt),
)

-- The five bytes of two writes arrive as one byte and then four.
write_read_example :
    (s : Stream) × (cb : BlockingReadCallback) × (b : BufferImpl) × (session granting no_reader 2 5
        true two_writes
      ≡ ok (false, s))
    × (output s.effects ≡ three ++ two)
    × (blocking_read granting
          ((received (some 1 ∷ []) ∷ [])
            ∷ (received late_four ∷ received [] ∷ [])
            ∷ (broken ∷ [])
            ∷ [])
          5
          empty_buffer
        ≡ ok (cb, b))
    × (cb.copied ≡ three ++ two)
    × (cb.nread ≡ 5)
    × (cb.eof ≡ false)
    × (cb.error ≡ false)
    × IsDrained b
write_read_example =
    write_read granting granting no_reader 0 5 true two_writes two_takings
      ((received (some 1 ∷ []) ∷ []) ∷ (received late_four ∷ received [] ∷ []) ∷ [])
      ((broken ∷ []) ∷ []) ((some 1 ∷ []) ∷ late_four ∷ []) false false (λ n h. ground arith)
      (
        omega arith,
        omega arith,
        refl,
        part one_byte 1 refl (omega arith) (whole open_wide (λ k n. refl)),
        (omega arith, omega arith, refl, whole open_wide (λ k n. refl), tt),
      )
      (omega arith)
      (then_more (short (some 1 ∷ []) (omega arith) (omega arith))
        (at_last (short late_four (omega arith) (omega arith)) (omega arith)))
      refl

leftover_lost_example :
    (b : BufferImpl) × (blocking_read granting ((received three ∷ []) ∷ []) 1 empty_buffer
      ≡ ok (filled 1 (some 1 ∷ []), b))
    × (contents b.extents ≡ some 2 ∷ some 3 ∷ [])
    × (blocking_read granting ((received [] ∷ []) ∷ []) 3 b
        ≡ ok (record (new_callback 3) { eof = true }, b))
    × (blocking_read granting ((received two ∷ []) ∷ []) 3 b ≡ fault)
leftover_lost_example =
    leftover_lost granting [] [] three two 1 3 (λ n h. ground arith) (omega arith) (omega arith)
      (omega arith) (omega arith) (omega arith) (omega arith)

blocking_write_stuck_example :
    blocking_write granting no_reader 2
      ((What.write, open_wide) ∷ (What.read, hung_up) ∷ [])
      (start_read unused 1)
      100
      three
      3
      7
    ≡ out_of_fuel
blocking_write_stuck_example =
    blocking_write_stuck granting no_reader 0 unused 100 three 3 7 1 ((What.write, open_wide) ∷ [])
      ((What.read, hung_up) ∷ []) (three ∷ []) (refl, refl) refl refl refl (omega arith)
      (omega arith) (omega arith) refl (whole open_wide (λ k n. refl)) (refl, inr refl, tt)
