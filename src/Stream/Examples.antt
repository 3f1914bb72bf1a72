-- ===== src/Stream/Examples.antt =====
-- Runs of a stream on small inputs, and its theorems applied there.
use what_the_event.Common.{
  ℕ, ◌+◌, ◌-◌, ◌^◌, ◌≡◌, refl, Option, none, some, Bool, true, leb, min, ok, List, [], ◌∷◌, map,
  length, replicate, size_max, arith, ◌==◌, if◌then◌else◌, add64, sub64, length-replicate,
}
use what_the_event.Events.What.{What, remove_write}
use what_the_event.Buffer.Extent.{Cell, readable, append_extent, memcpy, appendable}
use what_the_event.Buffer.Impl.{
  BufferImpl, empty_buffer, append, peek_extents, peek_extents_loop, append_loop, append_last,
  with_tail, new_extent, list_empty,
}
use what_the_event.Buffer.Contents.{IsValid}
use what_the_event.Stream.Requests.{Requests}
use what_the_event.Stream.Orderly.{Call, send, receive, writable, perform_all, IsOrderly}
use what_the_event.Stream.Orderly.Run.{perform_all-IsOrderly, wrap_fd-IsOrderly}
use what_the_event.Stream.State.{destroy, wrap_fd, Stream, sent, completed, available, connected}
use what_the_event.Stream.Writing.{write_helper}
use what_the_event.Stream.Queueing.{IsIdle, Queued, alone, unlinked}
use what_the_event.Stream.Sending.{IsFirst}
use what_the_event.Stream.Rounds.{Unread}
use what_the_event.Stream.Pending.{all_sent}
use what_the_event.Stream.Freed.{without, destroy-frees}
use what_the_event.Stream.Reading.{User, Answer, again, received, read_helper}
use what_the_event.Stream.Received.{last, full, IsDrained, chunks_delivered}
use what_the_event.Stream.Connecting.{Answers, Net, pending, connect, connect_helper}
use what_the_event.Stream.Connected.{Ended, connect-Ended, failure_hidden}

abbrev no_requests : Requests
no_requests = record { heap = λ _. none; head = none; tail = none }

-- A stream on descriptor 5 with nothing to do.
abbrev quiet : Stream
quiet = record {
  fd = some 5;
  watched = What.read;
  requests = no_requests;
  read_callback = some 1;
  connect_callback = none;
  read_buffer = empty_buffer;
  effects = [];
}

abbrev all_bytes : List Cell
all_bytes = some 1 ∷ some 2 ∷ some 3 ∷ []

-- The buffer that an `append` of the bytes makes.
abbrev held : List Cell → BufferImpl
held c = record {
  extents = record { size = length c; bytes = c; read_offset = 0; write_offset = length c } ∷ [];
  size = length c;
}

abbrev held_twice : List Cell → BufferImpl
held_twice c = record {
  extents =
      record { size = length c; bytes = c; read_offset = 0; write_offset = length c }
      ∷ record { size = length c; bytes = c; read_offset = 0; write_offset = length c }
      ∷ [];
  size = length c + length c;
}

held-IsValid : IsValid (held all_bytes)
held-IsValid = record {
  sized = (record { object = refl; within = omega arith; fits = omega arith }, tt);
  full = (refl, tt);
  counted = refl;
  fits = omega arith;
}

held_twice-IsValid : IsValid (held_twice all_bytes)
held_twice-IsValid = record {
  sized = (
    record { object = refl; within = omega arith; fits = omega arith },
    (record { object = refl; within = omega arith; fits = omega arith }, tt),
  );
  full = (refl, (refl, tt));
  counted = refl;
  fits = omega arith;
}

-- The stream with one request, at address 100, with callback 7.
abbrev busy : BufferImpl → Stream
busy b = record quiet { requests = alone no_requests 100 (unlinked b (some 7)) }

busy-IsFirst : IsFirst (busy (held all_bytes)) 100 (unlinked (held all_bytes) (some 7))
busy-IsFirst = record { first = refl; live = refl; valid = held-IsValid }

abbrev granting : ℕ → Bool
granting n = leb n (2 ^ 63 - 1)

-- Descriptors that take all, two bytes at a time, and nothing.
abbrev open_end : ℕ → ℕ → Option ℕ
open_end k n = some n

abbrev two_bytes : ℕ → ℕ → Option ℕ
two_bytes k n = some (min 2 n)

abbrev stuck : ℕ → ℕ → Option ℕ
stuck k n = none

-- Requests at 100 and 200, queued in this order.
abbrev pair : Requests
pair = record {
  heap = λ p.
      if p == 100
      then some (record { buffer = held all_bytes; callback = some 7; next = some 200 })
      else (if p == 200 then some (unlinked (held all_bytes) (some 8)) else none);
  head = some 100;
  tail = some 100;
}

pair-Queued : Queued pair 100 (200 ∷ [])
pair-Queued = record { first = refl; chain = (refl, (_, refl, (refl, (_, refl, refl)))) }

one_region : peek_extents (held all_bytes) size_max ≡ (3, all_bytes) ∷ []
unfolding peek_extents peek_extents_loop readable sub64 add64
one_region = refl

two_regions : peek_extents (held_twice all_bytes) size_max ≡ (3, all_bytes) ∷ (3, all_bytes) ∷ []
unfolding peek_extents peek_extents_loop readable sub64 add64
two_regions = refl

-- A descriptor that gives 4096 bytes, then three, and then asks to try again.
abbrev chunk : List Cell
chunk = replicate 4096 (some 1)

abbrev two_chunks : ℕ → Answer
two_chunks k = if k == 0 then received chunk else (if k == 1 then received all_bytes else again)

abbrev take_all_bytes : User
take_all_bytes c t = ok (record t { read_buffer = empty_buffer })

empty_buffer-IsDrained : IsDrained empty_buffer
empty_buffer-IsDrained =
    (record { sized = tt; full = tt; counted = refl; fits = omega arith }, refl)

chunks_delivered_example :
    (s' : Stream) × (read_helper two_chunks take_all_bytes granting 2 0 quiet ≡ ok (2, s'))
    × (s'.effects ≡ map (available 1) (chunk ∷ all_bytes ∷ []))
    × IsDrained s'.read_buffer
    × (s'.watched ≡ What.read)
chunks_delivered_example =
    chunks_delivered two_chunks take_all_bytes granting 1 2 0 2 quiet (chunk ∷ all_bytes ∷ []) []
      (λ n h. ground arith) (λ t v. (empty_buffer, refl, empty_buffer-IsDrained)) refl
      empty_buffer-IsDrained
      (full chunk (all_bytes ∷ []) [] refl (length-replicate {A = Cell} 4096 (some 1))
        (last all_bytes refl refl (omega arith) (omega arith)))
      (omega arith)

-- A stream without a descriptor, and a system on which every step works and connecting takes time.
abbrev fresh : Stream
fresh = record quiet { fd = none; watched = What.none; read_callback = none }

abbrev slow_net : Net
slow_net = record {
  Text = ℕ;
  Address = ℕ;
  socket = some 5;
  make_nonblocking = λ _. true;
  to_address = λ ip. some ip;
  attach = λ d a port. pending;
}

connect-Ended_example :
    (s' : Stream) × (connect slow_net fresh 1 80 3 ≡ ok s') × Ended slow_net fresh 3 s'
connect-Ended_example = connect-Ended slow_net fresh 1 80 3 refl refl refl

failure_hidden_example :
    (s₁ : Stream) × (s₂ : Stream) × (connect slow_net fresh 1 80 3 ≡ ok s₁)
    × (connect_helper (some 111) s₁ ≡ ok s₂)
    × (s₂.effects ≡ connected 3 ∷ [])
    × (s₂.connect_callback ≡ none)
failure_hidden_example =
    failure_hidden slow_net fresh 1 1 80 3 5 111 refl refl refl refl refl refl refl

made_by_append : append granting empty_buffer all_bytes 3 ≡ ok (held all_bytes)
unfolding append append_loop append_last with_tail append_extent memcpy new_extent list_empty sub64
    add64 appendable
made_by_append = refl

-- Requests at 100 and 200, the first in front of the second, as the stream holds them.
abbrev two_waiting : Stream
two_waiting = record quiet { requests = pair }

all_sent_example :
    (calls' : ℕ) × (s' : Stream) × (write_helper open_end 3 0 two_waiting ≡ ok (calls', s'))
    × (s'.effects ≡ sent all_bytes ∷ completed 7 ∷ sent all_bytes ∷ completed 8 ∷ [])
    × IsIdle s'.requests
    × (s'.watched ≡ remove_write What.read)
    × Unread two_waiting s'
all_sent_example =
    all_sent open_end 2 0 two_waiting 100
      (record { buffer = held all_bytes; callback = some 7; next = some 200 })
      ((200, unlinked (held all_bytes) (some 8)) ∷ []) (λ k n. refl)
      (refl, refl, held-IsValid, omega arith, (refl, refl, held-IsValid, omega arith, refl))
      (refl, (refl, tt)) (omega arith)

destroy-frees_example :
    (s' : Stream) × (destroy 2 two_waiting ≡ ok s')
    × ((q : ℕ) → s'.requests.heap q ≡ without pair.heap (100 ∷ 200 ∷ []) q)
    × (s'.requests.head ≡ none)
    × (s'.watched ≡ What.none)
    × (s'.effects ≡ [])
destroy-frees_example =
    destroy-frees 2 two_waiting 100 (200 ∷ []) pair-Queued.chain (refl, (refl, tt)) (omega arith)

abbrev ignore : User
ignore c s = ok s

-- A descriptor that takes one byte at a time, one that is not ready after all, and one that takes all.
abbrev sip : Answers
sip = record { status = none; writes = λ k n. some (min 1 n); reads = λ k. again }

abbrev refusing : Answers
refusing = record { status = none; writes = λ k n. none; reads = λ k. again }

abbrev gulp : Answers
gulp = record { status = none; writes = λ k n. some n; reads = λ k. again }

-- The second wish to write comes while bytes are waiting.
abbrev chatter : List Call
chatter =
    receive 1
    ∷ send (some 1 ∷ some 2 ∷ []) 100 7
    ∷ writable sip
    ∷ send (some 9 ∷ []) 200 8
    ∷ writable refusing
    ∷ receive 2
    ∷ writable gulp
    ∷ send (some 3 ∷ []) 100 7
    ∷ []

perform_all-IsOrderly_example :
    (s : Stream) × (given : List Cell) × (perform_all granting ignore 2 chatter (wrap_fd 5, [])
      ≡ ok (s, given))
    × IsOrderly s given
perform_all-IsOrderly_example =
    perform_all-IsOrderly granting ignore 0 chatter (wrap_fd 5) []
      (
        tt,
        (
          (omega arith, omega arith, refl),
          (
            (λ n k e. ground (arith, e)),
            (
              (omega arith, omega arith, refl),
              (
                (λ n k e. ground (arith, e)),
                (tt, ((λ n k e. ground (arith, e)), ((omega arith, omega arith, refl), tt))),
              ),
            ),
          ),
        ),
      )
      (wrap_fd-IsOrderly 5)
