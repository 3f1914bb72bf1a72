-- ===== src/Blocking/Written.antt =====
-- A blocking write returns once the descriptor has taken everything, unless a read came before it.
use what_the_event.Common.{
  ℕ, suc, ◌<◌, ◌≤◌, ◌^◌, ◌≡◌, refl, ap, ◌∙◌, Bool, true, false, Option, none, some, ok, out_of_fuel,
  List, [], ◌∷◌, ◌++◌, map, length, take, drop, arith, length-take, ==_refl, ◌⊎◌, inl, inr,
  drop-append_ge,
}
use what_the_event.Events.What.{What, ensure_write, ensure_read, remove_write}
use what_the_event.Events.Registration.{what_eq}
use what_the_event.Buffer.Extent.{Cell}
use what_the_event.Buffer.Impl.{BufferImpl, empty_buffer}
use what_the_event.Buffer.Append.{append-contents, append-one_more}
use what_the_event.Stream.State.{
  Stream, sent, completed, reached_eof, write, start_read, is_callback, notify,
}
use what_the_event.Stream.Rounds.{Unread}
use what_the_event.Stream.Queueing.{IsIdle, alone, unlinked}
use what_the_event.Stream.Sent.{write-alone, empty_buffer-IsValid}
use what_the_event.Stream.Reading.{User, again, received, read_helper, receive_loop}
use what_the_event.Stream.Connecting.{Answers}
use what_the_event.Echo.Round.{ready-read}
use what_the_event.Blocking.Writer.{
  BlockingWriteCallback, new_write_callback, heard, loop_until_empty, blocking_write,
}
use what_the_event.Blocking.Chunks.{concat}
use what_the_event.Blocking.Pieces.{Takes, concat-Takes, IsSending, Over, one_round, pieces_sent}

heard_all :
    (c : ℕ) (pieces : List (List Cell)) (cb : BlockingWriteCallback)
    → heard c (map sent pieces ++ completed c ∷ []) cb ≡ record cb { complete = true }
unfolding heard
heard_all c [] cb = rw (==_refl c) refl
heard_all c (d ∷ pieces) cb = heard_all c pieces cb

-- The stream with the request that a write makes.
abbrev begun : Stream → ℕ → BufferImpl → ℕ → Stream
begun s p b c = record s {
  requests = alone s.requests p (unlinked b (some c));
  watched = ensure_write s.watched;
}

blocking_write-heard :
    (alloc : ℕ → Bool) (user : User) (f : ℕ) (events : List (What × Answers)) (s s₁ s₂ : Stream)
    (p : ℕ) (buf : List Cell) (size c : ℕ) (pieces : List (List Cell))
    → write alloc s p buf size (some c) ≡ ok s₁
    → loop_until_empty alloc user f events s₁ ≡ ok s₂
    → s₂.effects ≡ s.effects ++ (map sent pieces ++ completed c ∷ [])
    → blocking_write alloc user f events s p buf size c ≡ ok (false, s₂)
unfolding blocking_write
blocking_write-heard alloc user f events s s₁ s₂ p buf size c pieces asked looped effects =
    let new : drop (length s.effects) s₂.effects ≡ map sent pieces ++ completed c ∷ [] =
      ap (drop (length s.effects)) effects
      ∙ drop-append_ge s.effects (map sent pieces ++ completed c ∷ []) (length s.effects) 0
          (omega arith) in
    rw asked (rw looped (rw (new, heard_all c pieces new_write_callback) refl))

loop_left :
    (alloc : ℕ → Bool) (user : User) (f : ℕ) (later : List (What × Answers)) (s : Stream)
    → s.watched ≡ What.none
    → loop_until_empty alloc user f later s ≡ ok s
unfolding loop_until_empty what_eq
loop_left alloc user f [] s e = rw e refl
loop_left alloc user f ((event, a) ∷ later) s e = ground (arith, e)

-- Events at which there is nothing to read, or the end of the stream.
abbrev pub AllSilent : List (What × Answers) → Type 0
AllSilent [] = Unit
AllSilent ((event, a) ∷ events) =
    (event ≡ What.read) × ((a.reads 0 ≡ again) ⊎ (a.reads 0 ≡ received [])) × AllSilent events

read_silently :
    (alloc : ℕ → Bool) (user : User) (f : ℕ) (a : Answers) (s : Stream)
    → (a.reads 0 ≡ again) ⊎ (a.reads 0 ≡ received [])
    → (s' : Stream) × (read_helper a.reads user alloc (suc f) 0 s ≡ ok (1, s'))
      × (s'.watched ≡ s.watched)
unfolding read_helper receive_loop notify
read_silently alloc user f a s (inl none_there) = (s, ground (arith, none_there), refl)
read_silently alloc user f a s (inr over) =
    (notify s s.read_callback reached_eof, ground (arith, over), told s.read_callback)
  where
    told : (cb : Option ℕ) → (notify s cb reached_eof).watched ≡ s.watched
    told none = refl
    told (some c) = refl

-- A stream that watches reading waits on.
loop_waits :
    (alloc : ℕ → Bool) (user : User) (f : ℕ) (later : List (What × Answers)) (s : Stream)
    → s.watched ≡ What.read
    → AllSilent later
    → loop_until_empty alloc user (suc f) later s ≡ out_of_fuel
unfolding loop_until_empty what_eq
loop_waits alloc user f [] s e q = rw e refl
loop_waits alloc user f ((event, a) ∷ later) s e q =
    let r = read_silently alloc user f a s q.1 in
    let here = ready-read a user alloc (suc f) 1 s r.0 r.1 in
    ap (λ w. loop_until_empty alloc user (suc f) ((w, a) ∷ later) s) q.0
    ∙ one_round alloc user (suc f) s r.0 What.read a later (ap (λ w. what_eq w What.none) e) here
    ∙ loop_waits alloc user f later r.0 (r.2 ∙ e) q.2

started :
    (s : Stream) (r : ℕ)
    → s.read_callback ≡ none
    → s.watched ≡ What.none
    → start_read s r ≡ record s { read_callback = some r; watched = What.read }
unfolding start_read is_callback ensure_read
started s r unread quiet = ground (arith, unread, quiet)

blocking_write-waits :
    (alloc : ℕ → Bool) (user : User) (f : ℕ) (events : List (What × Answers)) (s s₁ : Stream)
    (p : ℕ) (buf : List Cell) (size c : ℕ)
    → write alloc s p buf size (some c) ≡ ok s₁
    → loop_until_empty alloc user f events s₁ ≡ out_of_fuel
    → blocking_write alloc user f events s p buf size c ≡ out_of_fuel
unfolding blocking_write
blocking_write-waits alloc user f events s s₁ p buf size c asked waits = rw asked (rw waits refl)

module _ (alloc : ℕ → Bool) (user : User) (f : ℕ) (s : Stream) (p : ℕ) (buf : List Cell)
    (size c : ℕ) (idle : IsIdle s.requests) (connected : s.connect_callback ≡ none)
    (some_bytes : 0 < size) (given : size ≤ length buf) (small : size ≤ 2 ^ 63)
    (granted : alloc size ≡ true) where
  -- The request is queued, and after the events it is done.
  sent_whole :
      (events later : List (What × Answers)) (pieces : List (List Cell))
      → what_eq (ensure_write s.watched) What.none ≡ false
      → Takes (take size buf) events pieces
      → (b : BufferImpl) × (s' : Stream) × (write alloc s p buf size (some c) ≡ ok (begun s p b c))
        × (loop_until_empty alloc user (suc (suc f)) (events ++ later) (begun s p b c)
            ≡ loop_until_empty alloc user (suc (suc f)) later s')
        × Over (begun s p b c) s' c pieces
  sent_whole events later pieces watching takes =
      let b =
        append-contents alloc empty_buffer buf size empty_buffer-IsValid given small (omega arith)
          granted in
      let one =
        append-one_more alloc empty_buffer buf size empty_buffer-IsValid b.0 given small granted
          b.1 in
      let asked : IsSending (begun s p b.0 c) p (unlinked b.0 (some c)) c (take size buf) = record {
        first = record { first = refl; live = rw (==_refl p) refl; valid = b.2 };
        alone = refl;
        callback = refl;
        single = omega (arith, one);
        held = b.3;
        connected = connected;
      } in
      let r =
        pieces_sent alloc user f (begun s p b.0 c) p (unlinked b.0 (some c)) c (take size buf)
          events later pieces asked watching (omega (arith, length-take size buf)) takes in
      (b.0, r.0, write-alone alloc s p buf size (some c) b.0 idle b.1, r.1, r.2)

  -- A blocking write of at least one byte, for which the allocator grants the room, on a stream that
  -- watches nothing, is not connecting and has no other request, when the descriptor takes the bytes
  -- in pieces of any sizes: it returns once the last piece was taken, without waiting for a further
  -- event and without throwing; the pieces make up the bytes, in order; afterwards nothing is watched,
  -- no request is left, and the descriptor, the callbacks and the read buffer are what they were.
  pub blocking_write-Sends :
      (events later : List (What × Answers)) (pieces : List (List Cell))
      → s.watched ≡ What.none
      → Takes (take size buf) events pieces
      → (s' : Stream) × (blocking_write alloc user (suc (suc f)) (events ++ later) s p buf size c
          ≡ ok (false, s'))
        × (s'.effects ≡ s.effects ++ (map sent pieces ++ completed c ∷ []))
        × (concat pieces ≡ take size buf)
        × IsIdle s'.requests
        × (s'.watched ≡ What.none)
        × Unread s s'
  unfolding what_eq ensure_write remove_write
  blocking_write-Sends events later pieces quiet takes =
      let r =
        sent_whole events later pieces (ap (λ w. what_eq (ensure_write w) What.none) quiet) takes in
      let silent : r.1.watched ≡ What.none =
        r.4.watched ∙ ap (λ w. remove_write (ensure_write w)) quiet in
      (
        r.1,
        blocking_write-heard alloc user (suc (suc f)) (events ++ later) s (begun s p r.0 c) r.1 p
            buf size c pieces r.2 (r.3 ∙ loop_left alloc user (suc (suc f)) later r.1 silent)
            r.4.effects,
        r.4.effects,
        concat-Takes (take size buf) events pieces takes,
        r.4.idle,
        silent,
        record {
          fd = r.4.unread.fd;
          read_callback = r.4.unread.read_callback;
          connect_callback = r.4.unread.connect_callback;
          read_buffer = r.4.unread.read_buffer;
        },
      )

-- A blocking write of at least one byte, for which the allocator grants the room, on an idle stream
-- on which reading was started first, as a blocking read does and never undoes:
-- the descriptor takes all bytes, but the write does not return, however many events follow at which
-- there is nothing to read or the end of the stream.
pub blocking_write_stuck :
    (alloc : ℕ → Bool) (user : User) (f : ℕ) (s : Stream) (p : ℕ) (buf : List Cell) (size c r : ℕ)
    (events later : List (What × Answers)) (pieces : List (List Cell))
    → IsIdle s.requests
    → s.connect_callback ≡ none
    → s.read_callback ≡ none
    → s.watched ≡ What.none
    → 0 < size
    → size ≤ length buf
    → size ≤ 2 ^ 63
    → alloc size ≡ true
    → Takes (take size buf) events pieces
    → AllSilent later
    → blocking_write alloc user (suc (suc f)) (events ++ later) (start_read s r) p buf size c
      ≡ out_of_fuel
unfolding what_eq ensure_write remove_write ensure_read
blocking_write_stuck alloc user f s p buf size c r events later pieces idle connected unread quiet
      some_bytes given small granted takes silent =
    let reading : Stream = record s { read_callback = some r; watched = What.read } in
    let w =
      sent_whole alloc user f reading p buf size c idle connected some_bytes given small granted
        events later pieces refl takes in
    ap (λ t. blocking_write alloc user (suc (suc f)) (events ++ later) t p buf size c)
      (started s r unread quiet)
    ∙ blocking_write-waits alloc user (suc (suc f)) (events ++ later) reading
        (begun reading p w.0 c) p buf size c w.2
        (w.3 ∙ loop_waits alloc user (suc f) later w.1 w.4.watched silent)
