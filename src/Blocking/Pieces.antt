-- ===== src/Blocking/Pieces.antt =====
-- A request in a buffer of one extent, which the descriptor takes in pieces.
use what_the_event.Common.{
  ℕ, suc, ◌<◌, ◌≤◌, ◌≡◌, refl, ap, ◌∙◌, Bool, false, none, some, ok, List, [], ◌∷◌, ◌++◌, map,
  length, take, drop, append_assoc, arith, length-drop, take-append-drop, append-nil, ap₂,
}
use what_the_event.Events.What.{What, remove_write}
use what_the_event.Events.Registration.{what_eq}
use what_the_event.Buffer.Extent.{Cell}
use what_the_event.Buffer.Contents.{contents}
use what_the_event.Buffer.Single.{one_region, drain-no_longer}
use what_the_event.Stream.Requests.{WriteRequest}
use what_the_event.Stream.State.{Stream, sent, completed}
use what_the_event.Stream.Queueing.{IsIdle}
use what_the_event.Stream.Rounds.{Unread, Unread-trans}
use what_the_event.Stream.Sending.{IsFirst, short_write}
use what_the_event.Stream.Pending.{all_sent, told}
use what_the_event.Stream.Reading.{User}
use what_the_event.Stream.Connecting.{Answers, ready}
use what_the_event.Echo.Round.{ready-write}
use what_the_event.Blocking.Writer.{loop_until_empty}
use what_the_event.Blocking.Chunks.{concat}

-- The descriptor takes the bytes in these pieces: at each event but the last only a part, which may be
-- nothing, and the rest at the last.
pub data Takes : List Cell → List (What × Answers) → List (List Cell) → Type 0 where
  whole :
      {d : List Cell} (w : Answers)
      → ((k n : ℕ) → w.writes k n ≡ some n)
      → Takes d ((What.write, w) ∷ []) (d ∷ [])
  part :
      {d : List Cell} {events : List (What × Answers)} {pieces : List (List Cell)} (w : Answers)
      (k : ℕ)
      → w.writes 0 (length d) ≡ some k
      → k < length d
      → Takes (drop k d) events pieces
      → Takes d ((What.write, w) ∷ events) (take k d ∷ pieces)

pub concat-Takes :
    (d : List Cell) (events : List (What × Answers)) (pieces : List (List Cell))
    → Takes d events pieces
    → concat pieces ≡ d
concat-Takes d _ _ (whole w all) = append-nil d
concat-Takes d _ _ (part {pieces = pieces} w k some_bytes less rest) =
    ap (◌++◌ (take k d)) (concat-Takes (drop k d) _ pieces rest) ∙ take-append-drop k d

-- The only request of the stream, in a buffer of at most one extent, that holds these bytes.
pub record IsSending (s : Stream) (p : ℕ) (w : WriteRequest) (c : ℕ) (d : List Cell) : Type 0 where
  pub first : IsFirst s p w
  pub alone : w.next ≡ none
  pub callback : w.callback ≡ some c
  pub single : length w.buffer.extents ≤ 1
  pub held : contents w.buffer.extents ≡ d
  pub connected : s.connect_callback ≡ none

-- What is left when all has been sent in these pieces.
pub record Over (s s' : Stream) (c : ℕ) (pieces : List (List Cell)) : Type 0 where
  pub effects : s'.effects ≡ s.effects ++ (map sent pieces ++ completed c ∷ [])
  pub idle : IsIdle s'.requests
  pub watched : s'.watched ≡ remove_write s.watched
  pub unread : Unread s s'

pub one_round :
    (alloc : ℕ → Bool) (user : User) (f : ℕ) (s s' : Stream) (event : What) (a : Answers)
    (later : List (What × Answers))
    → what_eq s.watched What.none ≡ false
    → ready a user alloc f event s ≡ ok s'
    → loop_until_empty alloc user f ((event, a) ∷ later) s ≡ loop_until_empty alloc user f later s'
unfolding loop_until_empty
one_round alloc user f s s' event a later watching here = rw (watching, here) refl

module _ (alloc : ℕ → Bool) (user : User) (f : ℕ) where
  -- Events at which the descriptor takes all bytes in pieces: the loop goes on after them with the
  -- request done.
  pub pieces_sent :
      (s : Stream) (p : ℕ) (w : WriteRequest) (c : ℕ) (d : List Cell)
      (events later : List (What × Answers)) (pieces : List (List Cell))
      → IsSending s p w c d
      → what_eq s.watched What.none ≡ false
      → 0 < length d
      → Takes d events pieces
      → (s' : Stream) × (loop_until_empty alloc user (suc (suc f)) (events ++ later) s
          ≡ loop_until_empty alloc user (suc (suc f)) later s')
        × Over s s' c pieces
  pieces_sent s p w c d _ later _ q watching some_bytes (whole a all) =
      let r =
        all_sent a.writes (suc f) 0 s p w [] all
          (q.first.first, q.first.live, q.first.valid, omega (arith, ap length q.held), q.alone)
          (refl, tt) (omega arith) in
      (
        r.1,
        one_round alloc user (suc (suc f)) s r.1 What.write a later watching
            (ready-write a user alloc (suc (suc f)) r.0 s r.1 q.connected r.2),
        record {
          effects = r.3 ∙ ap₂ (λ x cb. s.effects ++ sent x ∷ (told cb ++ [])) q.held q.callback;
          idle = r.4;
          watched = r.5;
          unread = r.6;
        },
      )
  pieces_sent s p w c d _ later _ q watching some_bytes
        (part {events = events} {pieces = pieces} a k taken less rest) =
      let m = length d in
      let region = one_region w.buffer q.first.valid q.single (omega (arith, ap length q.held)) in
      let r =
        short_write a.writes (suc f) 0 s p w m d k q.first
          (region ∙ ap (λ x. (length x, x) ∷ []) q.held) taken less
          (omega (arith, ap length q.held, q.first.valid.counted, q.first.valid.fits)) in
      let w' : WriteRequest = record w { buffer = r.3.buffer } in
      let left : IsSending r.0 p w' c (drop k d) = record {
        first = record { first = r.3.head; live = r.3.request; valid = r.3.valid };
        alone = q.alone;
        callback = q.callback;
        single = omega (arith, q.single, drain-no_longer w.buffer r.3.buffer k r.3.drained);
        held = r.3.left ∙ ap (drop k) q.held;
        connected = r.3.unread.connect_callback ∙ q.connected;
      } in
      let more =
        pieces_sent r.0 p w' c (drop k d) events later pieces left
          (ap (λ x. what_eq x What.none) r.3.watched ∙ watching) (omega (arith, length-drop k d))
          rest in
      (
        more.0,
        one_round alloc user (suc (suc f)) s r.0 What.write a (events ++ later) watching
              (ready-write a user alloc (suc (suc f)) 1 s r.0 q.connected r.1)
            ∙ more.1,
        record {
          effects =
              more.2.effects
              ∙ ap (λ e. e ++ (map sent pieces ++ completed c ∷ [])) r.2
              ∙ append_assoc s.effects _ (map sent pieces ++ completed c ∷ [])
              ∙ ap (λ x. s.effects ++ sent (take k x) ∷ (map sent pieces ++ completed c ∷ []))
                  q.held;
          idle = more.2.idle;
          watched = more.2.watched ∙ ap remove_write r.3.watched;
          unread = Unread-trans s r.0 more.0 r.3.unread more.2.unread;
        },
      )
