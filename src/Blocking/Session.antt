-- ===== src/Blocking/Session.antt =====
-- A blocking stream from its constructor over calls of `write` to its destructor, of
-- src/blocking_stream.cc.
use what_the_event.Common.{
  ℕ, suc, ◌<◌, ◌≤◌, ◌^◌, ◌≡◌, refl, sym, ap, ap₂, subst, ◌∙◌, none, some, Bool, true, false,
  if◌then◌else◌, Outcome, ok, ◌>>=◌, List, [], ◌∷◌, ◌++◌, map, length, take_all, append-nil,
  append_assoc, arith,
}
use what_the_event.Events.What.{What}
use what_the_event.Buffer.Extent.{Cell}
use what_the_event.Stream.State.{Stream, Effect, sent, completed, closed, wrap_fd}
use what_the_event.Stream.Output.{output}
use what_the_event.Stream.Queueing.{IsIdle}
use what_the_event.Stream.Rounds.{Unread, Unread-trans}
use what_the_event.Stream.Reading.{User}
use what_the_event.Stream.Connecting.{Answers}
use what_the_event.Blocking.Writer.{blocking_write}
use what_the_event.Blocking.Chunks.{concat}
use what_the_event.Blocking.Pieces.{Takes, concat-Takes}
use what_the_event.Blocking.Written.{blocking_write-Sends}
use what_the_event.Blocking.Life.{create, dispose, last_words, dispose-tells}

-- A call of `write`, with the places of its request and of its callback, and the events at the
-- descriptor while it lasts.
pub record Job : Type 0 where
  pub bytes : List Cell
  pub place : ℕ
  pub callback : ℕ
  pub events : List (What × Answers)

module _ (alloc : ℕ → Bool) (user : User) (fuel : ℕ) where
  -- Blocking writes one after the other, until one throws.
  unfoldable pub write_each : List Job → Stream → Outcome (Bool × Stream)
  write_each [] s = ok (false, s)
  write_each (j ∷ js) s = do
    r ← blocking_write alloc user fuel j.events s j.place j.bytes (length j.bytes) j.callback
    let rest = write_each js r.1
    if r.0 then ok r else rest

  -- A stream is made, written to, and destroyed.
  unfoldable pub session : ℕ → Bool → List Job → Outcome (Bool × Stream)
  unfolding write_each create dispose
  session fd auto_close js = do
    r ← write_each js (create fd auto_close).stream
    s ← dispose fuel (record { stream = r.1; auto_close = auto_close })
    ok (r.0, s)

-- The descriptor takes the bytes of each write in these pieces.
abbrev pub AllTaken : (ℕ → Bool) → List Job → List (List (List Cell)) → Type 0
AllTaken alloc [] [] = Unit
AllTaken alloc [] (ps ∷ pss) = ⊥
AllTaken alloc (j ∷ js) [] = ⊥
AllTaken alloc (j ∷ js) (ps ∷ pss) =
    (0 < length j.bytes)
    × (length j.bytes ≤ 2 ^ 63)
    × (alloc (length j.bytes) ≡ true)
    × Takes j.bytes j.events ps
    × AllTaken alloc js pss

-- What is sent and told when these writes are done in these pieces.
abbrev pub all_done : List Job → List (List (List Cell)) → List Effect
all_done (j ∷ js) (ps ∷ pss) = (map sent ps ++ completed j.callback ∷ []) ++ all_done js pss
all_done _ _ = []

-- A stream on which nothing is under way.
record IsQuiet (s : Stream) : Type 0 where
  idle : IsIdle s.requests
  watched : s.watched ≡ What.none
  connected : s.connect_callback ≡ none

output-sent :
    (ps : List (List Cell)) (c : ℕ) (es : List Effect)
    → output ((map sent ps ++ completed c ∷ []) ++ es) ≡ concat ps ++ output es
output-sent [] c es = refl
output-sent (p ∷ ps) c es =
    ap (◌++◌ p) (output-sent ps c es) ∙ sym (append_assoc p (concat ps) (output es))

output-all :
    (alloc : ℕ → Bool) (js : List Job) (pss : List (List (List Cell)))
    → AllTaken alloc js pss
    → output (all_done js pss) ≡ concat (map (λ j. j.bytes) js)
output-all alloc [] [] h = refl
output-all alloc [] (ps ∷ pss) h = elim h [ ]
output-all alloc (j ∷ js) [] h = elim h [ ]
output-all alloc (j ∷ js) (ps ∷ pss) h =
    output-sent ps j.callback (all_done js pss)
    ∙ ap₂ ◌++◌ (concat-Takes j.bytes j.events ps h.3) (output-all alloc js pss h.4)

module _ (alloc : ℕ → Bool) (user : User) (f : ℕ) where
  write_each-sent :
      (js : List Job) (pss : List (List (List Cell))) (s : Stream)
      → IsQuiet s
      → AllTaken alloc js pss
      → (s' : Stream) × (write_each alloc user (suc (suc f)) js s ≡ ok (false, s'))
        × (s'.effects ≡ s.effects ++ all_done js pss)
        × IsQuiet s'
        × Unread s s'
  unfolding write_each
  write_each-sent [] [] s q h = (
    s,
    refl,
    sym (append-nil s.effects),
    q,
    record { fd = refl; read_callback = refl; connect_callback = refl; read_buffer = refl },
  )
  write_each-sent [] (ps ∷ pss) s q h = elim h [ ]
  write_each-sent (j ∷ js) [] s q h = elim h [ ]
  write_each-sent (j ∷ js) (ps ∷ pss) s q h =
      let n = length j.bytes in
      let one =
        blocking_write-Sends alloc user f s j.place j.bytes n j.callback q.idle q.connected h.0
          (omega arith) h.1 h.2 j.events [] ps q.watched
          (subst (λ d. Takes d j.events ps) (sym (take_all n j.bytes (omega arith))) h.3) in
      let runs : blocking_write alloc user (suc (suc f)) j.events s j.place j.bytes n j.callback
          ≡ ok (false, one.0) =
        ap (λ es. blocking_write alloc user (suc (suc f)) es s j.place j.bytes n j.callback)
          (sym (append-nil j.events))
        ∙ one.1 in
      let quiet : IsQuiet (one.0) = record {
        idle = one.4;
        watched = one.5;
        connected = one.6.connect_callback ∙ q.connected;
      } in
      let rest = write_each-sent js pss one.0 quiet h.4 in
      (
        rest.0,
        rw runs (rw rest.1 refl),
        rest.2
            ∙ ap (λ es. es ++ all_done js pss) one.2
            ∙ append_assoc s.effects (map sent ps ++ completed j.callback ∷ []) (all_done js pss),
        rest.3,
        Unread-trans s one.0 rest.0 one.6 rest.4,
      )

-- A blocking stream is made on a descriptor, written to any number of times, and destroyed. Each write
-- has at least one byte, for which the allocator grants the room, and the descriptor takes it in pieces
-- of any sizes: no write throws or waits for more events than these, all bytes of all writes go out in
-- order, each callback is told once after its bytes, and after all that the descriptor is closed, once,
-- exactly if `auto_close` was asked for; nothing stays registered, and no request is left.
pub session-sent :
    (alloc : ℕ → Bool) (user : User) (f fd : ℕ) (auto_close : Bool) (js : List Job)
    (pss : List (List (List Cell)))
    → AllTaken alloc js pss
    → (s : Stream) × (session alloc user (suc (suc f)) fd auto_close js ≡ ok (false, s))
      × (s.effects ≡ all_done js pss ++ (if auto_close then closed fd ∷ [] else []))
      × (output (all_done js pss) ≡ concat (map (λ j. j.bytes) js))
      × (s.watched ≡ What.none)
      × IsIdle s.requests
unfolding session create wrap_fd
session-sent alloc user f fd auto_close js pss taken =
    let new : Stream = (create fd auto_close).stream in
    let w =
      write_each-sent alloc user f js pss new
        (record { idle = (refl, refl); watched = refl; connected = refl }) taken in
    let d = dispose-tells (suc f) w.0 auto_close w.3.idle w.3.connected in
    (
      d.0,
      rw w.1 (rw d.1 refl),
      d.2 ∙ ap₂ ◌++◌ w.2 (words w.0 auto_close w.4.fd w.4.read_callback),
      output-all alloc js pss taken,
      d.3,
      d.4,
    )
  where
    words :
        (s : Stream) (asked : Bool)
        → s.fd ≡ some fd
        → s.read_callback ≡ none
        → last_words s asked ≡ (if asked then closed fd ∷ [] else [])
    words s false e r = refl
    words s true e r = ground (arith, e, r)
