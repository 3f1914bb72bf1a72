-- ===== src/Echo/Deaf.antt =====
-- A message longer than one read: it is echoed, and then the connection no longer listens.
use what_the_event.Common.{
  ℕ, suc, ◌<◌, ◌≤◌, ◌≡◌, ◌≢◌, refl, sym, ap, ap₂, ◌∙◌, Option, none, some, Bool, true, ok, List, [],
  ◌∷◌, ◌++◌, append_assoc, length, ==_refl, arith, ne→==,
}
use what_the_event.Events.What.{What, ensure_write, remove_write}
use what_the_event.Buffer.Extent.{Cell}
use what_the_event.Buffer.Impl.{BufferImpl, empty_buffer, append_buffer}
use what_the_event.Buffer.Contents.{contents, IsValid}
use what_the_event.Buffer.Append.{append_buffer-contents, empty-IsValid}
use what_the_event.Stream.Requests.{
  WriteRequest, Requests, put, load, link_tail, append_request, enqueue,
}
use what_the_event.Stream.State.{Stream, Effect, sent, completed, available, write_buffer}
use what_the_event.Stream.Queueing.{alone, unlinked}
use what_the_event.Stream.Pending.{all_sent}
use what_the_event.Stream.Reading.{received, chunk_size, read_helper, User}
use what_the_event.Stream.Received.{offered, appended, receive_loop-full, receive_loop-last}
use what_the_event.Stream.Connecting.{Answers, ready}
use what_the_event.Echo.Server.{read_cb, write_cb, on_available, serve}
use what_the_event.Echo.Round.{
  IsResting, queued, on_available-queued, moved, ready-read, ready-write,
}

-- Two requests, the second behind the first.
abbrev pair : Requests → ℕ → WriteRequest → ℕ → WriteRequest → Requests
pair r p w q v = record {
  heap = put (put (put r.heap p (some w)) q (some v)) p (some (record w { next = some q }));
  head = some p;
  tail = some p;
}

enqueue-pair :
    (r : Requests) (p : ℕ) (w : WriteRequest) (q : ℕ) (b : BufferImpl) (callback : Option ℕ)
    → q ≢ p
    → enqueue (alone r p w) q b callback ≡ ok (pair r p w q (unlinked b callback))
unfolding enqueue append_request link_tail load
enqueue-pair r p w q b callback n = ground (arith, ne→== q p n, ==_refl p)

-- The stream after the callback queued a second request.
abbrev queued_behind : Stream → Requests → ℕ → WriteRequest → ℕ → BufferImpl → Stream
queued_behind s r p w q b = record s {
  requests = pair r p w q (unlinked b (some write_cb));
  watched = ensure_write s.watched;
  read_buffer = empty_buffer;
}

on_available-behind :
    (place : Requests → ℕ) (c : ℕ) (s : Stream) (r : Requests) (p : ℕ) (w : WriteRequest)
    → s.requests ≡ alone r p w
    → place s.requests ≢ p
    → 0 < length (contents s.read_buffer.extents)
    → on_available place c s
      ≡ ok (queued_behind s r p w (place s.requests) (append_buffer empty_buffer s.read_buffer).0)
unfolding on_available write_buffer
on_available-behind place c s r p w one n some_bytes =
    rw (enq) (rw (moved s.read_buffer some_bytes) refl)
  where
    enq :
        enqueue s.requests
          (place s.requests)
          (append_buffer empty_buffer s.read_buffer).0
          (some write_cb)
        ≡ ok (
            pair r p w
              (place s.requests)
              (unlinked (append_buffer empty_buffer s.read_buffer).0 (some write_cb)))
    enq =
        ap
          (λ k.
            enqueue k (place s.requests) (append_buffer empty_buffer s.read_buffer).0
              (some write_cb))
          one
        ∙ enqueue-pair r p w (place s.requests) (append_buffer empty_buffer s.read_buffer).0
            (some write_cb) n

-- Both requests are written by one event.
module _ (w : Answers) (f : ℕ) (s : Stream) (r : Requests) (p q : ℕ) (x y : BufferImpl)
    (d e : List Cell) (all : (k n : ℕ) → w.writes k n ≡ some n) (n : q ≢ p) (v : IsValid x)
    (v' : IsValid y) (held : contents x.extents ≡ d) (held' : contents y.extents ≡ e)
    (h : 0 < length d) (h' : 0 < length e) (idle : s.connect_callback ≡ none)
    (reading : s.watched ≡ What.read_write) where
  abbrev both : Stream
  both = queued_behind s r p (unlinked x (some write_cb)) q y

  pair_sent :
      (user : User) (alloc : ℕ → Bool)
      → (s' : Stream) × (ready w user alloc (suc (suc (suc f))) What.write both ≡ ok s')
        × (s'.effects ≡ s.effects ++ sent d ∷ completed write_cb ∷ sent e ∷ completed write_cb ∷ [])
        × (s'.watched ≡ What.none)
        × (s'.read_callback ≡ s.read_callback)
  unfolding ensure_write remove_write
  pair_sent user alloc =
      let apart = ne→== p q (λ k. n (sym k)) in
      let out =
        all_sent w.writes (suc (suc f)) 0 both p
          (record (unlinked x (some write_cb)) { next = some q })
          ((q, unlinked y (some write_cb)) ∷ []) all
          (
            refl,
            rw (==_refl p) refl,
            v,
            omega (arith, ap length held),
            (refl, rw (apart, ==_refl q) refl, v', omega (arith, ap length held'), refl),
          )
          (ground (arith, apart), (refl, tt)) (omega arith) in
      (
        out.1,
        ready-write w user alloc (suc (suc (suc f))) out.0 both out.1 idle out.2,
        out.3
            ∙ ap₂
                (λ i j. s.effects ++ sent i ∷ completed write_cb ∷ sent j ∷ completed write_cb ∷ [])
                held held',
        out.5 ∙ ap (λ k. remove_write (ensure_write k)) reading,
        out.6.read_callback,
      )

-- A resting connection to which one event brings a full chunk and then a shorter one: both are sent
-- back, whole and in order, when the descriptor takes all it is given; but then the stream watches
-- nothing, although it still has its read callback.
pub long_message_deafens :
    (place : Requests → ℕ) (alloc : ℕ → Bool) (f : ℕ) (s : Stream) (r w : Answers) (d e : List Cell)
    → ((n : ℕ) → n ≤ chunk_size → alloc n ≡ true)
    → ((v : WriteRequest) → place (alone s.requests (place s.requests) v) ≢ place s.requests)
    → IsResting s
    → r.reads 0 ≡ received d
    → length d ≡ chunk_size
    → r.reads 1 ≡ received e
    → 0 < length e
    → length e < chunk_size
    → ((k n : ℕ) → w.writes k n ≡ some n)
    → (s' : Stream) × (serve place alloc
          (suc (suc (suc f)))
          ((What.read, r) ∷ (What.write, w) ∷ [])
          s
        ≡ ok s')
      × (s'.effects
          ≡ s.effects
            ++ available read_cb d
              ∷ available read_cb e
              ∷ sent d
              ∷ completed write_cb
              ∷ sent e
              ∷ completed write_cb
              ∷ [])
      × (s'.watched ≡ What.none)
      × (s'.read_callback ≡ some read_cb)
unfolding serve read_helper ensure_write
long_message_deafens place alloc f s r w d e granted free q gives large gives' some_bytes short
      all =
    let user = on_available place in
    let b = appended r.reads user alloc read_cb granted s.read_buffer d q.drained (omega arith) in
    let t : Stream = offered r.reads user alloc read_cb granted s b.0 in
    let p : ℕ = place s.requests in
    let m = append_buffer-contents empty_buffer b.0 empty-IsValid b.2 (omega (arith, b.2.fits)) in
    let x : BufferImpl = (append_buffer empty_buffer b.0).0 in
    let one : Stream = queued t p x in
    let b' =
      appended r.reads user alloc read_cb granted one.read_buffer e (empty-IsValid, refl)
        (omega arith) in
    let t' : Stream = offered r.reads user alloc read_cb granted one b'.0 in
    let p' : ℕ = place t'.requests in
    let m' =
      append_buffer-contents empty_buffer b'.0 empty-IsValid b'.2 (omega (arith, b'.2.fits)) in
    let y : BufferImpl = (append_buffer empty_buffer b'.0).0 in
    let request : WriteRequest = unlinked x (some write_cb) in
    let n : p' ≢ p = free request in
    let two : Stream = queued_behind t' s.requests p request p' y in
    let back : List Effect = sent d ∷ completed write_cb ∷ sent e ∷ completed write_cb ∷ [] in
    let out =
      pair_sent w f t' s.requests p p' x y d e all n m.0 m'.0 (m.2 ∙ b.3) (m'.2 ∙ b'.3)
        (omega arith) some_bytes q.connected (ap ensure_write q.watching) user alloc in
    (
      out.0,
      rw
          (ready-read r user alloc (suc (suc (suc f))) 2 s two (
            receive_loop-full r.reads user alloc read_cb granted (suc (suc f)) 0 s one d b.0
              q.reading gives large b.1
              (on_available-queued place read_cb t q.idle (omega (arith, ap length b.3)))
            ∙ receive_loop-last r.reads user alloc read_cb granted (suc f) 1 one two e b'.0
                q.reading gives' some_bytes short b'.1
                (on_available-behind place read_cb t' s.requests p request refl n
                  (omega (arith, ap length b'.3)))))
          (rw out.1 refl),
      out.2
          ∙ append_assoc (s.effects ++ available read_cb (contents b.0.extents) ∷ [])
              (available read_cb (contents b'.0.extents) ∷ []) back
          ∙ append_assoc s.effects (available read_cb (contents b.0.extents) ∷ [])
              (available read_cb (contents b'.0.extents) ∷ back)
          ∙ ap₂ (λ i j. s.effects ++ available read_cb i ∷ available read_cb j ∷ back) b.3 b'.3,
      out.3,
      out.4 ∙ q.reading,
    )
