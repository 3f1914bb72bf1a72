-- ===== src/Stream/Received.antt =====
-- `readHelper` hands every chunk that the descriptor gives to the callback, once and in order.
use what_the_event.Common.{
  append-nil, sym, ℕ, zero, suc, ◌+◌, ◌<◌, ◌≤◌, ◌≡◌, refl, ap, ◌∙◌, some, Bool, true, ok, List, [],
  ◌∷◌, ◌++◌, take, take_all, map, append_assoc, length, arith,
}
use what_the_event.Buffer.Extent.{Cell}
use what_the_event.Buffer.Impl.{BufferImpl, append}
use what_the_event.Buffer.Contents.{contents, IsValid}
use what_the_event.Buffer.Append.{append-contents}
use what_the_event.Stream.State.{notify, read_failed, reached_eof, Effect, Stream, available, emit}
use what_the_event.Stream.Reading.{
  User, again, broken, Answer, received, chunk_size, deliver, receive_loop, read_helper,
}

-- The buffer is sound and holds nothing.
abbrev pub IsDrained : BufferImpl → Type 0
IsDrained b = IsValid b × (contents b.extents ≡ [])

-- The callback takes all that the buffer holds, and leaves the stream alone otherwise.
abbrev pub IsTaker : User → ℕ → Type 0
IsTaker user c =
    (t : Stream)
    → IsValid t.read_buffer
    → (b : BufferImpl) × (user c t ≡ ok (record t { read_buffer = b })) × IsDrained b

-- The reads from the k-th on, `n` of them: chunks of the full size, and then a shorter one, or an
-- answer without bytes, and what the callback `c` hears of that.
pub data Gives (kernel : ℕ → Answer) (c : ℕ) : ℕ → ℕ → List (List Cell) → List Effect → Type 0 where
  last :
      {k n : ℕ} (d : List Cell)
      → n ≡ 1
      → kernel k ≡ received d
      → 0 < length d
      → length d < chunk_size
      → Gives kernel c k n (d ∷ []) []
  dry : {k n : ℕ} → n ≡ 1 → kernel k ≡ again → Gives kernel c k n [] []
  failed : {k n : ℕ} → n ≡ 1 → kernel k ≡ broken → Gives kernel c k n [] (read_failed c ∷ [])
  over : {k n : ℕ} → n ≡ 1 → kernel k ≡ received [] → Gives kernel c k n [] (reached_eof c ∷ [])
  full :
      {k n : ℕ} (d : List Cell) (more : List (List Cell)) (ends : List Effect)
      → kernel k ≡ received d
      → length d ≡ chunk_size
      → Gives kernel c (suc k) n more ends
      → Gives kernel c k (suc n) (d ∷ more) ends

module _ (kernel : ℕ → Answer) (user : User) (alloc : ℕ → Bool) (c : ℕ)
    (granted : (n : ℕ) → n ≤ chunk_size → alloc n ≡ true) where
  -- The stream as the callback finds it.
  abbrev pub offered : Stream → BufferImpl → Stream
  offered s b = record s {
    read_buffer = b;
    effects = s.effects ++ available c (contents b.extents) ∷ [];
  }

  pub appended :
      (b : BufferImpl) (d : List Cell)
      → IsDrained b
      → length d ≤ chunk_size
      → (b' : BufferImpl) × (append alloc b d (length d) ≡ ok b')
        × IsValid b'
        × (contents b'.extents ≡ d)
  appended b d (v, e) h =
      let r =
        append-contents alloc b d (length d) v (omega arith) (omega arith)
          (omega (arith, v.counted, ap length e)) (granted (length d) h) in
      (
        r.0,
        r.1,
        r.2,
        r.3 ∙ ap (λ x. x ++ take (length d) d) e ∙ take_all (length d) d (omega arith),
      )

  pub receive_loop-last :
      (f k : ℕ) (s s' : Stream) (d : List Cell) (b : BufferImpl)
      → s.read_callback ≡ some c
      → kernel k ≡ received d
      → 0 < length d
      → length d < chunk_size
      → append alloc s.read_buffer d (length d) ≡ ok b
      → user c (offered s b) ≡ ok s'
      → receive_loop kernel user alloc (suc f) k s ≡ ok (suc k, s')
  unfolding receive_loop deliver emit
  receive_loop-last f k s s' [] b call gives some_bytes short made used = absurd (omega arith)
  receive_loop-last f k s s' (x ∷ d) b call gives some_bytes short made used =
      ground (arith, call, gives, made, used, short)

  pub receive_loop-full :
      (f k : ℕ) (s s' : Stream) (d : List Cell) (b : BufferImpl)
      → s.read_callback ≡ some c
      → kernel k ≡ received d
      → length d ≡ chunk_size
      → append alloc s.read_buffer d (length d) ≡ ok b
      → user c (offered s b) ≡ ok s'
      → receive_loop kernel user alloc (suc f) k s ≡ receive_loop kernel user alloc f (suc k) s'
  unfolding receive_loop deliver emit
  receive_loop-full f k s s' [] b call gives large made used = absurd (omega arith)
  receive_loop-full f k s s' (x ∷ d) b call gives large made used =
      ground (arith, call, gives, made, used, large)

  receive_loop-dry :
      (f k : ℕ) (s : Stream)
      → kernel k ≡ again
      → receive_loop kernel user alloc (suc f) k s ≡ ok (suc k, s)
  unfolding receive_loop
  receive_loop-dry f k s gives = ground (arith, gives)

  receive_loop-failed :
      (f k : ℕ) (s : Stream)
      → s.read_callback ≡ some c
      → kernel k ≡ broken
      → receive_loop kernel user alloc (suc f) k s
        ≡ ok (suc k, record s { effects = s.effects ++ read_failed c ∷ [] })
  unfolding receive_loop notify emit
  receive_loop-failed f k s call gives = ground (arith, call, gives)

  receive_loop-over :
      (f k : ℕ) (s : Stream)
      → s.read_callback ≡ some c
      → kernel k ≡ received []
      → receive_loop kernel user alloc (suc f) k s
        ≡ ok (suc k, record s { effects = s.effects ++ reached_eof c ∷ [] })
  unfolding receive_loop notify emit
  receive_loop-over f k s call gives = ground (arith, call, gives)

  module _ (takes : IsTaker user c) where
    receive_loop-Gives :
        (f k n : ℕ) (s : Stream) (chunks : List (List Cell)) (ends : List Effect)
        → s.read_callback ≡ some c
        → IsDrained s.read_buffer
        → Gives kernel c k n chunks ends
        → n ≤ f
        → (s' : Stream) × (receive_loop kernel user alloc f k s ≡ ok (k + n, s'))
          × (s'.effects ≡ s.effects ++ (map (available c) chunks ++ ends))
          × IsDrained s'.read_buffer
          × (s'.watched ≡ s.watched)
    receive_loop-Gives zero k n s chunks ends call e (last d one gives some_bytes short) h =
        absurd (omega arith)
    receive_loop-Gives zero k n s chunks ends call e (dry one gives) h = absurd (omega arith)
    receive_loop-Gives zero k n s chunks ends call e (failed one gives) h = absurd (omega arith)
    receive_loop-Gives zero k n s chunks ends call e (over one gives) h = absurd (omega arith)
    receive_loop-Gives zero k n s chunks ends call e (full {n = m} d more rest gives large later)
          h =
        absurd (omega arith)
    receive_loop-Gives (suc f) k n s chunks ends call e (last d one gives some_bytes short) h =
        let b = appended s.read_buffer d e (omega arith) in
        let u = takes (offered s b.0) b.2 in
        let after : Stream = record (offered s b.0) { read_buffer = u.0 } in
        (
          after,
          receive_loop-last f k s after d b.0 call gives some_bytes short b.1 u.1
              ∙ ap (λ m. ok (m, after)) (omega arith),
          ap (λ x. s.effects ++ available c x ∷ []) b.3,
          u.2,
          refl,
        )
    receive_loop-Gives (suc f) k n s chunks ends call e (dry one gives) h = (
      s,
      receive_loop-dry f k s gives ∙ ap (λ m. ok (m, s)) (omega arith),
      sym (append-nil s.effects),
      e,
      refl,
    )
    receive_loop-Gives (suc f) k n s chunks ends call e (failed one gives) h = (
      record s { effects = s.effects ++ read_failed c ∷ [] },
      receive_loop-failed f k s call gives
          ∙ ap (λ m. ok (m, record s { effects = s.effects ++ read_failed c ∷ [] })) (omega arith),
      refl,
      e,
      refl,
    )
    receive_loop-Gives (suc f) k n s chunks ends call e (over one gives) h = (
      record s { effects = s.effects ++ reached_eof c ∷ [] },
      receive_loop-over f k s call gives
          ∙ ap (λ m. ok (m, record s { effects = s.effects ++ reached_eof c ∷ [] })) (omega arith),
      refl,
      e,
      refl,
    )
    receive_loop-Gives (suc f) k n s chunks ends call e (full {n = m} d more rest gives large later)
          h =
        let b = appended s.read_buffer d e (omega arith) in
        let u = takes (offered s b.0) b.2 in
        let after : Stream = record (offered s b.0) { read_buffer = u.0 } in
        let r = receive_loop-Gives f (suc k) m after more rest call u.2 later (omega arith) in
        (
          r.0,
          receive_loop-full f k s after d b.0 call gives large b.1 u.1
              ∙ r.1
              ∙ ap (λ j. ok (j, r.0)) (omega arith),
          r.2
              ∙ append_assoc s.effects (available c (contents b.0.extents) ∷ [])
                  (map (available c) more ++ rest)
              ∙ ap (λ x. s.effects ++ available c x ∷ (map (available c) more ++ rest)) b.3,
          r.3,
          r.4,
        )

-- With a callback that takes all that the buffer holds, one call of `readHelper` hands it each chunk
-- that the descriptor gives, full ones and then perhaps a shorter one, exactly once and in order; then
-- it tells it of an error or of the end, if there is one, and stops without another read. As many
-- rounds as there are reads are enough.
pub chunks_delivered :
    (kernel : ℕ → Answer) (user : User) (alloc : ℕ → Bool) (c f k n : ℕ) (s : Stream)
    (chunks : List (List Cell)) (ends : List Effect)
    → ((m : ℕ) → m ≤ chunk_size → alloc m ≡ true)
    → IsTaker user c
    → s.read_callback ≡ some c
    → IsDrained s.read_buffer
    → Gives kernel c k n chunks ends
    → n ≤ f
    → (s' : Stream) × (read_helper kernel user alloc f k s ≡ ok (k + n, s'))
      × (s'.effects ≡ s.effects ++ (map (available c) chunks ++ ends))
      × IsDrained s'.read_buffer
      × (s'.watched ≡ s.watched)
unfolding read_helper
chunks_delivered kernel user alloc c f k n s chunks ends granted takes call e gives h =
    receive_loop-Gives kernel user alloc c granted takes f k n s chunks ends call e gives h
