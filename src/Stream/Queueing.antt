-- ===== src/Stream/Queueing.antt =====
-- The order of write requests, and the pointer `tail`, which `append` does not move.
use what_the_event.Common.{
  ◌∙◌, ap, ℕ, ◌≡◌, ◌≢◌, refl, sym, Option, none, some, ok, fault, List, [], ◌∷◌, arith, ==_refl,
  ne→==,
}
use what_the_event.Buffer.Impl.{BufferImpl}
use what_the_event.Stream.Requests.{
  WriteRequest, Requests, put, append_request, drop_front, consume_front, enqueue,
}

-- The requests that are reached from a pointer, in order.
abbrev pub Chain : (ℕ → Option WriteRequest) → Option ℕ → List ℕ → Type 0
Chain heap p [] = p ≡ none
Chain heap p (a ∷ more) =
    (p ≡ some a) × ((w : WriteRequest) × (heap a ≡ some w) × Chain heap w.next more)

-- Nothing is queued.
abbrev pub IsIdle : Requests → Type 0
IsIdle r = (r.head ≡ none) × (r.tail ≡ none)

-- The chain from `head` with its first request still where `tail` points, as `append` leaves it.
pub record Queued (r : Requests) (a : ℕ) (more : List ℕ) : Type 0 where
  pub first : r.tail ≡ some a
  pub chain : Chain r.heap r.head (a ∷ more)

-- A request with nothing before it.
abbrev pub alone : Requests → ℕ → WriteRequest → Requests
alone r p w = record { heap = put r.heap p (some w); head = some p; tail = some p }

abbrev pub unlinked : BufferImpl → Option ℕ → WriteRequest
unlinked buffer callback = record { buffer = buffer; callback = callback; next = none }

pub enqueue-alone :
    (r : Requests) (p : ℕ) (buffer : BufferImpl) (callback : Option ℕ)
    → IsIdle r
    → enqueue r p buffer callback ≡ ok (alone r p (unlinked buffer callback))
unfolding enqueue append_request
enqueue-alone r p buffer callback (h, t) = ground arith

enqueue_first :
    (r : Requests) (p : ℕ) (buffer : BufferImpl) (callback : Option ℕ)
    → IsIdle r
    → (r' : Requests) × (enqueue r p buffer callback ≡ ok r') × Queued r' p []
enqueue_first r p buffer callback idle =
    let w = unlinked buffer callback in
    (
      alone r p w,
      enqueue-alone r p buffer callback idle,
      record { first = refl; chain = (refl, (w, rw (==_refl p) refl, refl)) },
    )

-- A request behind another one: it comes to stand right behind the first, and what was behind that
-- can no longer be reached.
enqueue_behind :
    (r : Requests) (a : ℕ) (more : List ℕ) (p : ℕ) (buffer : BufferImpl) (callback : Option ℕ)
    → Queued r a more
    → p ≢ a
    → (r' : Requests) × (enqueue r p buffer callback ≡ ok r') × Queued r' a (p ∷ [])
unfolding enqueue append_request
enqueue_behind r a more p buffer callback q n = (
  after,
  ground (arith, q.chain.0, q.chain.1.1),
  record {
    first = q.first;
    chain = (q.chain.0, (front, rw (==_refl a), (refl, (w, ground arith, refl))));
  },
)
  where
    w : WriteRequest
    w = record { buffer = buffer; callback = callback; next = none }

    front : WriteRequest
    front = record (q.chain.1.0) { next = some p }

    after : Requests
    after = record r { heap = put (put r.heap p (some w)) a (some front) }

consume_last :
    (r : Requests) (a : ℕ)
    → Queued r a []
    → (r' : Requests) × (consume_front r ≡ ok (none, r')) × IsIdle r'
unfolding consume_front
consume_last r a q = (drop_front r a none, ground (arith, q.chain.0, q.chain.1.1), (refl, refl))

consume_first :
    (r : Requests) (a b : ℕ) (more : List ℕ)
    → Queued r a (b ∷ more)
    → (consume_front r ≡ ok (some b, drop_front r a (some b)))
unfolding consume_front
consume_first r a b more q = ground (arith, q.chain.0, q.chain.1.1)

pub consume_at :
    (r : Requests) (p : ℕ) (w : WriteRequest)
    → r.head ≡ some p
    → r.heap p ≡ some w
    → consume_front r ≡ ok (w.next, drop_front r p w.next)
unfolding consume_front
consume_at r p w h e = ground arith

-- Two requests that are queued one after the other while nothing is queued come off in that order,
-- and nothing is queued afterwards.
pub two_in_order :
    (r : Requests) (a b : ℕ) (x y : BufferImpl) (c d : Option ℕ)
    → IsIdle r
    → b ≢ a
    → (r₁ : Requests) × (r₂ : Requests) × (r₃ : Requests) × (r₄ : Requests) × (enqueue r a x c
        ≡ ok r₁)
      × (enqueue r₁ b y d ≡ ok r₂)
      × (r₂.head ≡ some a)
      × (consume_front r₂ ≡ ok (some b, r₃))
      × (consume_front r₃ ≡ ok (none, r₄))
      × IsIdle r₄
unfolding drop_front
two_in_order r a b x y c d idle n =
    let one = enqueue_first r a x c idle in
    let two = enqueue_behind one.0 a [] b y d one.2 n in
    let off = consume_first two.0 a b [] two.2 in
    (
      one.0,
      two.0,
      drop_front two.0 a (some b),
      drop_front (drop_front two.0 a (some b)) b none,
      one.1,
      two.1,
      two.2.chain.0,
      off,
      consume_at (drop_front two.0 a (some b)) b two.2.chain.1.2.1.0 refl
            (rw (ne→== a b (λ e. n (sym e))) (two.2.chain.1.2.1.1))
          ∙ ap (λ k. ok (k, drop_front (drop_front two.0 a (some b)) b k)) two.2.chain.1.2.1.2,
      (refl, refl),
    )

-- Once the first of two requests or more is done, `tail` points to the freed request: a further one
-- is stored through that pointer.
pub stored_through_freed :
    (r : Requests) (a b : ℕ) (more : List ℕ) (p : ℕ) (buffer : BufferImpl) (callback : Option ℕ)
    → Queued r a (b ∷ more)
    → p ≢ a
    → (r' : Requests) × (consume_front r ≡ ok (some b, r')) × (enqueue r' p buffer callback ≡ fault)
unfolding enqueue append_request drop_front
stored_through_freed r a b more p buffer callback q n =
    (drop_front r a (some b), consume_first r a b more q, ground (arith, q.first, ==_refl a))
