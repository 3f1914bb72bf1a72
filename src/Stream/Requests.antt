-- ===== src/Stream/Requests.antt =====
-- `WriteRequest` and `Requests` of src/stream.cc: a singly linked list of heap objects.
use what_the_event.Common.{
  ℕ, Option, none, some, ◌==◌, if◌then◌else◌, zero, suc, Outcome, ok, fault, aborted, out_of_fuel,
  ◌>>=◌,
}
use what_the_event.Buffer.Impl.{BufferImpl}

-- A callback is known by a number; `next` is `next_`.
pub record WriteRequest : Type 0 where
  pub buffer : BufferImpl
  pub callback : Option ℕ
  pub next : Option ℕ

-- The live requests by address, and the two pointers.
pub record Requests : Type 0 where
  pub heap : ℕ → Option WriteRequest
  pub head : Option ℕ
  pub tail : Option ℕ

abbrev pub put : (ℕ → Option WriteRequest) → ℕ → Option WriteRequest → ℕ → Option WriteRequest
put heap p w = λ q. if p == q then w else heap q

unfoldable pub load : Requests → ℕ → Outcome WriteRequest
load r p = elim (r.heap p) [ none ↦ fault | some w ↦ ok w ]

-- `tail->next_ = req`
unfoldable pub link_tail : Requests → ℕ → Outcome Requests
unfolding load
link_tail r p = elim r.tail [
  | none ↦ fault
  | some t ↦ (do
    w ← load r t
    ok (record r { heap = put r.heap t (some (record w { next = some p })) }))
]

-- `Requests::append` of the request at `p`
unfoldable pub append_request : Requests → ℕ → Outcome Requests
unfolding link_tail
append_request r p = elim r.head [
  | none ↦ elim r.tail [ none ↦ ok (record r { head = some p; tail = some p }) | some _ ↦ aborted ]
  | some _ ↦ link_tail r p
]

-- `delete` of the request at `h`, which is the first; `rest` was its `next_`.
unfoldable pub drop_front : Requests → ℕ → Option ℕ → Requests
drop_front r h rest = record {
  heap = put r.heap h none;
  head = rest;
  tail = elim rest [ none ↦ none | some _ ↦ r.tail ];
}

-- `Requests::consumeFront`: the new first request, and the list.
unfoldable pub consume_front : Requests → Outcome (Option ℕ × Requests)
unfolding load drop_front
consume_front r = elim r.head [
  | none ↦ ok (none, r)
  | some h ↦ (do w ← load r h; ok (w.next, drop_front r h w.next))
]

-- `new WriteRequest(…)` at the free address `p`, and `append`
unfoldable pub enqueue : Requests → ℕ → BufferImpl → Option ℕ → Outcome Requests
unfolding append_request
enqueue r p buffer callback =
    append_request
      (record r {
        heap = put r.heap p (some (record { buffer = buffer; callback = callback; next = none }));
      })
      p

-- The loop of the destructor: `while ((r = requests_.consumeFront()) != nullptr)`.
unfoldable pub release : ℕ → Requests → Outcome Requests
unfolding consume_front
release zero r = out_of_fuel
release (suc f) r = do
  (next, r') ← consume_front r
  elim next as (λ _. Outcome Requests) [ none ↦ ok r' | some _ ↦ release f r' ]
