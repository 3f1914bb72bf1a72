-- ===== src/Mpsc/Store.antt =====
-- `ConcurrentMPSCQueue<T>` of src/mpsc_queue.h: its nodes on the heap, by address.
use what_the_event.Common.{
  ℕ, zero, suc, Option, none, some, Bool, true, if◌then◌else◌, ◌==◌, Outcome, ok, fault,
  out_of_fuel, ◌>>=◌,
}

-- `Node`; `item` is its `data`, and `none` where that is of the default constructor, or was moved out.
pub record Node (A : Type 0) : Type 0 where
  pub item : Option A
  pub next : Option ℕ

pub record Queue (A : Type 0) : Type 0 where
  pub node : ℕ → Option (Node A)
  pub head : ℕ
  pub tail : ℕ

module _ {A : Type 0} where
  abbrev pub stored : (ℕ → Option (Node A)) → ℕ → Option (Node A) → ℕ → Option (Node A)
  stored m p n q = if p == q then n else m q

  -- The constructor, with a node at the free address `p`.
  unfoldable pub construct : (ℕ → Option (Node A)) → ℕ → Queue A
  construct m p = record {
    node = stored m p (some (record { item = none; next = none }));
    head = p;
    tail = p;
  }

  -- `push`, with a new node at the free address `p`: whether the queue was empty.
  unfoldable pub push : Queue A → ℕ → A → Outcome (Bool × Queue A)
  push q p x =
      let made = stored q.node p (some (record { item = some x; next = none })) in
      let empty_at_init = q.head == q.tail in
      elim (made q.head) as (λ _. Outcome (Bool × Queue A)) [
        | none ↦ fault
        | some n ↦ ok (
          if empty_at_init then true else (q.tail == q.head),
          record {
            node = stored made q.head (some (record n { next = some p }));
            head = p;
            tail = q.tail;
          },
        )
      ]

  -- The second half of `pop`: the old tail is freed, and the data of the new one is moved out.
  unfoldable pub advance : Queue A → ℕ → Outcome (Option (Option A) × Queue A)
  advance q n =
      let kept = stored q.node q.tail none in
      elim (kept n) as (λ _. Outcome (Option (Option A) × Queue A)) [
        | none ↦ fault
        | some x ↦ ok (
          some x.item,
          record {
            node = stored kept n (some (record x { item = none }));
            head = q.head;
            tail = n;
          },
        )
      ]

  unfoldable pub pop : Queue A → Outcome (Option (Option A) × Queue A)
  unfolding advance
  pop q = elim (q.node q.tail) as (λ _. Outcome (Option (Option A) × Queue A)) [
    | none ↦ fault
    | some t ↦ elim t.next as (λ _. Outcome (Option (Option A) × Queue A)) [
      | none ↦ ok (none, q)
      | some n ↦ advance q n
    ]
  ]

  -- The destructor: the heap afterwards.
  unfoldable pub destroy : ℕ → Queue A → Outcome (ℕ → Option (Node A))
  destroy zero q = out_of_fuel
  destroy (suc f) q = do
    r ← pop q
    let rest = destroy f r.1
    let last : Outcome (ℕ → Option (Node A)) =
        elim (r.1.node r.1.head) as (λ _. Outcome (ℕ → Option (Node A))) [
          | none ↦ fault
          | some _ ↦ ok (stored r.1.node r.1.head none)
        ]
    elim r.0 as (λ _. Outcome (ℕ → Option (Node A))) [ some _ ↦ rest | none ↦ last ]
