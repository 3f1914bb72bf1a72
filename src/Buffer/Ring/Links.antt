-- ===== src/Buffer/Ring/Links.antt =====
-- The links of the extents, by address, and the stores to them that src/buffer.cc makes.
use what_the_event.Common.{ℕ, Bool, ◌==◌, if◌then◌else◌}

-- `prev` and `next` of every `InternalExtent`.
pub record Links : Type 0 where
  pub next : ℕ → ℕ
  pub prev : ℕ → ℕ

-- `a->next = v`
unfoldable pub set_next : Links → ℕ → ℕ → Links
set_next l a v = record l { next = λ q. if q == a then v else l.next q }

-- `a->prev = v`
unfoldable pub set_prev : Links → ℕ → ℕ → Links
set_prev l a v = record l { prev = λ q. if q == a then v else l.prev q }

-- `listAppend(head, head2, tail)`, its four stores in turn; `listAppend(head, node)` is
-- `list_append l head node node`.
unfoldable pub list_append : Links → ℕ → ℕ → ℕ → Links
unfolding set_next set_prev
list_append l head head2 tail =
    let l₁ = set_prev l head2 (l.prev head) in
    let l₂ = set_next l₁ (l₁.prev head2) head2 in
    let l₃ = set_next l₂ tail head in set_prev l₃ (l₃.next tail) tail

-- `listPrepend(head, head2, tail)`
unfoldable pub list_prepend : Links → ℕ → ℕ → ℕ → Links
unfolding set_next set_prev
list_prepend l head head2 tail =
    let l₁ = set_next l tail (l.next head) in
    let l₂ = set_prev l₁ (l₁.next tail) tail in
    let l₃ = set_prev l₂ head2 head in set_next l₃ (l₃.prev head2) head2

-- An extent is taken out: `cur->prev->next = cur->next` and `cur->next->prev = cur->prev`.
unfoldable pub unlink : Links → ℕ → Links
unfolding set_next set_prev
unlink l cur =
    let l₁ = set_next l (l.prev cur) (l.next cur) in set_prev l₁ (l₁.next cur) (l₁.prev cur)

-- `reset`, and the constructor: a head alone.
unfoldable pub reset : Links → ℕ → Links
unfolding set_next set_prev
reset l head = set_next (set_prev l head head) head head

-- `list_empty`
unfoldable pub is_alone : Links → ℕ → Bool
is_alone l head = l.prev head == head
