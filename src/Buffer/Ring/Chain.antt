-- ===== src/Buffer/Ring/Chain.antt =====
-- Buffers as rings of extents on a store, and the buffers with plain chains that they stand for.
use what_the_event.Common.{ℕ, ◌≡◌, List, [], map, ◌==◌, if◌then◌else◌, add64}
use what_the_event.Buffer.Extent.{InternalExtent}
use what_the_event.Buffer.Impl.{BufferImpl}
use what_the_event.Buffer.Ring.Links.{Links, list_append, list_prepend, unlink, reset, is_alone}
use what_the_event.Buffer.Ring.Span.{IsRing}

-- The links and the extents by address.
pub record Store : Type 0 where
  pub links : Links
  pub extent : ℕ → InternalExtent

-- A `BufferImpl` by the address of its `head_`, and its `size_`.
pub record Handle : Type 0 where
  pub head : ℕ
  pub size : ℕ

-- `append(Buffer *)` on the store: the store, this buffer and the other one afterwards.
unfoldable pub append_ring : Store → Handle → Handle → Store × Handle × Handle
append_ring s h o =
    let tail : ℕ = s.links.prev o.head in
    let spliced : Links = list_append s.links h.head (s.links.next o.head) tail in
    if is_alone s.links o.head then (s, h, o) else (
      record s { links = reset spliced o.head },
      record h { size = add64 h.size o.size },
      record o { size = 0 },
    )

-- `prepend(Buffer *)` on the store
unfoldable pub prepend_ring : Store → Handle → Handle → Store × Handle × Handle
prepend_ring s h o =
    let tail : ℕ = s.links.prev o.head in
    let spliced : Links = list_prepend s.links h.head (s.links.next o.head) tail in
    if is_alone s.links o.head then (s, h, o) else (
      record s { links = reset spliced o.head },
      record h { size = add64 h.size o.size },
      record o { size = 0 },
    )

-- `listAppend(&head_, cur)` of a new extent at the free address `p`
unfoldable pub add_extent : Store → Handle → ℕ → InternalExtent → Store
add_extent s h p e = record {
  links = list_append s.links h.head p p;
  extent = λ q. if q == p then e else s.extent q;
}

-- The removal of the extent at `p` in `drain` and `read`
unfoldable pub drop_extent : Store → ℕ → Store
drop_extent s p = record s { links = unlink s.links p }

-- The nodes `xs` form the ring of the buffer, and hold its extents in order.
pub record Holds (s : Store) (h : Handle) (xs : List ℕ) (b : BufferImpl) : Type 0 where
  pub ring : IsRing s.links h.head xs
  pub extents : map s.extent xs ≡ b.extents
  pub size : h.size ≡ b.size

-- What a call leaves: this buffer with these nodes, and the other one with none.
abbrev pub Left : Store × Handle × Handle → List ℕ → BufferImpl × BufferImpl → Type 0
Left (s, h, o) xs (b, c) = Holds s h xs b × Holds s o [] c
