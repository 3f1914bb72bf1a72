-- ===== src/Buffer/Ring/Refine.antt =====
-- The calls on rings do to the extents what the calls on plain chains do.
use what_the_event.Common.{
  has, AllDifferent, AllDifferent-parts, has-apart, ℕ, ◌≡◌, refl, sym, ap, ap₂, subst, ◌∙◌, List,
  [], ◌∷◌, ◌++◌, map, map-append, append-nil, true, false, ◌==◌, ==_refl, arith, if◌then◌else◌,
  add64,
}
use what_the_event.Buffer.Extent.{InternalExtent}
use what_the_event.Buffer.Impl.{BufferImpl, empty_buffer, list_empty, append_buffer, prepend_buffer}
use what_the_event.Buffer.Ring.Links.{Links, list_append, list_prepend, reset, is_alone}
use what_the_event.Buffer.Ring.Span.{IsRing, has-last}
use what_the_event.Buffer.Ring.Chain.{
  Store, Handle, append_ring, prepend_ring, add_extent, drop_extent, Holds, Left,
}
use what_the_event.Buffer.Ring.Appended.{list_append-IsRing}
use what_the_event.Buffer.Ring.Prepended.{list_prepend-IsRing}
use what_the_event.Buffer.Ring.Removed.{unlink-IsRing, reset-alone, reset-IsRing}

is_alone-nil : (l : Links) (a : ℕ) → IsRing l a [] → is_alone l a ≡ true
unfolding is_alone
is_alone-nil l a ring = ground (arith, ring.span, ==_refl a)

is_alone-cons : (l : Links) (a f : ℕ) (ys : List ℕ) → IsRing l a (f ∷ ys) → is_alone l a ≡ false
unfolding is_alone
is_alone-cons l a f ys ring = ground (
  arith,
  has-apart a (f ∷ ys) (l.prev a) ring.different.0 (has-last l f ys (l.prev a) ring.span.2),
)

append_buffer-none : (b c : BufferImpl) → [] ≡ c.extents → append_buffer b c ≡ (b, c)
unfolding append_buffer list_empty
append_buffer-none b c e = ground (arith, e)

prepend_buffer-none : (b c : BufferImpl) → [] ≡ c.extents → prepend_buffer b c ≡ (b, c)
unfolding prepend_buffer list_empty
prepend_buffer-none b c e = ground (arith, e)

append_buffer-some :
    (b c : BufferImpl) (e : InternalExtent) (es : List InternalExtent)
    → e ∷ es ≡ c.extents
    → append_buffer b c
      ≡ (record { extents = b.extents ++ c.extents; size = add64 b.size c.size }, empty_buffer)
unfolding append_buffer list_empty
append_buffer-some b c e es k = ground (arith, k)

prepend_buffer-some :
    (b c : BufferImpl) (e : InternalExtent) (es : List InternalExtent)
    → e ∷ es ≡ c.extents
    → prepend_buffer b c
      ≡ (record { extents = c.extents ++ b.extents; size = add64 b.size c.size }, empty_buffer)
unfolding prepend_buffer list_empty
prepend_buffer-some b c e es k = ground (arith, k)

module _ (s : Store) (h o : Handle) (xs ys : List ℕ) (b c : BufferImpl) (this : Holds s h xs b)
    (other : Holds s o ys c) where
  -- The heads after the nodes were spliced to `zs`, and `o` was reset.
  spliced-Left :
      (l : Links) (zs : List ℕ) (es : List InternalExtent)
      → IsRing l h.head zs
      → has o.head (h.head ∷ zs) ≡ false
      → map s.extent zs ≡ es
      → Left
          (
            record s { links = reset l o.head },
            record h { size = add64 h.size o.size },
            record o { size = 0 },
          )
          zs
          (record { extents = es; size = add64 b.size c.size }, empty_buffer)
  spliced-Left l zs es ring out held = (
    record {
      ring = reset-IsRing l o.head h.head zs ring out;
      extents = held;
      size = ap₂ add64 this.size other.size;
    },
    record { ring = reset-alone l o.head; extents = refl; size = refl },
  )

  held_both : map s.extent (xs ++ ys) ≡ b.extents ++ c.extents
  held_both = map-append s.extent xs ys ∙ ap₂ ◌++◌ this.extents other.extents

  held_before : map s.extent (ys ++ xs) ≡ c.extents ++ b.extents
  held_before = map-append s.extent ys xs ∙ ap₂ ◌++◌ other.extents this.extents

-- `append(Buffer *)` of another buffer, all nodes being different: this buffer is then a ring of its
-- nodes and the other's, that stands for what the call makes of the plain chains, and the other one is
-- an empty ring.
pub append_ring-refines :
    (s : Store) (h o : Handle) (xs ys : List ℕ) (b c : BufferImpl)
    → Holds s h xs b
    → Holds s o ys c
    → AllDifferent (o.head ∷ (h.head ∷ xs) ++ ys)
    → Left (append_ring s h o) (xs ++ ys) (append_buffer b c)
unfolding append_ring
append_ring-refines s h o xs [] b c this other d =
    rw (append_buffer-none b c other.extents, append_ring, is_alone-nil s.links o.head other.ring)
      (subst (λ zs. Left (s, h, o) zs (b, c)) (sym (append-nil xs)) (this, other))
append_ring-refines s h o xs (f ∷ ys) b c this other d =
    rw
      (
        append_buffer-some b c _ _ other.extents,
        append_ring,
        is_alone-cons s.links o.head f ys other.ring,
      )
      (spliced-Left s h o xs (f ∷ ys) b c this other _ (xs ++ f ∷ ys) (b.extents ++ c.extents) ring
        d.0 (held_both s h o xs (f ∷ ys) b c this other))
  where
    ring :
        IsRing
          (list_append s.links h.head (s.links.next o.head) (s.links.prev o.head))
          h.head
          (xs ++ f ∷ ys)
    ring =
        subst
          (λ q. IsRing (list_append s.links h.head q (s.links.prev o.head)) h.head (xs ++ f ∷ ys))
          (sym other.ring.span.0)
          (list_append-IsRing s.links h.head xs f ys (s.links.prev o.head) this.ring
            other.ring.span.2 d.1)

-- `prepend(Buffer *)` likewise, with the other's nodes first.
pub prepend_ring-refines :
    (s : Store) (h o : Handle) (xs ys : List ℕ) (b c : BufferImpl)
    → Holds s h xs b
    → Holds s o ys c
    → AllDifferent (o.head ∷ h.head ∷ ys ++ xs)
    → Left (prepend_ring s h o) (ys ++ xs) (prepend_buffer b c)
unfolding prepend_ring
prepend_ring-refines s h o xs [] b c this other d =
    rw (prepend_buffer-none b c other.extents, prepend_ring, is_alone-nil s.links o.head other.ring)
      (this, other)
prepend_ring-refines s h o xs (f ∷ ys) b c this other d =
    rw
      (
        prepend_buffer-some b c _ _ other.extents,
        prepend_ring,
        is_alone-cons s.links o.head f ys other.ring,
      )
      (spliced-Left s h o xs (f ∷ ys) b c this other _ ((f ∷ ys) ++ xs) (c.extents ++ b.extents)
        ring d.0 (held_before s h o xs (f ∷ ys) b c this other))
  where
    ring :
        IsRing
          (list_prepend s.links h.head (s.links.next o.head) (s.links.prev o.head))
          h.head
          ((f ∷ ys) ++ xs)
    ring =
        subst
          (λ q.
            IsRing (list_prepend s.links h.head q (s.links.prev o.head)) h.head ((f ∷ ys) ++ xs))
          (sym other.ring.span.0)
          (list_prepend-IsRing s.links h.head f ys (s.links.prev o.head) other.ring.span.2 xs
            this.ring d.1)

-- A new extent goes to the end of the chain.
pub add_extent-Holds :
    (s : Store) (h : Handle) (xs : List ℕ) (b : BufferImpl) (p : ℕ) (e : InternalExtent)
    → Holds s h xs b
    → AllDifferent ((h.head ∷ xs) ++ p ∷ [])
    → Holds (add_extent s h p e) h (xs ++ p ∷ []) (record b { extents = b.extents ++ e ∷ [] })
unfolding add_extent
add_extent-Holds s h xs b p e this d = record {
  ring = list_append-IsRing s.links h.head xs p [] p this.ring refl d;
  extents =
      map-append placed xs (p ∷ [])
      ∙ ap₂ ◌++◌
          (kept xs (λ q k.
              ground (arith, (AllDifferent-parts (h.head ∷ xs) (p ∷ []) d).2 q (ground (arith, k))))
            ∙ this.extents)
          (ap (λ x. x ∷ []) (rw (==_refl p) refl));
  size = this.size;
}
  where
    placed : ℕ → InternalExtent
    placed q = if q == p then e else s.extent q

    kept :
        (zs : List ℕ)
        → ((q : ℕ) → has q zs ≡ true → (q == p) ≡ false)
        → map placed zs ≡ map s.extent zs
    kept [] n = refl
    kept (z ∷ zs) n =
        ap₂ ◌∷◌ (rw (n z (ground (arith, ==_refl z))) refl)
          (kept zs (λ q h. n q (ground (arith, h))))

-- The first extent leaves the chain.
pub drop_extent-Holds :
    (s : Store) (h : Handle) (x : ℕ) (xs : List ℕ) (b : BufferImpl)
    → Holds s h (x ∷ xs) b
    → Holds (drop_extent s x) h xs (record b { extents = map s.extent xs })
      × (b.extents ≡ s.extent x ∷ map s.extent xs)
unfolding drop_extent
drop_extent-Holds s h x xs b this = (
  record { ring = unlink-IsRing s.links h.head x xs this.ring; extents = refl; size = this.size },
  sym this.extents,
)
