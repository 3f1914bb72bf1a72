-- ===== src/Buffer/Ring/Removed.antt =====
-- The first node of a ring is taken out, and a head is set to stand alone.
use what_the_event.Common.{
  has, has-apart, ℕ, ◌≡◌, refl, sym, ap, subst, ◌∙◌, List, [], ◌∷◌, true, false, ◌==◌, ==_refl,
  arith, if◌then◌else◌,
}
use what_the_event.Buffer.Ring.Links.{Links, set_next, set_prev, unlink, reset}
use what_the_event.Buffer.Ring.Span.{Span, IsRing, has-last, Span-frame}

unlink-next :
    (l : Links) (x q : ℕ) → (unlink l x).next q ≡ (if q == l.prev x then l.next x else l.next q)
unfolding unlink set_next set_prev
unlink-next l x q = refl

unlink-prev :
    (l : Links) (x q : ℕ) → (unlink l x).prev q ≡ (if q == l.next x then l.prev x else l.prev q)
unfolding unlink set_next set_prev
unlink-prev l x q = ground arith

-- The first extent is taken out of the ring of a buffer.
pub unlink-IsRing :
    (l : Links) (head x : ℕ) (xs : List ℕ) → IsRing l head (x ∷ xs) → IsRing (unlink l x) head xs
unlink-IsRing l head x [] ring =
    let around : l.next x ≡ head = ap l.next ring.span.2 ∙ ring.closed in
    let next_is : (unlink l x).next head ≡ head =
      unlink-next l x head ∙ rw (ring.span.1, ==_refl head, around) refl in
    let prev_is : (unlink l x).prev head ≡ head =
      unlink-prev l x head ∙ rw (around, ==_refl head) ring.span.1 in
    record {
      span = sym prev_is;
      closed = ap (unlink l x).next prev_is ∙ next_is;
      different = (refl, tt);
    }
unlink-IsRing l head x (y ∷ ys) ring = record {
  span = subst (Span after head (y ∷ ys)) (sym last_kept) (to_second, from_second, others);
  closed = ap after.next last_kept ∙ next_is (l.prev head) ∙ rw (last_apart) ring.closed;
  different = (out, ring.different.1.1);
}
  where
    after : Links
    after = unlink l x

    out : has head (y ∷ ys) ≡ false
    out = ground (arith, ring.different.0)

    last_in : has (l.prev head) (y ∷ ys) ≡ true
    last_in = has-last l y ys (l.prev head) ring.span.2.2

    apart : (q : ℕ) → has q (y ∷ ys) ≡ true → ((head == q) ≡ false) × ((q == head) ≡ false)
    apart q h = let e = has-apart head (y ∷ ys) q out h in (e, ground (arith, e))

    last_apart : (l.prev head == head) ≡ false
    last_apart = (apart (l.prev head) last_in).1

    next_is : (q : ℕ) → after.next q ≡ (if q == head then y else l.next q)
    next_is q = unlink-next l x q ∙ ground (arith, ring.span.1, ring.span.2.0)

    prev_is : (q : ℕ) → after.prev q ≡ (if q == y then head else l.prev q)
    prev_is q = unlink-prev l x q ∙ ground (arith, ring.span.1, ring.span.2.0)

    last_kept : after.prev head ≡ l.prev head
    last_kept = prev_is head ∙ rw ((apart y (ground (arith, ==_refl y))).0) refl

    to_second : after.next head ≡ y
    to_second = next_is head ∙ rw (==_refl head) refl

    from_second : after.prev y ≡ head
    from_second = prev_is y ∙ rw (==_refl y) refl

    others : Span after y ys (l.prev head)
    others =
        Span-frame l after y ys (l.prev head) ring.span.2.2 ring.different.1.1
          (λ q h n. next_is q ∙ rw ((apart q h).1) refl)
          (λ q h. prev_is q ∙ ground (arith, has-apart y ys q ring.different.1.1.0 h))

reset-next : (l : Links) (a q : ℕ) → (reset l a).next q ≡ (if q == a then a else l.next q)
unfolding reset set_next set_prev
reset-next l a q = refl

reset-prev : (l : Links) (a q : ℕ) → (reset l a).prev q ≡ (if q == a then a else l.prev q)
unfolding reset set_next set_prev
reset-prev l a q = refl

-- After `reset` the head stands alone.
pub reset-alone : (l : Links) (a : ℕ) → IsRing (reset l a) a []
reset-alone l a =
    let p : (reset l a).prev a ≡ a = reset-prev l a a ∙ rw (==_refl a) refl in
    let n : (reset l a).next a ≡ a = reset-next l a a ∙ rw (==_refl a) refl in
    record { span = sym p; closed = ap (reset l a).next p ∙ n; different = (refl, tt) }

-- `reset` leaves the rings of which the head is no node.
pub reset-IsRing :
    (l : Links) (a head : ℕ) (xs : List ℕ)
    → IsRing l head xs
    → has a (head ∷ xs) ≡ false
    → IsRing (reset l a) head xs
reset-IsRing l a head xs ring out = record {
  span = subst (Span (reset l a) head xs) (sym last_kept) (
      Span-frame l (reset l a) head xs (l.prev head) ring.span ring.different
        (λ q h n. reset-next l a q ∙ rw (other q h) refl)
        (λ q h. reset-prev l a q ∙ rw (other q (ground (arith, h))) refl));
  closed =
      ap (reset l a).next last_kept
      ∙ reset-next l a (l.prev head)
      ∙ rw (other (l.prev head) (has-last l head xs (l.prev head) ring.span)) ring.closed;
  different = ring.different;
}
  where
    other : (q : ℕ) → has q (head ∷ xs) ≡ true → (q == a) ≡ false
    other q h = ground (arith, has-apart a (head ∷ xs) q out h)

    last_kept : (reset l a).prev head ≡ l.prev head
    last_kept = reset-prev l a head ∙ rw (other head (ground (arith, ==_refl head))) refl
