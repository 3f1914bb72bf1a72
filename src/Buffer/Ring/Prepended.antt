-- ===== src/Buffer/Ring/Prepended.antt =====
-- `listPrepend` puts a chain of nodes at the start of a ring.
use what_the_event.Common.{
  has, AllDifferent, has-append, has-apart, AllDifferent-parts, ℕ, ◌≡◌, refl, sym, ap, ap₂, fun_ext,
  subst, ◌∙◌, List, [], ◌∷◌, ◌++◌, true, false, ◌==◌, ==_refl, ==→eq, arith, if◌then◌else◌,
  append-nil,
}
use what_the_event.Buffer.Ring.Links.{Links, set_next, set_prev, list_append, list_prepend}
use what_the_event.Buffer.Ring.Appended.{list_append-next, list_append-prev, list_append-IsRing}
use what_the_event.Buffer.Ring.Span.{Span, IsRing, has-last, Span-frame, Span-join}

list_prepend-next :
    (l : Links) (head f t q : ℕ)
    → (list_prepend l head f t).next q
      ≡ (if q == head then f else (if q == t then l.next head else l.next q))
unfolding list_prepend set_next set_prev
list_prepend-next l head f t q = rw (==_refl f) refl

list_prepend-prev :
    (l : Links) (head f t q : ℕ)
    → (list_prepend l head f t).prev q
      ≡ (if q == f then head else (if q == l.next head then t else l.prev q))
unfolding list_prepend set_next set_prev
list_prepend-prev l head f t q = rw (==_refl t) refl

-- The same for the other end.
module _ (l : Links) (head : ℕ) (f : ℕ) (ys : List ℕ) (t : ℕ) (chain : Span l f ys t) where
  alone_prepend :
      IsRing l head []
      → AllDifferent (head ∷ (f ∷ ys) ++ [])
      → IsRing (list_prepend l head f t) head ((f ∷ ys) ++ [])
  alone_prepend ring d =
      subst (λ k. IsRing k head ((f ∷ ys) ++ [])) (sym same)
        (subst (IsRing (list_append l head f t) head) (sym (append-nil (f ∷ ys))) (
          list_append-IsRing l head [] f ys t ring chain
            (subst (λ zs. AllDifferent (head ∷ zs)) (append-nil (f ∷ ys)) d)))
    where
      apart : (head == t) ≡ false
      apart =
          has-apart head ((f ∷ ys) ++ []) t d.0
            (ground (arith, has-append t (f ∷ ys) [], has-last l f ys t chain))

      first_apart : (head == f) ≡ false
      first_apart = has-apart head ((f ∷ ys) ++ []) f d.0 (ground (arith, ==_refl f))

      around : l.next head ≡ head
      around = ap l.next ring.span ∙ ring.closed

      next_same : (q : ℕ) → (list_prepend l head f t).next q ≡ (list_append l head f t).next q
      next_same q =
          list_prepend-next l head f t q
          ∙ ground (arith, around, ring.span, apart, ==→eq q head, ==→eq q t)
          ∙ sym (list_append-next l head f t q)

      prev_same : (q : ℕ) → (list_prepend l head f t).prev q ≡ (list_append l head f t).prev q
      prev_same q =
          list_prepend-prev l head f t q
          ∙ ground (arith, around, ring.span, first_apart, ==→eq q f, ==→eq q head)
          ∙ sym (list_append-prev l head f t q)

      same : list_prepend l head f t ≡ list_append l head f t
      same = ap₂ (λ n p. record { next = n; prev = p }) (fun_ext next_same) (fun_ext prev_same)

  before_first :
      (x : ℕ) (xs : List ℕ)
      → IsRing l head (x ∷ xs)
      → AllDifferent (head ∷ (f ∷ ys) ++ x ∷ xs)
      → IsRing (list_prepend l head f t) head ((f ∷ ys) ++ x ∷ xs)
  before_first x xs ring d = record {
    span =
        subst (Span after head ((f ∷ ys) ++ x ∷ xs)) (sym last_kept)
          (to_first, from_first, Span-join after f ys t x xs (l.prev head) new forth back old);
    closed =
        ap after.next last_kept
        ∙ list_prepend-next l head f t (l.prev head)
        ∙ rw
            (
              (has_apart_sym (l.prev head) (x ∷ xs) head last_in old_out).0,
              (apart t (l.prev head) new_last last_in).1,
            )
            ring.closed;
    different = d;
  }
    where
      after : Links
      after = list_prepend l head f t

      parts :
          AllDifferent (f ∷ ys)
          × AllDifferent (x ∷ xs)
          × ((q : ℕ) → has q (f ∷ ys) ≡ true → has q (x ∷ xs) ≡ false)
      parts = AllDifferent-parts (f ∷ ys) (x ∷ xs) d.1

      new_out : has head (f ∷ ys) ≡ false
      new_out = ground (arith, d.0, has-append head (f ∷ ys) (x ∷ xs))

      old_out : has head (x ∷ xs) ≡ false
      old_out = ring.different.0

      has_apart_sym :
          (q : ℕ) (zs : List ℕ) (r : ℕ)
          → has q zs ≡ true
          → has r zs ≡ false
          → ((q == r) ≡ false) × ((r == q) ≡ false)
      has_apart_sym q zs r h k = let e = has-apart r zs q k h in (ground (arith, e), e)

      apart :
          (q r : ℕ)
          → has q (f ∷ ys) ≡ true
          → has r (x ∷ xs) ≡ true
          → ((q == r) ≡ false) × ((r == q) ≡ false)
      apart q r h k = let e = has-apart q (x ∷ xs) r (parts.2 q h) k in (e, ground (arith, e))

      last_in : has (l.prev head) (x ∷ xs) ≡ true
      last_in = has-last l x xs (l.prev head) ring.span.2

      new_last : has t (f ∷ ys) ≡ true
      new_last = has-last l f ys t chain

      new_first : has f (f ∷ ys) ≡ true
      new_first = ground (arith, ==_refl f)

      old_first : has x (x ∷ xs) ≡ true
      old_first = ground (arith, ==_refl x)

      next_is : (q : ℕ) → after.next q ≡ (if q == head then f else (if q == t then x else l.next q))
      next_is q =
          list_prepend-next l head f t q
          ∙ ap (λ n. if q == head then f else (if q == t then n else l.next q)) ring.span.0

      prev_is : (q : ℕ) → after.prev q ≡ (if q == f then head else (if q == x then t else l.prev q))
      prev_is q =
          list_prepend-prev l head f t q
          ∙ ap (λ n. if q == f then head else (if q == n then t else l.prev q)) ring.span.0

      last_kept : after.prev head ≡ l.prev head
      last_kept =
          prev_is head
          ∙ rw
              (
                (has_apart_sym f (f ∷ ys) head new_first new_out).1,
                (has_apart_sym x (x ∷ xs) head old_first old_out).1,
              )
              refl

      to_first : after.next head ≡ f
      to_first = next_is head ∙ rw (==_refl head) refl

      from_first : after.prev f ≡ head
      from_first = prev_is f ∙ rw (==_refl f) refl

      forth : after.next t ≡ x
      forth = next_is t ∙ rw ((has_apart_sym t (f ∷ ys) head new_last new_out).0, ==_refl t) refl

      back : after.prev x ≡ t
      back = prev_is x ∙ rw ((apart f x new_first old_first).1, ==_refl x) refl

      new : Span after f ys t
      new =
          Span-frame l after f ys t chain parts.0
            (λ q h n. next_is q ∙ rw ((has_apart_sym q (f ∷ ys) head h new_out).0, n) refl)
            (λ q h.
              prev_is q
              ∙ ground (
                arith,
                has-apart f ys q parts.0.0 h,
                (apart q x (ground (arith, h)) old_first).0,
              ))

      old : Span after x xs (l.prev head)
      old =
          Span-frame l after x xs (l.prev head) ring.span.2 parts.1
            (λ q h n.
              next_is q
              ∙ rw ((has_apart_sym q (x ∷ xs) head h old_out).0, (apart t q new_last h).1) refl)
            (λ q h.
              prev_is q
              ∙ ground (
                arith,
                has-apart x xs q parts.1.0 h,
                (apart f q new_first (ground (arith, h))).1,
              ))

  -- `listPrepend` puts the chain behind the head, before the first node.
  pub list_prepend-IsRing :
      (xs : List ℕ)
      → IsRing l head xs
      → AllDifferent (head ∷ (f ∷ ys) ++ xs)
      → IsRing (list_prepend l head f t) head ((f ∷ ys) ++ xs)
  list_prepend-IsRing [] ring d = alone_prepend ring d
  list_prepend-IsRing (x ∷ xs) ring d = before_first x xs ring d
