-- ===== src/Buffer/Ring/Appended.antt =====
-- `listAppend` puts a chain of nodes at the end of a ring.
use what_the_event.Common.{
  has, AllDifferent, has-apart, AllDifferent-parts, ℕ, ◌≡◌, refl, sym, ap, subst, ◌∙◌, List, ◌∷◌,
  ◌++◌, true, false, ◌==◌, ==_refl, arith, if◌then◌else◌,
}
use what_the_event.Buffer.Ring.Links.{Links, set_next, set_prev, list_append}
use what_the_event.Buffer.Ring.Span.{Span, IsRing, has-last, Span-frame, Span-join}

pub list_append-next :
    (l : Links) (head f t q : ℕ)
    → (list_append l head f t).next q
      ≡ (if q == t then head else (if q == l.prev head then f else l.next q))
unfolding list_append set_next set_prev
list_append-next l head f t q = rw (==_refl f) refl

pub list_append-prev :
    (l : Links) (head f t q : ℕ)
    → (list_append l head f t).prev q
      ≡ (if q == head then t else (if q == f then l.prev head else l.prev q))
unfolding list_append set_next set_prev
list_append-prev l head f t q = rw (==_refl t) refl

-- A chain of other nodes, from `f` to `t`, goes into the ring.
module _ (l : Links) (head : ℕ) (xs : List ℕ) (f : ℕ) (ys : List ℕ) (t : ℕ)
    (ring : IsRing l head xs) (chain : Span l f ys t)
    (d : AllDifferent ((head ∷ xs) ++ f ∷ ys)) where
  parts :
      AllDifferent (head ∷ xs)
      × AllDifferent (f ∷ ys)
      × ((q : ℕ) → has q (head ∷ xs) ≡ true → has q (f ∷ ys) ≡ false)
  parts = AllDifferent-parts (head ∷ xs) (f ∷ ys) d

  apart :
      (q r : ℕ)
      → has q (head ∷ xs) ≡ true
      → has r (f ∷ ys) ≡ true
      → ((q == r) ≡ false) × ((r == q) ≡ false)
  apart q r h k = let e = has-apart q (f ∷ ys) r (parts.2 q h) k in (e, ground (arith, e))

  old_last : has (l.prev head) (head ∷ xs) ≡ true
  old_last = has-last l head xs (l.prev head) ring.span

  new_last : has t (f ∷ ys) ≡ true
  new_last = has-last l f ys t chain

  new_first : has f (f ∷ ys) ≡ true
  new_first = ground (arith, ==_refl f)

  head_first : has head (head ∷ xs) ≡ true
  head_first = ground (arith, ==_refl head)

  -- `listAppend` puts the chain before the head, which is behind the last node.
  pub list_append-IsRing : IsRing (list_append l head f t) head (xs ++ f ∷ ys)
  list_append-IsRing = record {
    span =
        subst (Span after head (xs ++ f ∷ ys)) (sym before_head)
          (Span-join after head xs (l.prev head) f ys t old forth back new);
    closed = ap after.next before_head ∙ list_append-next l head f t t ∙ rw (==_refl t) refl;
    different = d;
  }
    where
      after : Links
      after = list_append l head f t

      before_head : after.prev head ≡ t
      before_head = list_append-prev l head f t head ∙ rw (==_refl head) refl

      old : Span after head xs (l.prev head)
      old =
          Span-frame l after head xs (l.prev head) ring.span ring.different
            (λ q h n. list_append-next l head f t q ∙ rw ((apart q t h new_last).0, n) refl)
            (λ q h.
              list_append-prev l head f t q
              ∙ ground (
                arith,
                has-apart head xs q ring.different.0 h,
                (apart q f (ground (arith, h)) new_first).0,
              ))

      new : Span after f ys t
      new =
          Span-frame l after f ys t chain parts.1
            (λ q h n.
              list_append-next l head f t q ∙ rw (n, (apart (l.prev head) q old_last h).1) refl)
            (λ q h.
              list_append-prev l head f t q
              ∙ ground (
                arith,
                has-apart f ys q parts.1.0 h,
                (apart head q head_first (ground (arith, h))).1,
              ))

      forth : after.next (l.prev head) ≡ f
      forth =
          list_append-next l head f t (l.prev head)
          ∙ rw ((apart (l.prev head) t old_last new_last).0, ==_refl (l.prev head)) refl

      back : after.prev f ≡ l.prev head
      back =
          list_append-prev l head f t f ∙ rw ((apart head f head_first new_first).1, ==_refl f) refl
