-- ===== src/Buffer/ReadLoop.antt =====
-- What the loop of `read` has done when it ends, where its copies fit.
use what_the_event.Common.{
  ℕ, ◌+◌, ◌-◌, ◌≤◌, ◌<◌, ◌^◌, ◌≡◌, refl, sym, ap, ◌∙◌, List, [], ◌∷◌, ◌++◌, ok, ◌⊎◌, inl, inr, min,
  length, take, drop, length-append, length-drop, drop_all, take_all, drop-append_le,
  drop-append_ge, take-append_le, take-append_ge, arith, append_assoc, append-nil,
}
use what_the_event.Buffer.Extent.{Cell, InternalExtent, consume}
use what_the_event.Buffer.Impl.{Reading, read_loop}
use what_the_event.Buffer.Contents.{
  All, content, contents, IsSized, IsFull, Consumed, consume-Consumed,
}
use native.Mathlib.Decide.{dec_le}
use what_the_event.Buffer.Served.{IsServed, read_loop_done, read_loop_used, read_loop_cut}

-- What the loop has done when it ends.
pub record ReadDone (size : ℕ) (out : List Cell) (total left : ℕ) (es : List InternalExtent)
    : Type 0 where
  pub last : Reading
  pub runs : read_loop size size out total left es ≡ ok last
  pub copied : last.out ≡ out ++ take (size - total) (contents es)
  pub counted : last.total ≡ total + min (size - total) (length (contents es))
  pub remaining : last.left ≡ length (contents last.rest)
  pub rest : contents last.rest ≡ drop (size - total) (contents es)
  pub sized : All IsSized last.rest
  pub full : All IsFull es → All IsFull last.rest

-- The loop ends where it stands.
read_ended :
    (size : ℕ) (out : List Cell) (total left : ℕ) (es : List InternalExtent)
    → All IsSized es
    → left ≡ length (contents es)
    → (size ≤ total) ⊎ (es ≡ [])
    → read_loop size size out total left es
      ≡ ok (record { out = out; total = total; left = left; rest = es })
    → ReadDone size out total left es
read_ended size out total left es s l h runs = record {
  last = record { out = out; total = total; left = left; rest = es };
  runs = runs;
  copied = sym (append-nil out) ∙ ap (◌++◌ out) (sym (nothing h).0);
  counted = (nothing h).2;
  remaining = l;
  rest = sym (nothing h).1;
  sized = s;
  full = λ f. f;
}
  where
    nothing :
        (size ≤ total) ⊎ (es ≡ [])
        → (take (size - total) (contents es) ≡ [])
          × (drop (size - total) (contents es) ≡ contents es)
          × (total ≡ total + min (size - total) (length (contents es)))
    nothing (inl g) =
        let zero_left : size - total ≡ 0 = omega arith in
        (
          ap (λ k. take k (contents es)) zero_left,
          ap (λ k. drop k (contents es)) zero_left,
          omega arith,
        )
    nothing (inr g) =
        let none_left : contents es ≡ [] = ap contents g in
        (
          ap (take (size - total)) none_left ∙ take_all (size - total) [] (omega arith),
          ap (drop (size - total)) none_left
              ∙ drop_all (size - total) [] (omega arith)
              ∙ sym none_left,
          omega (arith, ap length none_left),
        )

module _ (size : ℕ) (out : List Cell) (total left : ℕ) (e : InternalExtent)
    (es : List InternalExtent) (s : All IsSized (e ∷ es)) (l : left ≡ length (contents (e ∷ es)))
    (small : size < 2 ^ 64) (most : left < 2 ^ 64) (more : total < size) where
  parts : left ≡ length (content e) + length (contents es)
  parts = l ∙ length-append (content e) (contents es)

  read_used :
      total + length (content e) ≤ size
      → ReadDone size (out ++ content e) (total + length (content e)) (left - length (content e)) es
      → ReadDone size out total left (e ∷ es)
  read_used h d = record {
    last = d.last;
    runs =
        read_loop_used size out total left e es s.0 more small most h (omega (arith, parts))
        ∙ d.runs;
    copied =
        d.copied
        ∙ append_assoc out (content e) _
        ∙ ap (◌++◌ out) (sym (take-append_ge (content e) (contents es) (size - total) _ split));
    counted = omega (arith, d.counted, parts, l);
    remaining = d.remaining;
    rest = d.rest ∙ sym (drop-append_ge (content e) (contents es) (size - total) _ split);
    sized = d.sized;
    full = λ f. d.full f.1;
  }
    where
      split : size - total ≡ length (content e) + (size - (total + length (content e)))
      split = omega arith

  read_cut : total ≡ 0 → size < length (content e) → ReadDone size out total left (e ∷ es)
  read_cut zero_total h = record {
    last = record {
      out = out ++ take size (content e);
      total = size;
      left = left - size;
      rest = (consume e size).1 ∷ es;
    };
    runs =
        read_loop_cut size out total left e es s.0 more small most zero_total h
          (omega (arith, parts));
    copied = ap (◌++◌ out) (
        sym (take-append_le size (content e) (contents es) (omega arith))
        ∙ ap (λ k. take k (contents (e ∷ es))) all_left);
    counted = omega (arith, parts, l);
    remaining = omega (
      arith,
      parts,
      ap length held,
      length-append (drop size (content e)) (contents es),
      length-drop size (content e),
    );
    rest =
        held
        ∙ sym (drop-append_le size (content e) (contents es) (omega arith))
        ∙ ap (λ k. drop k (contents (e ∷ es))) all_left;
    sized = (c.sized, s.1);
    full = λ f. (c.full f.0, f.1);
  }
    where
      c : Consumed e size
      c = consume-Consumed e size s.0 (omega arith)

      all_left : size ≡ size - total
      all_left = omega arith

      held : contents ((consume e size).1 ∷ es) ≡ drop size (content e) ++ contents es
      held = ap (λ c. c ++ contents es) c.dropped

read_loop_nil :
    (size : ℕ) (out : List Cell) (total left : ℕ)
    → read_loop size size out total left []
      ≡ ok (record { out = out; total = total; left = left; rest = [] })
unfolding read_loop
read_loop_nil size out total left = refl

pub read_loop-ReadDone :
    (size : ℕ) (out : List Cell) (total left : ℕ) (es : List InternalExtent)
    → size < 2 ^ 64
    → All IsSized es
    → left ≡ length (contents es)
    → left < 2 ^ 64
    → IsServed size total es
    → ReadDone size out total left es
read_loop-ReadDone size out total left [] small s l k served =
    read_ended size out total left [] s l (inr refl) (read_loop_nil size out total left)
read_loop-ReadDone size out total left (e ∷ es) small s l k served = elim (dec_le size total) [
  | yes ended ↦
      read_ended size out total left (e ∷ es) s l (inl ended)
        (read_loop_done size out total left e es ended)
  | no more ↦
      let within = served (omega arith) in
      elim (dec_le (length (content e)) size) [
        | yes used ↦ read_used size out total left e es s l small k (omega arith) (omega arith) (
            read_loop-ReadDone size (out ++ content e) (total + length (content e))
              (left - length (content e)) es small s.1
              (omega (arith, l, length-append (content e) (contents es))) (omega arith) within.1)
        | no cut ↦
            read_cut size out total left e es s l small k (omega arith) (omega arith) (omega arith)
      ]
]
