-- ===== src/Buffer/Peek.antt =====
-- `peek` copies from the front and leaves the buffer alone, and `peek` with extents lends regions.
use what_the_event.Common.{
  ℕ, ◌+◌, ◌-◌, ◌≤◌, ◌<◌, ◌^◌, ◌≡◌, refl, sym, ap, ap₂, ◌∙◌, List, [], ◌∷◌, ◌++◌, ltb, min, length,
  take, add64-eq, sub64-eq, length-append, take_all, length-take, take-append_le, take-append_ge,
  arith, if◌then◌else◌, lt→ltb, le→ltb, append-nil,
}
use what_the_event.Buffer.Extent.{Cell, InternalExtent}
use what_the_event.Buffer.Impl.{BufferImpl, peek_extents, peek_extents_loop}
use what_the_event.Buffer.Contents.{All, content, contents, IsSized, IsValid, readable-length}
use native.Mathlib.Decide.{dec_le}

-- The bytes of the lent regions, in order.
abbrev pub lent : List (ℕ × List Cell) → List Cell
lent [] = []
lent ((n, c) ∷ gs) = c ++ lent gs

-- A region is not empty, and lies within what can be read.
abbrev pub IsRegion : ℕ × List Cell → Type 0
IsRegion (n, c) = (0 < n) × (length c ≡ n)

-- Each region is sound.
abbrev pub AllRegions : List (ℕ × List Cell) → Type 0
AllRegions [] = Unit
AllRegions (g ∷ gs) = IsRegion g × AllRegions gs

-- One round of the loop: a region is lent if there is something to read in the extent.
abbrev lend : ℕ → List Cell → List (ℕ × List Cell) → List (ℕ × List Cell)
lend n c gs = if ltb 0 (length c) then (min (length c) n, take (min (length c) n) c) ∷ gs else gs

peek_extents_loop-lend :
    (size total : ℕ) (e : InternalExtent) (es : List InternalExtent)
    → IsSized e
    → total < size
    → size < 2 ^ 64
    → total + length (content e) < 2 ^ 64
    → peek_extents_loop size total (e ∷ es)
      ≡ lend (size - total) (content e) (peek_extents_loop size (total + length (content e)) es)
unfolding peek_extents_loop
peek_extents_loop-lend size total e es s more small h = rw (
  lt→ltb total size more,
  readable-length e s,
  sub64-eq size total (omega arith) small,
  add64-eq total (length (content e)) h,
)

peek_extents_loop-done :
    (size total : ℕ) (es : List InternalExtent)
    → size ≤ total
    → peek_extents_loop size total es ≡ []
unfolding peek_extents_loop
peek_extents_loop-done size total [] h = refl
peek_extents_loop-done size total (e ∷ es) h = rw (le→ltb total size h)

lent-lend :
    (n : ℕ) (c : List Cell) (gs : List (ℕ × List Cell))
    → 0 < n
    → AllRegions gs
    → (lent (lend n c gs) ≡ take n c ++ lent gs) × AllRegions (lend n c gs)
lent-lend n [] gs h r = (ap (λ c. c ++ lent gs) (sym (take_all n [] (omega arith))), r)
lent-lend n (x ∷ c) gs h r = rw (lt→ltb 0 (length (x ∷ c)) (omega arith)) (
  ap (λ d. d ++ lent gs) shorter,
  ((omega arith, omega (arith, length-take (min (length (x ∷ c)) n) (x ∷ c))), r),
)
  where
    shorter : take (min (length (x ∷ c)) n) (x ∷ c) ≡ take n (x ∷ c)
    shorter = elim (dec_le n (length (x ∷ c))) [
      | yes le ↦ ap (λ k. take k (x ∷ c)) (omega arith)
      | no gt ↦
          take_all (min (length (x ∷ c)) n) (x ∷ c) (omega arith)
          ∙ sym (take_all n (x ∷ c) (omega arith))
    ]

-- The rounds after this one lend what follows in the chain.
take-lend :
    (n : ℕ) (c d rest : List Cell)
    → rest ≡ take (n - length c) d
    → take n c ++ rest ≡ take n (c ++ d)
take-lend n c d rest h = elim (dec_le (length c) n) [
  | yes le ↦ ap₂ ◌++◌ (take_all n c le) h ∙ sym (take-append_ge c d n (n - length c) (omega arith))
  | no gt ↦
      let zero_left : n - length c ≡ 0 = omega arith in
      ap (◌++◌ (take n c)) (h ∙ ap (λ k. take k d) zero_left)
      ∙ append-nil (take n c)
      ∙ sym (take-append_le n c d (omega arith))
]

peek_extents_loop-lent :
    (size total : ℕ) (es : List InternalExtent)
    → size < 2 ^ 64
    → All IsSized es
    → total + length (contents es) < 2 ^ 64
    → (lent (peek_extents_loop size total es) ≡ take (size - total) (contents es))
      × AllRegions (peek_extents_loop size total es)
unfolding peek_extents_loop
peek_extents_loop-lent size total [] small s h =
    (sym (take_all (size - total) [] (omega arith)), tt)
peek_extents_loop-lent size total (e ∷ es) small s h = elim (dec_le size total) [
  | yes done ↦
      let zero_left : 0 ≡ size - total = omega arith in
      rw (peek_extents_loop-done size total (e ∷ es) done)
        (ap (λ k. take k (contents (e ∷ es))) zero_left, tt)
  | no more ↦
      let later =
        peek_extents_loop-lent size (total + length (content e)) es small s.1
          (omega (arith, length-append (content e) (contents es))) in
      let now =
        lent-lend (size - total) (content e)
          (peek_extents_loop size (total + length (content e)) es) (omega arith) later.1 in
      let less : size - (total + length (content e)) ≡ size - total - length (content e) =
        omega arith in
      rw
        (peek_extents_loop-lend size total e es s.0 (omega arith) small
          (omega (arith, length-append (content e) (contents es))))
        (
          now.0
              ∙ take-lend (size - total) (content e) (contents es) _
                  (later.0 ∙ ap (λ k. take k (contents es)) less),
          now.1,
        )
]

-- `peek(size, extents)` on a sound buffer lends regions, none of them empty, that hold the first
-- `size` bytes in order, or all if there are fewer.
pub peek_extents-contents :
    (b : BufferImpl) (size : ℕ)
    → IsValid b
    → size < 2 ^ 64
    → (lent (peek_extents b size) ≡ take size (contents b.extents))
      × AllRegions (peek_extents b size)
unfolding peek_extents
peek_extents-contents b size v small =
    let r =
      peek_extents_loop-lent size 0 b.extents small v.sized (omega (arith, v.counted, v.fits)) in
    let all_left : size - 0 ≡ size = omega arith in
    (r.0 ∙ ap (λ k. take k (contents b.extents)) all_left, r.1)
