-- ===== src/Buffer/Contents.antt =====
-- What a buffer holds, and when its chain of extents is sound.
use what_the_event.Common.{
  ℕ, ◌+◌, ◌-◌, ◌≤◌, ◌<◌, ◌^◌, ◌≡◌, refl, sym, ap, ◌∙◌, List, [], ◌∷◌, ◌++◌, ok, min, length, take,
  drop, add64, sub64, sub64-eq, add64-eq, length-drop, drop-drop, append_assoc, arith, leb, true,
}
use what_the_event.Buffer.Extent.{Cell, InternalExtent, readable, copyout, consume}
use what_the_event.Buffer.Impl.{BufferImpl}

-- Each extent of a chain has the property.
abbrev pub All : (InternalExtent → Type 0) → List InternalExtent → Type 0
All holds [] = Unit
All holds (e ∷ es) = holds e × All holds es

pub All-append :
    (holds : InternalExtent → Type 0) (front back : List InternalExtent)
    → All holds front
    → All holds back
    → All holds (front ++ back)
All-append holds [] back f b = b
All-append holds (e ∷ front) back f b = (f.0, All-append holds front back f.1 b)

-- The bytes that an extent, and a chain of extents, gives to a reader.
abbrev pub content : InternalExtent → List Cell
content e = drop e.read_offset e.bytes

abbrev pub contents : List InternalExtent → List Cell
contents [] = []
contents (e ∷ es) = content e ++ contents es

pub contents-append :
    (xs ys : List InternalExtent) → contents (xs ++ ys) ≡ contents xs ++ contents ys
contents-append [] ys = refl
contents-append (x ∷ xs) ys =
    ap (◌++◌ (content x)) (contents-append xs ys)
    ∙ sym (append_assoc (content x) (contents xs) (contents ys))

-- The object behind an extent has the size that it records, and is read within it.
pub record IsSized (e : InternalExtent) : Type 0 where
  pub object : length e.bytes ≡ e.size
  pub within : e.read_offset ≤ e.size
  pub fits : e.size < 2 ^ 64

-- Every byte of the extent has been written.
abbrev pub IsFull : InternalExtent → Type 0
IsFull e = e.write_offset ≡ e.size

-- Between the calls of `append`, `prepend`, `read` and `drain`.
pub record IsValid (b : BufferImpl) : Type 0 where
  pub sized : All IsSized b.extents
  pub full : All IsFull b.extents
  pub counted : b.size ≡ length (contents b.extents)
  pub fits : b.size < 2 ^ 64

pub length-content : (e : InternalExtent) → IsSized e → length (content e) ≡ e.size - e.read_offset
length-content e s = omega (arith, length-drop e.read_offset e.bytes, s.object)

pub readable-length : (e : InternalExtent) → IsSized e → readable e ≡ length (content e)
unfolding readable
readable-length e s = sub64-eq e.size e.read_offset s.within s.fits ∙ sym (length-content e s)

-- `consume` of no more than is there.
pub record Consumed (e : InternalExtent) (n : ℕ) : Type 0 where
  pub remain : (consume e n).0 ≡ length (content e) - n
  pub dropped : content (consume e n).1 ≡ drop n (content e)
  pub sized : IsSized (consume e n).1
  pub full : IsFull e → IsFull (consume e n).1

pub consume-Consumed :
    (e : InternalExtent) (n : ℕ) → IsSized e → n ≤ length (content e) → Consumed e n
unfolding consume
consume-Consumed e n s h = record {
  remain =
      ap (sub64 e.size) sum
      ∙ sub64-eq e.size (e.read_offset + n) (omega (arith, room)) s.fits
      ∙ omega (arith, room);
  dropped =
      ap (λ k. drop k e.bytes) sum
      ∙ sym (drop-drop e.read_offset n (e.read_offset + n) e.bytes refl);
  sized = record { object = s.object; within = omega (arith, room, sum); fits = s.fits };
  full = λ f. f;
}
  where
    room : length (content e) ≡ e.size - e.read_offset
    room = length-content e s

    sum : add64 e.read_offset n ≡ e.read_offset + n
    sum = add64-eq e.read_offset n (omega (arith, room, s.within, s.fits))

pub copyout-eq :
    (e : InternalExtent) (k : ℕ)
    → IsSized e
    → copyout e k ≡ ok (min k (length (content e)), take (min k (length (content e))) (content e))
unfolding copyout
copyout-eq e k s =
    rw (sub64-eq e.size e.read_offset s.within s.fits, ← length-content e s, within) refl
  where
    room : length (content e) ≡ e.size - e.read_offset
    room = length-content e s

    within : leb (e.read_offset + min k (length (content e))) (length e.bytes) ≡ true
    within = ground (arith, room, s.object, s.within)
