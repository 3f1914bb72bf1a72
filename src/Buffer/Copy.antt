-- ===== src/Buffer/Copy.antt =====
-- What `InternalExtent::append` does on its three branches: no room, enough room, too little room.
use what_the_event.Common.{
  ℕ, zero, suc, ◌+◌, ◌≤◌, ◌<◌, ◌^◌, ◌≡◌, refl, ap, ◌∙◌, List, ◌++◌, ok, fault, ◌≢◌, min, length,
  take, drop, sub64, sub64-eq, add64-eq, sub64_wraps, length-take, drop_all, arith,
  length-replicate, append-nil, none, replicate,
}
use what_the_event.Buffer.Extent.{Cell, InternalExtent, fresh_extent, append_extent, memcpy}
use what_the_event.Buffer.Contents.{content, IsSized, IsFull}

pub memcpy-eq :
    (dst : List Cell) (off : ℕ) (src : List Cell) (n : ℕ)
    → off + n ≤ length dst
    → n ≤ length src
    → memcpy dst off src n ≡ ok (take off dst ++ (take n src ++ drop (off + n) dst))
unfolding memcpy
memcpy-eq dst off src n h k = ground arith

pub memcpy_overrun :
    (dst : List Cell) (off : ℕ) (src : List Cell) (n : ℕ)
    → length dst < off + n
    → memcpy dst off src n ≡ fault
unfolding memcpy
memcpy_overrun dst off src n h = ground arith

-- The room that `append` computes is not `size - write_offset` but its negation modulo 2 ^ 64: with
-- any room at all it is 2 ^ 63 or more.
space_wraps :
    (w s n : ℕ) → w < s → s ≤ 2 ^ 63 → n ≤ 2 ^ 63 → (sub64 w s ≢ 0) × (min (sub64 w s) n ≡ n)
space_wraps w s n h k l = omega (arith, sub64_wraps w s h (omega arith))

module _ (e : InternalExtent) (buf : List Cell) (n : ℕ) where
  pub append_extent_full : IsFull e → e.size < 2 ^ 64 → append_extent e buf n ≡ ok (0, e)
  unfolding append_extent
  append_extent_full f k =
      ground (arith, sub64-eq e.write_offset e.size (omega arith) (omega arith))

  module _ (room : e.write_offset < e.size) (small : e.size ≤ 2 ^ 63)
      (object : length e.bytes ≡ e.size) where
    pub append_extent_fits :
        e.write_offset + n ≤ e.size
        → n ≤ length buf
        → append_extent e buf n
          ≡ ok (
            n,
            record e {
              bytes =
                  take e.write_offset e.bytes ++ (take n buf ++ drop (e.write_offset + n) e.bytes);
              write_offset = e.write_offset + n;
            },
          )
    unfolding append_extent
    append_extent_fits h k = ground (
      arith,
      space_wraps e.write_offset e.size n room small,
      memcpy-eq e.bytes e.write_offset buf n,
      add64-eq e.write_offset n,
    )

    -- More data than room is written past the end of the allocation.
    pub append_extent_overrun :
        e.size < e.write_offset + n → n ≤ 2 ^ 63 → append_extent e buf n ≡ fault
    unfolding append_extent
    append_extent_overrun h k = ground (
      arith,
      space_wraps e.write_offset e.size n room small,
      memcpy_overrun e.bytes e.write_offset buf n,
    )

-- A new extent of exactly the size of the data takes all of it.
pub record Filled (buf : List Cell) (n : ℕ) : Type 0 where
  pub extent : InternalExtent
  pub runs : append_extent (fresh_extent n) buf n ≡ ok (n, extent)
  pub holds : content extent ≡ take n buf
  pub sized : IsSized extent
  pub full : IsFull extent

pub append_fresh : (buf : List Cell) (n : ℕ) → n ≤ length buf → n ≤ 2 ^ 63 → Filled buf n
append_fresh buf zero h k = record {
  extent = fresh_extent 0;
  runs = append_extent_full (fresh_extent 0) buf 0 refl (omega arith);
  holds = refl;
  sized = record { object = refl; within = omega arith; fits = omega arith };
  full = refl;
}
append_fresh buf (suc n) h k = record {
  extent = filled;
  runs =
      append_extent_fits (fresh_extent (suc n)) buf (suc n) (omega arith) k
        (length-replicate (suc n) none) (omega arith) h;
  holds = whole;
  sized = record {
    object = ap length whole ∙ omega (arith, length-take (suc n) buf);
    within = omega arith;
    fits = omega arith;
  };
  full = omega arith;
}
  where
    filled : InternalExtent
    filled = record {
      size = suc n;
      bytes = take (suc n) buf ++ drop (0 + suc n) (replicate (suc n) none);
      read_offset = 0;
      write_offset = 0 + suc n;
    }

    whole : filled.bytes ≡ take (suc n) buf
    whole =
        ap (◌++◌ (take (suc n) buf)) (
          drop_all (0 + suc n) (replicate (suc n) none)
            (omega (arith, length-replicate {A = Cell} (suc n) none)))
        ∙ append-nil (take (suc n) buf)
