-- ===== src/Buffer/Extent.antt =====
-- `BufferImpl::InternalExtent` of src/buffer-internal.h and src/buffer.cc: one allocation with the
-- offsets between which it is read and written.
use what_the_event.Common.{
  ℕ, ◌+◌, ◌&&◌, List, ◌++◌, Option, none, Outcome, ok, fault, ◌>>=◌, ◌==◌, leb, min, if◌then◌else◌,
  length, take, drop, replicate, add64, sub64,
}

-- A `char` in memory; `none` is an indeterminate value, as `new char[n]` leaves it.
abbrev pub Cell : Type 0
Cell = Option ℕ

-- `memcpy(dst + off, src, n)` within an object `dst` and an object `src`.
unfoldable pub memcpy : List Cell → ℕ → List Cell → ℕ → Outcome (List Cell)
memcpy dst off src n =
    if leb (off + n) (length dst) && leb n (length src)
    then ok (take off dst ++ (take n src ++ drop (off + n) dst))
    else fault

-- `bytes` is the object that `extent.data` points to.
pub record InternalExtent : Type 0 where
  pub size : ℕ
  pub bytes : List Cell
  pub read_offset : ℕ
  pub write_offset : ℕ

-- `InternalExtent(size)`
abbrev pub fresh_extent : ℕ → InternalExtent
fresh_extent n = record { size = n; bytes = replicate n none; read_offset = 0; write_offset = 0 }

unfoldable pub appendable : InternalExtent → ℕ
appendable e = sub64 e.size e.write_offset

unfoldable pub prependable : InternalExtent → ℕ
prependable e = e.read_offset

unfoldable pub readable : InternalExtent → ℕ
readable e = sub64 e.size e.read_offset

unfoldable pub append_extent : InternalExtent → List Cell → ℕ → Outcome (ℕ × InternalExtent)
append_extent e buf size =
    let space = sub64 e.write_offset e.size in
    let nwrite = min space size in
    if space == 0 then ok (0, e) else (do
      bytes ← memcpy e.bytes e.write_offset buf nwrite
      ok (nwrite, record e { bytes = bytes; write_offset = add64 e.write_offset nwrite }))

unfoldable pub prepend_extent : InternalExtent → List Cell → ℕ → Outcome (ℕ × InternalExtent)
prepend_extent e buf size =
    let space = e.read_offset in
    let nwrite = min space size in
    if space == 0 then ok (0, e) else (do
      bytes ← memcpy e.bytes 0 buf nwrite
      ok (nwrite, record e { bytes = bytes; read_offset = sub64 e.read_offset nwrite }))

-- The bytes that `copyout` copies, with their number.
unfoldable pub copyout : InternalExtent → ℕ → Outcome (ℕ × List Cell)
copyout e size =
    let ret = min size (sub64 e.size e.read_offset) in
    if leb (e.read_offset + ret) (length e.bytes)
    then ok (ret, take ret (drop e.read_offset e.bytes))
    else fault

-- What is left in the extent, and the extent.
unfoldable pub consume : InternalExtent → ℕ → ℕ × InternalExtent
consume e size =
    let e' : InternalExtent = record e { read_offset = add64 e.read_offset size } in
    (sub64 e.size e'.read_offset, e')
