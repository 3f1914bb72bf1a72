-- ===== src/Buffer/Impl.antt =====
-- `BufferImpl` of src/buffer.cc. The circular list behind `head_` is the list of its extents from
-- `head_.next` on; `alloc n` says whether `new` grants a request of `n` bytes.
use what_the_event.Common.{
  ℕ, zero, suc, ◌+◌, Bool, true, false, List, [], ◌∷◌, ◌++◌, none, some, Outcome, ok, fault,
  bad_alloc, out_of_fuel, ◌>>=◌, ◌==◌, ltb, min, if◌then◌else◌, length, take, drop, get_last?,
  set_last, add64, sub64,
}
use what_the_event.Buffer.Extent.{
  Cell, InternalExtent, fresh_extent, appendable, prependable, readable, append_extent,
  prepend_extent, copyout, consume,
}

-- `size` is `size_`.
pub record BufferImpl : Type 0 where
  pub extents : List InternalExtent
  pub size : ℕ

-- `BufferImpl()`, and what `reset` leaves
abbrev pub empty_buffer : BufferImpl
empty_buffer = record { extents = []; size = 0 }

unfoldable pub list_empty : BufferImpl → Bool
list_empty b = elim b.extents [ [] ↦ true | _ ↦ false ]

unfoldable pub empty : BufferImpl → Bool
empty b = b.size == 0

-- `new InternalExtent(n)`
unfoldable pub new_extent : (ℕ → Bool) → ℕ → Outcome InternalExtent
new_extent alloc n = if alloc n then ok (fresh_extent n) else bad_alloc

-- The chain after the first lines of the loop in `append`: its last extent is `cur`.
unfoldable pub with_tail : (ℕ → Bool) → List InternalExtent → ℕ → Outcome (List InternalExtent)
unfolding new_extent
with_tail alloc es remain =
    let extended : Outcome (List InternalExtent) = (do
      cur ← new_extent alloc remain
      ok (es ++ cur ∷ [])) in
    elim (get_last? es) [
      | none ↦ extended
      | some cur ↦ if appendable cur == 0 then extended else ok es
    ]

unfoldable pub append_last : List InternalExtent → List Cell → ℕ → Outcome (ℕ × List InternalExtent)
append_last es buf remain = elim (get_last? es) [
  | none ↦ fault
  | some cur ↦ (do r ← append_extent cur buf remain; ok (sub64 remain r.0, set_last es r.1))
]

-- The `do … while (remain > size)` of `append`.
unfoldable pub append_loop :
    ℕ → (ℕ → Bool) → List Cell → ℕ → ℕ → List InternalExtent → Outcome (List InternalExtent)
append_loop zero alloc buf size remain es = out_of_fuel
append_loop (suc f) alloc buf size remain es = do
  es' ← with_tail alloc es remain
  r ← append_last es' buf remain
  let more = append_loop f alloc buf size r.0 r.1
  if ltb size r.0 then more else ok r.1

unfoldable pub append : (ℕ → Bool) → BufferImpl → List Cell → ℕ → Outcome BufferImpl
append alloc b buf size = do
  es ← append_loop (suc size) alloc buf size size b.extents
  ok (record { extents = es; size = add64 b.size size })

-- `append(Buffer *)`, for two different buffers: this one and the other one afterwards.
unfoldable pub append_buffer : BufferImpl → BufferImpl → BufferImpl × BufferImpl
append_buffer b o =
    if list_empty o
    then (b, o)
    else (record { extents = b.extents ++ o.extents; size = add64 b.size o.size }, empty_buffer)

-- `prepend(Buffer *)`
unfoldable pub prepend_buffer : BufferImpl → BufferImpl → BufferImpl × BufferImpl
prepend_buffer b o =
    if list_empty o
    then (b, o)
    else (record { extents = o.extents ++ b.extents; size = add64 b.size o.size }, empty_buffer)

-- The `do … while (remain > 0)` of `prepend`. `cur` is the first extent of the chain, if there was
-- one at the start or one was made.
unfoldable pub prepend_loop :
    ℕ → (ℕ → Bool) → List Cell → ℕ → List InternalExtent → Outcome (List InternalExtent)
unfolding new_extent
prepend_loop zero alloc buf remain es = out_of_fuel
prepend_loop (suc f) alloc buf remain [] = do
  cur ← new_extent alloc remain
  r ← append_extent cur buf remain
  let remain' = sub64 remain r.0
  let more = prepend_loop f alloc buf remain' (r.1 ∷ [])
  if ltb 0 remain' then more else ok (r.1 ∷ [])
prepend_loop (suc f) alloc buf remain (e ∷ es) =
    if prependable e == 0
    then (do
      cur ← new_extent alloc remain
      r ← append_extent cur buf remain
      let remain' = sub64 remain r.0
      let more = prepend_loop f alloc buf remain' (r.1 ∷ e ∷ es)
      if ltb 0 remain' then more else ok (r.1 ∷ e ∷ es))
    else (do
      r ← prepend_extent e buf remain
      let remain' = sub64 remain r.0
      let more = prepend_loop f alloc buf remain' (r.1 ∷ es)
      if ltb 0 remain' then more else ok (r.1 ∷ es))

unfoldable pub prepend : (ℕ → Bool) → BufferImpl → List Cell → ℕ → Outcome BufferImpl
prepend alloc b buf size = do
  es ← prepend_loop (suc size) alloc buf size b.extents
  ok (record { extents = es; size = add64 b.size size })

-- The loop of `drain`: the count that is left, and the chain.
unfoldable pub drain_loop : ℕ → ℕ → List InternalExtent → Outcome (ℕ × List InternalExtent)
drain_loop f remain [] = ok (remain, [])
drain_loop zero remain (e ∷ es) = out_of_fuel
drain_loop (suc f) remain (e ∷ es) =
    let n = min remain (readable e) in
    let (node_remain, e') = consume e n in
    let removed = drain_loop f (sub64 remain n) es in
    let kept = drain_loop f (sub64 remain n) (e' ∷ es) in
    if ltb 0 remain then (if node_remain == 0 then removed else kept) else ok (remain, e ∷ es)

unfoldable pub drain : BufferImpl → ℕ → Outcome BufferImpl
drain b count = do
  r ← drain_loop (suc (length b.extents)) count b.extents
  ok (record { extents = r.1; size = sub64 b.size (sub64 count r.0) })

-- `reserve(size)`
unfoldable pub reserve : (ℕ → Bool) → BufferImpl → ℕ → Outcome BufferImpl
unfolding new_extent
reserve alloc b size =
    let required : ℕ = elim (get_last? b.extents) [
      | none ↦ size
      | some p ↦ sub64 size (appendable p)
    ] in
    if ltb 0 required
    then (do cur ← new_extent alloc required; ok (record b { extents = b.extents ++ cur ∷ [] }))
    else ok b

-- `reserve(size, extents)`: the granted regions, as lengths, and the buffer.
unfoldable pub reserve_extents : (ℕ → Bool) → BufferImpl → ℕ → Outcome (List ℕ × BufferImpl)
unfolding new_extent
reserve_extents alloc b size =
    let avail : ℕ = elim (get_last? b.extents) [ none ↦ 0 | some p ↦ appendable p ] in
    let granted = if ltb 0 avail then avail ∷ [] else [] in
    let required = if ltb 0 avail then sub64 size avail else size in
    if ltb 0 required
    then (do
      cur ← new_extent alloc required
      ok (granted ++ required ∷ [], record b { extents = b.extents ++ cur ∷ [] }))
    else ok (granted, b)

-- The state of the loop in `read`: bytes copied so far, `total`, `size_`, the chain from `cur` on.
pub record Reading : Type 0 where
  pub out : List Cell
  pub total : ℕ
  pub left : ℕ
  pub rest : List InternalExtent

-- `read(buf, size, nread, true)`, into an array of `cap` bytes. An extent that is not emptied ends
-- the loop.
unfoldable pub read_loop : ℕ → ℕ → List Cell → ℕ → ℕ → List InternalExtent → Outcome Reading
read_loop cap size out total left [] =
    ok (record { out = out; total = total; left = left; rest = [] })
read_loop cap size out total left (e ∷ es) =
    let stop : Outcome Reading =
      ok (record { out = out; total = total; left = left; rest = e ∷ es }) in
    let step : Outcome Reading = (do
      r ← copyout e size
      let total' = add64 total r.0
      let left' = sub64 left r.0
      let (remain, e') = consume e r.0
      let more = read_loop cap size (out ++ r.1) total' left' es
      if ltb cap (total + r.0)
          then fault
          else if remain == 0
          then more
          else ok (record { out = out ++ r.1; total = total'; left = left'; rest = e' ∷ es })) in
    if ltb total size then step else stop

-- `read(buf, size, &nread)`: what was copied, `nread` and the buffer.
unfoldable pub read : BufferImpl → ℕ → ℕ → Outcome (List Cell × ℕ × BufferImpl)
read b cap size = do
  r ← read_loop cap size [] 0 b.size b.extents
  ok (r.out, r.total, record { extents = r.rest; size = r.left })

-- `read(buf, size, nread, false)`, which is `peek(buf, size, nread)`.
unfoldable pub peek_loop : ℕ → ℕ → List Cell → ℕ → List InternalExtent → Outcome (List Cell × ℕ)
peek_loop cap size out total [] = ok (out, total)
peek_loop cap size out total (e ∷ es) =
    let step : Outcome (List Cell × ℕ) = (do
      r ← copyout e size
      let more = peek_loop cap size (out ++ r.1) (add64 total r.0) es
      if ltb cap (total + r.0) then fault else more) in
    if ltb total size then step else ok (out, total)

unfoldable pub peek : BufferImpl → ℕ → ℕ → Outcome (List Cell × ℕ)
peek b cap size = peek_loop cap size [] 0 b.extents

-- `peek(size, extents)`: each granted region, as its length and the bytes there.
unfoldable pub peek_extents_loop : ℕ → ℕ → List InternalExtent → List (ℕ × List Cell)
peek_extents_loop size total [] = []
peek_extents_loop size total (e ∷ es) =
    let avail = readable e in
    let grant = min avail (sub64 size total) in
    let more = peek_extents_loop size (add64 total avail) es in
    if ltb total size
    then (if ltb 0 avail then (grant, take grant (drop e.read_offset e.bytes)) ∷ more else more)
    else []

unfoldable pub peek_extents : BufferImpl → ℕ → List (ℕ × List Cell)
peek_extents b size = peek_extents_loop size 0 b.extents
