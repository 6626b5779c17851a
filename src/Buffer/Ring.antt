-- ===== src/Buffer/Ring.antt =====
-- pkg/datastructs/buffer/ring.go: the ring buffer that grows. A method that mutates `*RingBuffer`
-- returns the new record; `none` is a panic. A nil slice is the empty list. Byte counts are below
-- 2 ^ 62, where no `int` arithmetic of the file wraps.
pub mod Grow
pub mod Valid
pub mod View
pub mod Growth
pub mod Write
pub mod Read
pub mod Discard
pub mod Limits
pub mod Streams
pub mod Ended
mod Tests
use Prim.Native.Nat.{bit_and}
use go_common.Common.{
  ℕ, zero, suc, ◌+◌, ◌-◌, ◌*◌, ◌/◌, Bool, true, false, ◌&&◌, not, Option, none, some, List, [], ◌∷◌,
  ◌++◌, ltb, leb, ◌==◌, if◌then◌else◌, length, take, drop,
}
use go_common.Common.Int.{ℤ, pos, negsuc, leb_ℤ, ltb_ℤ, pos_part}
use go_common.Common.Slices.{slice}

pub record RingBuffer : Type 0 where
  pub buf : List ℕ
  pub capacity : ℕ
  pub read_pos : ℕ
  pub write_pos : ℕ
  pub empty : Bool

pub buffered : RingBuffer → ℕ
buffered rb =
    if rb.read_pos == rb.write_pos
    then (if rb.empty then 0 else rb.capacity)
    else if ltb rb.read_pos rb.write_pos
    then rb.write_pos - rb.read_pos
    else rb.capacity - rb.read_pos + rb.write_pos

pub available : RingBuffer → ℕ
available rb =
    if rb.read_pos == rb.write_pos
    then (if rb.empty then rb.capacity else 0)
    else if ltb rb.write_pos rb.read_pos
    then rb.read_pos - rb.write_pos
    else rb.capacity - rb.write_pos + rb.read_pos

pub is_full : RingBuffer → Bool
is_full rb = rb.read_pos == rb.write_pos && not rb.empty

pub reset : RingBuffer → RingBuffer
reset rb = record rb { empty = true; read_pos = 0; write_pos = 0 }

-- `idx & (capacity - 1)`; at capacity 0 the mask is -1, all ones.
pub wrap_index : RingBuffer → ℕ → ℕ
wrap_index rb idx = if rb.capacity == 0 then idx else bit_and idx (rb.capacity - 1)

-- The result of `Peek`: the slice up to the end of the storage, and the one from its start.
pub peek_all : RingBuffer → List ℕ × List ℕ
peek_all rb =
    if rb.empty
    then ([], [])
    else if ltb rb.read_pos rb.write_pos
    then (slice rb.buf rb.read_pos rb.write_pos, [])
    else (drop rb.read_pos rb.buf, if ltb 0 rb.write_pos then take rb.write_pos rb.buf else [])

-- `Peek` of a positive `n` that the buffer holds.
pub peek_some : RingBuffer → ℕ → List ℕ × List ℕ
peek_some rb n =
    if ltb rb.read_pos rb.write_pos
    then (slice rb.buf rb.read_pos (rb.read_pos + n), [])
    else if leb n head_len
    then (slice rb.buf rb.read_pos (rb.read_pos + n), [])
    else (drop rb.read_pos rb.buf, take (n - head_len) rb.buf)
  where
    head_len : ℕ
    head_len = rb.capacity - rb.read_pos

pub peek : RingBuffer → ℤ → List ℕ × List ℕ
peek rb n =
    if rb.empty
    then ([], [])
    else if leb_ℤ n (pos 0)
    then peek_all rb
    else peek_some rb (if ltb (buffered rb) (pos_part n) then buffered rb else pos_part n)

pub discard : RingBuffer → ℤ → ℕ × RingBuffer
discard rb n =
    if leb_ℤ n (pos 0)
    then (0, rb)
    else if ltb (pos_part n) (buffered rb)
    then (pos_part n, record rb { read_pos = wrap_index rb (rb.read_pos + pos_part n) })
    else (buffered rb, reset rb)

-- What `Read` hands back: the bytes that it copies into `p`, their number, and whether the error is
-- ErrRingEmpty.
pub record ReadResult : Type 0 where
  pub out : List ℕ
  pub count : ℕ
  pub ring_empty : Bool

-- `Read` of `n` bytes, those that there are and fit, in a buffer that does not go round.
pub read_straight : RingBuffer → ℕ → RingBuffer
read_straight rb n =
    let rb' = record rb { read_pos = rb.read_pos + n } in
    if rb'.read_pos == rb'.write_pos then reset rb' else rb'

pub read_round : RingBuffer → ℕ → RingBuffer
read_round rb n =
    let rb' = record rb { read_pos = wrap_index rb (rb.read_pos + n) } in
    if rb'.read_pos == rb'.write_pos then reset rb' else rb'

-- The bytes that the two calls of `copy` put into `p`.
pub round_bytes : RingBuffer → ℕ → List ℕ
round_bytes rb n =
    if leb n head_len
    then slice rb.buf rb.read_pos (rb.read_pos + n)
    else drop rb.read_pos rb.buf ++ take (n - head_len) rb.buf
  where
    head_len : ℕ
    head_len = rb.capacity - rb.read_pos

-- `Read(p)` at `len(p) = room`.
pub read : RingBuffer → ℕ → ReadResult × RingBuffer
read rb room =
    if room == 0
    then (record { out = []; count = 0; ring_empty = false }, rb)
    else if rb.empty
    then (record { out = []; count = 0; ring_empty = true }, rb)
    else let n = if ltb room (buffered rb) then room else buffered rb in
      if ltb rb.read_pos rb.write_pos
      then (
        record { out = slice rb.buf rb.read_pos (rb.read_pos + n); count = n; ring_empty = false },
        read_straight rb n,
      )
      else (record { out = round_bytes rb n; count = n; ring_empty = false }, read_round rb n)

-- `Bytes`: a copy of all that is buffered.
pub bytes : RingBuffer → List ℕ
bytes rb =
    if rb.empty
    then []
    else if ltb rb.read_pos rb.write_pos
    then slice rb.buf rb.read_pos rb.write_pos
    else drop rb.read_pos rb.buf ++ (if ltb 0 rb.write_pos then take rb.write_pos rb.buf else [])
