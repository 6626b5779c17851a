-- ===== src/Buffer/Ring/Streams.antt =====
-- The ring's ReadByte, ReadFrom and WriteTo. Readers and writers are what they answer.
use go_common.Common.{
  ℕ, zero, suc, ◌+◌, ◌-◌, false, Option, none, some, List, [], ◌∷◌, ◌++◌, ltb, leb, ◌==◌, ◌||◌,
  if◌then◌else◌, length, take, drop, get_or,
}
use go_common.Common.Slices.{copy_at, slice}
use go_common.Buffer.LinkedList.{
  BufferError, stream_failed, end_of_file, Chunk, more, last, broken, Written, Writer,
}
use go_common.Buffer.Ring.{RingBuffer, buffered, available, reset, wrap_index}
use go_common.Buffer.Ring.Grow.{grow}

-- `ReadByte`; `none` is ErrRingEmpty.
unfoldable pub read_byte : RingBuffer → Option ℕ × RingBuffer
read_byte rb =
    let next = if rb.read_pos + 1 == rb.capacity then 0 else rb.read_pos + 1 in
    if rb.empty then (none, rb) else (
      some (get_or rb.buf rb.read_pos 0),
      if next == rb.write_pos then reset rb else record rb { read_pos = next },
    )

-- One `Read` into `room` bytes: the bytes, an error, and what the reader answers next; `none` is a
-- reader that does not answer.
abbrev pub receive : List Chunk → ℕ → Option ((List ℕ × Option BufferError) × List Chunk)
receive [] room = none
receive (more bs ∷ cs) room = some ((take room bs, none), cs)
receive (last bs ∷ cs) room = some ((take room bs, some end_of_file), cs)
receive (broken bs ∷ cs) room = some ((take room bs, some stream_failed), cs)

-- Bytes that are read to a place of the storage.
abbrev pub received : RingBuffer → ℕ → List ℕ → RingBuffer
received rb place bs = record rb {
  buf = copy_at rb.buf place bs;
  empty = false;
  write_pos = wrap_index rb (rb.write_pos + length bs);
}

abbrev pub Once : Type 0
Once = Option ((ℕ × Option BufferError) × RingBuffer × List Chunk)

-- The last read of `readFromOnce`, to `place`, after `total` bytes.
abbrev pub read_last :
    RingBuffer → ℕ → ℕ → Option ((List ℕ × Option BufferError) × List Chunk) → Once
read_last rb place total none = none
read_last rb place total (some ((bs, e), cs)) =
    some ((total + length bs, e), received rb place bs, cs)

-- After the read into the tail: on no error, one into the head.
abbrev pub read_head : RingBuffer → Option ((List ℕ × Option BufferError) × List Chunk) → Once
read_head rb none = none
read_head rb (some ((bs, some e), cs)) = some ((length bs, some e), received rb rb.write_pos bs, cs)
read_head rb (some ((bs, none), cs)) =
    read_last (received rb rb.write_pos bs) 0 (length bs) (receive cs rb.read_pos)

unfoldable pub read_from_once : RingBuffer → List Chunk → Once
read_from_once rb cs =
    if leb rb.read_pos rb.write_pos
    then read_head rb (receive cs (length rb.buf - rb.write_pos))
    else read_last rb rb.write_pos 0 (receive cs (rb.read_pos - rb.write_pos))

abbrev pub min_read_size : ℕ
min_read_size = 512

abbrev pub counted_on :
    ℕ
    → Option ((ℕ × Option BufferError) × RingBuffer)
    → Option ((ℕ × Option BufferError) × RingBuffer)
counted_on n none = none
counted_on n (some ((total, e), rb)) = some ((n + total, e), rb)

-- A round of `ReadFrom`: it ends with an error, of which the end of the stream is none, or goes on.
abbrev pub go_on :
    (RingBuffer → List Chunk → Option ((ℕ × Option BufferError) × RingBuffer))
    → Once
    → Option ((ℕ × Option BufferError) × RingBuffer)
go_on f none = none
go_on f (some ((n, some end_of_file), rb, cs)) = some ((n, none), rb)
go_on f (some ((n, some e), rb, cs)) = some ((n, some e), rb)
go_on f (some ((n, none), rb, cs)) = counted_on n (f rb cs)

abbrev pub with_room : Option RingBuffer → (RingBuffer → Once) → Once
with_room none f = none
with_room (some rb) f = f rb

-- `ReadFrom`, of a reader that answers the chunks; a round takes one of them at least. `none` is a panic,
-- or a reader that never ends.
unfoldable pub read_from :
    (ℕ → List ℕ) → ℕ → RingBuffer → List Chunk → Option ((ℕ × Option BufferError) × RingBuffer)
read_from pool zero rb cs = none
read_from pool (suc fuel) rb cs = go_on (read_from pool fuel) (
    with_room
      (if ltb (available rb) min_read_size
        then grow pool rb (buffered rb + min_read_size)
        else some rb)
      (λ rb'. read_from_once rb' cs))

abbrev pub write_error : Written → Option BufferError
write_error w = if w.fails then some stream_failed else none

-- The part of `WriteTo` that writes the head of a buffer that goes round, after `sent`.
abbrev pub write_rest : RingBuffer → List ℕ → Written → (List ℕ × Option BufferError) × RingBuffer
write_rest rb sent w = (
  (sent ++ take w.count (take rb.write_pos rb.buf), write_error w),
  if w.count == rb.write_pos then reset rb else record rb { read_pos = w.count },
)

-- `WriteTo`: the bytes that the writer took, and an error.
unfoldable pub write_to {ℓ} :
    {W : Type ℓ} → Writer W → W → RingBuffer → (List ℕ × Option BufferError) × RingBuffer
write_to write w rb =
    let straight = slice rb.buf rb.read_pos rb.write_pos in
    let tail = drop rb.read_pos rb.buf in
    let a = (write w straight).0 in
    let (first, w') = write w tail in
    let rb' = record rb { read_pos = wrap_index rb (rb.read_pos + first.count) } in
    if rb.empty
    then (([], none), rb)
    else if ltb rb.read_pos rb.write_pos
    then (
      (take a.count straight, write_error a),
      if rb.read_pos + a.count == rb.write_pos
          then reset rb
          else record rb { read_pos = rb.read_pos + a.count },
    )
    else if first.fails || ltb first.count (rb.capacity - rb.read_pos)
    then ((take first.count tail, write_error first), rb')
    else write_rest rb' (take first.count tail) (write w' (take rb.write_pos rb.buf)).0
