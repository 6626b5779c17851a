-- ===== src/Buffer/LinkedList.antt =====
-- pkg/datastructs/buffer/linked_list.go: a buffer of byte slices in a linked list. The list's nodes are
-- a list of their slices. What byteslice.Get takes out of its pool is an argument: the capacity of the
-- slice for `PushBack` and `PushFront`, where `b[:size]` panics when it is less than the size; a chunk of
-- `ReadFrom` is taken to have its size.
pub mod Queue
pub mod Runs
pub mod Peeks
pub mod Streams
mod Tests
use Prim.Native.Nat.{min}
use go_common.Common.{
  ℕ, zero, suc, ◌+◌, ◌-◌, ◌^◌, Bool, true, false, Option, none, some, List, [], ◌∷◌, ◌++◌, ltb, leb,
  ◌==◌, ◌||◌, if◌then◌else◌, length, take, drop,
}
use go_common.Common.Int.{ℤ, pos, leb_ℤ, pos_part}

pub record LinkedListBuffer : Type 0 where
  pub nodes : List (List ℕ)
  pub node_count : ℕ
  pub byte_count : ℕ

pub data BufferError : Type 0 where
  end_of_file : BufferError
  short_buffer : BufferError
  short_write : BufferError
  stream_failed : BufferError

-- The buffer without its first node.
abbrev pub popped : LinkedListBuffer → List ℕ → List (List ℕ) → LinkedListBuffer
popped ll d ds = record {
  nodes = ds;
  node_count = ll.node_count - 1;
  byte_count = ll.byte_count - length d;
}

abbrev pub front_of : LinkedListBuffer → List (List ℕ) → Option (List ℕ × LinkedListBuffer)
front_of ll [] = none
front_of ll (d ∷ ds) = some (d, popped ll d ds)

abbrev pub pop_front : LinkedListBuffer → Option (List ℕ × LinkedListBuffer)
pop_front ll = front_of ll ll.nodes

abbrev pub push_node_front : LinkedListBuffer → List ℕ → LinkedListBuffer
push_node_front ll d = record {
  nodes = d ∷ ll.nodes;
  node_count = ll.node_count + 1;
  byte_count = ll.byte_count + length d;
}

abbrev pub push_node_back : LinkedListBuffer → List ℕ → LinkedListBuffer
push_node_back ll d = record {
  nodes = ll.nodes ++ (d ∷ []);
  node_count = ll.node_count + 1;
  byte_count = ll.byte_count + length d;
}

unfoldable pub append : LinkedListBuffer → List ℕ → LinkedListBuffer
append ll p = if length p == 0 then ll else push_node_back ll p

-- `PushBack` copies what it is given, to a slice of this capacity from the pool. `none` is a panic.
unfoldable pub push_back : LinkedListBuffer → List ℕ → ℕ → Option LinkedListBuffer
push_back ll p capacity =
    if length p == 0
    then some ll
    else if ltb capacity (length p)
    then none
    else some (push_node_back ll (take (length p) p))

unfoldable pub push_front : LinkedListBuffer → List ℕ → ℕ → Option LinkedListBuffer
push_front ll p capacity =
    if length p == 0
    then some ll
    else if ltb capacity (length p)
    then none
    else some (push_node_front ll (take (length p) p))

abbrev pub popped_data :
    LinkedListBuffer → Option (List ℕ × LinkedListBuffer) → List ℕ × LinkedListBuffer
popped_data ll none = ([], ll)
popped_data ll (some (d, ll')) = (d, ll')

-- `Pop`: the first slice, or none.
unfoldable pub pop : LinkedListBuffer → List ℕ × LinkedListBuffer
pop ll = popped_data ll (pop_front ll)

-- What is not used of a popped slice goes back to the front.
abbrev pub put_back : LinkedListBuffer → List ℕ → ℕ → LinkedListBuffer
put_back ll d used = if ltb used (length d) then push_node_front ll (drop used d) else ll

-- The loop of `Read` with `room` bytes left in `p`, over the nodes `ds` of `ll`.
unfoldable pub read_loop : List (List ℕ) → LinkedListBuffer → ℕ → List ℕ × LinkedListBuffer
read_loop [] ll room = ([], ll)
read_loop (d ∷ ds) ll room =
    let n = min room (length d) in
    let ll' = put_back (popped ll d ds) d n in
    let rest = read_loop ds ll' (room - n) in
    if room - n == 0 then (take n d, ll') else (take n d ++ rest.0, rest.1)

-- The bytes read, and an error.
abbrev pub read_answer :
    List ℕ × LinkedListBuffer → (List ℕ × Option BufferError) × LinkedListBuffer
read_answer (bs, ll) = ((bs, if length bs == 0 then some end_of_file else none), ll)

unfoldable pub read : LinkedListBuffer → ℕ → (List ℕ × Option BufferError) × LinkedListBuffer
read ll room = if room == 0 then (([], none), ll) else read_answer (read_loop ll.nodes ll room)

-- The loop of `Discard`, likewise: the bytes dropped.
unfoldable pub discard_loop : List (List ℕ) → LinkedListBuffer → ℕ → ℕ × LinkedListBuffer
discard_loop [] ll remaining = (0, ll)
discard_loop (d ∷ ds) ll remaining =
    let rest = discard_loop ds (popped ll d ds) (remaining - length d) in
    if remaining == 0
    then (0, ll)
    else if ltb remaining (length d)
    then (remaining, push_node_front (popped ll d ds) (drop remaining d))
    else (length d + rest.0, rest.1)

unfoldable pub discard : LinkedListBuffer → ℤ → ℕ × LinkedListBuffer
discard ll n = if leb_ℤ n (pos 0) then (0, ll) else discard_loop ll.nodes ll (pos_part n)

abbrev pub max_int32 : ℕ
max_int32 = 2 ^ 31 - 1

-- The first loop of `collectBytes`, over slices that are there already: it passes over empty ones, which
-- take no room. The answer is what is collected and the room left.
unfoldable pub collect_existing : ℕ → List (List ℕ) → List (List ℕ) × ℕ
collect_existing room [] = ([], room)
collect_existing room (b ∷ bs) =
    let n = min room (length b) in
    let rest = collect_existing (room - n) bs in
    if length b == 0
    then rest
    else if room - n == 0
    then (take n b ∷ [], 0)
    else (take n b ∷ rest.0, rest.1)

-- The second, over the nodes.
unfoldable pub collect_nodes : ℕ → List (List ℕ) → List (List ℕ)
collect_nodes room [] = []
collect_nodes room (d ∷ ds) =
    let n = min room (length d) in
    let rest = collect_nodes (room - n) ds in
    if room - n == 0 then take n d ∷ [] else take n d ∷ rest

abbrev pub collect_both : LinkedListBuffer → List (List ℕ) × ℕ → List (List ℕ)
collect_both ll (got, room) = if room == 0 then got else got ++ collect_nodes room ll.nodes

unfoldable pub collect_bytes : LinkedListBuffer → ℕ → List (List ℕ) → List (List ℕ)
collect_bytes ll max_bytes existing = collect_both ll (collect_existing max_bytes existing)

abbrev pub sum_lengths : List (List ℕ) → ℕ
sum_lengths [] = 0
sum_lengths (b ∷ bs) = length b + sum_lengths bs

abbrev pub is_all : ℤ → Bool
is_all n = leb_ℤ n (pos 0) || (pos_part n == max_int32)

-- `PeekWithBytes`, of which `Peek` is the case without slices.
unfoldable pub peek_with_bytes :
    LinkedListBuffer → ℤ → List (List ℕ) → List (List ℕ) × Option BufferError
peek_with_bytes ll n existing =
    if is_all n
    then (collect_bytes ll max_int32 existing, none)
    else if ltb (ll.byte_count + sum_lengths existing) (pos_part n)
    then ([], some short_buffer)
    else (collect_bytes ll (pos_part n) existing, none)

unfoldable pub peek : LinkedListBuffer → ℤ → List (List ℕ) × Option BufferError
peek ll n =
    if is_all n
    then (collect_bytes ll max_int32 [], none)
    else if ltb ll.byte_count (pos_part n)
    then ([], some short_buffer)
    else (collect_bytes ll (pos_part n) [], none)

-- What one `Read` of a reader answers: its bytes, at most the chunk, and an error.
pub data Chunk : Type 0 where
  more : List ℕ → Chunk
  last : List ℕ → Chunk
  broken : List ℕ → Chunk

-- `ReadFrom` a reader that answers these; `none` is a reader that never ends.
unfoldable pub read_from :
    List Chunk → LinkedListBuffer → Option ((ℕ × Option BufferError) × LinkedListBuffer)
read_from [] ll = none
read_from (last bs ∷ cs) ll = some ((length bs, none), ll)
read_from (broken bs ∷ cs) ll = some ((length bs, some stream_failed), ll)
read_from (more bs ∷ cs) ll = counted bs (read_from cs (push_node_back ll bs))
  where
    counted :
        List ℕ
        → Option ((ℕ × Option BufferError) × LinkedListBuffer)
        → Option ((ℕ × Option BufferError) × LinkedListBuffer)
    counted bs none = none
    counted bs (some ((n, e), ll')) = some ((length bs + n, e), ll')

-- What a writer does with one slice: it takes some bytes of it, and may fail.
pub record Written : Type 0 where
  pub count : ℕ
  pub fails : Bool

-- A writer with a state: what it does with a slice, and its next state.
abbrev pub Writer {ℓ} : Type ℓ → Type ℓ
Writer W = W → List ℕ → Written × W

-- The loop of `WriteTo`, over the nodes `ds` of `ll`: the bytes that the writer took, and an error.
unfoldable pub write_loop {ℓ} :
    {W : Type ℓ}
    → Writer W
    → W
    → List (List ℕ)
    → LinkedListBuffer
    → (List ℕ × Option BufferError) × LinkedListBuffer
write_loop write w [] ll = (([], none), ll)
write_loop write w (d ∷ ds) ll =
    let (written, w') = write w d in
    let ll' = popped ll d ds in
    let taken = take written.count d in
    let rest = write_loop write w' ds ll' in
    if written.fails
    then ((taken, some stream_failed), ll')
    else if ltb written.count (length d)
    then ((taken, some short_write), push_node_front ll' (drop written.count d))
    else ((taken ++ rest.0.0, rest.0.1), rest.1)

unfoldable pub write_to {ℓ} :
    {W : Type ℓ}
    → Writer W
    → W
    → LinkedListBuffer
    → (List ℕ × Option BufferError) × LinkedListBuffer
write_to write w ll = write_loop write w ll.nodes ll

abbrev pub node_length : LinkedListBuffer → ℕ
node_length ll = ll.node_count

abbrev pub buffered : LinkedListBuffer → ℕ
buffered ll = ll.byte_count

abbrev pub none_left : List (List ℕ) → Bool
none_left [] = true
none_left (d ∷ ds) = false

abbrev pub is_empty : LinkedListBuffer → Bool
is_empty ll = none_left ll.nodes

abbrev pub reset : LinkedListBuffer → LinkedListBuffer
reset ll = record { nodes = []; node_count = 0; byte_count = 0 }
