-- ===== src/Buffer/LinkedList/Tests.antt =====
-- The theorems on the linked list of slices at concrete slices and calls.
use Prim.Native.Nat.{min}
use go_common.Common.{ℕ, ◌+◌, ◌-◌, ◌==◌, ◌≡◌, refl, ◌⊎◌, none, some, List, [], ◌∷◌, length}
use go_common.Common.Int.{pos}
use go_common.Buffer.LinkedList.{append, push_back, read, read_loop, Writer, write_to, read_from}
use go_common.Buffer.LinkedList.Queue.{contents, buffer}
use go_common.Buffer.LinkedList.Runs.{
  Call, read_bytes, discard_bytes, append_slice, copy_back, copy_front, run,
}
use go_common.Buffer.LinkedList.Streams.{Accepts, Stopped, write_to-bytes, chunks, read_from-chunks}

abbrev some_calls : List Call
some_calls =
    append_slice (1 ∷ 2 ∷ 3 ∷ [])
    ∷ copy_back (4 ∷ 5 ∷ []) 64
    ∷ read_bytes 4
    ∷ copy_front (9 ∷ []) 64
    ∷ discard_bytes (pos 1)
    ∷ read_bytes 7
    ∷ read_bytes 1
    ∷ []

-- The slice that was appended, after it was read, from the pool: it has no room for ten bytes.
abbrev short_slice : List Call
short_slice =
    append_slice (1 ∷ 2 ∷ 3 ∷ [])
    ∷ read_bytes 3
    ∷ copy_back (1 ∷ 2 ∷ 3 ∷ 4 ∷ 5 ∷ 6 ∷ 7 ∷ 8 ∷ 9 ∷ 10 ∷ []) 3
    ∷ []

short_slice_panics : run (buffer []) short_slice ≡ none
unfolding append read read_loop push_back
short_slice_panics = refl

abbrev two_slices : List (List ℕ)
two_slices = (1 ∷ 2 ∷ []) ∷ (3 ∷ 4 ∷ 5 ∷ []) ∷ []

-- It takes as many bytes as its quota has left, and fails when there are none.
abbrev quota : Writer ℕ
quota left d = (record { count = min left (length d); fails = left == 0 }, left - length d)

write_to-bytes_example :
    ((Accepts quota 4 two_slices)
      × (write_to quota 4 (buffer two_slices) ≡ ((contents two_slices, none), buffer [])))
    ⊎ Stopped quota 4 two_slices (write_to quota 4 (buffer two_slices))
write_to-bytes_example = write_to-bytes quota 4 two_slices

-- Bytes that come with the end of the stream.
abbrev late : List ℕ
late = 6 ∷ 7 ∷ []

read_from-chunks_example :
    read_from (chunks two_slices late) (buffer [])
    ≡ some ((length (contents two_slices) + length late, none), buffer two_slices)
read_from-chunks_example = read_from-chunks two_slices [] late
