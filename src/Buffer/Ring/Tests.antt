-- ===== src/Buffer/Ring/Tests.antt =====
-- Runs of the ring buffer, and the theorems at concrete buffers.
use go_common.Common.{
  ℕ, ◌+◌, ◌≤◌, ◌<◌, ◌≡◌, refl, ◌⊎◌, true, false, List, [], ◌∷◌, none, some, arith, length,
  replicate, length-replicate, drop,
}
use go_common.Common.Int.{pos}
use go_common.Utils.Math.{ceil_to_power_of_two}
use go_common.Buffer.LinkedList.{last, more}
use go_common.Buffer.Ring.Streams.{read_from_once, read_from}
use go_common.Buffer.Ring.Ended.{read_from-ended}
use go_common.Buffer.Ring.{
  RingBuffer, wrap_index, buffered, available, is_full, bytes, read, discard,
}
use go_common.Buffer.Ring.Grow.{new_ring, grow, calculate_growth, write, write_into, write_byte}
use go_common.Buffer.Ring.Valid.{IsValid, contents, IsPowerOfTwo, buffered-add-available}
use go_common.Buffer.Ring.Read.{Takes, read_lem}
use go_common.Buffer.Ring.Discard.{discard_lem}
use go_common.Buffer.Ring.Growth.{grow_lem}
use go_common.Buffer.Ring.Write.{Appended, write_lem}
use go_common.Buffer.Ring.Limits.{write_byte_lem}

-- Storage that was used before.
abbrev pool : ℕ → List ℕ
pool n = replicate n 7

pool_sized : (n : ℕ) → length (pool n) ≡ n
pool_sized n = length-replicate n 7

-- 3, 4 and 5, round the end of the storage.
abbrev wrapped : RingBuffer
wrapped = record {
  buf = 5 ∷ 0 ∷ 3 ∷ 4 ∷ [];
  capacity = 4;
  read_pos = 2;
  write_pos = 1;
  empty = false;
}

-- What a new ring of capacity 2 is after a write of seven bytes: full, at the capacity 7.
abbrev seven : RingBuffer
seven = record {
  buf = 1 ∷ 2 ∷ 3 ∷ 4 ∷ 5 ∷ 6 ∷ 7 ∷ [];
  capacity = 7;
  read_pos = 0;
  write_pos = 0;
  empty = false;
}

abbrev two : RingBuffer
two = record { buf = 7 ∷ 7 ∷ []; capacity = 2; read_pos = 0; write_pos = 0; empty = true }

new_ring-two : new_ring pool (pos 2) ≡ some two
unfolding new_ring ceil_to_power_of_two
new_ring-two = refl

two_to_seven : write pool two (1 ∷ 2 ∷ 3 ∷ 4 ∷ 5 ∷ 6 ∷ 7 ∷ []) ≡ some (7, seven)
unfolding write write_into grow calculate_growth available buffered read
two_to_seven = refl

wrapped-IsValid : IsValid wrapped
wrapped-IsValid = ground arith

seven-IsValid : IsValid seven
seven-IsValid = ground arith

four : IsPowerOfTwo wrapped.capacity
four = (2, refl)

wrapped_bytes : bytes wrapped ≡ 3 ∷ 4 ∷ 5 ∷ []
unfolding bytes
wrapped_bytes = refl

buffered-add-available_example : buffered wrapped + available wrapped ≡ 4
buffered-add-available_example = buffered-add-available wrapped-IsValid

read_lem_example : let (result, rb') = read wrapped 2 in Takes wrapped 2 result rb'
read_lem_example = read_lem 2 wrapped-IsValid four

discard_lem_example :
    let (count, rb') = discard wrapped (pos 2) in
    IsValid rb'
    × (contents rb' ≡ drop 2 (contents wrapped))
    × (count + length (contents rb') ≡ length (contents wrapped))
discard_lem_example = discard_lem (pos 2) wrapped-IsValid four

write_lem_example :
    (rb' : RingBuffer) × (write pool wrapped (8 ∷ 9 ∷ []) ≡ some (2, rb'))
    × Appended wrapped (8 ∷ 9 ∷ []) rb'
write_lem_example = write_lem pool (8 ∷ 9 ∷ []) pool_sized wrapped-IsValid (omega arith)

write_byte_lem_example :
    ((0 < available seven) ⊎ (7 < 4096)
      → (rb' : RingBuffer) × (write_byte pool seven 8 ≡ some rb') × Appended seven (8 ∷ []) rb')
    × (available seven ≡ 0 → 4096 ≤ 7 → write_byte pool seven 8 ≡ none)
write_byte_lem_example = write_byte_lem pool 8 pool_sized seven-IsValid

seven-buffered : 1 < buffered seven
unfolding buffered
seven-buffered = omega arith

seven_full : is_full seven ≡ true
unfolding is_full
seven_full = refl

grow_lem_example :
    (rb' : RingBuffer) × (grow pool seven 8 ≡ some rb')
    × IsValid rb'
    × (contents rb' ≡ contents seven)
    × (buffered rb' ≡ buffered seven)
    × (8 ≤ rb'.capacity)
    × (rb'.read_pos ≡ 0)
grow_lem_example =
    grow_lem pool 8 pool_sized seven-IsValid (unfold buffered in omega arith) (omega arith)

abbrev unused : RingBuffer
unused = record { buf = replicate 512 0; capacity = 512; read_pos = 0; write_pos = 0; empty = true }

abbrev no_pool : ℕ → List ℕ
no_pool n = replicate n 0

read_from-ended_example :
    (rb' : RingBuffer) × (read_from no_pool 1 unused (last [] ∷ []) ≡ some ((0, none), rb'))
    × (buffered unused ≡ 0)
    × (buffered rb' ≡ 512)
read_from-ended_example =
    read_from-ended no_pool unused
      (record {
        storage = refl;
        at_start = λ _. (refl, refl);
        read_in = λ h. absurd (ground arith);
        write_in = λ h. absurd (ground arith);
      })
      refl (omega arith)

-- A ring of eight bytes with one byte at 4, and a reader that answers 7 and then 9: 9 is stored at the
-- start and the byte counted in behind 7 is the one that stood there.
abbrev one_at_four : RingBuffer
one_at_four = record {
  buf = replicate 8 0;
  capacity = 8;
  read_pos = 4;
  write_pos = 5;
  empty = false;
}

nine_misplaced :
    read_from_once one_at_four (more (7 ∷ []) ∷ more (9 ∷ []) ∷ [])
    ≡ some (
      (2, none),
      record one_at_four { buf = 9 ∷ 0 ∷ 0 ∷ 0 ∷ 0 ∷ 7 ∷ 0 ∷ 0 ∷ []; write_pos = 7 },
      [],
    )
unfolding read_from_once wrap_index
nine_misplaced = refl

bytes_misplaced :
    bytes (record one_at_four { buf = 9 ∷ 0 ∷ 0 ∷ 0 ∷ 0 ∷ 7 ∷ 0 ∷ 0 ∷ []; write_pos = 7 })
    ≡ 0 ∷ 7 ∷ 0 ∷ []
unfolding bytes
bytes_misplaced = refl
