-- ===== src/Buffer/Ring/Limits.antt =====
-- `WriteByte`, with the full buffers on which it panics, and what `Discard` and `Read` do at a capacity
-- that is no power of two.
use Prim.Native.Nat.{bit_and}
use go_common.Common.{
  ℕ, ◌-◌, ◌*◌, ◌/◌, ◌%◌, ◌≤◌, ◌<◌, ◌≡◌, refl, true, false, List, [], ◌∷◌, ◌++◌, length, arith, ltb,
  ap, ◌∙◌, inl, inr, dec_lt, some, none, ◌⊎◌,
}
use go_common.Common.Int.{pos}
use go_common.Common.Bits.{bit_and-halves, bit_and-zero_left}
use go_common.Common.Slices.{copy_at_one}
use go_common.Buffer.Ring.{
  RingBuffer, buffered, available, is_full, read, read_round, discard, wrap_index, reset,
}
use go_common.Buffer.Ring.Grow.{put_byte, write_byte, calculate_growth}
use go_common.Buffer.Ring.Valid.{
  IsValid, contents, contents_empty, length-contents, buffered-add-available, reset-IsValid,
}
use go_common.Buffer.Ring.Growth.{grow_to, grow_same, calculate_growth_one, calculate_growth_zero}
use go_common.Buffer.Ring.Write.{Appended, Appended-once}

room_at : {rb : RingBuffer} → IsValid rb → 0 < available rb → rb.write_pos < rb.capacity
unfolding available
room_at v room = ground arith

put_byte_lem :
    {rb : RingBuffer} (c : ℕ)
    → IsValid rb
    → 0 < available rb
    → (rb' : RingBuffer) × (put_byte rb c ≡ some rb') × Appended rb (c ∷ []) rb'
unfolding put_byte
put_byte_lem {rb} c v room =
    let t : ltb rb.write_pos (length rb.buf) ≡ true = ground (arith, room_at v room) in
    rw (t, ← copy_at_one rb.buf rb.write_pos c)
      (
        _,
        refl,
        Appended-once (c ∷ []) v (omega arith) (omega arith) (omega (arith, room_at v room)),
      )

full_state : {rb : RingBuffer} → IsValid rb → available rb ≡ 0 → buffered rb ≡ rb.capacity
full_state v e = omega (arith, buffered-add-available v)

-- `WriteByte` on a valid buffer that has room, or whose capacity is below 4096, appends its byte; on a
-- full buffer of capacity 4096 or more it panics.
pub write_byte_lem :
    (pool : ℕ → List ℕ) {rb : RingBuffer} (c : ℕ)
    → ((n : ℕ) → length (pool n) ≡ n)
    → IsValid rb
    → ((0 < available rb) ⊎ (rb.capacity < 4096)
        → (rb' : RingBuffer) × (write_byte pool rb c ≡ some rb') × Appended rb (c ∷ []) rb')
      × (available rb ≡ 0 → 4096 ≤ rb.capacity → write_byte pool rb c ≡ none)
unfolding write_byte
write_byte_lem pool {rb} c sized v = (written, panics)
  where
    written :
        (0 < available rb) ⊎ (rb.capacity < 4096)
        → (rb' : RingBuffer) × (write_byte pool rb c ≡ some rb') × Appended rb (c ∷ []) rb'
    written h = elim (dec_lt 0 (available rb)) [
      | yes room ↦
          let t : ltb (available rb) 1 ≡ false = ground arith in rw t (put_byte_lem c v room)
      | no full ↦
          let t : ltb (available rb) 1 ≡ true = ground arith in
          let (size, e, lt) = larger (omega arith) h in
          let (rb1, g, m) = grow_to pool 1 size sized v e lt in
          let (rb', p, a) =
            put_byte_lem c m.valid (omega (arith, buffered-add-available m.valid, m)) in
          rw (t, g)
            (rb', p, record { valid = a.valid; bytes = a.bytes ∙ ap (λ l. l ++ (c ∷ [])) m.bytes })
    ]
      where
        larger :
            available rb ≡ 0
            → (0 < available rb) ⊎ (rb.capacity < 4096)
            → (size : ℕ) × (calculate_growth rb.capacity 1 ≡ some size) × (buffered rb < size)
        larger z (inl room) = absurd (omega arith)
        larger z (inr small) = elim (dec_lt 0 rb.capacity) [
          | yes some_cap ↦ (
            rb.capacity * 2,
            (calculate_growth_one rb.capacity).0 some_cap small,
            omega (arith, full_state v z),
          )
          | no none_yet ↦
              (1024, calculate_growth_zero rb.capacity (omega arith), omega (arith, full_state v z))
        ]

    panics : available rb ≡ 0 → 4096 ≤ rb.capacity → write_byte pool rb c ≡ none
    panics z big =
        let t : ltb (available rb) 1 ≡ true = ground arith in
        let (rb1, g, w, l) = grow_same pool rb sized big (full_state v z) in
        rw (t, g) (unfold put_byte in ground arith)

odd_wrap : (rb : RingBuffer) → rb.capacity % 2 ≡ 1 → wrap_index rb 1 ≡ 0
unfolding wrap_index
odd_wrap rb odd =
    let even : (rb.capacity - 1) % 2 ≡ 0 = omega arith in
    let mask : bit_and 1 (rb.capacity - 1) ≡ 0 =
      omega
        (arith, bit_and-halves 1 (rb.capacity - 1), bit_and-zero_left ((rb.capacity - 1) / 2)) in
    ground arith

-- `Discard(1)` of a buffer of odd capacity that starts at index 0 and holds more than one byte says
-- that it dropped one, and changes nothing.
pub discard_ignored :
    (rb : RingBuffer)
    → rb.capacity % 2 ≡ 1
    → rb.read_pos ≡ 0
    → 1 < buffered rb
    → discard rb (pos 1) ≡ (1, rb)
unfolding discard
discard_ignored rb odd start some_more = ground (arith, odd_wrap rb odd, start)

full_facts :
    (rb : RingBuffer)
    → is_full rb ≡ true
    → (rb.empty ≡ false) × (rb.write_pos ≡ rb.read_pos) × (buffered rb ≡ rb.capacity)
unfolding is_full buffered
full_facts rb full = ground arith

state_lost :
    (rb : RingBuffer)
    → rb.capacity % 2 ≡ 1
    → rb.read_pos ≡ 0
    → is_full rb ≡ true
    → (read rb 1).1 ≡ reset rb
unfolding read read_round reset
state_lost rb odd start full = ground (arith, full_facts rb full, odd_wrap rb odd)

-- `Read` of one byte from a full buffer of odd capacity that starts at index 0 loses all the others.
pub read_loses :
    {rb : RingBuffer}
    → IsValid rb
    → rb.capacity % 2 ≡ 1
    → rb.read_pos ≡ 0
    → is_full rb ≡ true
    → ((read rb 1).0.count ≡ 1)
      × (contents (read rb 1).1 ≡ [])
      × (length (contents rb) ≡ rb.capacity)
read_loses {rb} v odd start full =
    let (e, w, b) = full_facts rb full in
    let one : (read rb 1).1 ≡ reset rb = state_lost rb odd start full in
    (
      unfold read is_full in ground (arith, b),
      ap contents one ∙ contents_empty (reset-IsValid v) (unfold reset in refl),
      length-contents rb ∙ b,
    )
