-- ===== src/Buffer/Ring/Ended.antt =====
-- What ReadFrom makes of an empty ring when the stream has ended, and of short reads.
use go_common.Common.{
  ℕ, ◌+◌, ◌-◌, ◌≤◌, ◌≡◌, refl, ap, ◌∙◌, true, false, none, some, List, [], ◌∷◌, ltb, leb, ◌==◌,
  length, arith, Bool-cases, inl, inr,
}
use go_common.Common.Bits.{bit_and-zero_left}
use go_common.Common.Slices.{copy_at-nil, take-nil}
use go_common.Buffer.LinkedList.{last, end_of_file}
use go_common.Buffer.Ring.{RingBuffer, buffered, available, wrap_index}
use go_common.Buffer.Ring.Valid.{IsValid}
use go_common.Buffer.Ring.Streams.{
  received, read_head, read_from_once, min_read_size, go_on, read_from,
}

-- Reading nothing marks the ring as not empty.
abbrev marked : RingBuffer → RingBuffer
marked rb = record rb { empty = false; write_pos = 0 }

wrap_zero : (rb : RingBuffer) → wrap_index rb 0 ≡ 0
unfolding wrap_index
wrap_zero rb = elim (Bool-cases (rb.capacity == 0)) [
  | inl t ↦ rw t refl
  | inr t ↦ rw t (bit_and-zero_left (rb.capacity - 1))
]

once-ended :
    (rb : RingBuffer)
    → rb.read_pos ≡ 0
    → rb.write_pos ≡ 0
    → read_from_once rb (last [] ∷ []) ≡ some ((0, some end_of_file), marked rb, [])
unfolding read_from_once
once-ended rb r w =
    let t : leb rb.read_pos rb.write_pos ≡ true = ground arith in
    let none_taken = take-nil ℕ (length rb.buf - rb.write_pos) in
    let place : wrap_index rb (rb.write_pos + 0) ≡ 0 =
      ap (wrap_index rb) (omega arith) ∙ wrap_zero rb in
    let state : received rb rb.write_pos [] ≡ marked rb = λ i. record rb {
      buf = copy_at-nil rb.buf rb.write_pos i;
      empty = false;
      write_pos = place i;
    } in
    rw t (
      ap (λ bs. read_head rb (some ((bs, some end_of_file), []))) none_taken
      ∙ ap (λ s. some ((0, some end_of_file), s, [])) state)

-- `ReadFrom` of a stream that has already ended, into an empty ring with room for a read: it answers no
-- bytes and no error, and the ring, which holds nothing, then counts as full, with its whole capacity
-- buffered.
pub read_from-ended :
    (pool : ℕ → List ℕ) (rb : RingBuffer)
    → IsValid rb
    → rb.empty ≡ true
    → min_read_size ≤ rb.capacity
    → (rb' : RingBuffer) × (read_from pool 1 rb (last [] ∷ []) ≡ some ((0, none), rb'))
      × (buffered rb ≡ 0)
      × (buffered rb' ≡ rb.capacity)
unfolding read_from buffered available
read_from-ended pool rb v e room =
    let start = v.at_start e in
    let same : (rb.read_pos == rb.write_pos) ≡ true = ground (arith, start.0, start.1) in
    let free : available rb ≡ rb.capacity = ground arith in
    let enough : ltb (available rb) min_read_size ≡ false = ground arith in
    let first : (rb.read_pos == 0) ≡ true = ground (arith, start.0) in
    (
      marked rb,
      simp enough (ap (go_on (read_from pool 0)) (once-ended rb start.0 start.1)),
      ground arith,
      ground arith,
    )
