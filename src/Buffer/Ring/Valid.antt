-- ===== src/Buffer/Ring/Valid.antt =====
-- The representation invariant of the ring buffer, and the bytes that it holds.
use go_common.Common.{
  ℕ, ◌+◌, ◌-◌, ◌^◌, ◌%◌, ◌<◌, ◌≡◌, refl, true, false, List, [], length, arith, ap,
}
use Prim.Native.Nat.{bit_and}
use go_common.Common.Bits.{bit_and_mask, pow_two-pos}
use go_common.Common.Slices.{window, length-window}
use go_common.Buffer.Ring.{RingBuffer, buffered, available, reset, wrap_index}

pub record IsValid (rb : RingBuffer) : Type 0 where
  pub storage : length rb.buf ≡ rb.capacity
  pub at_start : rb.empty ≡ true → (rb.read_pos ≡ 0) × (rb.write_pos ≡ 0)
  pub read_in : rb.empty ≡ false → rb.read_pos < rb.capacity
  pub write_in : rb.empty ≡ false → rb.write_pos < rb.capacity

-- The buffered bytes, oldest first.
abbrev pub contents : RingBuffer → List ℕ
contents rb = window rb.buf rb.capacity rb.read_pos (buffered rb)

pub length-contents : (rb : RingBuffer) → length (contents rb) ≡ buffered rb
length-contents rb = length-window rb.buf rb.capacity rb.read_pos (buffered rb)

-- The capacities at which the mask of `wrapIndex` is a remainder.
abbrev pub IsPowerOfTwo : ℕ → Type 0
IsPowerOfTwo n = (k : ℕ) × (n ≡ 2 ^ k)

pub wrap_index-eq :
    (rb : RingBuffer) (i : ℕ) → IsPowerOfTwo rb.capacity → wrap_index rb i ≡ i % rb.capacity
unfolding wrap_index
wrap_index-eq rb i (k, e) = ground (
  arith,
  ap (λ (c : ℕ). bit_and i (c - 1)) e,
  ap (λ (c : ℕ). i % c) e,
  bit_and_mask k i,
  pow_two-pos k,
)

-- What is buffered and what is free make up the capacity.
pub buffered-add-available :
    {rb : RingBuffer} → IsValid rb → buffered rb + available rb ≡ rb.capacity
unfolding buffered available
buffered-add-available v = ground arith

pub buffered-reset : (rb : RingBuffer) → buffered (reset rb) ≡ 0
unfolding buffered reset
buffered-reset rb = refl

pub reset-IsValid : {rb : RingBuffer} → IsValid rb → IsValid (reset rb)
unfolding reset
reset-IsValid v = ground arith

pub contents_empty : {rb : RingBuffer} → IsValid rb → rb.empty ≡ true → contents rb ≡ []
contents_empty {rb} v e = ap (window rb.buf rb.capacity rb.read_pos) none_left
  where
    none_left : buffered rb ≡ 0
    none_left = unfold buffered in ground arith
