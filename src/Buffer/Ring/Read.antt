-- ===== src/Buffer/Ring/Read.antt =====
-- `Read`, `Discard` and `ReadByte` at a capacity that is a power of two.
use go_common.Common.{
  ℕ, zero, suc, ◌+◌, ◌-◌, ◌%◌, ◌≤◌, ◌<◌, ◌≡◌, refl, Bool, true, false, List, [], length, arith,
  ◌==◌, ltb, ap, sym, ◌∙◌, take, drop, Bool-cases, inl, inr, ◌⊎◌, dec_lt, if◌then◌else◌, subst, ◌≢◌,
  ◌↔◌,
}
use native.Mathlib.Nat.{mod-eq_of_lt, mod-eq-sub-mod, mod-mod, mod-lt, add-mod_right}
use go_common.Common.Slices.{
  window, length-window, window-mod, slice, take-window, drop-window, take_all, drop_all,
}
use go_common.Buffer.Ring.{
  RingBuffer, buffered, reset, wrap_index, read, read_straight, read_round, ReadResult, round_bytes,
}
use go_common.Buffer.Ring.Valid.{
  IsValid, contents, contents_empty, length-contents, IsPowerOfTwo, wrap_index-eq, reset-IsValid,
}
use go_common.Buffer.Ring.View.{shape, IsStraight, IsRound, straight_bytes, round_bytes-window}

-- A remainder after less than one more round.
mod_cases :
    (size r n h : ℕ)
    → r < size
    → n ≤ size
    → h ≡ (r + n) % size
    → ((h ≡ r + n) × (h < size)) ⊎ ((h + size ≡ r + n) × (h < size))
mod_cases size r n h hr hn q = elim (dec_lt (r + n) size) [
  | yes p ↦ inl (q ∙ mod-eq_of_lt p, omega (arith, q, mod-lt (r + n) {m = size}))
  | no p ↦ inr (
    omega (
      arith,
      q,
      mod-eq-sub-mod {n = r + n} {m = size} (omega arith),
      mod-eq_of_lt {n = r + n - size} {m = size} (omega arith),
    ),
    omega (arith, q, mod-lt (r + n) {m = size}),
  )
]

pub buffered_bounds :
    {rb : RingBuffer}
    → IsValid rb
    → rb.empty ≡ false
    → (0 < buffered rb) × (buffered rb ≤ rb.capacity)
unfolding buffered
buffered_bounds v e = ground arith

buffered-advance :
    {rb : RingBuffer} (n h : ℕ)
    → IsValid rb
    → rb.empty ≡ false
    → n < buffered rb
    → h ≡ (rb.read_pos + n) % rb.capacity
    → (buffered (record rb { read_pos = h }) ≡ buffered rb - n)
      × (h < rb.capacity)
      × (0 < n → h ≢ rb.write_pos)
unfolding buffered
buffered-advance {rb} n h v e lt q =
    elim (mod_cases rb.capacity rb.read_pos n h (v.read_in e) (omega (arith, unfold_bounds)) q) [
      | inl c ↦ (ground (arith, v.write_in e), c.1, λ p r. ground (arith, v.write_in e))
      | inr c ↦ (ground (arith, v.write_in e), c.1, λ p r. ground (arith, v.write_in e))
    ]
  where
    unfold_bounds : (0 < buffered rb) × (buffered rb ≤ rb.capacity)
    unfold_bounds = buffered_bounds v e

-- What is left once fewer than all bytes are gone, with the read position at `h`.
pub advance :
    {rb : RingBuffer} (n h : ℕ)
    → IsValid rb
    → rb.empty ≡ false
    → n < buffered rb
    → h ≡ (rb.read_pos + n) % rb.capacity
    → let rb' = record rb { read_pos = h } in IsValid rb' × (contents rb' ≡ drop n (contents rb))
advance {rb} n h v e lt q = (
  let b = buffered-advance n h v e lt q in ground (arith, b),
  ap (window rb.buf rb.capacity h) (buffered-advance n h v e lt q).0
      ∙ window-mod rb.buf rb.capacity h (rb.read_pos + n) (buffered rb - n)
          (rw q (mod-mod (rb.read_pos + n) rb.capacity))
      ∙ sym (drop-window rb.buf rb.capacity rb.read_pos (buffered rb) n (omega arith)),
)

-- What a client sees of a read of `room` bytes at most, and what it leaves.
pub record Takes (rb : RingBuffer) (room : ℕ) (result : ReadResult) (rb' : RingBuffer)
    : Type 0 where
  pub out : result.out ≡ take room (contents rb)
  pub count : result.count ≡ length result.out
  pub failed : (result.ring_empty ≡ true) ↔ ((0 < room) × (rb.empty ≡ true))
  pub rest : contents rb' ≡ drop room (contents rb)
  pub valid : IsValid rb'

-- All bytes gone.
pub drained :
    {rb : RingBuffer} (room : ℕ)
    → IsValid rb
    → buffered rb ≤ room
    → IsValid (reset rb) × (contents (reset rb) ≡ drop room (contents rb))
drained {rb} room v le = (
  reset-IsValid v,
  contents_empty (reset-IsValid v) (unfold reset in refl)
      ∙ sym (drop_all room (contents rb) (omega (arith, length-contents rb))),
)

straight_state :
    {rb : RingBuffer} (n : ℕ)
    → IsValid rb
    → rb.empty ≡ false
    → IsStraight rb
    → 0 < n
    → n ≤ buffered rb
    → IsValid (read_straight rb n) × (contents (read_straight rb n) ≡ drop n (contents rb))
unfolding read_straight reset
straight_state {rb} n v e s left le = elim (dec_lt n (buffered rb)) [
  | yes p ↦
      let t : (rb.read_pos + n == rb.write_pos) ≡ false = ground (arith, s) in
      rw t (advance n (rb.read_pos + n) v e p (sym (mod-eq_of_lt (omega (arith, s, v.write_in e)))))
  | no p ↦
      let t : (rb.read_pos + n == rb.write_pos) ≡ true = ground (arith, s) in
      rw t (drained n v (omega arith))
]

comes_round :
    {rb : RingBuffer}
    → IsValid rb
    → rb.empty ≡ false
    → IsRound rb
    → (rb.read_pos + buffered rb) % rb.capacity ≡ rb.write_pos
comes_round {rb} v e s =
    let q : rb.read_pos + buffered rb ≡ rb.write_pos + rb.capacity =
      omega (arith, s, v.read_in e) in
    rw q (add-mod_right rb.write_pos rb.capacity ∙ mod-eq_of_lt (v.write_in e))

round_state :
    {rb : RingBuffer} (n : ℕ)
    → IsValid rb
    → rb.empty ≡ false
    → IsRound rb
    → IsPowerOfTwo rb.capacity
    → 0 < n
    → n ≤ buffered rb
    → IsValid (read_round rb n) × (contents (read_round rb n) ≡ drop n (contents rb))
unfolding read_round reset
round_state {rb} n v e s two left le = elim (dec_lt n (buffered rb)) [
  | yes p ↦
      let b =
        buffered-advance n (wrap_index rb (rb.read_pos + n)) v e p
          (wrap_index-eq rb (rb.read_pos + n) two) in
      let t : (wrap_index rb (rb.read_pos + n) == rb.write_pos) ≡ false = ground (arith, b) in
      rw t
        (advance n (wrap_index rb (rb.read_pos + n)) v e p (wrap_index-eq rb (rb.read_pos + n) two))
  | no p ↦
      let t : (wrap_index rb (rb.read_pos + n) == rb.write_pos) ≡ true =
        ground (arith, wrap_index-eq rb (rb.read_pos + n) two, s, comes_round v e s) in
      rw t (drained n v (omega arith))
]

-- The number of bytes that `Read` copies.
taken : RingBuffer → ℕ → ℕ
taken rb room = if ltb room (buffered rb) then room else buffered rb

abbrev outcome : List ℕ → ℕ → Bool → ReadResult
outcome out count failed = record { out = out; count = count; ring_empty = failed }

read_branches :
    (rb : RingBuffer) (room : ℕ)
    → (room ≡ 0 → read rb room ≡ (outcome [] 0 false, rb))
      × (0 < room → rb.empty ≡ true → read rb room ≡ (outcome [] 0 true, rb))
      × (0 < room
          → rb.empty ≡ false
          → ltb rb.read_pos rb.write_pos ≡ true
          → read rb room ≡ (
            outcome (slice rb.buf rb.read_pos (rb.read_pos + taken rb room)) (taken rb room) false,
            read_straight rb (taken rb room),
          ))
      × (0 < room
          → rb.empty ≡ false
          → ltb rb.read_pos rb.write_pos ≡ false
          → read rb room ≡ (
            outcome (round_bytes rb (taken rb room)) (taken rb room) false,
            read_round rb (taken rb room),
          ))
unfolding read taken
read_branches rb room =
    (λ a. ground arith, λ a b. ground arith, λ a b c. ground arith, λ a b c. ground arith)

-- The bytes taken and left, in terms of the room.
taken_lem :
    {rb : RingBuffer} (room : ℕ)
    → IsValid rb
    → rb.empty ≡ false
    → 0 < room
    → (0 < taken rb room)
      × (taken rb room ≤ buffered rb)
      × (take room (contents rb) ≡ window rb.buf rb.capacity rb.read_pos (taken rb room))
      × (drop room (contents rb) ≡ drop (taken rb room) (contents rb))
unfolding taken
taken_lem {rb} room v e some_room = elim (Bool-cases (ltb room (buffered rb))) [
  | inl t ↦ rw t (
    some_room,
    ground arith,
    take-window rb.buf rb.capacity rb.read_pos (buffered rb) room (ground arith),
    refl,
  )
  | inr t ↦ rw t (
    (buffered_bounds v e).0,
    omega arith,
    take_all room (contents rb) (ground (arith, length-contents rb)),
    drop_all room (contents rb) (ground (arith, length-contents rb))
        ∙ sym (drop_all (buffered rb) (contents rb) (omega (arith, length-contents rb))),
  )
]

-- `Read` into `p` of a valid buffer whose capacity is a power of two copies its first `len(p)` bytes,
-- fewer if it holds fewer, returns their number, leaves the rest buffered in order, and fails only on
-- an empty buffer and a non-empty `p`.
pub read_lem :
    {rb : RingBuffer} (room : ℕ)
    → IsValid rb
    → IsPowerOfTwo rb.capacity
    → let (result, rb') = read rb room in Takes rb room result rb'
read_lem {rb} zero v two =
    subst (λ p. Takes rb 0 p.0 p.1) (sym ((read_branches rb 0).0 refl))
      (record { out = refl; count = refl; failed = ground arith; rest = refl; valid = v })
read_lem {rb} (suc k) v two = elim (Bool-cases rb.empty) [
  | inl e ↦
      subst (λ p. Takes rb (suc k) p.0 p.1) (sym ((read_branches rb (suc k)).1 (omega arith) e))
        (record {
          out = sym (ap (take (suc k)) (contents_empty v e));
          count = refl;
          failed = ground (arith, e);
          rest = contents_empty v e ∙ sym (ap (drop (suc k)) (contents_empty v e));
          valid = v;
        })
  | inr e ↦
      let t = taken_lem (suc k) v e (omega arith) in
      elim (shape v e) [
        | inl (o, s) ↦
            subst (λ p. Takes rb (suc k) p.0 p.1)
              (sym ((read_branches rb (suc k)).2 (omega arith) e o))
              (taking e t (straight_bytes _ v e s t.1) (straight_state _ v e s t.0 t.1))
        | inr (o, s) ↦
            subst (λ p. Takes rb (suc k) p.0 p.1)
              (sym ((read_branches rb (suc k)).3 (omega arith) e o))
              (taking e t (round_bytes-window _ v e s t.1) (round_state _ v e s two t.0 t.1))
      ]
]
  where
    taking :
        {out : List ℕ} {rb' : RingBuffer}
        → rb.empty ≡ false
        → (0 < taken rb (suc k))
          × (taken rb (suc k) ≤ buffered rb)
          × (take (suc k) (contents rb) ≡ window rb.buf rb.capacity rb.read_pos (taken rb (suc k)))
          × (drop (suc k) (contents rb) ≡ drop (taken rb (suc k)) (contents rb))
        → out ≡ window rb.buf rb.capacity rb.read_pos (taken rb (suc k))
        → IsValid rb' × (contents rb' ≡ drop (taken rb (suc k)) (contents rb))
        → Takes rb (suc k) (outcome out (taken rb (suc k)) false) rb'
    taking e t o st = record {
      out = o ∙ sym t.2;
      count = sym (ap length o ∙ length-window rb.buf rb.capacity rb.read_pos (taken rb (suc k)));
      failed = ground (arith, e);
      rest = st.1 ∙ sym t.3;
      valid = st.0;
    }

-- What it copies does not depend on the capacity.
pub out-read :
    {rb : RingBuffer} (room : ℕ) → IsValid rb → (read rb room).0.out ≡ take room (contents rb)
out-read {rb} zero v = ap (λ p. p.0.out) ((read_branches rb 0).0 refl)
out-read {rb} (suc k) v = elim (Bool-cases rb.empty) [
  | inl e ↦
      ap (λ p. p.0.out) ((read_branches rb (suc k)).1 (omega arith) e)
      ∙ sym (ap (take (suc k)) (contents_empty v e))
  | inr e ↦
      let t = taken_lem (suc k) v e (omega arith) in
      elim (shape v e) [
        | inl (o, s) ↦
            ap (λ p. p.0.out) ((read_branches rb (suc k)).2 (omega arith) e o)
            ∙ straight_bytes _ v e s t.1
            ∙ sym t.2
        | inr (o, s) ↦
            ap (λ p. p.0.out) ((read_branches rb (suc k)).3 (omega arith) e o)
            ∙ round_bytes-window _ v e s t.1
            ∙ sym t.2
      ]
]
