-- ===== src/Buffer/Ring/Write.antt =====
-- `Write` and `WriteByte` append to what the buffer holds.
use native.Mathlib.Nat.{zero-add, add-mod_right}
use mathlib.Core.List.{append_assoc, append-nil}
use go_common.Common.{
  ℕ, ◌+◌, ◌-◌, ◌^◌, ◌%◌, ◌≤◌, ◌<◌, ◌≡◌, refl, false, List, [], ◌∷◌, ◌++◌, length, arith, ◌==◌, ltb,
  leb, ap, sym, ◌∙◌, take, drop, take-append-drop, length-take, length-drop, Bool-cases, inl, inr,
  if◌then◌else◌, some, ◌⊎◌,
}
use go_common.Common.Slices.{window, window-copy_at, length-copy_at, copy_at}
use go_common.Buffer.Ring.{RingBuffer, buffered, available}
use go_common.Buffer.Ring.Grow.{write_into, write}
use go_common.Buffer.Ring.Valid.{IsValid, contents, buffered-add-available}
use go_common.Buffer.Ring.Growth.{grow_lem}

end_cases :
    {rb : RingBuffer}
    → IsValid rb
    → (rb.read_pos + buffered rb ≡ rb.write_pos)
      ⊎ (rb.read_pos + buffered rb ≡ rb.write_pos + rb.capacity)
unfolding buffered
end_cases v = ground arith

-- The write position is where the window of the buffered bytes ends.
pub write_at :
    {rb : RingBuffer}
    → IsValid rb
    → rb.write_pos % rb.capacity ≡ (rb.read_pos + buffered rb) % rb.capacity
write_at {rb} v = elim (end_cases v) [
  | inl e ↦ rw e
  | inr e ↦ rw e (sym (add-mod_right rb.write_pos rb.capacity))
]

-- The record that `write_into` leaves, by the storage and the end of the copy.
abbrev stored : RingBuffer → List ℕ → ℕ → RingBuffer
stored rb buf e = record rb {
  buf = buf;
  write_pos = if e == rb.capacity then 0 else e;
  empty = false;
}

-- `n` bytes more, with the write position at `e`.
stored_state :
    {rb : RingBuffer} (buf : List ℕ) (n e : ℕ)
    → IsValid rb
    → 0 < n
    → n ≤ available rb
    → length buf ≡ rb.capacity
    → ((e ≡ rb.write_pos + n) × (e ≤ rb.capacity))
      ⊎ ((rb.read_pos ≤ rb.write_pos) × (e + rb.capacity ≡ rb.write_pos + n))
    → IsValid (stored rb buf e) × (buffered (stored rb buf e) ≡ buffered rb + n)
unfolding buffered available
stored_state buf n e v some_room le hl c = ground arith

-- The bytes of `p` are appended, and nothing else changes for a reader.
pub record Appended (rb : RingBuffer) (p : List ℕ) (rb' : RingBuffer) : Type 0 where
  pub valid : IsValid rb'
  pub bytes : contents rb' ≡ contents rb ++ p

write_pos-le : {rb : RingBuffer} → IsValid rb → rb.write_pos ≤ rb.capacity
write_pos-le v = ground (arith, v)

-- Round to the start of the storage.
round_at :
    {rb : RingBuffer} (k : ℕ)
    → IsValid rb
    → k ≡ rb.capacity - rb.write_pos
    → 0 % rb.capacity ≡ (rb.read_pos + (buffered rb + k)) % rb.capacity
round_at {rb} k v q = elim (end_cases v) [
  | inl e ↦
      let s : rb.read_pos + (buffered rb + k) ≡ 0 + rb.capacity = omega (arith, write_pos-le v) in
      rw s (sym (add-mod_right 0 rb.capacity))
  | inr e ↦
      let s : rb.read_pos + (buffered rb + k) ≡ rb.capacity + rb.capacity =
        omega (arith, write_pos-le v) in
      rw s (
        sym (add-mod_right 0 rb.capacity)
        ∙ ap (λ c. c % rb.capacity) (zero-add rb.capacity)
        ∙ sym (add-mod_right rb.capacity rb.capacity))
]

-- One copy, and two.
pub Appended-once :
    {rb : RingBuffer} (p : List ℕ)
    → IsValid rb
    → 0 < length p
    → length p ≤ available rb
    → rb.write_pos + length p ≤ rb.capacity
    → Appended rb p (stored rb (copy_at rb.buf rb.write_pos p) (rb.write_pos + length p))
Appended-once {rb} p v some_room le fits =
    let buf = copy_at rb.buf rb.write_pos p in
    let st =
      stored_state buf (length p) (rb.write_pos + length p) v some_room le
        (length-copy_at rb.buf rb.write_pos p ∙ v.storage) (inl (refl, fits)) in
    record {
      valid = st.0;
      bytes =
          ap (window buf rb.capacity rb.read_pos) st.1
          ∙ window-copy_at p rb.buf rb.capacity rb.read_pos (buffered rb) rb.write_pos v.storage
              (omega (arith, buffered-add-available v)) fits (write_at v);
    }

Appended-twice :
    {rb : RingBuffer} (p : List ℕ) (k : ℕ)
    → IsValid rb
    → 0 < length p
    → length p ≤ available rb
    → rb.read_pos ≤ rb.write_pos
    → k ≡ rb.capacity - rb.write_pos
    → k < length p
    → Appended rb p
        (stored rb (copy_at (copy_at rb.buf rb.write_pos (take k p)) 0 (drop k p)) (length p - k))
Appended-twice {rb} p k v some_room le round q lt =
    let first = copy_at rb.buf rb.write_pos (take k p) in
    let buf = copy_at first 0 (drop k p) in
    let hl : length first ≡ rb.capacity =
      length-copy_at rb.buf rb.write_pos (take k p) ∙ v.storage in
    let lt1 : length (take k p) ≡ k = omega (arith, length-take k p) in
    let lt2 : length (drop k p) ≡ length p - k = length-drop k p in
    let sum = buffered-add-available v in
    let split : buffered rb + length p ≡ buffered rb + k + length (drop k p) = omega arith in
    let st =
      stored_state buf (length p) (length p - k) v some_room le
        (length-copy_at first 0 (drop k p) ∙ hl) (inr (round, omega (arith, write_pos-le v))) in
    record {
      valid = st.0;
      bytes =
          ap (window buf rb.capacity rb.read_pos) (st.1 ∙ split)
          ∙ window-copy_at (drop k p) first rb.capacity rb.read_pos (buffered rb + k) 0 hl
              (omega arith) (omega (arith, write_pos-le v)) (round_at k v q)
          ∙ ap (λ l. l ++ drop k p)
              (ap (λ m. window first rb.capacity rb.read_pos (buffered rb + m)) (sym lt1)
                ∙ window-copy_at (take k p) rb.buf rb.capacity rb.read_pos (buffered rb)
                    rb.write_pos v.storage (omega arith) (omega (arith, write_pos-le v))
                    (write_at v))
          ∙ append_assoc (contents rb) (take k p) (drop k p)
          ∙ ap (λ l. contents rb ++ l) (take-append-drop k p);
    }

available_below :
    (rb : RingBuffer) → rb.write_pos < rb.read_pos → available rb ≡ rb.read_pos - rb.write_pos
unfolding available
available_below rb lt = ground arith

read_pos-le : {rb : RingBuffer} → IsValid rb → rb.read_pos ≤ rb.capacity
read_pos-le v = ground (arith, v)

-- `Write` once there is room.
pub write_into_lem :
    {rb : RingBuffer} (p : List ℕ)
    → IsValid rb
    → 0 < length p
    → length p ≤ available rb
    → Appended rb p (write_into rb p)
unfolding write_into
write_into_lem {rb} p v some_room le = elim (Bool-cases (leb rb.read_pos rb.write_pos)) [
  | inl t ↦ elim (Bool-cases (leb (length p) (rb.capacity - rb.write_pos))) [
    | inl u ↦ rw (t, u) (Appended-once p v some_room le (ground (arith, write_pos-le v)))
    | inr u ↦
        rw (t, u)
          (Appended-twice p (rb.capacity - rb.write_pos) v some_room le (ground arith) refl
            (ground arith))
  ]
  | inr t ↦ rw t (Appended-once p v some_room le (below (ground arith)))
]
  where
    below : rb.write_pos < rb.read_pos → rb.write_pos + length p ≤ rb.capacity
    below lt = omega (arith, available_below rb lt, read_pos-le v)

-- `Write` of any bytes to any valid buffer, of any capacity, does not panic below 2 ^ 62 bytes: it
-- returns their number and appends them to what was buffered, growing the storage where it must.
pub write_lem :
    (pool : ℕ → List ℕ) {rb : RingBuffer} (p : List ℕ)
    → ((n : ℕ) → length (pool n) ≡ n)
    → IsValid rb
    → rb.capacity + length p ≤ 2 ^ 62
    → (rb' : RingBuffer) × (write pool rb p ≡ some (length p, rb')) × Appended rb p rb'
unfolding write
write_lem pool {rb} [] sized v small =
    (rb, refl, record { valid = v; bytes = sym (append-nil (contents rb)) })
write_lem pool {rb} (x ∷ xs) sized v small =
    let p = x ∷ xs in
    let t : (length p == 0) ≡ false = ground arith in
    rw t (elim (Bool-cases (ltb (available rb) (length p))) [
      | inr u ↦ rw u (write_into rb p, refl, write_into_lem p v (omega arith) (ground arith))
      | inl u ↦ rw u (
          let (rb1, e, v1, c1, b1, le1, _) =
            grow_lem pool (rb.capacity + length p - available rb) sized v
              (omega (arith, buffered-add-available v)) (omega arith) in
          let a =
            write_into_lem p v1 (omega arith)
              (omega (arith, buffered-add-available v, buffered-add-available v1)) in
          (
            write_into rb1 p,
            rw e,
            record { valid = a.valid; bytes = a.bytes ∙ ap (λ l. l ++ p) c1 },
          ))
    ])
