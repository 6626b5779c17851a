-- ===== src/Buffer/Ring/View.antt =====
-- What `Bytes` and `Peek` show: the buffered bytes, whichever way round they lie.
use go_common.Common.{
  ℕ, zero, suc, ◌+◌, ◌-◌, ◌≤◌, ◌<◌, ◌≡◌, refl, true, false, List, [], ◌++◌, length, arith, ltb,
  if◌then◌else◌, ap, ap₂, sym, ◌∙◌, take, drop, length-drop, Bool-cases, inl, inr, ◌⊎◌, leb,
}
use native.Mathlib.Nat.{add-mod_right}
use mathlib.Core.List.{append-nil}
use go_common.Common.Int.{ℤ, pos, pos_part, ◌≤ℤ◌, ◌<ℤ◌}
use go_common.Common.Slices.{
  window, window-slice, window-add, window-mod, slice, take-window, take_all, take-nil,
}
use go_common.Buffer.Ring.{RingBuffer, buffered, bytes, peek, peek_all, peek_some, round_bytes}
use go_common.Buffer.Ring.Valid.{IsValid, contents, contents_empty, length-contents}

-- From `h` on, up to the end of the storage and `t` bytes from its start.
pub window_round :
    (buf : List ℕ) (size h t : ℕ)
    → length buf ≡ size
    → h < size
    → t ≤ size
    → window buf size h (size - h + t) ≡ drop h buf ++ take t buf
window_round buf size h t hl hh ht =
    window-add buf size h (size - h) t
    ∙ ap₂ ◌++◌
        (window-slice buf size h (size - h) (omega arith) (omega arith)
          ∙ take_all (size - h) (drop h buf) (omega (arith, length-drop h buf)))
        (window-mod buf size (h + (size - h)) 0 t (rw round (add-mod_right 0 size))
          ∙ window-slice buf size 0 t (omega arith) (omega arith))
  where
    round : h + (size - h) ≡ 0 + size
    round = omega arith

-- The shape of a buffer that holds something.
pub record IsStraight (rb : RingBuffer) : Type 0 where
  pub order : rb.read_pos < rb.write_pos
  pub count : buffered rb ≡ rb.write_pos - rb.read_pos

pub record IsRound (rb : RingBuffer) : Type 0 where
  pub order : rb.write_pos ≤ rb.read_pos
  pub count : buffered rb ≡ rb.capacity - rb.read_pos + rb.write_pos

pub shape :
    {rb : RingBuffer}
    → IsValid rb
    → rb.empty ≡ false
    → ((ltb rb.read_pos rb.write_pos ≡ true) × IsStraight rb)
      ⊎ ((ltb rb.read_pos rb.write_pos ≡ false) × IsRound rb)
unfolding buffered
shape v e = ground arith

-- The slice that the code takes of a buffer that does not go round.
pub straight_bytes :
    {rb : RingBuffer} (n : ℕ)
    → IsValid rb
    → rb.empty ≡ false
    → IsStraight rb
    → n ≤ buffered rb
    → slice rb.buf rb.read_pos (rb.read_pos + n) ≡ window rb.buf rb.capacity rb.read_pos n
straight_bytes {rb} n v e s le =
    let q : rb.read_pos + n - rb.read_pos ≡ n = omega arith in
    rw q
      (sym (window-slice rb.buf rb.capacity rb.read_pos n (omega (arith, v, s)) (omega (arith, v))))

-- The one or two slices of a buffer that goes round.
pub round_bytes-window :
    {rb : RingBuffer} (n : ℕ)
    → IsValid rb
    → rb.empty ≡ false
    → IsRound rb
    → n ≤ buffered rb
    → round_bytes rb n ≡ window rb.buf rb.capacity rb.read_pos n
unfolding round_bytes
round_bytes-window {rb} n v e s le = elim (Bool-cases (leb n (rb.capacity - rb.read_pos))) [
  | inl one ↦
      let q : rb.read_pos + n - rb.read_pos ≡ n = omega arith in
      rw (one, q)
        (sym
          (window-slice rb.buf rb.capacity rb.read_pos n (ground (arith, v, s)) (omega (arith, v))))
  | inr two ↦
      let q : n ≡ rb.capacity - rb.read_pos + (n - (rb.capacity - rb.read_pos)) = ground arith in
      rw two (
        sym (
          ap (window rb.buf rb.capacity rb.read_pos) q
          ∙ window_round rb.buf rb.capacity rb.read_pos (n - (rb.capacity - rb.read_pos)) v.storage
              (v.read_in e) (omega (arith, v, s, v.write_in e))))
]

-- All of it: the two branches of `Bytes` and of `peekAll`.
all_straight :
    {rb : RingBuffer}
    → IsValid rb
    → rb.empty ≡ false
    → IsStraight rb
    → slice rb.buf rb.read_pos rb.write_pos ≡ contents rb
all_straight {rb} v e s =
    let q : rb.read_pos + buffered rb ≡ rb.write_pos = omega (arith, s) in
    ap (slice rb.buf rb.read_pos) (sym q) ∙ straight_bytes (buffered rb) v e s (omega arith)

all_round :
    {rb : RingBuffer}
    → IsValid rb
    → rb.empty ≡ false
    → IsRound rb
    → drop rb.read_pos rb.buf ++ take rb.write_pos rb.buf ≡ contents rb
all_round {rb} v e s = sym (
    ap (window rb.buf rb.capacity rb.read_pos) s.count
    ∙ window_round rb.buf rb.capacity rb.read_pos rb.write_pos v.storage (v.read_in e)
        (omega (arith, v.write_in e)))

-- A test of the code that leaves an empty slice out.
take_test : (n : ℕ) (xs : List ℕ) → (if ltb 0 n then take n xs else []) ≡ take n xs
take_test zero xs = refl
take_test (suc n) xs = ground arith

-- `Bytes` of a valid buffer returns what is buffered, oldest first, whichever way round it lies.
pub bytes-eq-contents : {rb : RingBuffer} → IsValid rb → bytes rb ≡ contents rb
unfolding bytes
bytes-eq-contents {rb} v = elim (Bool-cases rb.empty) [
  | inl e ↦ ground (arith, contents_empty v e)
  | inr e ↦ elim (shape v e) [
    | inl (t, s) ↦ ground (arith, e, t, all_straight v e s)
    | inr (t, s) ↦ ground (arith, e, t, all_round v e s, take_test rb.write_pos rb.buf)
  ]
]

peek_all-contents :
    {rb : RingBuffer} → IsValid rb → (peek_all rb).0 ++ (peek_all rb).1 ≡ contents rb
unfolding peek_all
peek_all-contents {rb} v = elim (Bool-cases rb.empty) [
  | inl e ↦ ground (arith, contents_empty v e)
  | inr e ↦ elim (shape v e) [
    | inl (t, s) ↦
        ground (arith, e, t, all_straight v e s, append-nil (slice rb.buf rb.read_pos rb.write_pos))
    | inr (t, s) ↦ ground (arith, e, t, all_round v e s, take_test rb.write_pos rb.buf)
  ]
]

peek_some-window :
    {rb : RingBuffer} (n : ℕ)
    → IsValid rb
    → rb.empty ≡ false
    → n ≤ buffered rb
    → (peek_some rb n).0 ++ (peek_some rb n).1 ≡ window rb.buf rb.capacity rb.read_pos n
unfolding peek_some round_bytes
peek_some-window {rb} n v e le = elim (shape v e) [
  | inl (t, s) ↦
      ground (
        arith,
        t,
        straight_bytes n v e s le,
        append-nil (slice rb.buf rb.read_pos (rb.read_pos + n)),
      )
  | inr (t, s) ↦ ground (
    arith,
    t,
    round_bytes-window n v e s le,
    append-nil (slice rb.buf rb.read_pos (rb.read_pos + n)),
  )
]

-- `Peek(n)` of a valid buffer returns two slices that make up its first `n` bytes: fewer if it holds
-- fewer, and all of them if `n` is zero or negative.
pub peek_lem :
    {rb : RingBuffer} (n : ℤ)
    → IsValid rb
    → let (head, tail) = peek rb n in
      (n ≤ℤ pos 0 → head ++ tail ≡ contents rb)
      × (pos 0 <ℤ n → head ++ tail ≡ take (pos_part n) (contents rb))
unfolding peek
peek_lem {rb} n v = elim (Bool-cases rb.empty) [
  | inl e ↦ ground (arith, contents_empty v e, take-nil ℕ (pos_part n))
  | inr e ↦ ground (
    arith,
    peek_all-contents v,
    peek_some-window (pos_part n) v e,
    peek_some-window (buffered rb) v e,
    take-window rb.buf rb.capacity rb.read_pos (buffered rb) (pos_part n),
    take_all (pos_part n) (contents rb),
    length-contents rb,
  )
]
