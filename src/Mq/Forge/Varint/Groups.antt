-- ===== src/Mq/Forge/Varint/Groups.antt =====
-- A varint read back is the one written, and its size is the one announced.
use go_common.Common.{
  ℕ, zero, suc, ◌+◌, ◌/◌, ◌%◌, ◌^◌, ◌≤◌, ◌<◌, ◌≡◌, refl, ap, ◌∙◌, true, false, none, some, List,
  ◌++◌, ltb, length, take, arith, Bool-cases, inl, inr,
}
use go_common.Common.Int.{ℤ, pos, negsuc, InI64}
use go_common.Mq.Forge.Varint.{
  zigzag, unzigzag, put_uvarint, uvarint, put_varint, varint, size_loop, varint_size, signed,
}

-- What `k + 1` bytes hold when the last has one bit alone.
pub unzigzag-zigzag : (v : ℤ) → InI64 v → unzigzag (zigzag v) ≡ v
unfolding zigzag unzigzag
unzigzag-zigzag (pos n) h = ground arith
unzigzag-zigzag (negsuc n) h = ground arith

pub zigzag-bound : (v : ℤ) → zigzag v < 2 ^ 64
unfolding zigzag
zigzag-bound v = ground arith

-- Room for `x` in `k + 1` bytes, of which the tenth holds one bit.
abbrev pub Fits : ℕ → ℕ → Type 0
Fits zero x = x < 2
Fits (suc k) x = Fits k (x / 128)

pub uvarint-put_uvarint :
    (k x : ℕ) (rest : List ℕ)
    → Fits k x
    → uvarint (suc k) (put_uvarint (suc k) x ++ rest) ≡ some (x, length (put_uvarint (suc k) x))
unfolding uvarint put_uvarint
uvarint-put_uvarint zero x rest h =
    let t : ltb x 128 ≡ true = ground arith in
    let u : ltb 1 x ≡ false = ground arith in ground arith
uvarint-put_uvarint (suc k) x rest h = elim (Bool-cases (ltb x 128)) [
  | inl t ↦ ground arith
  | inr t ↦
      let s : ltb (x % 128 + 128) 128 ≡ false = ground arith in
      ground (arith, uvarint-put_uvarint k (x / 128) rest h)
]

Fits-bound : (x : ℕ) → x < 2 ^ 64 → Fits 9 x
Fits-bound x h = omega arith

pub varint-put_varint :
    (v : ℤ) (rest : List ℕ)
    → InI64 v
    → varint (put_varint v ++ rest) ≡ some (v, length (put_varint v))
unfolding varint put_varint
varint-put_varint v rest h =
    let t = uvarint-put_uvarint 9 (zigzag v) rest (Fits-bound (zigzag v) (zigzag-bound v)) in
    ap signed t ∙ ap (λ w. some (w, length (put_varint v))) (unzigzag-zigzag v h)

size_loop_lem :
    (k x size : ℕ) → Fits k x → size_loop (suc k) x size + 1 ≡ size + length (put_uvarint (suc k) x)
unfolding size_loop put_uvarint
size_loop_lem zero x size h = ground arith
size_loop_lem (suc k) x size h = ground (arith, size_loop_lem k (x / 128) (size + 1))

-- `varIntSize` announces as many bytes as `PutVarint` writes.
pub varint_size-put_varint : (v : ℤ) → varint_size v ≡ length (put_varint v)
unfolding varint_size put_varint
varint_size-put_varint v =
    let t = size_loop_lem 9 (zigzag v) 1 (Fits-bound (zigzag v) (zigzag-bound v)) in
    omega (arith, t)

-- A varint has a first byte.
pub put_varint-pos : (v : ℤ) → 0 < length (put_varint v)
unfolding put_varint put_uvarint
put_varint-pos v = ground arith

length-put_uvarint : (k x : ℕ) → length (put_uvarint k x) ≤ k
unfolding put_uvarint
length-put_uvarint zero x = omega arith
length-put_uvarint (suc k) x = ground (arith, length-put_uvarint k (x / 128))

pub put_varint-bound : (v : ℤ) → length (put_varint v) ≤ 10
unfolding put_varint
put_varint-bound v = length-put_uvarint 10 (zigzag v)

-- A varint that is cut off has no value.
uvarint-take :
    (k x m : ℕ) → m < length (put_uvarint k x) → uvarint k (take m (put_uvarint k x)) ≡ none
unfolding uvarint put_uvarint
uvarint-take zero x m h = absurd (omega arith)
uvarint-take (suc k) x zero h = refl
uvarint-take (suc k) x (suc m) h = ground (arith, uvarint-take k (x / 128) m)

pub varint-take :
    (v : ℤ) (m : ℕ) → m < length (put_varint v) → varint (take m (put_varint v)) ≡ none
unfolding varint put_varint
varint-take v m h = ap signed (uvarint-take 10 (zigzag v) m h)
