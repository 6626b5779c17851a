-- ===== src/Buffer/Ring/Discard.antt =====
-- `Discard` at a capacity that is a power of two, and what it does at another.
use go_common.Common.{
  zero, suc, ◌+◌, ◌<◌, ◌≡◌, refl, true, false, length, arith, ltb, ap, drop, length-drop,
  Bool-cases, inl, inr, dec_lt,
}
use go_common.Common.Int.{ℤ, pos, negsuc, pos_part, leb_ℤ}
use go_common.Buffer.Ring.{RingBuffer, buffered, wrap_index, discard}
use go_common.Buffer.Ring.Valid.{
  IsValid, contents, contents_empty, length-contents, IsPowerOfTwo, wrap_index-eq,
}
use go_common.Buffer.Ring.Read.{advance, drained}

pub not_empty : {rb : RingBuffer} → IsValid rb → 0 < buffered rb → rb.empty ≡ false
not_empty {rb} v some_left = elim (Bool-cases rb.empty) [
  | inl e ↦ absurd (omega (arith, length-contents rb, ap length (contents_empty v e)))
  | inr e ↦ e
]

-- `Discard(n)` of a valid buffer whose capacity is a power of two drops its first `n` bytes, all if it
-- holds no more, returns how many it dropped, and does nothing if `n` is zero or negative.
pub discard_lem :
    {rb : RingBuffer} (n : ℤ)
    → IsValid rb
    → IsPowerOfTwo rb.capacity
    → let (count, rb') = discard rb n in
      IsValid rb'
      × (contents rb' ≡ drop (pos_part n) (contents rb))
      × (count + length (contents rb') ≡ length (contents rb))
unfolding discard
discard_lem (negsuc n) v two =
    let t : leb_ℤ (negsuc n) (pos 0) ≡ true = ground arith in rw t (v, refl, omega arith)
discard_lem (pos zero) v two = (v, refl, omega arith)
discard_lem {rb} (pos (suc k)) v two =
    let t : leb_ℤ (pos (suc k)) (pos 0) ≡ false = ground arith in
    rw t (elim (dec_lt (suc k) (buffered rb)) [
      | yes p ↦
          let u : ltb (suc k) (buffered rb) ≡ true = ground arith in
          let a =
            advance (suc k) (wrap_index rb (rb.read_pos + suc k)) v (not_empty v (omega arith)) p
              (wrap_index-eq rb (rb.read_pos + suc k) two) in
          rw u (
            a.0,
            a.1,
            rw a.1 (omega (arith, length-drop (suc k) (contents rb), length-contents rb)),
          )
      | no p ↦
          let u : ltb (suc k) (buffered rb) ≡ false = ground arith in
          let a = drained (suc k) v (omega arith) in
          rw u (
            a.0,
            a.1,
            rw a.1 (omega (arith, length-drop (suc k) (contents rb), length-contents rb)),
          )
    ])
