-- ===== src/Utils/Math/Powers.antt =====
-- `CeilToPowerOfTwo` returns the least power of two that is at least 2 and at least its argument.
use Prim.Native.Nat.{bit_and}
use go_common.Common.{
  ℕ, zero, suc, ◌-◌, ◌*◌, ◌/◌, ◌^◌, ◌≤◌, ◌<◌, ◌≡◌, refl, some, arith, ltb, leb, ◌==◌, Bool-cases,
  inl, inr, ◌⊎◌, ◌&&◌, not, false,
}
use go_common.Common.Bits.{pow_two}
use go_common.Common.Int.{pos}
use go_common.Utils.Math.{bit_len, ceil_to_power_of_two, max_int_head_bit}

-- `n` has `bit_len n` binary digits: it is below that power of two, and not below the one before.
record HasLength (f n k : ℕ) : Type 0 where
  above : n < 2 ^ k
  below : 0 < n → 2 ^ k ≤ 2 * n
  none_of_zero : n ≡ 0 → 2 ^ k ≡ 1
  fits : k ≤ f

bit_len-HasLength : (f n : ℕ) → n < 2 ^ f → HasLength f n (bit_len f n)
unfolding bit_len
bit_len-HasLength zero n h = ground arith
bit_len-HasLength (suc f) n h = elim (Bool-cases (n == 0)) [
  | inl z ↦ rw z (ground arith)
  | inr nz ↦
      rw nz (step nz (bit_len f (n / 2)) (bit_len-HasLength f (n / 2) (omega (arith, pow_two f))))
]
  where
    step : (n == 0) ≡ false → (k : ℕ) → HasLength f (n / 2) k → HasLength (suc f) n (suc k)
    step nz k l = record {
      above = omega (arith, l, pow_two k);
      below = λ p. ground (arith, l, pow_two k);
      none_of_zero = λ z. absurd (ground arith);
      fits = omega (arith, l);
    }

-- For arguments up to 2 ^ 62 the result is a power of two, at least 2 and at least the argument,
-- and there is none between the argument and it: its half is below the argument, or it is 2.
pub ceil_to_power_of_two_lem :
    (n : ℕ)
    → n ≤ max_int_head_bit
    → (k : ℕ) × (ceil_to_power_of_two (pos n) ≡ some (2 ^ suc k))
      × (n ≤ 2 ^ suc k)
      × ((k ≡ 0) ⊎ (2 ^ k < n))
unfolding ceil_to_power_of_two
ceil_to_power_of_two_lem n h = elim (Bool-cases (leb n 2)) [
  | inl small ↦ (0, rw (out, small), ground arith, inl refl)
  | inr big ↦
      rw (out, big)
        (above_two (bit_len 64 (n - 1)) (ground arith) (bit_len-HasLength 64 (n - 1) (omega arith)))
]
  where
    out : (not (bit_and n max_int_head_bit == 0) && ltb max_int_head_bit n) ≡ false
    out = ground arith

    above_two :
        (len : ℕ)
        → 2 < n
        → HasLength 64 (n - 1) len
        → (k : ℕ) × (some (2 ^ len) ≡ some (2 ^ suc k)) × (n ≤ 2 ^ suc k) × ((k ≡ 0) ⊎ (2 ^ k < n))
    above_two zero lt l = absurd (omega (arith, l))
    above_two (suc k) lt l = (k, refl, omega (arith, l), inr (omega (arith, l, pow_two k)))
