-- ===== src/Common/Bits.antt =====
-- `bit_and` with a mask of ones, from the digits that the native operation stands for.
use Prim.Native.Nat.{
  ℕ, zero, suc, ◌+◌, ◌-◌, ◌*◌, ◌/◌, ◌%◌, ◌^◌, ◌≤◌, ◌<◌, min, bit_and, digits, bit_and-bitwise,
}
use mathlib.Core.Path.{◌≡◌, refl, sym, ◌∙◌, ap}
use native.Mathlib.Nat.{pow-suc, zero-add, div-add-mod, mod-lt, mul-add-mod_self_left, mod-eq_of_lt}
use native.Mathlib.Omega.{arith}

-- A conjunction of `n` binary digits at most.
abbrev conjoin : ℕ → ℕ → ℕ → ℕ
conjoin = digits (λ d. zero) min

-- One digit more than the left side has changes nothing.
conjoin_one_more : (n x y : ℕ) → x ≤ n → conjoin n x y ≡ conjoin (suc n) x y
conjoin_one_more zero zero y le = refl
conjoin_one_more zero (suc x) y le = elim le [ ]
conjoin_one_more (suc n) zero y le = refl
conjoin_one_more (suc n) (suc x) y le =
    ap (λ r. r * 2 + min (suc x % 2) (y % 2)) (conjoin_one_more n (suc x / 2) (y / 2) (omega arith))

-- Nor do `k` digits more.
conjoin_more : (k n x y : ℕ) → x ≤ n → conjoin n x y ≡ conjoin (k + n) x y
conjoin_more zero n x y le = ap (λ m. conjoin m x y) (sym (zero-add n))
conjoin_more (suc k) n x y le =
    let e : suc k + n ≡ suc (k + n) = omega arith in
    rw e (conjoin_more k n x y le ∙ conjoin_one_more (k + n) x y (omega arith))

pub bit_and-zero_left : (y : ℕ) → bit_and 0 y ≡ 0
bit_and-zero_left y = bit_and-bitwise 0 y

-- The last digit of a conjunction is that of the last digits, and the rest that of the rests.
pub bit_and-halves : (x y : ℕ) → bit_and x y ≡ bit_and (x / 2) (y / 2) * 2 + min (x % 2) (y % 2)
bit_and-halves zero y = omega (arith, bit_and-zero_left y, bit_and-zero_left (y / 2))
bit_and-halves (suc x) y =
    let h = suc x / 2 in
    let fuel : (x - h) + h ≡ x = omega arith in
    bit_and-bitwise (suc x) y
    ∙ ap (λ r. r * 2 + min (suc x % 2) (y % 2))
        (ap (λ m. conjoin m h (y / 2)) (sym fuel)
          ∙ sym (conjoin_more (x - h) h h (y / 2) (omega arith))
          ∙ sym (bit_and-bitwise h (y / 2)))

conjoin-zero : (n x : ℕ) → conjoin n x 0 ≡ 0
conjoin-zero zero x = refl
conjoin-zero (suc n) zero = refl
conjoin-zero (suc n) (suc x) = omega (arith, conjoin-zero n (suc x / 2))

pub bit_and-zero : (x : ℕ) → bit_and x 0 ≡ 0
bit_and-zero x = bit_and-bitwise x 0 ∙ conjoin-zero x x

pub pow_two : (k : ℕ) → 2 * 2 ^ k ≡ 2 ^ suc k
pow_two k = rw pow-suc (omega arith)

pub pow_two-pos : (k : ℕ) → 0 < 2 ^ k
pow_two-pos zero = omega arith
pow_two-pos (suc k) = omega (arith, pow_two k, pow_two-pos k)

-- The last digit and the rest of a remainder by `2 * m`.
mod-double : (a m : ℕ) → 0 < m → a % (2 * m) ≡ a / 2 % m * 2 + a % 2
mod-double a m pos =
    let s = a / 2 % m * 2 + a % 2 in
    let split : a ≡ 2 * m * (a / 2 / m) + s = omega (arith, div-add-mod (a / 2) m) in
    let below : s < 2 * m = omega (arith, mod-lt (a / 2) pos) in
    ap (λ t. t % (2 * m)) split ∙ mul-add-mod_self_left (2 * m) (a / 2 / m) s ∙ mod-eq_of_lt below

-- `a & (2 ^ k - 1)` is `a % 2 ^ k`.
pub bit_and_mask : (k a : ℕ) → bit_and a (2 ^ k - 1) ≡ a % 2 ^ k
bit_and_mask zero a = omega (arith, bit_and-zero a)
bit_and_mask (suc k) a =
    let half : (2 ^ suc k - 1) / 2 ≡ 2 ^ k - 1 = omega (arith, pow_two k, pow_two-pos k) in
    let odd : (2 ^ suc k - 1) % 2 ≡ 1 = omega (arith, pow_two k, pow_two-pos k) in
    bit_and-halves a (2 ^ suc k - 1)
    ∙ rw (half, odd, bit_and_mask k (a / 2), ← pow_two k, mod-double a (2 ^ k) (pow_two-pos k))
        (omega arith)
