-- ===== src/Utils/Math.antt =====
-- pkg/utils/math.go: powers of two around an `int`, and the bits of a word spread out.
pub mod Powers
mod Tests
use Prim.Native.Nat.{bit_and, bit_or}
use go_common.Common.{
  ℕ, zero, suc, ◌+◌, ◌-◌, ◌*◌, ◌/◌, ◌%◌, ◌^◌, Bool, true, false, ◌&&◌, not, Option, none, some, ltb,
  leb, ◌==◌, if◌then◌else◌,
}
use go_common.Common.Int.{ℤ, pos, negsuc, i64, ◌-ℤ◌, ltb_ℤ}

-- `bits.Len`: the number of binary digits, on fuel. A `uint` has at most 64.
unfoldable pub bit_len : ℕ → ℕ → ℕ
bit_len zero n = 0
bit_len (suc f) n = let rest = bit_len f (n / 2) in if n == 0 then 0 else suc rest

-- A negative `int` fails the first test; at a positive one `n - 1` does not wrap.
unfoldable pub is_power_of_two : ℤ → Bool
is_power_of_two (negsuc n) = false
is_power_of_two (pos n) = ltb 0 n && bit_and n (n - 1) == 0

abbrev pub max_int_head_bit : ℕ
max_int_head_bit = 2 ^ 62

-- `none` is the panic. A negative `int` is at most 2, and no greater than the head bit.
unfoldable pub ceil_to_power_of_two : ℤ → Option ℕ
ceil_to_power_of_two (negsuc n) = some 2
ceil_to_power_of_two (pos n) =
    if not (bit_and n max_int_head_bit == 0) && ltb max_int_head_bit n
    then none
    else if leb n 2
    then some 2
    else some (2 ^ bit_len 64 (n - 1))

-- `n |= n >> k` of an `int` that is not negative.
abbrev pub smear : ℕ → ℕ → ℕ
smear k n = bit_or n (n / 2 ^ k)

unfoldable pub floor_to_power_of_two : ℤ → ℤ
floor_to_power_of_two (negsuc n) = negsuc n
floor_to_power_of_two (pos n) =
    let smeared = smear 16 (smear 8 (smear 4 (smear 2 (smear 1 n)))) in
    if leb n 2 then pos n else pos (smeared - smeared / 2)

-- `next`, or the half of it, from `ceil_to_power_of_two`.
abbrev pub closer : ℤ → Option ℕ → Option ℕ
closer n none = none
closer n (some next) =
    some (if ltb_ℤ (i64 (n -ℤ pos (next / 2))) (i64 (pos next -ℤ n)) then next / 2 else next)

unfoldable pub closest_power_of_two : ℤ → Option ℕ
closest_power_of_two n = closer n (ceil_to_power_of_two n)

-- `(X | (X << k)) & mask` of a `uint64`.
abbrev pub spread_step : ℕ → ℕ → ℕ → ℕ
spread_step k mask x = bit_and (bit_or x (x * 2 ^ k % 2 ^ 64)) mask

-- The masks from 0x0000ffff0000ffff to 0x5555555555555555.
unfoldable pub spread_32 : ℕ → ℕ
spread_32 x = spread_step 1 6148914691236517205 (
    spread_step 2 3689348814741910323 (
      spread_step 4 1085102592571150095
        (spread_step 8 71777214294589695 (spread_step 16 281470681808895 x))))

-- `(X | (X >> k)) & mask`.
abbrev pub squash_step : ℕ → ℕ → ℕ → ℕ
squash_step k mask x = bit_and (bit_or x (x / 2 ^ k)) mask

unfoldable pub squash_64 : ℕ → ℕ
squash_64 x =
    squash_step 16 4294967295 (
      squash_step 8 281470681808895 (
        squash_step 4 71777214294589695 (
          squash_step 2 1085102592571150095
            (squash_step 1 3689348814741910323 (bit_and x 6148914691236517205)))))
    % 2 ^ 32
