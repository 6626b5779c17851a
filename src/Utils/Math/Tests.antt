-- ===== src/Utils/Math/Tests.antt =====
-- Runs of the functions of pkg/utils/math.go.
use go_common.Common.{◌+◌, ◌-◌, ◌^◌, ◌≡◌, refl, none, some, true, false}
use go_common.Common.Int.{pos, negsuc, i64, ◌-ℤ◌}
use go_common.Utils.Math.{
  bit_len, is_power_of_two, ceil_to_power_of_two, floor_to_power_of_two, closest_power_of_two,
  spread_32, squash_64,
}

ceil_1000 : ceil_to_power_of_two (pos 1000) ≡ some 1024
unfolding ceil_to_power_of_two bit_len
ceil_1000 = refl

ceil_panics : ceil_to_power_of_two (pos (2 ^ 62 + 1)) ≡ none
unfolding ceil_to_power_of_two
ceil_panics = refl

powers :
    (is_power_of_two (pos 64) ≡ true)
    × (is_power_of_two (pos 0) ≡ false)
    × (is_power_of_two (negsuc 7) ≡ false)
unfolding is_power_of_two
powers = (refl, refl, refl)

floor_1000 : floor_to_power_of_two (pos 1000) ≡ pos 512
unfolding floor_to_power_of_two
floor_1000 = refl

-- Bits above 32 are not smeared down to the lowest.
floor_high : floor_to_power_of_two (pos (2 ^ 40)) ≡ pos (2 ^ 40 - 2 ^ 8)
unfolding floor_to_power_of_two
floor_high = refl

closest_700 :
    (closest_power_of_two (pos 700) ≡ some 512) × (closest_power_of_two (pos 800) ≡ some 1024)
unfolding closest_power_of_two ceil_to_power_of_two bit_len i64 ◌-ℤ◌
closest_700 = (refl, refl)

spread_back :
    (spread_32 11 ≡ 69) × (squash_64 69 ≡ 11) × (squash_64 (spread_32 3735928559) ≡ 3735928559)
unfolding spread_32 squash_64
spread_back = (refl, refl, refl)
