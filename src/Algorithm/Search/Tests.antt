-- ===== src/Algorithm/Search/Tests.antt =====
-- Runs of `binary_search`, and its theorem at a concrete condition.
use go_common.Common.{◌≡◌, refl, Bool, some, arith}
use go_common.Common.Int.{ℤ, pos, negsuc, ◌+ℤ◌, ◌-ℤ◌, leb_ℤ, i64, ◌≤ℤ◌}
use go_common.Algorithm.Search.{mid_of, search_loop, binary_search}
use go_common.Algorithm.Search.Boundary.{IsBoundary, FitsInt, binary_search-IsBoundary}

abbrev at_least : ℤ → ℤ → Bool
at_least k i = leb_ℤ k i

finds_seven : binary_search (pos 0) (pos 99) (at_least (pos 7)) ≡ some (pos 7)
unfolding binary_search search_loop mid_of i64 ◌+ℤ◌ ◌-ℤ◌
finds_seven = refl

none_found : binary_search (negsuc 4) (pos 3) (at_least (pos 50)) ≡ some (pos 4)
unfolding binary_search search_loop mid_of i64 ◌+ℤ◌ ◌-ℤ◌
none_found = refl

fits : FitsInt (negsuc 4) (pos 99)
unfolding ◌+ℤ◌ ◌-ℤ◌
fits = omega arith

order : negsuc 4 ≤ℤ pos 99 +ℤ pos 1
unfolding ◌+ℤ◌
order = omega arith

binary_search-IsBoundary_example :
    (b : ℤ) × (binary_search (negsuc 4) (pos 99) (at_least (pos 7)) ≡ some b)
    × IsBoundary (negsuc 4) (pos 99) (at_least (pos 7)) b
binary_search-IsBoundary_example =
    binary_search-IsBoundary (negsuc 4) (pos 99) (at_least (pos 7)) fits order
      (λ i j lo le hi t. ground arith)
