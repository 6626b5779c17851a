-- ===== src/Algorithm/Search.antt =====
-- pkg/algorithm/search.go: the boundary of a condition, by bisection.
pub mod Boundary
mod Tests
use go_common.Common.{ℕ, zero, suc, ◌/◌, Bool, true, false, Option, none, some, if◌then◌else◌}
use go_common.Common.Int.{ℤ, pos, negsuc, ◌+ℤ◌, ◌-ℤ◌, leb_ℤ, i64}

-- Go's `a >> 1` on an `int`, which rounds down.
abbrev pub shr_one : ℤ → ℤ
shr_one (pos n) = pos (n / 2)
shr_one (negsuc n) = negsuc (n / 2)

-- `mid := l + ((r - l) >> 1)`
pub mid_of : ℤ → ℤ → ℤ
mid_of l r = i64 (l +ℤ shr_one (i64 (r -ℤ l)))

-- The loop, on fuel; `none` means that the fuel ran out.
pub search_loop : ℕ → ℤ → ℤ → (ℤ → Bool) → Option ℤ
search_loop zero l r f = none
search_loop (suc n) l r f =
    let mid = mid_of l r in
    let left = search_loop n l (i64 (mid -ℤ pos 1)) f in
    let right = search_loop n (i64 (mid +ℤ pos 1)) r f in
    if leb_ℤ l r then (if f mid then left else right) else some l

-- An interval of `int`s has fewer than 2 ^ 64 members, which 65 rounds exhaust.
pub binary_search : ℤ → ℤ → (ℤ → Bool) → Option ℤ
binary_search l r f = search_loop 65 l r f
