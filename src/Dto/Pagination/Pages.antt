-- ===== src/Dto/Pagination/Pages.antt =====
-- The pages hold all items, and none is empty but the first of none.
use go_common.Common.{
  ℕ, zero, suc, ◌+◌, ◌-◌, ◌*◌, ◌/◌, ◌≤◌, ◌<◌, ◌≡◌, refl, true, false, some, ◌==◌, if◌then◌else◌,
  arith, ◌↔◌,
}
use native.Mathlib.Nat.{div-add-mod, mod-lt}
use go_common.Common.Int.{ℤ, pos, ltb_ℤ, ◌≤ℤ◌, ◌<ℤ◌}
use go_common.Dto.Pagination.{
  PaginationOptions, PaginationMeta, set_defaults, calculate_pagination, min_page,
}

-- What a page of results says, for a page size `s`, a total `n` and a page `c` that a client names.
pub record IsPaged (c : ℤ) (s n : ℕ) (m : PaginationMeta) : Type 0 where
  pub enough : n ≤ m.total_pages * s
  pub no_more : 0 < n → (m.total_pages - 1) * s < n
  pub at_least_one : 1 ≤ m.total_pages
  pub none_beyond : m.current_page ≤ℤ pos m.total_pages
  pub as_asked : c ≤ℤ pos m.total_pages → 0 < n → m.current_page ≡ c
  pub next : (m.has_next ≡ true) ↔ (m.current_page <ℤ pos m.total_pages)
  pub prev : (m.has_prev ≡ true) ↔ (pos 1 <ℤ m.current_page)

-- The number of pages, rounded up.
ceil_bounds :
    (n k : ℕ) → let q = (n + suc k - 1) / suc k in (n ≤ q * suc k) × (q * suc k < n + suc k)
ceil_bounds n k =
    omega (arith, div-add-mod (n + suc k - 1) (suc k), mod-lt (n + suc k - 1) {m = suc k})

-- What the code fills in once it has divided.
abbrev filled : ℤ → ℕ → ℕ → ℕ → PaginationMeta
filled c k n q = record {
  current_page = min_page c q;
  page_size = suc k;
  total_pages = if q == 0 then 1 else q;
  total_items = n;
  has_next = ltb_ℤ (min_page c q) (pos (if q == 0 then 1 else q));
  has_prev = ltb_ℤ (pos 1) (min_page c q);
}

filled-IsPaged :
    (c : ℤ) (k n q : ℕ)
    → n ≤ q * suc k
    → q * suc k < n + suc k
    → IsPaged c (suc k) n (filled c k n q)
filled-IsPaged c k n zero lo hi = ground arith
filled-IsPaged c k n (suc q) lo hi = record {
  enough = let t : (suc q == 0) ≡ false = ground arith in rw t lo;
  no_more = λ h. ground arith;
  at_least_one = ground arith;
  none_beyond = ground arith;
  as_asked = λ a b. ground arith;
  next = ground arith;
  prev = ground arith;
}

-- For every positive page size, every total and every page asked for: the pages hold all items; the
-- last is not empty if there are any; there is at least one; the current page is the one asked for if
-- it is one of them, and never one beyond; a next page is announced exactly if
-- the current page is not the last, and a previous one exactly if it is not 1 or less.
pub calculate_pagination-IsPaged :
    (c : ℤ) (k n : ℕ)
    → (m : PaginationMeta) × (calculate_pagination c (suc k) n ≡ some m) × IsPaged c (suc k) n m
unfolding calculate_pagination
calculate_pagination-IsPaged c k n = (
  _,
  refl,
  filled-IsPaged c k n ((n + suc k - 1) / suc k) (ceil_bounds n k).0 (ceil_bounds n k).1,
)

-- Of no items at all there is one page, and whatever positive page is asked for, the current page is
-- 0 and a next page is announced.
pub calculate_pagination-zero :
    (c k : ℕ)
    → (m : PaginationMeta) × (calculate_pagination (pos (suc c)) (suc k) 0 ≡ some m)
      × (m.total_pages ≡ 1)
      × (m.current_page ≡ pos 0)
      × (m.has_next ≡ true)
unfolding calculate_pagination
calculate_pagination-zero c k =
    let z : (0 + suc k - 1) / suc k ≡ 0 = grind arith in
    (filled (pos (suc c)) k 0 0, rw z, refl, ground arith, ground arith)

-- `SetDefaults` leaves a page and a size that are at least 1, and changes neither if it was.
pub set_defaults_lem :
    (p : PaginationOptions)
    → (pos 1 ≤ℤ (set_defaults p).page)
      × (pos 1 ≤ℤ (set_defaults p).page_size)
      × (pos 1 ≤ℤ p.page → (set_defaults p).page ≡ p.page)
      × (pos 1 ≤ℤ p.page_size → (set_defaults p).page_size ≡ p.page_size)
unfolding set_defaults
set_defaults_lem p = ground arith
