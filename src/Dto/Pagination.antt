-- ===== src/Dto/Pagination.antt =====
-- pkg/dto/pagination.go: the pages of a list. Page numbers and sizes are `int`, totals `int64`, far
-- from their limits; a page size of zero divides by zero, and is `none`. The options' cursor, which
-- neither function reads, is left out.
pub mod Pages
mod Tests
use go_common.Common.{
  ℕ, zero, suc, ◌+◌, ◌-◌, ◌/◌, Bool, Option, none, some, ltb, leb, ◌==◌, if◌then◌else◌,
}
use go_common.Common.Int.{ℤ, pos, negsuc, leb_ℤ, ltb_ℤ, eqb_ℤ}

pub record PaginationOptions : Type 0 where
  pub page : ℤ
  pub page_size : ℤ

pub set_defaults : PaginationOptions → PaginationOptions
set_defaults p =
    let p' = if leb_ℤ p.page (pos 0) then record p { page = pos 1 } else p in
    if leb_ℤ p'.page_size (pos 0) then record p' { page_size = pos 10 } else p'

pub record PaginationMeta : Type 0 where
  pub current_page : ℤ
  pub page_size : ℕ
  pub total_pages : ℕ
  pub total_items : ℕ
  pub has_next : Bool
  pub has_prev : Bool

-- Go's `min` of two `int`s.
abbrev pub min_page : ℤ → ℕ → ℤ
min_page a n = if leb_ℤ a (pos n) then a else pos n

-- For a page size and a total that are not negative; the current page may be any `int`.
pub calculate_pagination : ℤ → ℕ → ℕ → Option PaginationMeta
calculate_pagination current_page zero total_items = none
calculate_pagination current_page (suc k) total_items =
    let pages = (total_items + suc k - 1) / suc k in
    let current = min_page current_page pages in
    let total_pages = if pages == 0 then 1 else pages in
    some (record {
      current_page = current;
      page_size = suc k;
      total_pages = total_pages;
      total_items = total_items;
      has_next = ltb_ℤ current (pos total_pages);
      has_prev = ltb_ℤ (pos 1) current;
    })
