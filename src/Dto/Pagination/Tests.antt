-- ===== src/Dto/Pagination/Tests.antt =====
-- Runs of the pagination, and its theorems at concrete pages.
use go_common.Common.{◌≡◌, refl, true, none, some}
use go_common.Common.Int.{pos, negsuc}
use go_common.Dto.Pagination.{PaginationOptions, calculate_pagination}

page_two :
    calculate_pagination (pos 2) 10 25
    ≡ some (record {
      current_page = pos 2;
      page_size = 10;
      total_pages = 3;
      total_items = 25;
      has_next = true;
      has_prev = true;
    })
unfolding calculate_pagination
page_two = refl

no_size : calculate_pagination (pos 1) 0 25 ≡ none
unfolding calculate_pagination
no_size = refl

abbrev asked : PaginationOptions
asked = record { page = negsuc 2; page_size = pos 20 }
