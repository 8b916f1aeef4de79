-- ===== src/Mm/Tests.antt =====
-- Runs of the page allocator, and its theorems at 130 pages of which page 129 is free.
use ntx_preview.Base.{
  ℕ, ◌^◌, ◌*◌, ◌≡◌, ◌-◌, ◌==◌, refl, true, some, if◌then◌else◌, success, invalid_parameter, arith,
  first_index,
}
use ntx_preview.Mm.{Pages, page_size, is_page_allocated, alloc_page, free_page, taken, mark_range}
use ntx_preview.Mm.Alloc.{IsSane, alloc_page-free_page}
use ntx_preview.Mm.Mark.{mark_range-is_page_allocated}

abbrev nearly_full : Pages
nearly_full = record {
  page_bitmap = λ w. if w == 2 then 2 ^ 64 - 3 else 2 ^ 64 - 1;
  page_ref_count = λ p. 0;
  tracked_pages = 130;
  next_scan_page = 5;
  ready = true;
}

nearly_full-IsSane : IsSane nearly_full
nearly_full-IsSane = record {
  on = refl;
  some_page = omega arith;
  bound = omega arith;
  next = omega arith;
}

alloc_page-nearly_full :
    alloc_page true nearly_full ≡ (success, some (129 * page_size), taken 129 1 nearly_full)
unfolding alloc_page first_index
alloc_page-nearly_full = refl

alloc_page-free_page_example :
    (mm : Pages) × (free_page (129 * page_size) (taken 129 1 nearly_full) ≡ (success, mm))
    × ((q : ℕ) → is_page_allocated q mm ≡ is_page_allocated q nearly_full)
    × (free_page (129 * page_size) mm ≡ (invalid_parameter, mm))
alloc_page-free_page_example =
    alloc_page-free_page nearly_full (taken 129 1 nearly_full) (129 * page_size) nearly_full-IsSane
      alloc_page-nearly_full

-- 4096 bytes from the middle of page 0 on hold no whole page.
mark_range-is_page_allocated_example :
    is_page_allocated 0 (mark_range 2048 4096 true nearly_full) ≡ is_page_allocated 0 nearly_full
mark_range-is_page_allocated_example =
    mark_range-is_page_allocated 2048 4096 0 true nearly_full (omega arith)

-- Page 5 has one reference.
abbrev shared : Pages
shared = record nearly_full { page_ref_count = λ p. if p == 5 then 1 else 0 }
