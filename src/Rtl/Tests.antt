-- ===== src/Rtl/Tests.antt =====
-- Runs of the memory routines, and their theorems at overlapping ranges.
use ntx_preview.Base.{◌+◌, ◌≡◌, refl}
use ntx_preview.Rtl.{memmove, copy_down}
use ntx_preview.Rtl.Moved.{memmove-moved}

memmove-up : memmove 1 0 3 (λ a. a + 10) 3 ≡ 12
unfolding memmove copy_down
memmove-up = refl

memmove-moved_example : memmove 1 0 3 (λ a. a + 10) 2 ≡ 11
memmove-moved_example = memmove-moved 1 0 3 2 (λ a. a + 10)
