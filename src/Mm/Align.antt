-- ===== src/Mm/Align.antt =====
-- MmpAlignUp and MmpAlignDown at the page size are the roundings to whole pages.
use ntx_preview.Base.{ℕ, ◌+◌, ◌*◌, ◌/◌, ◌%◌, ◌^◌, ◌<◌, ◌≡◌}
use ntx_preview.Base.Bits.{bit_and-high}
use native.Mathlib.Nat.{mod-eq_of_lt}
use ntx_preview.Mm.{align_up, align_down, page_size}

-- Below 2^64 rounding down gives the start of the page.
pub align_down-page : (v : ℕ) → v < 2 ^ 64 → align_down v page_size ≡ v / page_size * page_size
unfolding align_down
align_down-page v l = bit_and-high 52 12 v l

-- Rounding up gives the start of the page behind the last byte, unless that is past 2^64.
pub align_up-page :
    (v : ℕ) → v + 4095 < 2 ^ 64 → align_up v page_size ≡ (v + 4095) / page_size * page_size
unfolding align_up
align_up-page v l =
    let e : (v + 4095) % 2 ^ 64 ≡ v + 4095 = mod-eq_of_lt {n = v + 4095} {m = 2 ^ 64} l in
    rw e (bit_and-high 52 12 (v + 4095) l)
