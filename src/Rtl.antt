-- ===== src/Rtl.antt =====
-- kernel/rtl/memory.c: memcpy, memmove, memset and memcmp on a byte memory, at ranges that do not wrap round
-- the end of the address space. `memory` is a function of the address.
pub mod Moved
pub mod Compared
mod Tests
use ntx_preview.Base.{
  ℕ, zero, suc, ◌+◌, ◌%◌, ◌||◌, update, if◌then◌else◌, ◌==◌, ◌!=◌, ◌-◌, leb, ltb,
}

-- The loop that goes up, from index `i` on in `n` rounds.
unfoldable pub copy_up : ℕ → ℕ → ℕ → ℕ → (ℕ → ℕ) → ℕ → ℕ
copy_up zero i dst src memory = memory
copy_up (suc n) i dst src memory =
    copy_up n (i + 1) dst src (update memory (dst + i) (memory (src + i)))

-- The loop that goes down, from index `n`.
unfoldable pub copy_down : ℕ → ℕ → ℕ → (ℕ → ℕ) → ℕ → ℕ
copy_down zero dst src memory = memory
copy_down (suc n) dst src memory = copy_down n dst src (update memory (dst + n) (memory (src + n)))

-- `memcpy`
abbrev pub memcpy : ℕ → ℕ → ℕ → (ℕ → ℕ) → ℕ → ℕ
memcpy dst src size memory = copy_up size 0 dst src memory

-- `memmove`
unfoldable pub memmove : ℕ → ℕ → ℕ → (ℕ → ℕ) → ℕ → ℕ
memmove dst src size memory =
    if dst == src || size == 0
    then memory
    else if ltb dst src
    then copy_up size 0 dst src memory
    else copy_down size dst src memory

-- The loop of `memset`.
unfoldable pub fill_up : ℕ → ℕ → ℕ → ℕ → (ℕ → ℕ) → ℕ → ℕ
fill_up zero i dst v memory = memory
fill_up (suc n) i dst v memory = fill_up n (i + 1) dst v (update memory (dst + i) v)

-- `memset`, with the byte that the value is cut to.
abbrev pub memset : ℕ → ℕ → ℕ → (ℕ → ℕ) → ℕ → ℕ
memset dst value size memory = fill_up size 0 dst (value % 256) memory

-- A C int.
pub data ℤ : Type 0 where
  pos : ℕ → ℤ
  negsuc : ℕ → ℤ

-- `a - b` of two bytes.
abbrev pub difference : ℕ → ℕ → ℤ
difference a b = if leb b a then pos (a - b) else negsuc (b - a - 1)

-- The loop of `memcmp`, from index `i` on in `n` rounds.
unfoldable pub compare_up : ℕ → ℕ → ℕ → ℕ → (ℕ → ℕ) → ℤ
compare_up zero i left right memory = pos 0
compare_up (suc n) i left right memory =
    let rest = compare_up n (i + 1) left right memory in
    if memory (left + i) != memory (right + i)
    then difference (memory (left + i)) (memory (right + i))
    else rest

-- `memcmp`
abbrev pub memcmp : ℕ → ℕ → ℕ → (ℕ → ℕ) → ℤ
memcmp left right size memory = compare_up size 0 left right memory
