-- ===== src/Ke/Ranges.antt =====
-- KipIsRangeReadable: which ranges of addresses a system call may name.
use ntx_preview.Base.{
  ℕ, ◌+◌, ◌%◌, ◌^◌, ◌≤◌, ◌<◌, ◌≡◌, ◌⊎◌, ◌↔◌, inl, inr, true, arith, Bool-cases, ltb, leb,
}
use native.Mathlib.Nat.{mod-eq_of_lt}
use ntx_preview.Ke.{is_range_readable, user_address_top, kernel_address_base}

wrapped :
    (address length : ℕ)
    → address < 2 ^ 64
    → length < 2 ^ 64
    → 2 ^ 64 ≤ address + length
    → (address + length) % 2 ^ 64 < address
wrapped address length a l h = omega arith

-- KipIsRangeReadable accepts a range of 64-bit numbers exactly if it is not empty, does not start at
-- 0, ends within 2^64, and lies below 2^47 as a whole or starts in the kernel's half.
pub is_range_readable_iff :
    (address length : ℕ)
    → address < 2 ^ 64
    → length < 2 ^ 64
    → (is_range_readable address length ≡ true) ↔ (
        (0 < address)
        × (0 < length)
        × (address + length < 2 ^ 64)
        × ((address + length ≤ user_address_top) ⊎ (kernel_address_base ≤ address)))
unfolding is_range_readable
is_range_readable_iff address length a l = elim (Bool-cases (ltb (address + length) (2 ^ 64))) [
  | inl h ↦
      let whole = mod-eq_of_lt {n = address + length} {m = 2 ^ 64} (ground (arith, h)) in
      (
        λ t. (
          ground (arith, t),
          ground (arith, t),
          ground (arith, h),
          elim (Bool-cases (leb (address + length) user_address_top)) [
            | inl b ↦ inl (ground (arith, b))
            | inr b ↦ inr (ground (arith, t, b, whole))
          ],
        ),
        λ (z, p, w, half). elim half [
          | inl b ↦ ground (arith, z, p, whole, b)
          | inr b ↦ ground (arith, z, p, whole, b)
        ],
      )
  | inr h ↦
      let over = wrapped address length a l (ground (arith, h)) in
      (λ t. absurd (ground (arith, t, over)), λ (z, p, w, half). absurd (ground (arith, h, w)))
]
