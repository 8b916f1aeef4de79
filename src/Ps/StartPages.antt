-- ===== src/Ps/StartPages.antt =====
-- What PsCreateUserThread asks of page-table entries, digit by digit.
use ntx_preview.Base.{
  ℕ, ◌*◌, ◌/◌, ◌^◌, ◌<◌, ◌≡◌, ◌≢◌, ap, true, ◌==◌, arith, Status, success, succeeded_eq, bit_and,
  Bool-cases, inl, inr,
}
use ntx_preview.Base.Bits.{
  complement, bit, eq_of_bits, bit-bit_and, bit-two-pow, zero-bit, bit-le-one, bit_and-high,
}
use ntx_preview.Ps.Create.{is_entry_page, is_stack_page, user_top}

-- A digit of a page-table entry that is tested alone.
bit_and-bit : (a k : ℕ) → bit a k ≡ 0 → bit_and a (2 ^ k) ≡ 0
bit_and-bit a k h = eq_of_bits _ _ λ i. elim (Bool-cases (k == i)) [
  | inl e ↦
      let same : k ≡ i = ground (arith, e) in
      ground (arith, bit-bit_and a (2 ^ k) i, bit-two-pow k i, zero-bit i, rw same at h)
  | inr e ↦ ground (arith, bit-bit_and a (2 ^ k) i, bit-two-pow k i, zero-bit i, e)
]

bit-set : (a k : ℕ) → bit_and a (2 ^ k) ≢ 0 → bit a k ≡ 1
bit-set a k h = elim (Bool-cases (bit a k == 0)) [
  | inl z ↦ absurd (h (bit_and-bit a k (ground (arith, z))))
  | inr s ↦ ground (arith, bit-le-one a k, s)
]

bit-clear : (a k : ℕ) → bit_and a (2 ^ k) ≡ 0 → bit a k ≡ 0
bit-clear a k h = ground (
  arith,
  ap (λ (x : ℕ). bit x k) h,
  bit-bit_and a (2 ^ k) k,
  bit-two-pow k k,
  zero-bit k,
  bit-le-one a k,
)

-- An answer with an entry that is present and for the user.
abbrev pub UserPage : Status × ℕ → ℕ → Type 0
UserPage answer pte = (answer ≡ (success, pte)) × (bit pte 0 ≡ 1) × (bit pte 2 ≡ 1)

pub is_entry_page-bits :
    (answer : Status × ℕ)
    → is_entry_page answer ≡ true
    → (pte : ℕ) × UserPage answer pte × (bit pte 63 ≡ 0)
is_entry_page-bits (status, pte) h = (
  pte,
  (
    ap (λ (s : Status). (s, pte)) (succeeded_eq status (ground (arith, h))),
    bit-set pte 0 (ground (arith, h)),
    bit-set pte 2 (ground (arith, h)),
  ),
  bit-clear pte 63 (ground (arith, h)),
)

pub is_stack_page-bits :
    (answer : Status × ℕ)
    → is_stack_page answer ≡ true
    → (pte : ℕ) × UserPage answer pte × (bit pte 1 ≡ 1)
is_stack_page-bits (status, pte) h = (
  pte,
  (
    ap (λ (s : Status). (s, pte)) (succeeded_eq status (ground (arith, h))),
    bit-set pte 0 (ground (arith, h)),
    bit-set pte 2 (ground (arith, h)),
  ),
  bit-set pte 1 (ground (arith, h)),
)

-- The address of a page, by division.
pub page-address : (a : ℕ) → a < user_top → bit_and a (complement 64 4095) ≡ a / 4096 * 4096
page-address a l = bit_and-high 52 12 a (omega arith)
