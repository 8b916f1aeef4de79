-- ===== src/Mm/Bitmap.antt =====
-- MmpSetPageAllocated, MmpSetPageFree and MmpIsPageAllocated are the updates and the test of a set
-- of pages.
use ntx_preview.Base.{
  ℕ, ◌/◌, ◌%◌, ◌^◌, ◌≡◌, ◌≢◌, ap, false, not, ◌&&◌, ◌||◌, arith, bit_and, ◌==◌, ◌!=◌, Bool-cases,
  inl, inr,
}
use ntx_preview.Base.Bits.{
  bit, bit-le-one, bit-bit_and, bit-bit_or, bit-two-pow, bit-complement, complement, eq_of_bits,
  zero-bit,
}
use native.Mathlib.Nat.{pow-le-pow_right}
use ntx_preview.Mm.{Pages, set_page_allocated, set_page_free, is_page_allocated, word_of}

-- The test of a bit with a mask of one digit.
pub bit_and-two_pow : (w k : ℕ) → (bit_and w (2 ^ k) != 0) ≡ (bit w k == 1)
bit_and-two_pow w k = elim (Bool-cases (bit w k == 1)) [
  | inl e ↦
      let one : bit (2 ^ k) k ≡ 1 = ground (arith, bit-two-pow k k) in
      let set : bit w k ≡ 1 = ground arith in
      let ne : bit_and w (2 ^ k) ≢ 0 = λ z.
        let at = ap (λ (a : ℕ). bit a k) z in
        absurd (omega (arith, at, zero-bit k, bit-bit_and w (2 ^ k) k, one, set)) in
      ground (arith, ne)
  | inr e ↦
      let z : bit_and w (2 ^ k) ≡ 0 = eq_of_bits _ _ λ i. ground (
        arith,
        zero-bit i,
        bit-bit_and w (2 ^ k) i,
        bit-two-pow k i,
        bit-le-one w k,
        bit-le-one w i,
      ) in
      ground (arith, z)
]

module _ (p q : ℕ) (mm : Pages) where
  same : p / 64 ≡ q / 64 → (p % 64 == q % 64) ≡ (p == q)
  same e = ground arith

  apart : p / 64 ≢ q / 64 → (p == q) ≡ false
  apart n = ground arith

  pub set_page_allocated-is_page_allocated :
      is_page_allocated q (set_page_allocated p mm) ≡ (p == q || is_page_allocated q mm)
  unfolding is_page_allocated set_page_allocated
  set_page_allocated-is_page_allocated = elim (Bool-cases (p / 64 == q / 64)) [
    | inl e ↦
        let s : p / 64 ≡ q / 64 = ground arith in
        ground (
          arith,
          s,
          same s,
          bit_and-two_pow (word_of q (set_page_allocated p mm)) (q % 64),
          bit_and-two_pow (word_of q mm) (q % 64),
          bit-bit_or (word_of q mm) (2 ^ (p % 64)) (q % 64),
          bit-two-pow (p % 64) (q % 64),
          bit-le-one (word_of q mm) (q % 64),
        )
    | inr e ↦ ground (arith, apart (ground arith))
  ]

  pub set_page_free-is_page_allocated :
      is_page_allocated q (set_page_free p mm) ≡ (not (p == q) && is_page_allocated q mm)
  unfolding is_page_allocated set_page_free
  set_page_free-is_page_allocated = elim (Bool-cases (p / 64 == q / 64)) [
    | inl e ↦
        let s : p / 64 ≡ q / 64 = ground arith in
        let top = pow-le-pow_right {n = 2} (omega arith) {i = p % 64} {j = 63} (omega arith) in
        ground (
          arith,
          s,
          same s,
          bit_and-two_pow (word_of q (set_page_free p mm)) (q % 64),
          bit_and-two_pow (word_of q mm) (q % 64),
          bit-bit_and (word_of q mm) (complement 64 (2 ^ (p % 64))) (q % 64),
          bit-complement 64 (2 ^ (p % 64)) (q % 64) (omega (arith, top)) (omega arith),
          bit-two-pow (p % 64) (q % 64),
          bit-le-one (word_of q mm) (q % 64),
        )
    | inr e ↦ ground (arith, apart (ground arith))
  ]
