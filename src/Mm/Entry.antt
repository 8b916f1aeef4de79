-- ===== src/Mm/Entry.antt =====
-- The digits of a page-table entry: the flags that MmpWalkToPte and its callers set and test do not
-- touch the address, and the address does not touch the flags.
use ntx_preview.Base.{
  Bool, sym, ℕ, ◌*◌, ◌/◌, ◌^◌, ◌<◌, ◌≡◌, refl, ap, ◌∙◌, true, false, arith, bit_and, bit_or,
}
use ntx_preview.Base.Bits.{
  bit, bit-le-one, bit-bit_and, bit-bit_or, complement, eq_of_bits, bit_and-high, zero-bit,
}
use ntx_preview.Mm.Bitmap.{bit_and-two_pow}
use ntx_preview.Mm.Walk.{
  frame, has, pte_present, pte_writable, pte_user, pte_large, pte_nx, pte_addr_mask, opened_entry,
  linked_entry,
}

pub bit_and-bit_or : (a b c : ℕ) → bit_and (bit_or a b) c ≡ bit_or (bit_and a c) (bit_and b c)
bit_and-bit_or a b c = eq_of_bits _ _ λ i. omega (
  arith,
  bit-bit_and (bit_or a b) c i,
  bit-bit_or a b i,
  bit-bit_or (bit_and a c) (bit_and b c) i,
  bit-bit_and a c i,
  bit-bit_and b c i,
)

pub bit_and_assoc : (a b c : ℕ) → bit_and (bit_and a b) c ≡ bit_and a (bit_and b c)
bit_and_assoc a b c = eq_of_bits _ _ λ i. omega (
  arith,
  bit-bit_and (bit_and a b) c i,
  bit-bit_and a b i,
  bit-bit_and a (bit_and b c) i,
  bit-bit_and b c i,
)

bit_or-zero : (a : ℕ) → bit_or a 0 ≡ a
bit_or-zero a = eq_of_bits _ _ λ i. omega (arith, bit-bit_or a 0 i, zero-bit i)

-- Flags outside the address bits leave the frame as it is.
pub frame-bit_or : (e f : ℕ) → frame f ≡ 0 → frame (bit_or e f) ≡ frame e
frame-bit_or e f z =
    bit_and-bit_or e f pte_addr_mask ∙ ap (λ (n : ℕ). bit_or (frame e) n) z ∙ bit_or-zero (frame e)

pub frame-bit_and :
    (e f : ℕ) → bit_and f pte_addr_mask ≡ pte_addr_mask → frame (bit_and e f) ≡ frame e
frame-bit_and e f z = bit_and_assoc e f pte_addr_mask ∙ ap (λ (n : ℕ). bit_and e n) z

pub frame-frame : (e : ℕ) → frame (frame e) ≡ frame e
frame-frame e = frame-bit_and e pte_addr_mask refl

-- The address of a whole page is its own frame.
pub frame-page : (p : ℕ) → p < 2 ^ 40 → frame (p * 4096) ≡ p * 4096
frame-page p l =
    let e : p * 4096 / 2 ^ 12 * 2 ^ 12 ≡ p * 4096 = omega arith in
    bit_and-high 40 12 (p * 4096) (omega arith) ∙ e

pub frame-opened_entry : (e : ℕ) → frame (opened_entry e) ≡ frame e
frame-opened_entry e =
    frame-bit_and (bit_or e pte_user) (complement 64 pte_nx) refl ∙ frame-bit_or e pte_user refl

-- A flag is one digit of an entry.
module _ (e f k : ℕ) where
  pub has-bit_or : bit f k ≡ 0 → has (bit_or e f) (2 ^ k) ≡ has e (2 ^ k)
  has-bit_or z =
      ground (arith, bit_and-two_pow (bit_or e f) k, bit_and-two_pow e k, bit-bit_or e f k, z)

  pub has-bit_or_set : bit f k ≡ 1 → has (bit_or e f) (2 ^ k) ≡ true
  has-bit_or_set z =
      ground (arith, bit_and-two_pow (bit_or e f) k, bit-bit_or e f k, z, bit-le-one e k)

  pub has-bit_and : bit f k ≡ 1 → has (bit_and e f) (2 ^ k) ≡ has e (2 ^ k)
  has-bit_and z = ground (
    arith,
    bit_and-two_pow (bit_and e f) k,
    bit_and-two_pow e k,
    bit-bit_and e f k,
    bit-le-one e k,
    z,
  )

  pub has-bit_and_clear : bit f k ≡ 0 → has (bit_and e f) (2 ^ k) ≡ false
  has-bit_and_clear z = ground (arith, bit_and-two_pow (bit_and e f) k, bit-bit_and e f k, z)

pub opened_entry-present : (e : ℕ) → has (opened_entry e) pte_present ≡ has e pte_present
unfolding bit
opened_entry-present e =
    has-bit_and (bit_or e pte_user) (complement 64 pte_nx) 0 refl ∙ has-bit_or e pte_user 0 refl

pub opened_entry-large : (e : ℕ) → has (opened_entry e) pte_large ≡ has e pte_large
unfolding bit
opened_entry-large e =
    has-bit_and (bit_or e pte_user) (complement 64 pte_nx) 7 refl ∙ has-bit_or e pte_user 7 refl

-- The entry of a table in the frame `p` is present, is not large, and leads to that frame.
module _ (p : ℕ) (l : p < 2 ^ 40) where
  page-large : has (p * 4096) pte_large ≡ false
  unfolding bit
  page-large =
      ap (λ (n : ℕ). has n pte_large) (sym (frame-page p l))
      ∙ has-bit_and_clear (p * 4096) pte_addr_mask 7 refl

  kernel_entry-present : has (linked_entry false (p * 4096)) pte_present ≡ true
  unfolding bit
  kernel_entry-present =
      has-bit_or (bit_or (p * 4096) pte_present) pte_writable 0 refl
      ∙ has-bit_or_set (p * 4096) pte_present 0 refl

  kernel_entry-large : has (linked_entry false (p * 4096)) pte_large ≡ false
  unfolding bit
  kernel_entry-large =
      has-bit_or (bit_or (p * 4096) pte_present) pte_writable 7 refl
      ∙ has-bit_or (p * 4096) pte_present 7 refl
      ∙ page-large

  frame-kernel_entry : frame (linked_entry false (p * 4096)) ≡ p * 4096
  frame-kernel_entry =
      frame-bit_or (bit_or (p * 4096) pte_present) pte_writable refl
      ∙ frame-bit_or (p * 4096) pte_present refl
      ∙ frame-page p l

  pub linked_entry-present : (user : Bool) → has (linked_entry user (p * 4096)) pte_present ≡ true
  unfolding bit
  linked_entry-present false = kernel_entry-present
  linked_entry-present true =
      has-bit_or (linked_entry false (p * 4096)) pte_user 0 refl ∙ kernel_entry-present

  pub linked_entry-large : (user : Bool) → has (linked_entry user (p * 4096)) pte_large ≡ false
  unfolding bit
  linked_entry-large false = kernel_entry-large
  linked_entry-large true =
      has-bit_or (linked_entry false (p * 4096)) pte_user 7 refl ∙ kernel_entry-large

  pub frame-linked_entry : (user : Bool) → frame (linked_entry user (p * 4096)) ≡ p * 4096
  frame-linked_entry false = frame-kernel_entry
  frame-linked_entry true =
      frame-bit_or (linked_entry false (p * 4096)) pte_user refl ∙ frame-kernel_entry
