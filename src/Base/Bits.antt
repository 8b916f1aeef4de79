-- ===== src/Base/Bits.antt =====
-- `&`, `|`, `~` and masks, digit by digit: what the kernel's access masks, page-table flags and
-- bitmaps rest on.
use Prim.Native.Nat.{
  ℕ, zero, suc, ◌+◌, ◌-◌, ◌*◌, ◌/◌, ◌%◌, ◌^◌, ◌≤◌, ◌<◌, min, max, bit_and, bit_or, digits,
  bit_and-bitwise, bit_or-bitwise,
}
use mathlib.Core.Path.{◌≡◌, refl, ap}
use mathlib.Core.Logic.{◌↔◌}
use native.Mathlib.Nat.{pow-suc, one-le-pow, div-div-eq-div-mul, div-add-mod', mod-eq_of_lt}
use native.Mathlib.Omega.{arith}
use ntx_preview.Base.Tests.{◌==◌, if◌then◌else◌}

-- Binary digit `i` of `a`, 0 or 1.
unfoldable pub bit : ℕ → ℕ → ℕ
bit a zero = a % 2
bit a (suc i) = bit (a / 2) i

-- The fuel of the native operations' definition is dropped.
module _ (z : ℕ → ℕ) (f : ℕ → ℕ → ℕ) where
  enough : (n m a b : ℕ) → a ≤ n → a ≤ m → digits z f n a b ≡ digits z f m a b
  enough zero zero a b p q = refl
  enough zero (suc m) zero b p q = refl
  enough zero (suc m) (suc a) b p q = absurd (omega arith)
  enough (suc n) zero zero b p q = refl
  enough (suc n) zero (suc a) b p q = absurd (omega arith)
  enough (suc n) (suc m) zero b p q = refl
  enough (suc n) (suc m) (suc a) b p q =
      omega (arith, enough n m (suc a / 2) (b / 2) (omega arith) (omega arith))

bit_and-digit : (a b : ℕ) → bit_and a b ≡ bit_and (a / 2) (b / 2) * 2 + min (a % 2) (b % 2)
bit_and-digit zero b = omega (arith, bit_and-bitwise 0 b, bit_and-bitwise 0 (b / 2))
bit_and-digit (suc a) b = omega (
  arith,
  bit_and-bitwise (suc a) b,
  bit_and-bitwise (suc a / 2) (b / 2),
  enough (λ c. 0) min a (suc a / 2) (suc a / 2) (b / 2) (omega arith) (omega arith),
)

bit_or-digit : (a b : ℕ) → bit_or a b ≡ bit_or (a / 2) (b / 2) * 2 + max (a % 2) (b % 2)
bit_or-digit zero b = omega (arith, bit_or-bitwise 0 b, bit_or-bitwise 0 (b / 2))
bit_or-digit (suc a) b = omega (
  arith,
  bit_or-bitwise (suc a) b,
  bit_or-bitwise (suc a / 2) (b / 2),
  enough (λ c. c) max a (suc a / 2) (suc a / 2) (b / 2) (omega arith) (omega arith),
)

bit_and-half : (a b : ℕ) → bit_and a b / 2 ≡ bit_and (a / 2) (b / 2)
bit_and-half a b = omega (arith, bit_and-digit a b)

bit_or-half : (a b : ℕ) → bit_or a b / 2 ≡ bit_or (a / 2) (b / 2)
bit_or-half a b = omega (arith, bit_or-digit a b)

pub bit-le-one : (a i : ℕ) → bit a i ≤ 1
unfolding bit
bit-le-one a zero = omega arith
bit-le-one a (suc i) = bit-le-one (a / 2) i

pub bit-bit_and : (a b i : ℕ) → bit (bit_and a b) i ≡ min (bit a i) (bit b i)
unfolding bit
bit-bit_and a b zero = omega (arith, bit_and-digit a b)
bit-bit_and a b (suc i) = rw (bit_and-half a b) (bit-bit_and (a / 2) (b / 2) i)

pub bit-bit_or : (a b i : ℕ) → bit (bit_or a b) i ≡ max (bit a i) (bit b i)
unfolding bit
bit-bit_or a b zero = omega (arith, bit_or-digit a b)
bit-bit_or a b (suc i) = rw (bit_or-half a b) (bit-bit_or (a / 2) (b / 2) i)

eq_of_bits_below : (n a b : ℕ) → a ≤ n → b ≤ n → ((i : ℕ) → bit a i ≡ bit b i) → a ≡ b
unfolding bit
eq_of_bits_below zero a b p q h = omega arith
eq_of_bits_below (suc n) a b p q h =
    omega
      (arith, h 0, eq_of_bits_below n (a / 2) (b / 2) (omega arith) (omega arith) (λ i. h (suc i)))

-- A number is determined by its digits.
pub eq_of_bits : (a b : ℕ) → ((i : ℕ) → bit a i ≡ bit b i) → a ≡ b
eq_of_bits a b h = eq_of_bits_below (a + b) a b (omega arith) (omega arith) h

pub zero-bit : (i : ℕ) → bit 0 i ≡ 0
unfolding bit
zero-bit zero = refl
zero-bit (suc i) = zero-bit i

-- Every right in `d` is a right in `g`.
abbrev pub Subset : ℕ → ℕ → Type 0
Subset d g = (i : ℕ) → bit d i ≤ bit g i

-- The test `(g & d) == d` of an access mask holds exactly when `g` has every digit of `d`.
pub bit_and-eq_iff : (g d : ℕ) → (bit_and g d ≡ d) ↔ Subset d g
bit_and-eq_iff g d = (
  λ e i. omega (arith, bit-bit_and g d i, ap (λ (t : ℕ). bit t i) e),
  λ s. eq_of_bits _ _ λ i. omega (arith, bit-bit_and g d i, s i),
)

-- The same test with its operands the other way round.
pub bit_and-eq_left_iff : (d g : ℕ) → (bit_and d g ≡ d) ↔ Subset d g
bit_and-eq_left_iff d g = (
  λ e i. omega (arith, bit-bit_and d g i, ap (λ (t : ℕ). bit t i) e),
  λ s. eq_of_bits _ _ λ i. omega (arith, bit-bit_and d g i, s i),
)

-- `1 << k` has the one digit `k`.
pub bit-two-pow : (k i : ℕ) → bit (2 ^ k) i ≡ (if k == i then 1 else 0)
unfolding bit
bit-two-pow zero zero = refl
bit-two-pow zero (suc i) = ground (arith, zero-bit i)
bit-two-pow (suc k) zero = ground (arith, pow-suc 2 k)
bit-two-pow (suc k) (suc i) =
    let e : 2 ^ suc k / 2 ≡ 2 ^ k = omega (arith, pow-suc 2 k) in ground (arith, e, bit-two-pow k i)

-- `~x` on `n` bits.
abbrev pub complement : ℕ → ℕ → ℕ
complement n x = 2 ^ n - 1 - x

pub bit-complement : (n x i : ℕ) → x < 2 ^ n → i < n → bit (complement n x) i ≡ 1 - bit x i
unfolding bit
bit-complement zero x i h l = absurd (omega arith)
bit-complement (suc n) x zero h l = omega (arith, pow-suc 2 n)
bit-complement (suc n) x (suc i) h l =
    let e : (2 ^ suc n - 1 - x) / 2 ≡ 2 ^ n - 1 - x / 2 = omega (arith, pow-suc 2 n) in
    rw e (bit-complement n (x / 2) i (omega (arith, pow-suc 2 n)) (omega arith))

bit_and-zero_below : (n a : ℕ) → a ≤ n → bit_and a 0 ≡ 0
bit_and-zero_below n zero h = refl
bit_and-zero_below zero (suc a) h = absurd (omega arith)
bit_and-zero_below (suc n) (suc a) h =
    omega (arith, bit_and-digit (suc a) 0, bit_and-zero_below n (suc a / 2) (omega arith))

pub bit_and-zero : (a : ℕ) → bit_and a 0 ≡ 0
bit_and-zero a = bit_and-zero_below a a (omega arith)

pub div-two-pow-suc : (k a : ℕ) → a / 2 ^ suc k ≡ a / 2 / 2 ^ k
div-two-pow-suc k a =
    let e : 2 ^ suc k ≡ 2 * 2 ^ k = omega (arith, pow-suc 2 k) in rw (e, div-div-eq-div-mul)

mul-two-pow-suc : (k q : ℕ) → q * 2 ^ suc k ≡ q * 2 ^ k * 2
mul-two-pow-suc k q = omega (arith, ap (λ (t : ℕ). q * t) (pow-suc 2 k))

-- `q << k | r` is a sum where the digits do not meet.
pub bit_or-low : (k q r : ℕ) → r < 2 ^ k → bit_or (q * 2 ^ k) r ≡ q * 2 ^ k + r
bit_or-low zero q r h = eq_of_bits _ _ λ i.
    let z : r ≡ 0 = omega arith in
    let one : q * 2 ^ 0 + r ≡ q * 2 ^ 0 = omega (arith, z) in
    rw (one, z) (omega (arith, bit-bit_or (q * 2 ^ 0) 0 i, zero-bit i))
bit_or-low (suc k) q r h =
    let twice = mul-two-pow-suc k q in
    let low : r / 2 < 2 ^ k = omega (arith, h, pow-suc 2 k) in
    let half : q * 2 ^ suc k / 2 ≡ q * 2 ^ k = omega (arith, twice) in
    let even : q * 2 ^ suc k % 2 ≡ 0 = omega (arith, twice) in
    ground (arith, bit_or-digit (q * 2 ^ suc k) r, half, even, twice, bit_or-low k q (r / 2) low)

-- `a & (2^k - 1)` is the remainder.
pub bit_and-low : (k a : ℕ) → bit_and a (2 ^ k - 1) ≡ a % 2 ^ k
bit_and-low zero a = omega (arith, bit_and-zero a)
bit_and-low (suc k) a =
    let half : (2 ^ suc k - 1) / 2 ≡ 2 ^ k - 1 = omega (arith, pow-suc 2 k) in
    let odd : (2 ^ suc k - 1) % 2 ≡ 1 = omega (arith, pow-suc 2 k, one-le-pow k 2) in
    ground (
      arith,
      half,
      odd,
      bit_and-digit a (2 ^ suc k - 1),
      bit_and-low k (a / 2),
      div-two-pow-suc k a,
      mul-two-pow-suc k (a / 2 / 2 ^ k),
      div-add-mod' a (2 ^ suc k),
      div-add-mod' (a / 2) (2 ^ k),
    )

-- `a & ~(2^k - 1)` on `n + k` bits clears the low `k` digits.
pub bit_and-high :
    (n k a : ℕ) → a < 2 ^ n * 2 ^ k → bit_and a ((2 ^ n - 1) * 2 ^ k) ≡ a / 2 ^ k * 2 ^ k
bit_and-high n zero a h =
    let e : (2 ^ n - 1) * 2 ^ 0 ≡ 2 ^ n - 1 = omega arith in
    rw (e, bit_and-low) (omega (arith, mod-eq_of_lt {n = a} {m = 2 ^ n} (omega arith)))
bit_and-high n (suc k) a h =
    let m = (2 ^ n - 1) * 2 ^ suc k in
    ground (
      arith,
      mul-two-pow-suc k (2 ^ n - 1),
      mul-two-pow-suc k (2 ^ n),
      bit_and-digit a m,
      bit_and-high n k (a / 2),
      div-two-pow-suc k a,
      mul-two-pow-suc k (a / 2 / 2 ^ k),
    )
