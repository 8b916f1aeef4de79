-- ===== src/Ke/Hex.antt =====
-- KiWriteHex64 and KipParseHex64: what is printed is read again.
use ntx_preview.Base.{
  ℕ, zero, suc, ◌+◌, ◌*◌, ◌/◌, ◌%◌, ◌^◌, ◌<◌, ◌≡◌, ◌∙◌, sym, ap, refl, Bool, true, false, not, ◌&&◌,
  ◌=?◌, =?_eq, Bool-cases, inl, inr, arith, some, List, [], ◌∷◌, ◌⊎◌, ◌++◌, get_or, bit_and, bit_or,
  ◌==◌,
}
use ntx_preview.Base.Bits.{bit_and-low, bit_or-low}
use native.Mathlib.Nat.{mod-eq_of_lt, div-div-eq-div-mul, pow-suc, div-le_self}
use ntx_preview.Ke.{
  hex_characters, write_hex_digits, write_hex64, nibble, is_stop, parse_digits, parse_hex64,
}

abbrev all_below : ℕ → (ℕ → Bool) → Bool
all_below zero p = true
all_below (suc n) p = p n && all_below n p

all_below-at : (n k : ℕ) (p : ℕ → Bool) → all_below n p ≡ true → k < n → p k ≡ true
all_below-at zero k p h l = absurd (omega arith)
all_below-at (suc n) k p h l = elim (Bool-cases (k == n)) [
  | inl e ↦ let at : k ≡ n = ground (arith, e) in ap p at ∙ ground (arith, h)
  | inr e ↦ all_below-at n k p (ground (arith, h)) (ground (arith, e))
]

-- A printed digit does not end the number, and is read as itself.
is_read : ℕ → Bool
is_read r =
    not (is_stop (get_or hex_characters r 0)) && (nibble (get_or hex_characters r 0) =? some r)

all_read : all_below 16 is_read ≡ true
unfolding is_read nibble
all_read = refl

digit-nibble :
    (r : ℕ)
    → r < 16
    → (is_stop (get_or hex_characters r 0) ≡ false) × (nibble (get_or hex_characters r 0) ≡ some r)
unfolding is_read
digit-nibble r l =
    let h = all_below-at 16 r is_read all_read l in
    (ground (arith, h), =?_eq (nibble (get_or hex_characters r 0)) (some r) (ground (arith, h)))

-- The end of the text, or a zero byte, a space, a line feed or a carriage return.
abbrev pub Ends : List ℕ → Type 0
Ends [] = Unit
Ends (c ∷ text) = (c ≡ 0) ⊎ (c ≡ 32) ⊎ (c ≡ 10) ⊎ (c ≡ 13)

-- There the number is read as it stands.
parse_digits-Ends :
    (rest : List ℕ) (value digits : ℕ)
    → Ends rest
    → 0 < digits
    → parse_digits rest value digits ≡ some value
unfolding parse_digits
parse_digits-Ends [] value digits e p = ground (arith, p)
parse_digits-Ends (c ∷ text) value digits e p = ground (arith, e, p)

shift_digit : (n value : ℕ) → value / 2 ^ (suc n * 4) ≡ value / 2 ^ (n * 4) / 16
shift_digit n value =
    let split : 2 ^ (suc n * 4) ≡ 2 ^ (n * 4) * 16 =
      (let k = n * 4 in
        let e : suc n * 4 ≡ suc (suc (suc (suc k))) = omega arith in
        omega (
          arith,
          ap (λ (j : ℕ). 2 ^ j) e,
          pow-suc 2 k,
          pow-suc 2 (suc k),
          pow-suc 2 (suc (suc k)),
          pow-suc 2 (suc (suc (suc k))),
        )) in
    rw split (sym (div-div-eq-div-mul value (2 ^ (n * 4)) 16))

-- What was read of a number and the next of its digits make what is read then.
next_value :
    (n value : ℕ)
    → value < 2 ^ 64
    → bit_or (value / 2 ^ (suc n * 4) * 2 ^ 4 % 2 ^ 64) (bit_and (value / 2 ^ (n * 4)) 15)
      ≡ value / 2 ^ (n * 4)
next_value n value l =
    let x = value / 2 ^ (n * 4) in
    let low : bit_and x 15 ≡ x % 16 = bit_and-low 4 x in
    let small : x < 2 ^ 64 = omega (arith, l, div-le_self value (2 ^ (n * 4))) in
    let whole : x / 16 * 16 % 2 ^ 64 ≡ x / 16 * 16 =
      mod-eq_of_lt {n = x / 16 * 16} {m = 2 ^ 64} (omega (arith, small)) in
    let joined = bit_or-low 4 (x / 16) (x % 16) (omega arith) in
    ap (λ (y : ℕ). bit_or (y * 2 ^ 4 % 2 ^ 64) (bit_and x 15)) (shift_digit n value)
    ∙ ap (λ (y : ℕ). bit_or y (bit_and x 15)) whole
    ∙ ap (λ (y : ℕ). bit_or (x / 16 * 16) y) low
    ∙ joined
    ∙ omega arith

read_digits :
    (n value digits : ℕ) (rest : List ℕ)
    → value < 2 ^ 64
    → digits + n < 2 ^ 32
    → 0 < digits + n
    → Ends rest
    → parse_digits (write_hex_digits n value ++ rest) (value / 2 ^ (n * 4)) digits ≡ some value
unfolding write_hex_digits parse_digits
read_digits zero value digits rest l m p e =
    parse_digits-Ends rest (value / 1) digits e (omega (arith, p)) ∙ ap some (omega arith)
read_digits (suc n) value digits rest l m p e =
    let d = bit_and (value / 2 ^ (n * 4)) 15 in
    let small : d < 16 = omega (arith, (bit_and-low 4 (value / 2 ^ (n * 4)))) in
    let (goes, reads) = digit-nibble d small in
    let count : (digits + 1) % 2 ^ 32 ≡ digits + 1 =
      mod-eq_of_lt {n = digits + 1} {m = 2 ^ 32} (omega (arith, m)) in
    rw (goes, reads, next_value n value l, count)
      (read_digits n value (digits + 1) rest l (omega (arith, m)) (omega arith) e)

-- What KiWriteHex64 prints of a 64-bit number, with 0x before it and the end of the text, a zero byte,
-- a space, a line feed or a carriage return behind it, is read by KipParseHex64 as the same number.
pub write_hex64-parse_hex64 :
    (value : ℕ) (rest : List ℕ)
    → value < 2 ^ 64
    → Ends rest
    → parse_hex64 (48 ∷ 120 ∷ write_hex64 value ++ rest) ≡ some value
unfolding parse_hex64 write_hex64
write_hex64-parse_hex64 value rest l e =
    let start : value / 2 ^ 64 ≡ 0 = omega arith in
    ap (λ (x : ℕ). parse_digits (write_hex_digits 16 value ++ rest) x 0) (sym start)
    ∙ read_digits 16 value 0 rest l (omega arith) (omega arith) e
