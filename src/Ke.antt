-- ===== src/Ke.antt =====
-- kernel/ke/init.c and kernel/ke/syscall.c: hexadecimal text, and the tests of the addresses that a
-- system call passes. Text is a list of character codes; the zero behind it is the list's end.
pub mod Hex
pub mod Ranges
pub mod Calls
pub mod Kernel
pub mod Writes
mod Tests
use ntx_preview.Base.{
  ℕ, zero, suc, ◌+◌, ◌-◌, ◌*◌, ◌/◌, ◌%◌, ◌^◌, Bool, true, false, not, ◌&&◌, ◌||◌, Option, none,
  some, List, [], ◌∷◌, ◌++◌, get_or, length, bit_and, bit_or, if◌then◌else◌, ◌==◌, leb, ltb,
}

-- The characters of `Hex[]`
abbrev pub hex_characters : List ℕ
hex_characters =
    b'0' ∷ b'1' ∷ b'2' ∷ b'3' ∷ b'4' ∷ b'5' ∷ b'6' ∷ b'7' ∷ b'8' ∷ b'9' ∷ b'A' ∷ b'B' ∷ b'C' ∷ b'D'
    ∷ b'E' ∷ b'F' ∷ []

-- The loop of `KiWriteHex64` from the round on in which `n` digits are left.
unfoldable pub write_hex_digits : ℕ → ℕ → List ℕ
write_hex_digits zero value = []
write_hex_digits (suc n) value =
    get_or hex_characters (bit_and (value / 2 ^ (n * 4)) 15) 0 ∷ write_hex_digits n value

-- `KiWriteHex64`
unfoldable pub write_hex64 : ℕ → List ℕ
write_hex64 value = write_hex_digits 16 value

-- A loop of `KiWriteStatusLine` over the prefix or the digits, into a buffer of which `room` bytes
-- are left, the zero included.
unfoldable pub copy_prefix : ℕ → List ℕ → List ℕ
copy_prefix zero text = []
copy_prefix (suc zero) text = []
copy_prefix (suc (suc room)) [] = []
copy_prefix (suc (suc room)) (c ∷ text) = c ∷ copy_prefix (suc room) text

-- `KiWriteStatusLine` with the number that it prints; the two loops leave room in the buffer of 96
-- bytes, and the four characters between and behind them are written without a test.
pub write_status_line : List ℕ → ℕ → List ℕ
unfolding write_hex64 copy_prefix
write_status_line prefix value =
    let head = copy_prefix 96 prefix in
    head ++ (48 ∷ 120 ∷ copy_prefix (94 - length head) (write_hex64 value)) ++ (10 ∷ [])

-- The value of a hexadecimal digit in `KipParseHex64`.
unfoldable pub nibble : ℕ → Option ℕ
nibble c =
    if leb 48 c && leb c 57
    then some (c - 48)
    else if leb 97 c && leb c 102
    then some (10 + c - 97)
    else if leb 65 c && leb c 70
    then some (10 + c - 65)
    else none

-- The characters that end the number.
abbrev pub is_stop : ℕ → Bool
is_stop c = c == 0 || c == 32 || c == 10 || c == 13

-- The loop of `KipParseHex64`.
unfoldable pub parse_digits : List ℕ → ℕ → ℕ → Option ℕ
parse_digits [] value digits = if digits == 0 then none else some value
parse_digits (c ∷ text) value digits =
    if is_stop c then (if digits == 0 then none else some value) else elim (nibble c) [
      | none ↦ none
      | some d ↦ parse_digits text (bit_or (value * 2 ^ 4 % 2 ^ 64) d) ((digits + 1) % 2 ^ 32)
    ]

-- `KipParseHex64` of a text that is not NULL.
unfoldable pub parse_hex64 : List ℕ → Option ℕ
unfolding parse_digits
parse_hex64 (a ∷ b ∷ text) =
    if a == 48 && (b == 120 || b == 88)
    then parse_digits text 0 0
    else parse_digits (a ∷ b ∷ text) 0 0
parse_hex64 (a ∷ []) = parse_digits (a ∷ []) 0 0
parse_hex64 [] = parse_digits [] 0 0

-- `KipStartsWith`
unfoldable pub starts_with : List ℕ → List ℕ → Bool
starts_with text [] = true
starts_with [] (p ∷ prefix) = false
starts_with (c ∷ text) (p ∷ prefix) = c == p && starts_with text prefix

-- KI_USER_ADDRESS_TOP and KI_KERNEL_ADDRESS_BASE
abbrev pub user_address_top : ℕ
user_address_top = 2 ^ 47

abbrev pub kernel_address_base : ℕ
kernel_address_base = 18446603336221196288

-- `KipIsRangeReadable`, which is `KipIsRangeWritable` too.
unfoldable pub is_range_readable : ℕ → ℕ → Bool
is_range_readable address length =
    let end = (address + length) % 2 ^ 64 in
    if address == 0 || length == 0
    then false
    else if ltb end address
    then false
    else if ltb address user_address_top && leb end user_address_top
    then true
    else leb kernel_address_base address && leb address end
