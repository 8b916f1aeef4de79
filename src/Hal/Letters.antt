-- ===== src/Hal/Letters.antt =====
-- hal/aur64/hal_aur64.c, HalpPs2TryReadChar: shift and caps lock choose the case of a letter.
use ntx_preview.Base.{
  List, [], ◌∷◌, Option, get_elem?, ◌<◌, ℕ, ◌-◌, ◌≤◌, ◌≡◌, ◌≢◌, refl, Bool, true, false, not, ◌&&◌,
  some, none, bit_and, if◌then◌else◌, ◌==◌, ◌!=◌, leb, first_index, first_index-none, arith,
}
use ntx_preview.Hal.Keyboard.{
  Keyboard, shifted, char_at, is_letter, with_caps, key_pressed, scan, map, map_shift,
}

-- One of shift and caps lock is on, and the other is off.
abbrev pub is_upper : Bool → Bool → Bool
is_upper caps shift = if caps then not shift else shift

-- The letters of the keyboard, row by row, each row from the scan code of its first key on.
abbrev in_row : ℕ → List ℕ → ℕ → Option ℕ
in_row first row code = if leb first code then get_elem? row (code - first) else none

abbrev first_row : List ℕ
first_row = b'q' ∷ b'w' ∷ b'e' ∷ b'r' ∷ b't' ∷ b'y' ∷ b'u' ∷ b'i' ∷ b'o' ∷ b'p' ∷ []

abbrev second_row : List ℕ
second_row = b'a' ∷ b's' ∷ b'd' ∷ b'f' ∷ b'g' ∷ b'h' ∷ b'j' ∷ b'k' ∷ b'l' ∷ []

abbrev third_row : List ℕ
third_row = b'z' ∷ b'x' ∷ b'c' ∷ b'v' ∷ b'b' ∷ b'n' ∷ b'm' ∷ []

-- The letter on the key with a scan code.
unfoldable pub qwerty : ℕ → Option ℕ
qwerty code =
    if leb 0x2C code
    then in_row 0x2C third_row code
    else if leb 0x1E code
    then in_row 0x1E second_row code
    else in_row 0x10 first_row code

-- A lower case letter, in the case that is asked for.
abbrev pub in_case : Bool → ℕ → ℕ
in_case upper c = if upper then c - 32 else c

-- What a key with a letter gives, in a form that is computed.
gives_letter : Bool → Bool → ℕ → Bool
gives_letter caps shift code = elim (qwerty code) [
  | none ↦ true
  | some c ↦
      (bit_and code 0x80 == 0)
      && (bit_and code 0x7F == code)
      && (code != 0x2A && leb code 0x32)
      && (char_at shift code != 0)
      && (with_caps caps shift code (char_at shift code) == in_case (is_upper caps shift) c)
]

every_key :
    (caps shift : Bool) → first_index (λ code. not (gives_letter caps shift code)) 128 ≡ none
unfolding first_index gives_letter qwerty is_letter char_at with_caps map map_shift
every_key true true = refl
every_key true false = refl
every_key false true = refl
every_key false false = refl

-- What the key of a letter gives: the tables and the caps lock give the letter in its case.
letter_key :
    (caps shift : Bool) (code c : ℕ)
    → code < 128
    → qwerty code ≡ some c
    → (bit_and code 0x80 ≡ 0)
      × (bit_and code 0x7F ≡ code)
      × (code ≢ 0x2A)
      × (code ≤ 0x32)
      × (char_at shift code ≢ 0)
      × (with_caps caps shift code (char_at shift code) ≡ in_case (is_upper caps shift) c)
unfolding gives_letter
letter_key caps shift code c l h = ground (
  arith,
  h,
  first_index-none (λ k. not (gives_letter caps shift k)) 128 (every_key caps shift) code l,
)

-- A key that goes down, with no prefix before it, and has a letter on it gives the letter in upper
-- case if exactly one of shift and caps lock is on and in lower case otherwise, and leaves the
-- keyboard's state.
pub scan-letter :
    (k : Keyboard) (code c : ℕ)
    → code < 128
    → qwerty code ≡ some c
    → k.extended ≡ false
    → scan code k ≡ (some (in_case (is_upper k.caps_lock (shifted k)) c), k)
unfolding scan key_pressed
scan-letter k code c l h plain =
    ground (arith, letter_key k.caps_lock (shifted k) code c l h, plain)
