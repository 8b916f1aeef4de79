-- ===== src/Hal/Keyboard.antt =====
-- hal/aur64/hal_aur64.c, the PS/2 keyboard: HalpPs2TryReadChar with its tables and its globals.
use ntx_preview.Base.{
  ℕ, ◌+◌, ◌-◌, Bool, true, false, not, ◌&&◌, ◌||◌, List, [], ◌∷◌, Option, none, some, bit_and,
  if◌then◌else◌, ◌==◌, ◌!=◌, leb, get_or,
}
use ntx_preview.Hal.Ports.{Ports, ps2_status_port, ps2_data_port}

-- `gHalPs2Map`
unfoldable pub map : List ℕ
map =
    0 ∷ 0 ∷ 49 ∷ 50 ∷ 51 ∷ 52 ∷ 53 ∷ 54 ∷ 55 ∷ 56 ∷ 57 ∷ 48 ∷ 45 ∷ 61 ∷ 8 ∷ 9 ∷ 113 ∷ 119 ∷ 101
    ∷ 114 ∷ 116 ∷ 121 ∷ 117 ∷ 105 ∷ 111 ∷ 112 ∷ 91 ∷ 93 ∷ 10 ∷ 0 ∷ 97 ∷ 115 ∷ 100 ∷ 102 ∷ 103 ∷ 104
    ∷ 106 ∷ 107 ∷ 108 ∷ 59 ∷ 39 ∷ 96 ∷ 0 ∷ 92 ∷ 122 ∷ 120 ∷ 99 ∷ 118 ∷ 98 ∷ 110 ∷ 109 ∷ 44 ∷ 46 ∷ 47
    ∷ 0 ∷ 42 ∷ 0 ∷ 32 ∷ 0 ∷ 0 ∷ 0 ∷ 0 ∷ 0 ∷ 0 ∷ 0 ∷ 0 ∷ 0 ∷ 0 ∷ 0 ∷ 0 ∷ 0 ∷ 55 ∷ 56 ∷ 57 ∷ 45 ∷ 52
    ∷ 53 ∷ 54 ∷ 43 ∷ 49 ∷ 50 ∷ 51 ∷ 48 ∷ 46 ∷ 0 ∷ 0 ∷ 0 ∷ 0 ∷ 0 ∷ 0 ∷ 0 ∷ 0 ∷ 0 ∷ 0 ∷ 0 ∷ 0 ∷ 0 ∷ 0
    ∷ 0 ∷ 0 ∷ 0 ∷ 0 ∷ 0 ∷ 0 ∷ 0 ∷ 0 ∷ 0 ∷ 0 ∷ 0 ∷ 0 ∷ 0 ∷ 0 ∷ 0 ∷ 0 ∷ 0 ∷ 0 ∷ 0 ∷ 0 ∷ 0 ∷ 0 ∷ 0 ∷ 0
    ∷ 0 ∷ 0 ∷ 0 ∷ 0 ∷ 0 ∷ 0 ∷ []

-- `gHalPs2MapShift`
unfoldable pub map_shift : List ℕ
map_shift =
    0 ∷ 0 ∷ 33 ∷ 64 ∷ 35 ∷ 36 ∷ 37 ∷ 94 ∷ 38 ∷ 42 ∷ 40 ∷ 41 ∷ 95 ∷ 43 ∷ 8 ∷ 9 ∷ 81 ∷ 87 ∷ 69 ∷ 82
    ∷ 84 ∷ 89 ∷ 85 ∷ 73 ∷ 79 ∷ 80 ∷ 123 ∷ 125 ∷ 10 ∷ 0 ∷ 65 ∷ 83 ∷ 68 ∷ 70 ∷ 71 ∷ 72 ∷ 74 ∷ 75 ∷ 76
    ∷ 58 ∷ 34 ∷ 126 ∷ 0 ∷ 124 ∷ 90 ∷ 88 ∷ 67 ∷ 86 ∷ 66 ∷ 78 ∷ 77 ∷ 60 ∷ 62 ∷ 63 ∷ 0 ∷ 42 ∷ 0 ∷ 32
    ∷ 0 ∷ 0 ∷ 0 ∷ 0 ∷ 0 ∷ 0 ∷ 0 ∷ 0 ∷ 0 ∷ 0 ∷ 0 ∷ 0 ∷ 0 ∷ 55 ∷ 56 ∷ 57 ∷ 45 ∷ 52 ∷ 53 ∷ 54 ∷ 43 ∷ 49
    ∷ 50 ∷ 51 ∷ 48 ∷ 46 ∷ 0 ∷ 0 ∷ 0 ∷ 0 ∷ 0 ∷ 0 ∷ 0 ∷ 0 ∷ 0 ∷ 0 ∷ 0 ∷ 0 ∷ 0 ∷ 0 ∷ 0 ∷ 0 ∷ 0 ∷ 0 ∷ 0
    ∷ 0 ∷ 0 ∷ 0 ∷ 0 ∷ 0 ∷ 0 ∷ 0 ∷ 0 ∷ 0 ∷ 0 ∷ 0 ∷ 0 ∷ 0 ∷ 0 ∷ 0 ∷ 0 ∷ 0 ∷ 0 ∷ 0 ∷ 0 ∷ 0 ∷ 0 ∷ 0 ∷ 0
    ∷ 0 ∷ []

-- The globals of the keyboard, each 0 or 1.
pub record Keyboard : Type 0 where
  pub shift_left : Bool
  pub shift_right : Bool
  pub caps_lock : Bool
  pub extended : Bool

abbrev pub shifted : Keyboard → Bool
shifted k = k.shift_left || k.shift_right

-- The character of a key before the caps lock.
unfoldable pub char_at : Bool → ℕ → ℕ
char_at shift code = if shift then get_or map_shift code 0 else get_or map code 0

-- `IsLetter`
unfoldable pub is_letter : ℕ → Bool
is_letter code =
    leb 0x10 code && leb code 0x19
    || leb 0x1E code && leb code 0x26
    || leb 0x2C code && leb code 0x32

-- The caps lock swaps the case of a letter.
unfoldable pub with_caps : Bool → Bool → ℕ → ℕ → ℕ
with_caps caps shift code ch =
    if is_letter code && caps && not shift
    then (if leb b'a' ch && leb ch b'z' then ch - b'a' + b'A' else ch)
    else if is_letter code && caps && shift
    then (if leb b'A' ch && leb ch b'Z' then ch - b'A' + b'a' else ch)
    else ch

-- A key that is no modifier goes down.
unfoldable pub key_pressed : ℕ → Keyboard → Option ℕ × Keyboard
key_pressed code k =
    let ch = char_at (shifted k) code in
    if ch == 0 then (none, k) else (some (with_caps k.caps_lock (shifted k) code ch), k)

abbrev pub not_extended : Keyboard → Keyboard
not_extended k = record k { extended = false }

-- HalpPs2TryReadChar from the scan code on.
unfoldable pub scan : ℕ → Keyboard → Option ℕ × Keyboard
scan scan_code k =
    let is_break = bit_and scan_code 0x80 != 0 in
    let code = bit_and scan_code 0x7F in
    if scan_code == 0xE0
    then (none, record k { extended = true })
    else if scan_code == 0xE1
    then (none, not_extended k)
    else if code == 0x2A
    then (none, record k { shift_left = not is_break; extended = false })
    else if code == 0x36
    then (none, record k { shift_right = not is_break; extended = false })
    else if code == 0x3A && not is_break
    then (none, record k { caps_lock = not k.caps_lock; extended = false })
    else if is_break
    then (none, not_extended k)
    else if k.extended
    then (if code == 0x1C then (some 10, not_extended k) else (none, not_extended k))
    else key_pressed code k

-- `HalpPs2TryReadChar`: the character, with the keyboard and the ports behind it.
unfoldable pub ps2_try_read_char : {W : Type 0} → Ports W → Keyboard → W → Option ℕ × Keyboard × W
ps2_try_read_char ports k w =
    let (status, polled) = ports.read8 ps2_status_port w in
    if bit_and status 1 == 0
    then (none, k, polled)
    else (let (scan_code, taken) = ports.read8 ps2_data_port polled in
        let (ch, after) = scan scan_code k in (ch, after, taken))
