-- ===== src/Hal/Calls.antt =====
-- hal/aur64/hal_aur64.c, the calls of the console: text goes to the serial line and to the screen,
-- and a character comes from either the serial line or the keyboard.
use ntx_preview.Base.{ℕ, List, [], ◌∷◌, Option, none, some, if◌then◌else◌, ◌==◌}
use ntx_preview.Hal.Ports.{Ports, serial_write_char, serial_try_read_char}
use ntx_preview.Hal.Keyboard.{Keyboard, ps2_try_read_char}
use ntx_preview.Hal.Console.{Screen, Console, put_char, clear}

module _ {W : Type 0} (ports : Ports W) where
  -- The loop of HalWriteDebugString on the serial line.
  unfoldable pub write_serial : List ℕ → W → W
  unfolding serial_write_char
  write_serial [] w = w
  write_serial (ch ∷ text) w =
      let returned = if ch == 10 then serial_write_char ports 13 w else w in
      write_serial text (serial_write_char ports ch returned)

  -- `HalTryReadConsoleChar`
  unfoldable pub try_read_console_char : Keyboard → W → Option ℕ × Keyboard × W
  unfolding serial_try_read_char ps2_try_read_char
  try_read_console_char k w = let (ch, polled) = serial_try_read_char ports w in choose ch k polled
    where
      choose : Option ℕ → Keyboard → W → Option ℕ × Keyboard × W
      choose (some c) k polled = (some c, k, polled)
      choose none k polled = ps2_try_read_char ports k polled

-- The loop of HalWriteDebugString on the screen.
unfoldable pub write_text : Screen → List ℕ → Console → Console
unfolding put_char
write_text s [] c = c
write_text s (ch ∷ text) c = write_text s text (put_char s ch c)

-- `HalWriteDebugString`
unfoldable pub write_debug_string :
    {W : Type 0} → Ports W → Screen → List ℕ → Console × W → Console × W
unfolding write_serial write_text
write_debug_string ports s text (c, w) = (write_text s text c, write_serial ports text w)

-- `HalClearDisplay`
unfoldable pub clear_display : {W : Type 0} → Ports W → Screen → Console × W → Console × W
unfolding clear write_serial
clear_display ports s (c, w) =
    (clear s c, write_serial ports (0x1B ∷ b'[' ∷ b'2' ∷ b'J' ∷ 0x1B ∷ b'[' ∷ b'H' ∷ []) w)
