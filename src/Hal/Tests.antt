-- ===== src/Hal/Tests.antt =====
-- Runs of the console on a screen of 3 columns and 2 rows and of the keyboard, and the theorems on
-- them at these.
use ntx_preview.Base.{ℕ, ◌≡◌, refl, true, false, List, [], ◌∷◌, some, arith, if◌then◌else◌, ◌==◌}
use ntx_preview.BootProto.{VideoInfo}
use ntx_preview.Hal.Ports.{Ports, serial_try_read_char, wait_free, serial_write_char}
use ntx_preview.Hal.Font.{digit_rows, glyphs, glyph_row, glyph_5x7_row, font_8x16}
use ntx_preview.Hal.Keyboard.{
  Keyboard, map, map_shift, char_at, is_letter, with_caps, key_pressed, scan, ps2_try_read_char,
}
use ntx_preview.Hal.Console.{
  Console, put_pixel, fill_row, fill, clear, scroll_row, scroll_rows, scroll, draw_row, draw_glyph,
  keep_row, new_line, clear_cell, backspace, draw, wrap, put_char, initialize_framebuffer,
}
use ntx_preview.Hal.Calls.{write_text, write_serial, try_read_console_char}
use ntx_preview.Hal.Grid.{Fits, write_text-Fits}
use ntx_preview.Hal.Letters.{qwerty, scan-letter}

-- A screen of 27 by 32 pixels, in lines of 32.
abbrev small : VideoInfo
small = record { frame_buffer_base = 4096; width = 27; height = 32; pixels_per_scan_line = 32 }

-- What the runs go through.
run : Unit {0}
unfolding digit_rows glyphs glyph_row glyph_5x7_row font_8x16 map map_shift char_at is_letter
    with_caps key_pressed scan ps2_try_read_char put_pixel fill_row fill clear scroll_row
    scroll_rows scroll draw_row draw_glyph keep_row new_line clear_cell backspace draw wrap put_char
    initialize_framebuffer write_text write_serial try_read_console_char serial_try_read_char
    wait_free serial_write_char
run = tt

-- The cursor after a text.
abbrev cursor : Console → ℕ × ℕ
cursor c = (c.cursor_x, c.cursor_y)

abbrev written : List ℕ → Console
written text = let (s, c) = initialize_framebuffer small (λ i. 7) in write_text s text c

-- Four letters on three columns, and a backspace to the end of the first row.
cursor_wrapped : cursor (written (65 ∷ 66 ∷ 67 ∷ 68 ∷ [])) ≡ (1, 1)
unfolding run
cursor_wrapped = refl

cursor_erased : cursor (written (65 ∷ 10 ∷ 8 ∷ [])) ≡ (2, 0)
unfolding run
cursor_erased = refl

-- The top of an A: pixel 3 of row 1 has the text's color, pixel 1 the background's.
glyph_drawn : ((written (65 ∷ [])).fb 35 ≡ 0xF2F6FF) × ((written (65 ∷ [])).fb 33 ≡ 0x060A10)
unfolding run
glyph_drawn = (refl, refl)

write_text-Fits_example :
    let (s, c) = initialize_framebuffer small (λ i. 7) in
    Fits small (λ i. 7) s (write_text s (65 ∷ 10 ∷ 10 ∷ 66 ∷ []) c)
write_text-Fits_example =
    write_text-Fits small (λ i. 7) (65 ∷ 10 ∷ 10 ∷ 66 ∷ []) (omega arith, omega arith, omega arith)

-- The caps lock is on.
abbrev caps : Keyboard
caps = record { shift_left = false; shift_right = false; caps_lock = true; extended = false }

scan-letter_example : scan 0x1E caps ≡ (some 65, caps)
unfolding qwerty
scan-letter_example = scan-letter caps 0x1E 97 (omega arith) refl refl

-- The serial line and the keyboard, each with what it still has to give.
abbrev Lines : Type 0
Lines = List ℕ × List ℕ

next : List ℕ → ℕ
next [] = 0
next (c ∷ cs) = c

dropped : List ℕ → List ℕ
dropped [] = []
dropped (c ∷ cs) = cs

waiting : List ℕ → ℕ
waiting [] = 0
waiting (c ∷ cs) = 1

abbrev ports : Ports Lines
ports = record {
  read8 = λ port (serial, keys).
      if port == 0x3FD
      then (waiting serial, (serial, keys))
      else if port == 0x64
      then (waiting keys, (serial, keys))
      else if port == 0x60
      then (next keys, (serial, dropped keys))
      else (next serial, (dropped serial, keys));
  write8 = λ port value lines. lines;
}

-- The serial line comes before the keyboard.
serial_first : (try_read_console_char ports caps (120 ∷ [], 0x1E ∷ [])).0 ≡ some 120
unfolding run next dropped waiting
serial_first = refl

key_read : (try_read_console_char ports caps ([], 0x1E ∷ [])).0 ≡ some 65
unfolding run next dropped waiting
key_read = refl
