-- ===== src/Hal/Console.antt =====
-- hal/aur64/hal_aur64.c, the text console on the framebuffer. The framebuffer is a function from the
-- index of a pixel to its color.
use ntx_preview.Base.{
  ℕ, zero, suc, ◌+◌, ◌-◌, ◌*◌, ◌/◌, ◌%◌, ◌^◌, Bool, true, false, not, ◌||◌, update, bit_and,
  if◌then◌else◌, ◌==◌, ◌!=◌, leb, ltb,
}
use ntx_preview.BootProto.{VideoInfo}
use ntx_preview.Hal.Font.{font_8x16}

-- HALP_CONSOLE_CELL_W and HALP_CONSOLE_CELL_H
abbrev pub cell_w : ℕ
cell_w = 9

abbrev pub cell_h : ℕ
cell_h = 16

-- The globals of hal_aur64.c that describe the framebuffer.
pub record Screen : Type 0 where
  pub width : ℕ
  pub height : ℕ
  pub pitch : ℕ
  pub color : ℕ
  pub bg : ℕ
  pub cols : ℕ
  pub rows : ℕ
  pub ready : Bool

-- What the routines change: the framebuffer and the cursor.
pub record Console : Type 0 where
  pub fb : ℕ → ℕ
  pub cursor_x : ℕ
  pub cursor_y : ℕ

abbrev pub pixel : Screen → ℕ → ℕ → ℕ
pixel s x y = (y * s.pitch + x) % 2 ^ 32

-- `HalpFbPutPixel`
unfoldable pub put_pixel : Screen → ℕ → ℕ → ℕ → (ℕ → ℕ) → ℕ → ℕ
put_pixel s x y color fb =
    if not s.ready || leb s.width x || leb s.height y then fb else update fb (pixel s x y) color

-- The inner loop of HalpFbFill, of which `n` pixels are left from `x` on.
unfoldable pub fill_row : Screen → ℕ → ℕ → ℕ → ℕ → (ℕ → ℕ) → ℕ → ℕ
unfolding put_pixel
fill_row s zero x y color fb = fb
fill_row s (suc n) x y color fb = fill_row s n (x + 1) y color (put_pixel s (x % 2 ^ 32) y color fb)

-- `HalpFbFill`, of which `h` rows are left from `y` on.
unfoldable pub fill : Screen → ℕ → ℕ → ℕ → ℕ → ℕ → (ℕ → ℕ) → ℕ → ℕ
unfolding fill_row
fill s x y w zero color fb = fb
fill s x y w (suc h) color fb = fill s x (y + 1) w h color (fill_row s w x (y % 2 ^ 32) color fb)

-- The inner loop of HalpFbScroll: a row gets the pixels of the row `cell_h` below.
unfoldable pub scroll_row : Screen → ℕ → ℕ → ℕ → (ℕ → ℕ) → ℕ → ℕ
scroll_row s zero x y fb = fb
scroll_row s (suc n) x y fb =
    scroll_row s n (x + 1) y (update fb (pixel s x y) (fb (pixel s x (y + cell_h))))

-- The outer loop of HalpFbScroll, of which `n` rows are left from `y` on.
unfoldable pub scroll_rows : Screen → ℕ → ℕ → (ℕ → ℕ) → ℕ → ℕ
unfolding scroll_row
scroll_rows s zero y fb = fb
scroll_rows s (suc n) y fb = scroll_rows s n (y + 1) (scroll_row s s.width 0 y fb)

-- `HalpFbScroll`
unfoldable pub scroll : Screen → (ℕ → ℕ) → ℕ → ℕ
unfolding scroll_rows fill
scroll s fb =
    if not s.ready || leb s.height cell_h
    then fb
    else fill s 0 (s.height - cell_h) s.width cell_h s.bg (scroll_rows s (s.height - cell_h) 0 fb)

-- The loop over the columns of a glyph's row, of which `n` are left.
unfoldable pub draw_row : Screen → ℕ → ℕ → ℕ → ℕ → (ℕ → ℕ) → ℕ → ℕ
unfolding put_pixel
draw_row s zero bits x y fb = fb
draw_row s (suc n) bits x y fb =
    let col = 7 - n in
    let set = put_pixel s ((x + col) % 2 ^ 32) y s.color fb in
    draw_row s n bits x y (if bit_and bits (2 ^ n) != 0 then set else fb)

-- The loop over the rows of a glyph, of which `n` are left.
unfoldable pub draw_glyph : Screen → ℕ → ℕ → ℕ → ℕ → (ℕ → ℕ) → ℕ → ℕ
unfolding draw_row
draw_glyph s zero ch x y fb = fb
draw_glyph s (suc n) ch x y fb =
    let row = 15 - n in
    draw_glyph s n ch x y (draw_row s 8 (font_8x16 ch row) x ((y + row) % 2 ^ 32) fb)

-- `HalpFbClear`
unfoldable pub clear : Screen → Console → Console
clear s c =
    if not s.ready
    then c
    else record c { fb = fill s 0 0 s.width s.height s.bg c.fb; cursor_x = 0; cursor_y = 0 }

-- A cursor that is past the last row goes back to it, with the text scrolled.
unfoldable pub keep_row : Screen → Console → Console
keep_row s c =
    if leb s.rows c.cursor_y
    then record c { fb = scroll s c.fb; cursor_y = (s.rows + 2 ^ 32 - 1) % 2 ^ 32 }
    else c

-- The cursor goes to the first column of the next row.
abbrev pub next_row : Console → Console
next_row c = record c { cursor_x = 0; cursor_y = (c.cursor_y + 1) % 2 ^ 32 }

-- A line feed.
unfoldable pub new_line : Screen → Console → Console
new_line s c = keep_row s (next_row c)

-- The cell at the cursor is cleared.
unfoldable pub clear_cell : Screen → Console → Console
clear_cell s c = record c {
  fb = fill s (c.cursor_x * cell_w % 2 ^ 32) (c.cursor_y * cell_h % 2 ^ 32) cell_w cell_h s.bg c.fb;
}

-- A backspace.
unfoldable pub backspace : Screen → Console → Console
backspace s c =
    if ltb 0 c.cursor_x
    then clear_cell s (record c { cursor_x = c.cursor_x - 1 })
    else if ltb 0 c.cursor_y
    then clear_cell s
        (record c { cursor_x = (s.cols + 2 ^ 32 - 1) % 2 ^ 32; cursor_y = c.cursor_y - 1 })
    else c

-- The character is drawn in the cell at the cursor, which moves on.
unfoldable pub draw : Screen → ℕ → Console → Console
draw s ch c =
    let cleared = clear_cell s c in
    record cleared {
      fb =
          draw_glyph s 16 (if ltb ch 32 || ltb 126 ch then b'?' else ch)
            (c.cursor_x * cell_w % 2 ^ 32) (c.cursor_y * cell_h % 2 ^ 32) cleared.fb;
      cursor_x = (c.cursor_x + 1) % 2 ^ 32;
    }

-- A cursor past the last column goes to the next row.
unfoldable pub wrap : Screen → Console → Console
wrap s c = keep_row s (if leb s.cols c.cursor_x then next_row c else c)

-- `HalpFbPutChar`
unfoldable pub put_char : Screen → ℕ → Console → Console
put_char s ch c =
    if not s.ready
    then c
    else if ch == 13
    then record c { cursor_x = 0 }
    else if ch == 10
    then new_line s c
    else if ch == 8
    then backspace s c
    else draw s ch (wrap s c)

-- The globals before the framebuffer is found.
abbrev pub no_screen : Screen
no_screen = record {
  width = 0;
  height = 0;
  pitch = 0;
  color = 0;
  bg = 0;
  cols = 0;
  rows = 0;
  ready = false;
}

-- The globals once the framebuffer is found.
abbrev pub screen_of : VideoInfo → Bool → Screen
screen_of video ready = record {
  width = video.width;
  height = video.height;
  pitch = video.pixels_per_scan_line;
  color = 0xF2F6FF;
  bg = 0x060A10;
  cols = video.width / cell_w;
  rows = video.height / cell_h;
  ready = ready;
}

-- The cursor at the start.
abbrev pub at_origin : (ℕ → ℕ) → Console
at_origin fb = record { fb = fb; cursor_x = 0; cursor_y = 0 }

-- `HalpInitializeFramebuffer`, with the boot info at hand; `fb` is what the framebuffer holds.
unfoldable pub initialize_framebuffer : VideoInfo → (ℕ → ℕ) → Screen × Console
initialize_framebuffer video fb =
    if video.frame_buffer_base == 0
      || video.width == 0
      || video.height == 0
      || video.pixels_per_scan_line == 0
    then (no_screen, at_origin fb)
    else if video.width / cell_w == 0 || video.height / cell_h == 0
    then (screen_of video false, at_origin fb)
    else (screen_of video true, clear (screen_of video true) (at_origin fb))
