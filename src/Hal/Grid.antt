-- ===== src/Hal/Grid.antt =====
-- hal/aur64/hal_aur64.c: the console writes to no pixel outside the screen, and its cursor stays on
-- the grid of cells.
use ntx_preview.Base.{
  ℕ, ◌+◌, ◌-◌, ◌*◌, ◌/◌, ◌%◌, ◌^◌, ◌<◌, ◌≤◌, ◌≡◌, refl, ◌∙◌, Bool, true, false, not, inl, inr, ◌⊎◌,
  List, [], ◌∷◌, ◌||◌, if◌then◌else◌, ◌==◌, ltb, leb, Bool-cases, arith,
}
use ntx_preview.BootProto.{VideoInfo}
use ntx_preview.Hal.Console.{
  Screen, Console, cell_h, cell_w, fill, clear, keep_row, next_row, new_line, clear_cell, backspace,
  draw, wrap, put_char, initialize_framebuffer, no_screen, screen_of, at_origin,
}
use ntx_preview.Hal.Pixels.{HasLines, Kept, fill-Kept, scroll-Kept, draw_glyph-Kept}
use ntx_preview.Hal.Calls.{write_text}

-- There are cells, and their rows and columns are counted in 32 bits.
abbrev pub IsGrid : Screen → Type 0
IsGrid s = (0 < s.cols) × (s.cols < 2 ^ 32) × (0 < s.rows) × (s.rows < 2 ^ 32)

-- The cursor stands in a cell, or past the last one of its row.
abbrev pub IsOnScreen : Screen → Console → Type 0
IsOnScreen s c = (c.cursor_x ≤ s.cols) × (c.cursor_y < s.rows)

keep_row-Kept : (s : Screen) (c : Console) → HasLines s → Kept s c.fb (keep_row s c).fb
unfolding keep_row
keep_row-Kept s c l i h = elim (Bool-cases (leb s.rows c.cursor_y)) [
  | inl past ↦ rw past (scroll-Kept s c.fb l i h)
  | inr on ↦ rw on refl
]

keep_row-IsOnScreen :
    (s : Screen) (c : Console) → IsGrid s → c.cursor_x ≤ s.cols → IsOnScreen s (keep_row s c)
unfolding keep_row
keep_row-IsOnScreen s c g a = elim (Bool-cases (leb s.rows c.cursor_y)) [
  | inl past ↦ rw past (a, omega arith)
  | inr on ↦ rw on (a, ground arith)
]

keep_row-cursor_x : (s : Screen) (c : Console) → (keep_row s c).cursor_x ≡ c.cursor_x
unfolding keep_row
keep_row-cursor_x s c = elim (Bool-cases (leb s.rows c.cursor_y)) [
  | inl past ↦ rw past refl
  | inr on ↦ rw on refl
]

wrap-Kept : (s : Screen) (c : Console) → HasLines s → Kept s c.fb (wrap s c).fb
unfolding wrap
wrap-Kept s c l = elim (Bool-cases (leb s.cols c.cursor_x)) [
  | inl past ↦ rw past (keep_row-Kept s (next_row c) l)
  | inr on ↦ rw on (keep_row-Kept s c l)
]

-- After the wrap the cursor stands in a cell.
wrap-IsOnScreen :
    (s : Screen) (c : Console)
    → IsGrid s
    → ((wrap s c).cursor_x < s.cols) × ((wrap s c).cursor_y < s.rows)
unfolding wrap
wrap-IsOnScreen s c g = elim (Bool-cases (leb s.cols c.cursor_x)) [
  | inl past ↦ rw past (
    omega (arith, keep_row-cursor_x s (next_row c)),
    (keep_row-IsOnScreen s (next_row c) g (omega arith)).1,
  )
  | inr on ↦
      rw on (ground (arith, keep_row-cursor_x s c), (keep_row-IsOnScreen s c g (ground arith)).1)
]

clear_cell-Kept : (s : Screen) (c : Console) → HasLines s → Kept s c.fb (clear_cell s c).fb
unfolding clear_cell
clear_cell-Kept s c l =
    fill-Kept s (c.cursor_x * cell_w % 2 ^ 32) (c.cursor_y * cell_h % 2 ^ 32) cell_w cell_h s.bg
      c.fb l

backspace-Kept : (s : Screen) (c : Console) → HasLines s → Kept s c.fb (backspace s c).fb
unfolding backspace
backspace-Kept s c l = elim (Bool-cases (ltb 0 c.cursor_x)) [
  | inl inside ↦ rw inside (clear_cell-Kept s (record c { cursor_x = c.cursor_x - 1 }) l)
  | inr first ↦ elim (Bool-cases (ltb 0 c.cursor_y)) [
    | inl below ↦
        rw (first, below)
          (clear_cell-Kept s
            (record c { cursor_x = (s.cols + 2 ^ 32 - 1) % 2 ^ 32; cursor_y = c.cursor_y - 1 }) l)
    | inr top ↦ rw (first, top) (λ i h. refl)
  ]
]

backspace-IsOnScreen :
    (s : Screen) (c : Console) → IsGrid s → IsOnScreen s c → IsOnScreen s (backspace s c)
unfolding backspace clear_cell
backspace-IsOnScreen s c g on = elim (Bool-cases (ltb 0 c.cursor_x)) [
  | inl inside ↦ rw inside (omega arith, on.1)
  | inr first ↦ elim (Bool-cases (ltb 0 c.cursor_y)) [
    | inl below ↦ rw (first, below) (omega arith, omega arith)
    | inr top ↦ rw (first, top) on
  ]
]

draw-Kept : (s : Screen) (ch : ℕ) (c : Console) → HasLines s → Kept s c.fb (draw s ch c).fb
unfolding draw
draw-Kept s ch c l i h =
    draw_glyph-Kept s 16 (if ltb ch 32 || ltb 126 ch then b'?' else ch)
      (c.cursor_x * cell_w % 2 ^ 32) (c.cursor_y * cell_h % 2 ^ 32) (clear_cell s c).fb l i h
    ∙ clear_cell-Kept s c l i h

draw-IsOnScreen :
    (s : Screen) (ch : ℕ) (c : Console)
    → IsGrid s
    → c.cursor_x < s.cols
    → c.cursor_y < s.rows
    → IsOnScreen s (draw s ch c)
unfolding draw clear_cell
draw-IsOnScreen s ch c g a b = (omega arith, b)

-- What holds of every branch holds of the character written.
put_char-cases :
    (P : Console → Type 0) (s : Screen) (ch : ℕ) (c : Console)
    → P c
    → P (record c { cursor_x = 0 })
    → P (new_line s c)
    → P (backspace s c)
    → P (draw s ch (wrap s c))
    → P (put_char s ch c)
unfolding put_char
put_char-cases P s ch c stays first line back drawn = elim (Bool-cases (not s.ready)) [
  | inl off ↦ rw off stays
  | inr on ↦ elim (Bool-cases (ch == 13)) [
    | inl return ↦ rw (on, return) first
    | inr r ↦ elim (Bool-cases (ch == 10)) [
      | inl feed ↦ rw (on, r, feed) line
      | inr f ↦ elim (Bool-cases (ch == 8)) [
        | inl erase ↦ rw (on, r, f, erase) back
        | inr shown ↦ rw (on, r, f, shown) drawn
      ]
    ]
  ]
]

put_char-Kept : (s : Screen) (ch : ℕ) (c : Console) → HasLines s → Kept s c.fb (put_char s ch c).fb
unfolding new_line
put_char-Kept s ch c l =
    put_char-cases (λ after. Kept s c.fb after.fb) s ch c (λ i h. refl) (λ i h. refl)
      (keep_row-Kept s (next_row c) l) (backspace-Kept s c l)
      (λ i h. draw-Kept s ch (wrap s c) l i h ∙ wrap-Kept s c l i h)

put_char-IsOnScreen :
    (s : Screen) (ch : ℕ) (c : Console) → IsGrid s → IsOnScreen s c → IsOnScreen s (put_char s ch c)
unfolding new_line
put_char-IsOnScreen s ch c g on =
    let (x, y) = wrap-IsOnScreen s c g in
    put_char-cases (IsOnScreen s) s ch c on (omega arith, on.1)
      (keep_row-IsOnScreen s (next_row c) g (omega arith)) (backspace-IsOnScreen s c g on)
      (draw-IsOnScreen s ch (wrap s c) g x y)

write_text-Kept :
    (s : Screen) (text : List ℕ) (c : Console) → HasLines s → Kept s c.fb (write_text s text c).fb
unfolding write_text
write_text-Kept s [] c l i h = refl
write_text-Kept s (ch ∷ text) c l i h =
    write_text-Kept s text (put_char s ch c) l i h ∙ put_char-Kept s ch c l i h

write_text-grid :
    (s : Screen) (text : List ℕ) (c : Console)
    → IsGrid s
    → IsOnScreen s c
    → IsOnScreen s (write_text s text c)
unfolding write_text
write_text-grid s [] c g on = on
write_text-grid s (ch ∷ text) c g on =
    write_text-grid s text (put_char s ch c) g (put_char-IsOnScreen s ch c g on)

-- The framebuffer that the boot loader reports: 32-bit sizes, and lines that hold a row.
abbrev pub IsVideo : VideoInfo → Type 0
IsVideo v = (v.width ≤ v.pixels_per_scan_line) × (v.width < 2 ^ 32) × (v.height < 2 ^ 32)

-- The framebuffer of `video` is as it was past its last line, and the console is off, or its cursor
-- on the grid.
abbrev pub Fits : VideoInfo → (ℕ → ℕ) → Screen → Console → Type 0
Fits v fb s c =
    ((i : ℕ) → v.height * v.pixels_per_scan_line ≤ i → c.fb i ≡ fb i)
    × ((s.ready ≡ false) ⊎ IsOnScreen s c)

-- The console that was set up on a framebuffer whose lines hold a row of the screen, and that has
-- then written any text, has changed no pixel past the last line; and if it is in use, its cursor
-- stands on the grid of cells, or just past the last cell of a row.
pub write_text-Fits :
    (video : VideoInfo) (fb : ℕ → ℕ) (text : List ℕ)
    → IsVideo video
    → let (s, c) = initialize_framebuffer video fb in Fits video fb s (write_text s text c)
unfolding initialize_framebuffer clear
write_text-Fits video fb text v = elim (Bool-cases absent) [
  | inl lacks ↦ rw lacks (
    (λ i h. write_text-Kept no_screen text (at_origin fb) (omega arith) i (omega arith)),
    inl refl,
  )
  | inr found ↦ elim (Bool-cases (video.width / cell_w == 0 || video.height / cell_h == 0)) [
    | inl small ↦
        rw (found, small)
          ((λ i h. write_text-Kept (screen_of video false) text (at_origin fb) v.0 i h), inl refl)
    | inr fits ↦
        rw (found, fits)
          (
            (λ i h.
                write_text-Kept (screen_of video true) text cleared v.0 i h
                ∙ fill-Kept (screen_of video true) 0 0 video.width video.height 0x060A10 fb v.0 i
                    h),
            inr (write_text-grid (screen_of video true) text cleared (ground arith) (ground arith)),
          )
  ]
]
  where
    absent : Bool
    absent =
        video.frame_buffer_base == 0
        || video.width == 0
        || video.height == 0
        || video.pixels_per_scan_line == 0

    cleared : Console
    cleared = at_origin (fill (screen_of video true) 0 0 video.width video.height 0x060A10 fb)
