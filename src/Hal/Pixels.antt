-- ===== src/Hal/Pixels.antt =====
-- hal/aur64/hal_aur64.c: filling, scrolling and drawing write to no pixel past the last line.
use ntx_preview.Base.{
  ℕ, zero, suc, ◌+◌, ◌-◌, ◌*◌, ◌%◌, ◌^◌, ◌<◌, ◌≤◌, ◌≡◌, refl, ◌∙◌, not, inl, inr, ◌||◌, leb,
  bit_and, ◌!=◌, Bool-cases, update, update-ne, arith,
}
use native.Mathlib.Nat.{mul-le-mul_right, mod-le}
use ntx_preview.Hal.Font.{font_8x16}
use ntx_preview.Hal.Console.{
  Screen, cell_h, pixel, put_pixel, fill_row, fill, scroll_row, scroll_rows, scroll, draw_row,
  draw_glyph,
}

-- A line of the framebuffer is at least as long as a row of the screen.
abbrev pub HasLines : Screen → Type 0
HasLines s = s.width ≤ s.pitch

-- No pixel past the last line differs.
abbrev pub Kept : Screen → (ℕ → ℕ) → (ℕ → ℕ) → Type 0
Kept s fb after = (i : ℕ) → s.height * s.pitch ≤ i → after i ≡ fb i

pixel-lt :
    (s : Screen) (x y : ℕ)
    → HasLines s
    → x < s.width
    → y < s.height
    → pixel s x y < s.height * s.pitch
pixel-lt s x y l a b = omega (
  arith,
  mul-le-mul_right {m = y + 1} {n = s.height} s.pitch (omega arith),
  mod-le (y * s.pitch + x) (2 ^ 32),
)

write-Kept :
    (s : Screen) (x y v : ℕ) (fb : ℕ → ℕ)
    → HasLines s
    → x < s.width
    → y < s.height
    → Kept s fb (update fb (pixel s x y) v)
write-Kept s x y v fb l a b i h =
    update-ne fb (pixel s x y) i v (λ e. absurd (omega (arith, pixel-lt s x y l a b)))

put_pixel-Kept :
    (s : Screen) (x y v : ℕ) (fb : ℕ → ℕ) → HasLines s → Kept s fb (put_pixel s x y v fb)
unfolding put_pixel
put_pixel-Kept s x y v fb l i h =
    elim (Bool-cases (not s.ready || leb s.width x || leb s.height y)) [
      | inl out ↦ rw out refl
      | inr inside ↦ rw inside (write-Kept s x y v fb l (ground arith) (ground arith) i h)
    ]

fill_row-Kept :
    (s : Screen) (n x y v : ℕ) (fb : ℕ → ℕ) → HasLines s → Kept s fb (fill_row s n x y v fb)
unfolding fill_row
fill_row-Kept s zero x y v fb l i h = refl
fill_row-Kept s (suc n) x y v fb l i h =
    fill_row-Kept s n (x + 1) y v (put_pixel s (x % 2 ^ 32) y v fb) l i h
    ∙ put_pixel-Kept s (x % 2 ^ 32) y v fb l i h

pub fill-Kept :
    (s : Screen) (x y w n v : ℕ) (fb : ℕ → ℕ) → HasLines s → Kept s fb (fill s x y w n v fb)
unfolding fill
fill-Kept s x y w zero v fb l i h = refl
fill-Kept s x y w (suc n) v fb l i h =
    fill-Kept s x (y + 1) w n v (fill_row s w x (y % 2 ^ 32) v fb) l i h
    ∙ fill_row-Kept s w x (y % 2 ^ 32) v fb l i h

scroll_row-Kept :
    (s : Screen) (n x y : ℕ) (fb : ℕ → ℕ)
    → HasLines s
    → x + n ≤ s.width
    → y < s.height
    → Kept s fb (scroll_row s n x y fb)
unfolding scroll_row
scroll_row-Kept s zero x y fb l a b i h = refl
scroll_row-Kept s (suc n) x y fb l a b i h =
    let moved = fb (pixel s x (y + cell_h)) in
    scroll_row-Kept s n (x + 1) y (update fb (pixel s x y) moved) l (omega arith) b i h
    ∙ write-Kept s x y moved fb l (omega arith) b i h

scroll_rows-Kept :
    (s : Screen) (n y : ℕ) (fb : ℕ → ℕ)
    → HasLines s
    → y + n ≤ s.height
    → Kept s fb (scroll_rows s n y fb)
unfolding scroll_rows
scroll_rows-Kept s zero y fb l a i h = refl
scroll_rows-Kept s (suc n) y fb l a i h =
    scroll_rows-Kept s n (y + 1) (scroll_row s s.width 0 y fb) l (omega arith) i h
    ∙ scroll_row-Kept s s.width 0 y fb l (omega arith) (omega arith) i h

pub scroll-Kept : (s : Screen) (fb : ℕ → ℕ) → HasLines s → Kept s fb (scroll s fb)
unfolding scroll
scroll-Kept s fb l i h = elim (Bool-cases (not s.ready || leb s.height cell_h)) [
  | inl stays ↦ rw stays refl
  | inr moves ↦ rw moves (
      fill-Kept s 0 (s.height - cell_h) s.width cell_h s.bg (scroll_rows s (s.height - cell_h) 0 fb)
        l i h
      ∙ scroll_rows-Kept s (s.height - cell_h) 0 fb l (omega arith) i h)
]

draw_row-Kept :
    (s : Screen) (n bits x y : ℕ) (fb : ℕ → ℕ) → HasLines s → Kept s fb (draw_row s n bits x y fb)
unfolding draw_row
draw_row-Kept s zero bits x y fb l i h = refl
draw_row-Kept s (suc n) bits x y fb l i h = elim (Bool-cases (bit_and bits (2 ^ n) != 0)) [
  | inl on ↦ rw on (
      draw_row-Kept s n bits x y (put_pixel s ((x + (7 - n)) % 2 ^ 32) y s.color fb) l i h
      ∙ put_pixel-Kept s ((x + (7 - n)) % 2 ^ 32) y s.color fb l i h)
  | inr off ↦ rw off (draw_row-Kept s n bits x y fb l i h)
]

pub draw_glyph-Kept :
    (s : Screen) (n ch x y : ℕ) (fb : ℕ → ℕ) → HasLines s → Kept s fb (draw_glyph s n ch x y fb)
unfolding draw_glyph
draw_glyph-Kept s zero ch x y fb l i h = refl
draw_glyph-Kept s (suc n) ch x y fb l i h =
    let bits = font_8x16 ch (15 - n) in
    let row = (y + (15 - n)) % 2 ^ 32 in
    draw_glyph-Kept s n ch x y (draw_row s 8 bits x row fb) l i h
    ∙ draw_row-Kept s 8 bits x row fb l i h
