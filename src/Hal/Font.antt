-- ===== src/Hal/Font.antt =====
-- hal/aur64/hal_aur64.c, the font: the 5x7 glyphs and the 8x16 cells that are made of them.
use ntx_preview.Base.{
  ℕ, ◌+◌, ◌-◌, ◌*◌, ◌/◌, ◌%◌, ◌^◌, ◌&&◌, List, [], ◌∷◌, bit_and, if◌then◌else◌, ◌==◌, leb, ltb,
  get_or,
}

-- `Digits` of HalpGlyph5x7Row
unfoldable pub digit_rows : List (List ℕ)
digit_rows =
    (0x0E ∷ 0x11 ∷ 0x13 ∷ 0x15 ∷ 0x19 ∷ 0x11 ∷ 0x0E ∷ [])
    ∷ (0x04 ∷ 0x0C ∷ 0x04 ∷ 0x04 ∷ 0x04 ∷ 0x04 ∷ 0x0E ∷ [])
    ∷ (0x0E ∷ 0x11 ∷ 0x01 ∷ 0x02 ∷ 0x04 ∷ 0x08 ∷ 0x1F ∷ [])
    ∷ (0x1E ∷ 0x01 ∷ 0x01 ∷ 0x06 ∷ 0x01 ∷ 0x01 ∷ 0x1E ∷ [])
    ∷ (0x02 ∷ 0x06 ∷ 0x0A ∷ 0x12 ∷ 0x1F ∷ 0x02 ∷ 0x02 ∷ [])
    ∷ (0x1F ∷ 0x10 ∷ 0x1E ∷ 0x01 ∷ 0x01 ∷ 0x11 ∷ 0x0E ∷ [])
    ∷ (0x06 ∷ 0x08 ∷ 0x10 ∷ 0x1E ∷ 0x11 ∷ 0x11 ∷ 0x0E ∷ [])
    ∷ (0x1F ∷ 0x01 ∷ 0x02 ∷ 0x04 ∷ 0x08 ∷ 0x08 ∷ 0x08 ∷ [])
    ∷ (0x0E ∷ 0x11 ∷ 0x11 ∷ 0x0E ∷ 0x11 ∷ 0x11 ∷ 0x0E ∷ [])
    ∷ (0x0E ∷ 0x11 ∷ 0x11 ∷ 0x0F ∷ 0x01 ∷ 0x02 ∷ 0x0C ∷ [])
    ∷ []

-- The cases of the switch in HalpGlyph5x7Row, less the space.
unfoldable pub glyphs : List (ℕ × List ℕ)
glyphs =
    (65, 0x0E ∷ 0x11 ∷ 0x11 ∷ 0x1F ∷ 0x11 ∷ 0x11 ∷ 0x11 ∷ [])
    ∷ (66, 0x1E ∷ 0x11 ∷ 0x11 ∷ 0x1E ∷ 0x11 ∷ 0x11 ∷ 0x1E ∷ [])
    ∷ (67, 0x0E ∷ 0x11 ∷ 0x10 ∷ 0x10 ∷ 0x10 ∷ 0x11 ∷ 0x0E ∷ [])
    ∷ (68, 0x1E ∷ 0x11 ∷ 0x11 ∷ 0x11 ∷ 0x11 ∷ 0x11 ∷ 0x1E ∷ [])
    ∷ (69, 0x1F ∷ 0x10 ∷ 0x10 ∷ 0x1E ∷ 0x10 ∷ 0x10 ∷ 0x1F ∷ [])
    ∷ (70, 0x1F ∷ 0x10 ∷ 0x10 ∷ 0x1E ∷ 0x10 ∷ 0x10 ∷ 0x10 ∷ [])
    ∷ (71, 0x0E ∷ 0x11 ∷ 0x10 ∷ 0x17 ∷ 0x11 ∷ 0x11 ∷ 0x0F ∷ [])
    ∷ (72, 0x11 ∷ 0x11 ∷ 0x11 ∷ 0x1F ∷ 0x11 ∷ 0x11 ∷ 0x11 ∷ [])
    ∷ (73, 0x1F ∷ 0x04 ∷ 0x04 ∷ 0x04 ∷ 0x04 ∷ 0x04 ∷ 0x1F ∷ [])
    ∷ (74, 0x07 ∷ 0x02 ∷ 0x02 ∷ 0x02 ∷ 0x12 ∷ 0x12 ∷ 0x0C ∷ [])
    ∷ (75, 0x11 ∷ 0x12 ∷ 0x14 ∷ 0x18 ∷ 0x14 ∷ 0x12 ∷ 0x11 ∷ [])
    ∷ (76, 0x10 ∷ 0x10 ∷ 0x10 ∷ 0x10 ∷ 0x10 ∷ 0x10 ∷ 0x1F ∷ [])
    ∷ (77, 0x11 ∷ 0x1B ∷ 0x15 ∷ 0x15 ∷ 0x11 ∷ 0x11 ∷ 0x11 ∷ [])
    ∷ (78, 0x11 ∷ 0x19 ∷ 0x15 ∷ 0x13 ∷ 0x11 ∷ 0x11 ∷ 0x11 ∷ [])
    ∷ (79, 0x0E ∷ 0x11 ∷ 0x11 ∷ 0x11 ∷ 0x11 ∷ 0x11 ∷ 0x0E ∷ [])
    ∷ (80, 0x1E ∷ 0x11 ∷ 0x11 ∷ 0x1E ∷ 0x10 ∷ 0x10 ∷ 0x10 ∷ [])
    ∷ (81, 0x0E ∷ 0x11 ∷ 0x11 ∷ 0x11 ∷ 0x15 ∷ 0x12 ∷ 0x0D ∷ [])
    ∷ (82, 0x1E ∷ 0x11 ∷ 0x11 ∷ 0x1E ∷ 0x14 ∷ 0x12 ∷ 0x11 ∷ [])
    ∷ (83, 0x0F ∷ 0x10 ∷ 0x10 ∷ 0x0E ∷ 0x01 ∷ 0x01 ∷ 0x1E ∷ [])
    ∷ (84, 0x1F ∷ 0x04 ∷ 0x04 ∷ 0x04 ∷ 0x04 ∷ 0x04 ∷ 0x04 ∷ [])
    ∷ (85, 0x11 ∷ 0x11 ∷ 0x11 ∷ 0x11 ∷ 0x11 ∷ 0x11 ∷ 0x0E ∷ [])
    ∷ (86, 0x11 ∷ 0x11 ∷ 0x11 ∷ 0x11 ∷ 0x11 ∷ 0x0A ∷ 0x04 ∷ [])
    ∷ (87, 0x11 ∷ 0x11 ∷ 0x11 ∷ 0x15 ∷ 0x15 ∷ 0x15 ∷ 0x0A ∷ [])
    ∷ (88, 0x11 ∷ 0x11 ∷ 0x0A ∷ 0x04 ∷ 0x0A ∷ 0x11 ∷ 0x11 ∷ [])
    ∷ (89, 0x11 ∷ 0x11 ∷ 0x0A ∷ 0x04 ∷ 0x04 ∷ 0x04 ∷ 0x04 ∷ [])
    ∷ (90, 0x1F ∷ 0x01 ∷ 0x02 ∷ 0x04 ∷ 0x08 ∷ 0x10 ∷ 0x1F ∷ [])
    ∷ (91, 0x0E ∷ 0x08 ∷ 0x08 ∷ 0x08 ∷ 0x08 ∷ 0x08 ∷ 0x0E ∷ [])
    ∷ (93, 0x0E ∷ 0x02 ∷ 0x02 ∷ 0x02 ∷ 0x02 ∷ 0x02 ∷ 0x0E ∷ [])
    ∷ (62, 0x10 ∷ 0x08 ∷ 0x04 ∷ 0x02 ∷ 0x04 ∷ 0x08 ∷ 0x10 ∷ [])
    ∷ (60, 0x01 ∷ 0x02 ∷ 0x04 ∷ 0x08 ∷ 0x04 ∷ 0x02 ∷ 0x01 ∷ [])
    ∷ (58, 0x00 ∷ 0x04 ∷ 0x04 ∷ 0x00 ∷ 0x04 ∷ 0x04 ∷ 0x00 ∷ [])
    ∷ (59, 0x00 ∷ 0x04 ∷ 0x04 ∷ 0x00 ∷ 0x04 ∷ 0x04 ∷ 0x08 ∷ [])
    ∷ (46, 0x00 ∷ 0x00 ∷ 0x00 ∷ 0x00 ∷ 0x00 ∷ 0x06 ∷ 0x06 ∷ [])
    ∷ (44, 0x00 ∷ 0x00 ∷ 0x00 ∷ 0x00 ∷ 0x06 ∷ 0x06 ∷ 0x08 ∷ [])
    ∷ (63, 0x0E ∷ 0x11 ∷ 0x01 ∷ 0x02 ∷ 0x04 ∷ 0x00 ∷ 0x04 ∷ [])
    ∷ (33, 0x04 ∷ 0x04 ∷ 0x04 ∷ 0x04 ∷ 0x04 ∷ 0x00 ∷ 0x04 ∷ [])
    ∷ (61, 0x00 ∷ 0x1F ∷ 0x00 ∷ 0x1F ∷ 0x00 ∷ 0x00 ∷ 0x00 ∷ [])
    ∷ (43, 0x00 ∷ 0x04 ∷ 0x04 ∷ 0x1F ∷ 0x04 ∷ 0x04 ∷ 0x00 ∷ [])
    ∷ (124, 0x04 ∷ 0x04 ∷ 0x04 ∷ 0x04 ∷ 0x04 ∷ 0x04 ∷ 0x04 ∷ [])
    ∷ (95, 0x00 ∷ 0x00 ∷ 0x00 ∷ 0x00 ∷ 0x00 ∷ 0x00 ∷ 0x1F ∷ [])
    ∷ (45, 0x00 ∷ 0x00 ∷ 0x00 ∷ 0x1F ∷ 0x00 ∷ 0x00 ∷ 0x00 ∷ [])
    ∷ (47, 0x01 ∷ 0x02 ∷ 0x04 ∷ 0x08 ∷ 0x10 ∷ 0x00 ∷ 0x00 ∷ [])
    ∷ (92, 0x10 ∷ 0x08 ∷ 0x04 ∷ 0x02 ∷ 0x01 ∷ 0x00 ∷ 0x00 ∷ [])
    ∷ (39, 0x04 ∷ 0x04 ∷ 0x02 ∷ 0x00 ∷ 0x00 ∷ 0x00 ∷ 0x00 ∷ [])
    ∷ (40, 0x02 ∷ 0x04 ∷ 0x08 ∷ 0x08 ∷ 0x08 ∷ 0x04 ∷ 0x02 ∷ [])
    ∷ (41, 0x08 ∷ 0x04 ∷ 0x02 ∷ 0x02 ∷ 0x02 ∷ 0x04 ∷ 0x08 ∷ [])
    ∷ []

-- The switch itself: the row of the first glyph that has the character.
unfoldable pub glyph_row : List (ℕ × List ℕ) → ℕ → ℕ → ℕ
glyph_row [] ch row = if ch == 32 then 0 else 0x1F
glyph_row ((c, rows) ∷ rest) ch row =
    let below = glyph_row rest ch row in if c == ch then get_or rows row 0 else below

abbrev pub upper_case : ℕ → ℕ
upper_case ch = if leb b'a' ch && leb ch b'z' then ch - b'a' + b'A' else ch

-- `HalpGlyph5x7Row`
unfoldable pub glyph_5x7_row : ℕ → ℕ → ℕ
unfolding digit_rows glyphs glyph_row
glyph_5x7_row ch row =
    let c = upper_case ch in
    if leb b'0' c && leb c b'9'
    then get_or (get_or digit_rows (c - b'0') []) row 0
    else glyph_row glyphs c row

-- `gHalFont8x16` as HalpBuildFont8x16 fills it.
unfoldable pub font_8x16 : ℕ → ℕ → ℕ
unfolding glyph_5x7_row
font_8x16 ch row =
    if ltb 0 row && ltb row 15
    then bit_and (glyph_5x7_row ch ((row - 1) / 2)) 0x1F * 2 % 2 ^ 8
    else 0
