-- ===== src/Graphics/Font.antt =====
-- drivers/graphics.c: the font, and text in graphics mode.
-- A `char` is a byte; its sign bit makes it negative.
pub mod Clip
use ace_os.Base.{
  ℕ, zero, suc, ◌+◌, ◌-◌, ◌^◌, Bool, true, false, not, ◌||◌, List, [], ◌∷◌, if◌then◌else◌, ◌==◌,
  leb, get_or, replicate, bit_and,
}
use ace_os.Base.Words.{add32}
use ace_os.Libc.{Memory}
use ace_os.Graphics.{graphics_put_pixel}

-- The glyphs that are set, by their character.
abbrev pub font_8x8 : List (ℕ × List ℕ)
font_8x8 =
    (32, 0x00 ∷ 0x00 ∷ 0x00 ∷ 0x00 ∷ 0x00 ∷ 0x00 ∷ 0x00 ∷ 0x00 ∷ [])
    ∷ (33, 0x18 ∷ 0x3c ∷ 0x3c ∷ 0x18 ∷ 0x18 ∷ 0x00 ∷ 0x18 ∷ 0x00 ∷ [])
    ∷ (34, 0x36 ∷ 0x36 ∷ 0x00 ∷ 0x00 ∷ 0x00 ∷ 0x00 ∷ 0x00 ∷ 0x00 ∷ [])
    ∷ (35, 0x36 ∷ 0x36 ∷ 0x7f ∷ 0x36 ∷ 0x7f ∷ 0x36 ∷ 0x36 ∷ 0x00 ∷ [])
    ∷ (36, 0x0c ∷ 0x3e ∷ 0x03 ∷ 0x1e ∷ 0x30 ∷ 0x1f ∷ 0x0c ∷ 0x00 ∷ [])
    ∷ (37, 0x00 ∷ 0x63 ∷ 0x33 ∷ 0x18 ∷ 0x0c ∷ 0x66 ∷ 0x63 ∷ 0x00 ∷ [])
    ∷ (38, 0x1c ∷ 0x36 ∷ 0x1c ∷ 0x6e ∷ 0x3b ∷ 0x33 ∷ 0x6e ∷ 0x00 ∷ [])
    ∷ (39, 0x06 ∷ 0x06 ∷ 0x03 ∷ 0x00 ∷ 0x00 ∷ 0x00 ∷ 0x00 ∷ 0x00 ∷ [])
    ∷ (40, 0x18 ∷ 0x0c ∷ 0x06 ∷ 0x06 ∷ 0x06 ∷ 0x0c ∷ 0x18 ∷ 0x00 ∷ [])
    ∷ (41, 0x06 ∷ 0x0c ∷ 0x18 ∷ 0x18 ∷ 0x18 ∷ 0x0c ∷ 0x06 ∷ 0x00 ∷ [])
    ∷ (42, 0x00 ∷ 0x66 ∷ 0x3c ∷ 0xff ∷ 0x3c ∷ 0x66 ∷ 0x00 ∷ 0x00 ∷ [])
    ∷ (43, 0x00 ∷ 0x0c ∷ 0x0c ∷ 0x3f ∷ 0x0c ∷ 0x0c ∷ 0x00 ∷ 0x00 ∷ [])
    ∷ (44, 0x00 ∷ 0x00 ∷ 0x00 ∷ 0x00 ∷ 0x00 ∷ 0x0c ∷ 0x06 ∷ 0x00 ∷ [])
    ∷ (45, 0x00 ∷ 0x00 ∷ 0x00 ∷ 0x3f ∷ 0x00 ∷ 0x00 ∷ 0x00 ∷ 0x00 ∷ [])
    ∷ (46, 0x00 ∷ 0x00 ∷ 0x00 ∷ 0x00 ∷ 0x00 ∷ 0x0c ∷ 0x0c ∷ 0x00 ∷ [])
    ∷ (47, 0x60 ∷ 0x30 ∷ 0x18 ∷ 0x0c ∷ 0x06 ∷ 0x03 ∷ 0x01 ∷ 0x00 ∷ [])
    ∷ (48, 0x3e ∷ 0x63 ∷ 0x73 ∷ 0x7b ∷ 0x6f ∷ 0x67 ∷ 0x3e ∷ 0x00 ∷ [])
    ∷ (49, 0x0c ∷ 0x0e ∷ 0x0c ∷ 0x0c ∷ 0x0c ∷ 0x0c ∷ 0x3f ∷ 0x00 ∷ [])
    ∷ (50, 0x1e ∷ 0x33 ∷ 0x30 ∷ 0x1c ∷ 0x06 ∷ 0x33 ∷ 0x3f ∷ 0x00 ∷ [])
    ∷ (51, 0x1e ∷ 0x33 ∷ 0x30 ∷ 0x1c ∷ 0x30 ∷ 0x33 ∷ 0x1e ∷ 0x00 ∷ [])
    ∷ (52, 0x38 ∷ 0x3c ∷ 0x36 ∷ 0x33 ∷ 0x7f ∷ 0x30 ∷ 0x78 ∷ 0x00 ∷ [])
    ∷ (53, 0x3f ∷ 0x03 ∷ 0x1f ∷ 0x30 ∷ 0x30 ∷ 0x33 ∷ 0x1e ∷ 0x00 ∷ [])
    ∷ (54, 0x1c ∷ 0x06 ∷ 0x03 ∷ 0x1f ∷ 0x33 ∷ 0x33 ∷ 0x1e ∷ 0x00 ∷ [])
    ∷ (55, 0x3f ∷ 0x33 ∷ 0x30 ∷ 0x18 ∷ 0x0c ∷ 0x0c ∷ 0x0c ∷ 0x00 ∷ [])
    ∷ (56, 0x1e ∷ 0x33 ∷ 0x33 ∷ 0x1e ∷ 0x33 ∷ 0x33 ∷ 0x1e ∷ 0x00 ∷ [])
    ∷ (57, 0x1e ∷ 0x33 ∷ 0x33 ∷ 0x3e ∷ 0x30 ∷ 0x18 ∷ 0x0e ∷ 0x00 ∷ [])
    ∷ (58, 0x00 ∷ 0x0c ∷ 0x0c ∷ 0x00 ∷ 0x00 ∷ 0x0c ∷ 0x0c ∷ 0x00 ∷ [])
    ∷ (59, 0x00 ∷ 0x0c ∷ 0x0c ∷ 0x00 ∷ 0x00 ∷ 0x0c ∷ 0x06 ∷ 0x00 ∷ [])
    ∷ (60, 0x18 ∷ 0x0c ∷ 0x06 ∷ 0x03 ∷ 0x06 ∷ 0x0c ∷ 0x18 ∷ 0x00 ∷ [])
    ∷ (61, 0x00 ∷ 0x00 ∷ 0x3f ∷ 0x00 ∷ 0x00 ∷ 0x3f ∷ 0x00 ∷ 0x00 ∷ [])
    ∷ (62, 0x06 ∷ 0x0c ∷ 0x18 ∷ 0x30 ∷ 0x18 ∷ 0x0c ∷ 0x06 ∷ 0x00 ∷ [])
    ∷ (63, 0x1e ∷ 0x33 ∷ 0x30 ∷ 0x18 ∷ 0x0c ∷ 0x00 ∷ 0x0c ∷ 0x00 ∷ [])
    ∷ (64, 0x3e ∷ 0x63 ∷ 0x7b ∷ 0x7b ∷ 0x7b ∷ 0x03 ∷ 0x1e ∷ 0x00 ∷ [])
    ∷ (65, 0x0c ∷ 0x1e ∷ 0x33 ∷ 0x33 ∷ 0x3f ∷ 0x33 ∷ 0x33 ∷ 0x00 ∷ [])
    ∷ (66, 0x3f ∷ 0x66 ∷ 0x66 ∷ 0x3e ∷ 0x66 ∷ 0x66 ∷ 0x3f ∷ 0x00 ∷ [])
    ∷ (67, 0x3c ∷ 0x66 ∷ 0x03 ∷ 0x03 ∷ 0x03 ∷ 0x66 ∷ 0x3c ∷ 0x00 ∷ [])
    ∷ (68, 0x1f ∷ 0x36 ∷ 0x66 ∷ 0x66 ∷ 0x66 ∷ 0x36 ∷ 0x1f ∷ 0x00 ∷ [])
    ∷ (69, 0x7f ∷ 0x46 ∷ 0x16 ∷ 0x1e ∷ 0x16 ∷ 0x46 ∷ 0x7f ∷ 0x00 ∷ [])
    ∷ (70, 0x7f ∷ 0x46 ∷ 0x16 ∷ 0x1e ∷ 0x16 ∷ 0x06 ∷ 0x0f ∷ 0x00 ∷ [])
    ∷ (71, 0x3c ∷ 0x66 ∷ 0x03 ∷ 0x03 ∷ 0x73 ∷ 0x66 ∷ 0x7c ∷ 0x00 ∷ [])
    ∷ (72, 0x33 ∷ 0x33 ∷ 0x33 ∷ 0x3f ∷ 0x33 ∷ 0x33 ∷ 0x33 ∷ 0x00 ∷ [])
    ∷ (73, 0x1e ∷ 0x0c ∷ 0x0c ∷ 0x0c ∷ 0x0c ∷ 0x0c ∷ 0x1e ∷ 0x00 ∷ [])
    ∷ (74, 0x78 ∷ 0x30 ∷ 0x30 ∷ 0x30 ∷ 0x33 ∷ 0x33 ∷ 0x1e ∷ 0x00 ∷ [])
    ∷ (75, 0x67 ∷ 0x66 ∷ 0x36 ∷ 0x1e ∷ 0x36 ∷ 0x66 ∷ 0x67 ∷ 0x00 ∷ [])
    ∷ (76, 0x0f ∷ 0x06 ∷ 0x06 ∷ 0x06 ∷ 0x46 ∷ 0x66 ∷ 0x7f ∷ 0x00 ∷ [])
    ∷ (77, 0x63 ∷ 0x77 ∷ 0x7f ∷ 0x7f ∷ 0x6b ∷ 0x63 ∷ 0x63 ∷ 0x00 ∷ [])
    ∷ (78, 0x63 ∷ 0x67 ∷ 0x6f ∷ 0x7b ∷ 0x73 ∷ 0x63 ∷ 0x63 ∷ 0x00 ∷ [])
    ∷ (79, 0x1c ∷ 0x36 ∷ 0x63 ∷ 0x63 ∷ 0x63 ∷ 0x36 ∷ 0x1c ∷ 0x00 ∷ [])
    ∷ (80, 0x3f ∷ 0x66 ∷ 0x66 ∷ 0x3e ∷ 0x06 ∷ 0x06 ∷ 0x0f ∷ 0x00 ∷ [])
    ∷ (81, 0x1e ∷ 0x33 ∷ 0x33 ∷ 0x33 ∷ 0x3b ∷ 0x1e ∷ 0x38 ∷ 0x00 ∷ [])
    ∷ (82, 0x3f ∷ 0x66 ∷ 0x66 ∷ 0x3e ∷ 0x36 ∷ 0x66 ∷ 0x67 ∷ 0x00 ∷ [])
    ∷ (83, 0x1e ∷ 0x33 ∷ 0x07 ∷ 0x0e ∷ 0x38 ∷ 0x33 ∷ 0x1e ∷ 0x00 ∷ [])
    ∷ (84, 0x3f ∷ 0x2d ∷ 0x0c ∷ 0x0c ∷ 0x0c ∷ 0x0c ∷ 0x1e ∷ 0x00 ∷ [])
    ∷ (85, 0x33 ∷ 0x33 ∷ 0x33 ∷ 0x33 ∷ 0x33 ∷ 0x33 ∷ 0x3f ∷ 0x00 ∷ [])
    ∷ (86, 0x33 ∷ 0x33 ∷ 0x33 ∷ 0x33 ∷ 0x33 ∷ 0x1e ∷ 0x0c ∷ 0x00 ∷ [])
    ∷ (87, 0x63 ∷ 0x63 ∷ 0x63 ∷ 0x6b ∷ 0x7f ∷ 0x77 ∷ 0x63 ∷ 0x00 ∷ [])
    ∷ (88, 0x63 ∷ 0x63 ∷ 0x36 ∷ 0x1c ∷ 0x1c ∷ 0x36 ∷ 0x63 ∷ 0x00 ∷ [])
    ∷ (89, 0x33 ∷ 0x33 ∷ 0x33 ∷ 0x1e ∷ 0x0c ∷ 0x0c ∷ 0x1e ∷ 0x00 ∷ [])
    ∷ (90, 0x7f ∷ 0x63 ∷ 0x31 ∷ 0x18 ∷ 0x4c ∷ 0x66 ∷ 0x7f ∷ 0x00 ∷ [])
    ∷ (97, 0x00 ∷ 0x00 ∷ 0x1e ∷ 0x30 ∷ 0x3e ∷ 0x33 ∷ 0x6e ∷ 0x00 ∷ [])
    ∷ (98, 0x07 ∷ 0x06 ∷ 0x06 ∷ 0x3e ∷ 0x66 ∷ 0x66 ∷ 0x3b ∷ 0x00 ∷ [])
    ∷ (99, 0x00 ∷ 0x00 ∷ 0x1e ∷ 0x33 ∷ 0x03 ∷ 0x33 ∷ 0x1e ∷ 0x00 ∷ [])
    ∷ (100, 0x38 ∷ 0x30 ∷ 0x30 ∷ 0x3e ∷ 0x33 ∷ 0x33 ∷ 0x6e ∷ 0x00 ∷ [])
    ∷ (101, 0x00 ∷ 0x00 ∷ 0x1e ∷ 0x33 ∷ 0x3f ∷ 0x03 ∷ 0x1e ∷ 0x00 ∷ [])
    ∷ (102, 0x1c ∷ 0x36 ∷ 0x06 ∷ 0x0f ∷ 0x06 ∷ 0x06 ∷ 0x0f ∷ 0x00 ∷ [])
    ∷ (103, 0x00 ∷ 0x00 ∷ 0x6e ∷ 0x33 ∷ 0x33 ∷ 0x3e ∷ 0x30 ∷ 0x1f ∷ [])
    ∷ (104, 0x07 ∷ 0x06 ∷ 0x36 ∷ 0x6e ∷ 0x66 ∷ 0x66 ∷ 0x67 ∷ 0x00 ∷ [])
    ∷ (105, 0x0c ∷ 0x00 ∷ 0x0e ∷ 0x0c ∷ 0x0c ∷ 0x0c ∷ 0x1e ∷ 0x00 ∷ [])
    ∷ (106, 0x30 ∷ 0x00 ∷ 0x30 ∷ 0x30 ∷ 0x30 ∷ 0x33 ∷ 0x33 ∷ 0x1e ∷ [])
    ∷ (107, 0x07 ∷ 0x06 ∷ 0x66 ∷ 0x36 ∷ 0x1e ∷ 0x36 ∷ 0x67 ∷ 0x00 ∷ [])
    ∷ (108, 0x0e ∷ 0x0c ∷ 0x0c ∷ 0x0c ∷ 0x0c ∷ 0x0c ∷ 0x1e ∷ 0x00 ∷ [])
    ∷ (109, 0x00 ∷ 0x00 ∷ 0x33 ∷ 0x7f ∷ 0x7f ∷ 0x6b ∷ 0x63 ∷ 0x00 ∷ [])
    ∷ (110, 0x00 ∷ 0x00 ∷ 0x1f ∷ 0x33 ∷ 0x33 ∷ 0x33 ∷ 0x33 ∷ 0x00 ∷ [])
    ∷ (111, 0x00 ∷ 0x00 ∷ 0x1e ∷ 0x33 ∷ 0x33 ∷ 0x33 ∷ 0x1e ∷ 0x00 ∷ [])
    ∷ (112, 0x00 ∷ 0x00 ∷ 0x3b ∷ 0x66 ∷ 0x66 ∷ 0x3e ∷ 0x06 ∷ 0x0f ∷ [])
    ∷ (113, 0x00 ∷ 0x00 ∷ 0x6e ∷ 0x33 ∷ 0x33 ∷ 0x3e ∷ 0x30 ∷ 0x78 ∷ [])
    ∷ (114, 0x00 ∷ 0x00 ∷ 0x3b ∷ 0x6e ∷ 0x66 ∷ 0x06 ∷ 0x0f ∷ 0x00 ∷ [])
    ∷ (115, 0x00 ∷ 0x00 ∷ 0x3e ∷ 0x03 ∷ 0x1e ∷ 0x30 ∷ 0x1f ∷ 0x00 ∷ [])
    ∷ (116, 0x08 ∷ 0x0c ∷ 0x3e ∷ 0x0c ∷ 0x0c ∷ 0x2c ∷ 0x18 ∷ 0x00 ∷ [])
    ∷ (117, 0x00 ∷ 0x00 ∷ 0x33 ∷ 0x33 ∷ 0x33 ∷ 0x33 ∷ 0x6e ∷ 0x00 ∷ [])
    ∷ (118, 0x00 ∷ 0x00 ∷ 0x33 ∷ 0x33 ∷ 0x33 ∷ 0x1e ∷ 0x0c ∷ 0x00 ∷ [])
    ∷ (119, 0x00 ∷ 0x00 ∷ 0x63 ∷ 0x6b ∷ 0x7f ∷ 0x7f ∷ 0x36 ∷ 0x00 ∷ [])
    ∷ (120, 0x00 ∷ 0x00 ∷ 0x63 ∷ 0x36 ∷ 0x1c ∷ 0x36 ∷ 0x63 ∷ 0x00 ∷ [])
    ∷ (121, 0x00 ∷ 0x00 ∷ 0x33 ∷ 0x33 ∷ 0x33 ∷ 0x3e ∷ 0x30 ∷ 0x1f ∷ [])
    ∷ (122, 0x00 ∷ 0x00 ∷ 0x3f ∷ 0x19 ∷ 0x0c ∷ 0x26 ∷ 0x3f ∷ 0x00 ∷ [])
    ∷ []

-- A glyph that is not set is blank.
pub glyph_of : List (ℕ × List ℕ) → ℕ → List ℕ
glyph_of [] c = replicate 8 0
glyph_of ((k, glyph) ∷ font) c = let later = glyph_of font c in if k == c then glyph else later

-- The pattern for 'A'.
abbrev pub test_pattern : List ℕ
test_pattern = 0x18 ∷ 0x3c ∷ 0x66 ∷ 0x66 ∷ 0x7e ∷ 0x66 ∷ 0x66 ∷ 0x00 ∷ []

-- The columns of a row from `col` on.
pub glyph_columns : ℕ → (col byte x y color : ℕ) → Memory → Memory
glyph_columns zero col byte x y color m = m
glyph_columns (suc n) col byte x y color m =
    glyph_columns n (col + 1) byte x y color
      (if bit_and byte (2 ^ col) == 0 then m else graphics_put_pixel (add32 x col) y color m)

-- The rows of a glyph from `row` on.
pub glyph_rows : ℕ → List ℕ → (row x y color : ℕ) → Memory → Memory
glyph_rows zero glyph row x y color m = m
glyph_rows (suc n) glyph row x y color m =
    glyph_rows n glyph (row + 1) x y color
      (glyph_columns 8 0 (get_or glyph row 0) x (add32 y row) color m)

pub graphics_draw_char : (x y c color : ℕ) → Memory → Memory
graphics_draw_char x y c color m =
    let glyph = if c == 65 then test_pattern else glyph_of font_8x8 c in
    if leb 128 c then m else glyph_rows 8 glyph 0 x y color m

-- The loop of `graphics_draw_string` at `pos_x`.
pub string_loop : (x pos_x y : ℕ) → List ℕ → ℕ → Memory → Memory
string_loop x pos_x y [] color m = m
string_loop x pos_x y (c ∷ s) color m =
    let line = string_loop x x (add32 y 8) s color m in
    let next = string_loop x (add32 pos_x 8) y s color (graphics_draw_char pos_x y c color m) in
    if c == 10 then line else next

pub graphics_draw_string : (x y : ℕ) → List ℕ → ℕ → Memory → Memory
graphics_draw_string x y str color m = string_loop x x y str color m
