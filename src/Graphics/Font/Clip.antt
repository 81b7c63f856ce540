-- ===== src/Graphics/Font/Clip.antt =====
-- Text in drivers/graphics.c is clipped to the screen.
use ace_os.Base.{
  ℕ, zero, List, [], ◌∷◌, bit_and, get_or, ◌==◌, suc, ◌+◌, ◌^◌, inl, inr, Bool-cases, leb,
}
use ace_os.Base.Words.{add32}
use ace_os.Libc.{Memory}
use ace_os.Graphics.Font.{
  glyph_columns, glyph_rows, graphics_draw_char, string_loop, graphics_draw_string,
}
use ace_os.Graphics.Clip.{then_pixel}
use ace_os.Graphics.Pixels.{OnScreen, OnScreen-refl, OnScreen-trans}

glyph_columns-OnScreen :
    (n col byte x y color : ℕ) (m : Memory) → OnScreen m (glyph_columns n col byte x y color m)
unfolding glyph_columns
glyph_columns-OnScreen zero col byte x y color m = OnScreen-refl m
glyph_columns-OnScreen (suc n) col byte x y color m =
    elim (Bool-cases (bit_and byte (2 ^ col) == 0)) [
      | inl e ↦ rw e (glyph_columns-OnScreen n (col + 1) byte x y color m)
      | inr e ↦
          rw e (then_pixel _ _ color m _ (glyph_columns-OnScreen n (col + 1) byte x y color _))
    ]

glyph_rows-OnScreen :
    (n : ℕ) (glyph : List ℕ) (row x y color : ℕ) (m : Memory)
    → OnScreen m (glyph_rows n glyph row x y color m)
unfolding glyph_rows
glyph_rows-OnScreen zero glyph row x y color m = OnScreen-refl m
glyph_rows-OnScreen (suc n) glyph row x y color m =
    OnScreen-trans m _ _ (glyph_columns-OnScreen 8 0 (get_or glyph row 0) x (add32 y row) color m)
      (glyph_rows-OnScreen n glyph (row + 1) x y color _)

pub draw_char-OnScreen :
    (x y c color : ℕ) (m : Memory) → OnScreen m (graphics_draw_char x y c color m)
unfolding graphics_draw_char
draw_char-OnScreen x y c color m = elim (Bool-cases (leb 128 c)) [
  | inl e ↦ rw e (OnScreen-refl m)
  | inr e ↦ rw e (glyph_rows-OnScreen 8 _ 0 x y color m)
]

string_loop-OnScreen :
    (x pos_x y : ℕ) (s : List ℕ) (color : ℕ) (m : Memory)
    → OnScreen m (string_loop x pos_x y s color m)
unfolding string_loop
string_loop-OnScreen x pos_x y [] color m = OnScreen-refl m
string_loop-OnScreen x pos_x y (c ∷ s) color m = elim (Bool-cases (c == 10)) [
  | inl e ↦ rw e (string_loop-OnScreen x x (add32 y 8) s color m)
  | inr e ↦ rw e (
      OnScreen-trans m _ _ (draw_char-OnScreen pos_x y c color m)
        (string_loop-OnScreen x (add32 pos_x 8) y s color _))
]

pub draw_string-OnScreen :
    (x y : ℕ) (str : List ℕ) (color : ℕ) (m : Memory)
    → OnScreen m (graphics_draw_string x y str color m)
unfolding graphics_draw_string
draw_string-OnScreen x y str color m = string_loop-OnScreen x x y str color m
