-- ===== src/Graphics/Drawing.antt =====
-- The drawing functions of drivers/graphics.c as steps on the memory.
use ace_os.Base.{ℕ, List}
use ace_os.Libc.{Memory}
use ace_os.Graphics.{
  graphics_put_pixel, graphics_clear_screen, line_rounds, graphics_draw_rect, graphics_fill_rect,
  circle_rounds, graphics_fill_circle, graphics_copy_buffer,
}
use ace_os.Graphics.Font.{graphics_draw_char, graphics_draw_string}
use ace_os.Graphics.Pixels.{OnScreen, OnScreen-refl, OnScreen-trans, put_pixel-OnScreen}
use ace_os.Graphics.Clip.{
  clear_screen-OnScreen, fill_rect-OnScreen, draw_rect-OnScreen, line_rounds-OnScreen,
  fill_circle-OnScreen, copy_buffer-OnScreen,
}
use ace_os.Graphics.Circle.{circle_rounds-OnScreen}
use ace_os.Graphics.Font.Clip.{draw_char-OnScreen, draw_string-OnScreen}

-- One call of a function that draws; of a line and a circle, any number of rounds of its loop, whether
-- the loop has ended or not.
pub data Draws : Memory → Memory → Type 0 where
  put_pixel : (x y color : ℕ) (m : Memory) → Draws m (graphics_put_pixel x y color m)
  clear_screen : (color : ℕ) (m : Memory) → Draws m (graphics_clear_screen color m)
  draw_line :
      (fuel x1 y1 x2 y2 color : ℕ) (m : Memory) → Draws m (line_rounds fuel x1 y1 x2 y2 color m).1
  draw_rect :
      (x y width height color : ℕ) (m : Memory)
      → Draws m (graphics_draw_rect x y width height color m)
  fill_rect :
      (x y width height color : ℕ) (m : Memory)
      → Draws m (graphics_fill_rect x y width height color m)
  draw_circle :
      (fuel cx cy radius color : ℕ) (m : Memory)
      → Draws m (circle_rounds fuel cx cy radius color m).1
  fill_circle :
      (cx cy radius color : ℕ) (m : Memory) → Draws m (graphics_fill_circle cx cy radius color m)
  draw_char : (x y c color : ℕ) (m : Memory) → Draws m (graphics_draw_char x y c color m)
  draw_string :
      (x y : ℕ) (str : List ℕ) (color : ℕ) (m : Memory)
      → Draws m (graphics_draw_string x y str color m)
  copy_buffer :
      (src src_x src_y src_width dst_x dst_y width height : ℕ) (m : Memory)
      → Draws m (graphics_copy_buffer src src_x src_y src_width dst_x dst_y width height m)

-- Any number of calls.
pub data Drawing (m : Memory) : Memory → Type 0 where
  start : Drawing m m
  draw : {m' m'' : Memory} → Drawing m m' → Draws m' m'' → Drawing m m''

Draws-OnScreen : {m m' : Memory} → Draws m m' → OnScreen m m'
Draws-OnScreen (put_pixel x y color m) = put_pixel-OnScreen x y color m
Draws-OnScreen (clear_screen color m) = clear_screen-OnScreen color m
Draws-OnScreen (draw_line fuel x1 y1 x2 y2 color m) = line_rounds-OnScreen fuel x1 y1 x2 y2 color m
Draws-OnScreen (draw_rect x y width height color m) = draw_rect-OnScreen x y width height color m
Draws-OnScreen (fill_rect x y width height color m) = fill_rect-OnScreen x y width height color m
Draws-OnScreen (draw_circle fuel cx cy radius color m) =
    circle_rounds-OnScreen fuel cx cy radius color m
Draws-OnScreen (fill_circle cx cy radius color m) = fill_circle-OnScreen cx cy radius color m
Draws-OnScreen (draw_char x y c color m) = draw_char-OnScreen x y c color m
Draws-OnScreen (draw_string x y str color m) = draw_string-OnScreen x y str color m
Draws-OnScreen (copy_buffer src src_x src_y src_width dst_x dst_y width height m) =
    copy_buffer-OnScreen src src_x src_y src_width dst_x dst_y width height m

-- Whatever calls draw, with whatever coordinates, and after however many rounds of the loop of a line or
-- a circle: no byte outside of the screen changes.
pub Drawing-OnScreen : {m m' : Memory} → Drawing m m' → OnScreen m m'
Drawing-OnScreen {m} start = OnScreen-refl m
Drawing-OnScreen {m} (draw {m'} {m''} d c) =
    OnScreen-trans m m' m'' (Drawing-OnScreen d) (Draws-OnScreen c)
