-- ===== src/Graphics/Tests.antt =====
-- Runs of drivers/graphics.c.
use ace_os.Base.{◌≡◌, [], ◌∷◌, ◌&&◌, if◌then◌else◌, arith}
use ace_os.Base.Words.{rounds, neg32}
use ace_os.Libc.{Memory}
use ace_os.Graphics.{graphics_fill_rect, graphics_draw_line}
use ace_os.Graphics.Font.{graphics_draw_string}
use ace_os.Graphics.Pixels.{OnScreen, pixel, among, fill_rect_lem}
use ace_os.Graphics.Line.{Ended, draw_line_ends}
use ace_os.Graphics.Drawing.{start, draw, fill_rect, draw_string, Drawing-OnScreen}

abbrev blank : Memory
blank a = 0

-- A rectangle whose left part is off the screen.
fill_rect_lem_example :
    pixel (graphics_fill_rect (neg32 5) 10 20 30 7 blank) 3 12
    ≡ (if among 3 (neg32 5) (rounds 20) && among 12 10 (rounds 30) then 7 else pixel blank 3 12)
fill_rect_lem_example =
    fill_rect_lem (neg32 5) 10 20 30 7 blank 3 12 (omega arith) (omega arith) (omega arith)
      (omega arith)

-- From (5, 9) up and left to (2, 8).
draw_line_ends_example : Ended 2 8 7 blank (graphics_draw_line 5 9 2 8 7 blank)
draw_line_ends_example =
    draw_line_ends 5 9 2 8 7 blank (omega arith) (omega arith) (omega arith) (omega arith)
      (omega arith) (omega arith)

Drawing-OnScreen_example : OnScreen blank (
    graphics_draw_string 310 195 (72 ∷ 105 ∷ []) 15 (graphics_fill_rect (neg32 5) 10 20 30 7 blank))
Drawing-OnScreen_example = Drawing-OnScreen (
    draw (draw start (fill_rect (neg32 5) 10 20 30 7 blank))
      (draw_string 310 195 (72 ∷ 105 ∷ []) 15 _))
