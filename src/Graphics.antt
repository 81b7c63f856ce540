-- ===== src/Graphics.antt =====
-- drivers/graphics.c: drawing in VGA mode 13h, 320 by 200 bytes at 0xA0000.
-- Coordinates are `int`s, kept as words: `x >= 0 && x < 320` of an `int` is `x < 320` of its word.
-- Bytes sent to ports are listed. Delays and serial output are left out.
pub mod Pixels
pub mod Line
pub mod Clip
pub mod Circle
pub mod Drawing
pub mod Font
pub mod Modes
mod Tests
use ace_os.Base.{
  ℕ, zero, suc, ◌+◌, ◌-◌, ◌*◌, ◌%◌, ◌^◌, Bool, true, false, not, ◌&&◌, Option, none, some, List, [],
  ◌∷◌, ◌++◌, if◌then◌else◌, ◌==◌, ltb, leb,
}
use ace_os.Base.Words.{add32, sub32, neg32, mul32, is_negative, less, rounds}
use ace_os.Libc.{Memory, poke}

abbrev pub vga_width : ℕ
vga_width = 320

abbrev pub vga_height : ℕ
vga_height = 200

abbrev pub vga_memory : ℕ
vga_memory = 0xa0000

abbrev pub color_black : ℕ
color_black = 0

abbrev pub color_white : ℕ
color_white = 15

-- `graphics_state_t`.
pub record Graphics : Type 0 where
  pub framebuffer : ℕ
  pub current_mode : ℕ
  pub foreground_color : ℕ
  pub background_color : ℕ

pub graphics_init : Graphics
graphics_init = record {
  framebuffer = vga_memory;
  current_mode = 3;
  foreground_color = color_white;
  background_color = color_black;
}

pub graphics_put_pixel : ℕ → ℕ → ℕ → Memory → Memory
graphics_put_pixel x y color m =
    if ltb x vga_width && ltb y vga_height
    then poke m (vga_memory + (y * vga_width + x)) color
    else m

pub graphics_get_pixel : Graphics → ℕ → ℕ → Memory → ℕ
graphics_get_pixel g x y m =
    if ltb x vga_width && ltb y vga_height then m (g.framebuffer + (y * vga_width + x)) else 0

-- `for (i = k; ...; i++) vga[i] = color`, `n` rounds.
pub clear_loop : ℕ → ℕ → ℕ → Memory → Memory
clear_loop zero k color m = m
clear_loop (suc n) k color m = clear_loop n (k + 1) color (poke m (vga_memory + k) color)

pub graphics_clear_screen : ℕ → Memory → Memory
graphics_clear_screen color m = clear_loop 64000 0 color m

-- The row of `graphics_fill_rect` at `y`, from the column `dx` on.
pub fill_row : ℕ → ℕ → ℕ → ℕ → ℕ → Memory → Memory
fill_row zero dx x y color m = m
fill_row (suc n) dx x y color m =
    fill_row n (dx + 1) x y color (graphics_put_pixel (add32 x dx) y color m)

-- The rows from `dy` on.
pub fill_rows : ℕ → ℕ → ℕ → ℕ → ℕ → ℕ → Memory → Memory
fill_rows zero dy x y width color m = m
fill_rows (suc n) dy x y width color m =
    fill_rows n (dy + 1) x y width color (fill_row (rounds width) 0 x (add32 y dy) color m)

pub graphics_fill_rect : ℕ → ℕ → ℕ → ℕ → ℕ → Memory → Memory
graphics_fill_rect x y width height color m = fill_rows (rounds height) 0 x y width color m

-- The loop over the top and bottom lines, the bottom one at `last`.
pub draw_columns : ℕ → ℕ → ℕ → ℕ → ℕ → ℕ → Memory → Memory
draw_columns zero i x y last color m = m
draw_columns (suc n) i x y last color m =
    draw_columns n (i + 1) x y last color
      (graphics_put_pixel (add32 x i) last color (graphics_put_pixel (add32 x i) y color m))

-- The loop over the left and right lines, the right one at `last`.
pub draw_rows : ℕ → ℕ → ℕ → ℕ → ℕ → ℕ → Memory → Memory
draw_rows zero i x y last color m = m
draw_rows (suc n) i x y last color m =
    draw_rows n (i + 1) x y last color
      (graphics_put_pixel last (add32 y i) color (graphics_put_pixel x (add32 y i) color m))

pub graphics_draw_rect : ℕ → ℕ → ℕ → ℕ → ℕ → Memory → Memory
graphics_draw_rect x y width height color m =
    draw_rows (rounds height) 0 x y (sub32 (add32 x width) 1) color
      (draw_columns (rounds width) 0 x y (sub32 (add32 y height) 1) color m)

-- The memory that a loop leaves when it ended, `none` for one that has not.
pub if_ended : Bool × Memory → Option Memory
if_ended (true, m) = some m
if_ended (false, m) = none

-- At most `fuel` rounds of the loop of `graphics_draw_line`: whether it ended in them, and the memory
-- behind them.
pub line_loop : ℕ → (abs_dx abs_dy sx sy x2 y2 : ℕ) → (x y err color : ℕ) → Memory → Bool × Memory
line_loop zero abs_dx abs_dy sx sy x2 y2 x y err color m = (false, m)
line_loop (suc fuel) abs_dx abs_dy sx sy x2 y2 x y err color m =
    let m' = graphics_put_pixel x y color m in
    let e2 : ℕ = mul32 2 err in
    let step_x = less (neg32 abs_dy) e2 in
    let step_y = less e2 abs_dx in
    let err' : ℕ = if step_x then sub32 err abs_dy else err in
    let rest =
      line_loop fuel abs_dx abs_dy sx sy x2 y2 (if step_x then add32 x sx else x)
        (if step_y then add32 y sy else y) (if step_y then add32 err' abs_dx else err') color m' in
    if x == x2 && y == y2 then (true, m') else rest

-- `(d < 0) ? -d : d`.
abbrev pub magnitude : ℕ → ℕ
magnitude d = if is_negative d then neg32 d else d

-- `(d > 0) ? 1 : -1`.
abbrev pub direction : ℕ → ℕ
direction d = if less 0 d then 1 else neg32 1

-- At most `fuel` rounds of `graphics_draw_line`.
pub line_rounds : ℕ → (x1 y1 x2 y2 color : ℕ) → Memory → Bool × Memory
line_rounds fuel x1 y1 x2 y2 color m =
    let dx : ℕ = sub32 x2 x1 in
    let dy : ℕ = sub32 y2 y1 in
    line_loop fuel (magnitude dx) (magnitude dy) (direction dx) (direction dy) x2 y2 x1 y1
      (sub32 (magnitude dx) (magnitude dy)) color m

-- One round for each column and row that lies between, and the last one.
pub graphics_draw_line : ℕ → ℕ → ℕ → ℕ → ℕ → Memory → Option Memory
graphics_draw_line x1 y1 x2 y2 color m =
    if_ended
      (line_rounds (magnitude (sub32 x2 x1) + magnitude (sub32 y2 y1) + 1) x1 y1 x2 y2 color m)

-- The eight points of a round of `graphics_draw_circle`.
pub draw_octants : ℕ → ℕ → ℕ → ℕ → ℕ → Memory → Memory
draw_octants cx cy x y color m =
    let m1 = graphics_put_pixel (add32 cx x) (add32 cy y) color m in
    let m2 = graphics_put_pixel (add32 cx x) (sub32 cy y) color m1 in
    let m3 = graphics_put_pixel (sub32 cx x) (add32 cy y) color m2 in
    let m4 = graphics_put_pixel (sub32 cx x) (sub32 cy y) color m3 in
    let m5 = graphics_put_pixel (add32 cx y) (add32 cy x) color m4 in
    let m6 = graphics_put_pixel (add32 cx y) (sub32 cy x) color m5 in
    let m7 = graphics_put_pixel (sub32 cx y) (add32 cy x) color m6 in
    graphics_put_pixel (sub32 cx y) (sub32 cy x) color m7

-- At most `fuel` rounds of the loop of `graphics_draw_circle`.
pub circle_loop : ℕ → (cx cy x y d color : ℕ) → Memory → Bool × Memory
circle_loop zero cx cy x y d color m = (false, m)
circle_loop (suc fuel) cx cy x y d color m =
    let inside = is_negative d in
    let d' : ℕ =
      if inside then add32 (add32 d (mul32 2 x)) 3 else add32 (add32 d (mul32 2 (sub32 x y))) 5 in
    let rest =
      circle_loop fuel cx cy (add32 x 1) (if inside then y else sub32 y 1) d' color
        (draw_octants cx cy x y color m) in
    if less y x then (true, m) else rest

-- At most `fuel` rounds of `graphics_draw_circle`.
pub circle_rounds : ℕ → (cx cy radius color : ℕ) → Memory → Bool × Memory
circle_rounds fuel cx cy radius color m = circle_loop fuel cx cy 0 radius (sub32 1 radius) color m

-- The columns from 0 to the radius, and the test that ends the loop.
pub graphics_draw_circle : ℕ → ℕ → ℕ → ℕ → Memory → Option Memory
graphics_draw_circle cx cy radius color m =
    if_ended (circle_rounds (rounds radius + 2) cx cy radius color m)

-- The row of `graphics_fill_circle` at `y`, from the column `x` on.
pub disc_row : ℕ → (cx cy radius x y color : ℕ) → Memory → Memory
disc_row zero cx cy radius x y color m = m
disc_row (suc n) cx cy radius x y color m = disc_row n cx cy radius (add32 x 1) y color (
    if less (mul32 radius radius) (add32 (mul32 x x) (mul32 y y))
    then m
    else graphics_put_pixel (add32 cx x) (add32 cy y) color m)

pub disc_rows : ℕ → (cx cy radius y color : ℕ) → Memory → Memory
disc_rows zero cx cy radius y color m = m
disc_rows (suc n) cx cy radius y color m =
    disc_rows n cx cy radius (add32 y 1) color
      (disc_row (2 * radius + 1) cx cy radius (neg32 radius) y color m)

-- `for (y = -radius; y <= radius; y++)`: 2 * radius + 1 rounds, none for a negative radius.
pub graphics_fill_circle : ℕ → ℕ → ℕ → ℕ → Memory → Memory
graphics_fill_circle cx cy radius color m =
    if is_negative radius then m else disc_rows (2 * radius + 1) cx cy radius (neg32 radius) color m

-- The row of `graphics_copy_buffer` at `y`, from the column `x` on; `src` is an address.
pub copy_row : ℕ → (src src_x src_y src_width dst_x dst_y x y : ℕ) → Memory → Memory
copy_row zero src src_x src_y src_width dst_x dst_y x y m = m
copy_row (suc n) src src_x src_y src_width dst_x dst_y x y m =
    let pixel = m (add32 src (add32 (mul32 (add32 src_y y) src_width) (add32 src_x x))) in
    copy_row n src src_x src_y src_width dst_x dst_y (x + 1) y
      (graphics_put_pixel (add32 dst_x x) (add32 dst_y y) pixel m)

pub copy_rows : ℕ → (src src_x src_y src_width dst_x dst_y width y : ℕ) → Memory → Memory
copy_rows zero src src_x src_y src_width dst_x dst_y width y m = m
copy_rows (suc n) src src_x src_y src_width dst_x dst_y width y m =
    copy_rows n src src_x src_y src_width dst_x dst_y width (y + 1)
      (copy_row (rounds width) src src_x src_y src_width dst_x dst_y 0 y m)

pub graphics_copy_buffer :
    (src src_x src_y src_width dst_x dst_y width height : ℕ) → Memory → Memory
graphics_copy_buffer src src_x src_y src_width dst_x dst_y width height m =
    copy_rows (rounds height) src src_x src_y src_width dst_x dst_y width 0 m

pub graphics_set_foreground_color : ℕ → Graphics → Graphics
graphics_set_foreground_color color g = record g { foreground_color = color }

pub graphics_set_background_color : ℕ → Graphics → Graphics
graphics_set_background_color color g = record g { background_color = color }

pub graphics_set_text_mode : Graphics → Graphics
graphics_set_text_mode g = record g { current_mode = 3 }
