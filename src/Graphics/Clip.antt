-- ===== src/Graphics/Clip.antt =====
-- Clipping in drivers/graphics.c: no call writes outside of the screen.
use ace_os.Base.{ℕ, zero, ◌==◌, ◌&&◌, suc, ◌+◌, ◌*◌, ◌≤◌, inl, inr, Bool-cases, arith}
use ace_os.Base.Words.{add32, neg32, mul32, is_negative, less, rounds}
use ace_os.Libc.{Memory, poke}
use ace_os.Graphics.{
  vga_memory, graphics_put_pixel, clear_loop, graphics_clear_screen, fill_row, fill_rows,
  graphics_fill_rect, draw_columns, draw_rows, graphics_draw_rect, disc_row, disc_rows,
  graphics_fill_circle, line_loop, line_rounds, copy_row, copy_rows, graphics_copy_buffer,
}
use ace_os.Graphics.Pixels.{OnScreen, OnScreen-refl, OnScreen-trans, put_pixel-OnScreen}

-- A pixel first, and then the rest.
pub then_pixel :
    (x y color : ℕ) (m m' : Memory) → OnScreen (graphics_put_pixel x y color m) m' → OnScreen m m'
then_pixel x y color m m' h =
    OnScreen-trans m (graphics_put_pixel x y color m) m' (put_pixel-OnScreen x y color m) h

clear_loop-OnScreen :
    (n k color : ℕ) (m : Memory) → k + n ≤ 64000 → OnScreen m (clear_loop n k color m)
unfolding clear_loop
clear_loop-OnScreen zero k color m small = OnScreen-refl m
clear_loop-OnScreen (suc n) k color m small =
    OnScreen-trans m (poke m (vga_memory + k) color) _ (record { same = λ a off. ground arith })
      (clear_loop-OnScreen n (k + 1) color (poke m (vga_memory + k) color) (omega arith))

pub clear_screen-OnScreen : (color : ℕ) (m : Memory) → OnScreen m (graphics_clear_screen color m)
unfolding graphics_clear_screen
clear_screen-OnScreen color m = clear_loop-OnScreen 64000 0 color m (omega arith)

fill_row-OnScreen : (n k x y color : ℕ) (m : Memory) → OnScreen m (fill_row n k x y color m)
unfolding fill_row
fill_row-OnScreen zero k x y color m = OnScreen-refl m
fill_row-OnScreen (suc n) k x y color m =
    then_pixel (add32 x k) y color m _ (fill_row-OnScreen n (k + 1) x y color _)

fill_rows-OnScreen :
    (n k x y width color : ℕ) (m : Memory) → OnScreen m (fill_rows n k x y width color m)
unfolding fill_rows
fill_rows-OnScreen zero k x y width color m = OnScreen-refl m
fill_rows-OnScreen (suc n) k x y width color m =
    OnScreen-trans m _ _ (fill_row-OnScreen (rounds width) 0 x (add32 y k) color m)
      (fill_rows-OnScreen n (k + 1) x y width color _)

pub fill_rect-OnScreen :
    (x y width height color : ℕ) (m : Memory)
    → OnScreen m (graphics_fill_rect x y width height color m)
unfolding graphics_fill_rect
fill_rect-OnScreen x y width height color m = fill_rows-OnScreen (rounds height) 0 x y width color m

draw_columns-OnScreen :
    (n i x y last color : ℕ) (m : Memory) → OnScreen m (draw_columns n i x y last color m)
unfolding draw_columns
draw_columns-OnScreen zero i x y last color m = OnScreen-refl m
draw_columns-OnScreen (suc n) i x y last color m =
    then_pixel (add32 x i) y color m _
      (then_pixel (add32 x i) last color _ _ (draw_columns-OnScreen n (i + 1) x y last color _))

draw_rows-OnScreen :
    (n i x y last color : ℕ) (m : Memory) → OnScreen m (draw_rows n i x y last color m)
unfolding draw_rows
draw_rows-OnScreen zero i x y last color m = OnScreen-refl m
draw_rows-OnScreen (suc n) i x y last color m =
    then_pixel x (add32 y i) color m _
      (then_pixel last (add32 y i) color _ _ (draw_rows-OnScreen n (i + 1) x y last color _))

pub draw_rect-OnScreen :
    (x y width height color : ℕ) (m : Memory)
    → OnScreen m (graphics_draw_rect x y width height color m)
unfolding graphics_draw_rect
draw_rect-OnScreen x y width height color m =
    OnScreen-trans m _ _ (draw_columns-OnScreen (rounds width) 0 x y _ color m)
      (draw_rows-OnScreen (rounds height) 0 x y _ color _)

line_loop-OnScreen :
    (fuel abs_dx abs_dy sx sy x2 y2 x y err color : ℕ) (m : Memory)
    → OnScreen m (line_loop fuel abs_dx abs_dy sx sy x2 y2 x y err color m).1
unfolding line_loop
line_loop-OnScreen zero abs_dx abs_dy sx sy x2 y2 x y err color m = OnScreen-refl m
line_loop-OnScreen (suc fuel) abs_dx abs_dy sx sy x2 y2 x y err color m =
    elim (Bool-cases (x == x2 && y == y2)) [
      | inl end ↦ rw end (put_pixel-OnScreen x y color m)
      | inr on ↦ rw on (
          then_pixel x y color m _
            (line_loop-OnScreen fuel abs_dx abs_dy sx sy x2 y2 _ _ _ color _))
    ]

disc_row-OnScreen :
    (n cx cy radius x y color : ℕ) (m : Memory) → OnScreen m (disc_row n cx cy radius x y color m)
unfolding disc_row
disc_row-OnScreen zero cx cy radius x y color m = OnScreen-refl m
disc_row-OnScreen (suc n) cx cy radius x y color m =
    elim (Bool-cases (less (mul32 radius radius) (add32 (mul32 x x) (mul32 y y)))) [
      | inl out ↦ rw out (disc_row-OnScreen n cx cy radius (add32 x 1) y color m)
      | inr inside ↦
          rw inside
            (then_pixel _ _ color m _ (disc_row-OnScreen n cx cy radius (add32 x 1) y color _))
    ]

disc_rows-OnScreen :
    (n cx cy radius y color : ℕ) (m : Memory) → OnScreen m (disc_rows n cx cy radius y color m)
unfolding disc_rows
disc_rows-OnScreen zero cx cy radius y color m = OnScreen-refl m
disc_rows-OnScreen (suc n) cx cy radius y color m =
    OnScreen-trans m _ _ (disc_row-OnScreen (2 * radius + 1) cx cy radius (neg32 radius) y color m)
      (disc_rows-OnScreen n cx cy radius (add32 y 1) color _)

pub fill_circle-OnScreen :
    (cx cy radius color : ℕ) (m : Memory) → OnScreen m (graphics_fill_circle cx cy radius color m)
unfolding graphics_fill_circle
fill_circle-OnScreen cx cy radius color m = elim (Bool-cases (is_negative radius)) [
  | inl e ↦ rw e (OnScreen-refl m)
  | inr e ↦ rw e (disc_rows-OnScreen (2 * radius + 1) cx cy radius (neg32 radius) color m)
]

copy_row-OnScreen :
    (n src src_x src_y src_width dst_x dst_y x y : ℕ) (m : Memory)
    → OnScreen m (copy_row n src src_x src_y src_width dst_x dst_y x y m)
unfolding copy_row
copy_row-OnScreen zero src src_x src_y src_width dst_x dst_y x y m = OnScreen-refl m
copy_row-OnScreen (suc n) src src_x src_y src_width dst_x dst_y x y m =
    then_pixel _ _ _ m _ (copy_row-OnScreen n src src_x src_y src_width dst_x dst_y (x + 1) y _)

copy_rows-OnScreen :
    (n src src_x src_y src_width dst_x dst_y width y : ℕ) (m : Memory)
    → OnScreen m (copy_rows n src src_x src_y src_width dst_x dst_y width y m)
unfolding copy_rows
copy_rows-OnScreen zero src src_x src_y src_width dst_x dst_y width y m = OnScreen-refl m
copy_rows-OnScreen (suc n) src src_x src_y src_width dst_x dst_y width y m =
    OnScreen-trans m _ _
      (copy_row-OnScreen (rounds width) src src_x src_y src_width dst_x dst_y 0 y m)
      (copy_rows-OnScreen n src src_x src_y src_width dst_x dst_y width (y + 1) _)

pub line_rounds-OnScreen :
    (fuel x1 y1 x2 y2 color : ℕ) (m : Memory) → OnScreen m (line_rounds fuel x1 y1 x2 y2 color m).1
unfolding line_rounds
line_rounds-OnScreen fuel x1 y1 x2 y2 color m =
    line_loop-OnScreen fuel _ _ _ _ x2 y2 x1 y1 _ color m

pub copy_buffer-OnScreen :
    (src src_x src_y src_width dst_x dst_y width height : ℕ) (m : Memory)
    → OnScreen m (graphics_copy_buffer src src_x src_y src_width dst_x dst_y width height m)
unfolding graphics_copy_buffer
copy_buffer-OnScreen src src_x src_y src_width dst_x dst_y width height m =
    copy_rows-OnScreen (rounds height) src src_x src_y src_width dst_x dst_y width 0 m
