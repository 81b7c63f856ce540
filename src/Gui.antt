-- ===== src/Gui.antt =====
-- kernel/gui.c: the windows and how they are drawn.
-- A window is the address of its structure and 0 is NULL. The counted part of the array of windows is
-- a list; the elements behind it are NULL. The screen is drawn in the memory of drivers/graphics.c.
pub mod Windows
pub mod Screen
mod Tests
use ace_os.Base.{
  ℕ, zero, suc, ◌+◌, ◌-◌, ◌*◌, Bool, true, false, not, ◌&&◌, ◌||◌, Option, none, some, List, [],
  ◌∷◌, ◌++◌, if◌then◌else◌, ◌==◌, ltb, leb, length, take,
}
use ace_os.Base.Words.{add32, sub32}
use ace_os.Libc.{Memory}
use ace_os.Fs.Blocks.{Allocator}
use ace_os.Graphics.{
  vga_width, vga_height, graphics_clear_screen, graphics_draw_line, graphics_draw_rect,
  graphics_fill_rect,
}
use ace_os.Graphics.Font.{graphics_draw_string}

abbrev pub max_windows : ℕ
max_windows = 16

abbrev pub window_title_height : ℕ
window_title_height = 20

abbrev pub window_border_width : ℕ
window_border_width = 2

abbrev pub window_state_normal : ℕ
window_state_normal = 1

-- `sizeof(window_t)`: 32 characters and eleven words.
abbrev pub window_size : ℕ
window_size = 76

-- `window_t`.
pub record Window : Type 0 where
  pub id : ℕ
  pub title : List ℕ
  pub x : ℕ
  pub y : ℕ
  pub width : ℕ
  pub height : ℕ
  pub state : ℕ
  pub content_buffer : ℕ
  pub next : ℕ
  pub owner_process : ℕ
  pub visible : Bool
  pub z_order : ℕ

-- `gui_state_t`, the structures of the windows and the heap that they lie in.
pub record Gui (A : Allocator) : Type 0 where
  pub window : ℕ → Window
  pub windows : List ℕ
  pub active_window : ℕ
  pub next_window_id : ℕ
  pub desktop_initialized : Bool
  pub mouse_x : ℕ
  pub mouse_y : ℕ
  pub mouse_buttons : ℕ
  pub heap : A.State

-- The shift over the first place of the window.
pub remove_window : ℕ → List ℕ → List ℕ
remove_window w [] = []
remove_window w (v ∷ windows) =
    let rest = remove_window w windows in if v == w then windows else v ∷ rest

-- The last element, NULL for none.
pub last_window : List ℕ → ℕ
last_window [] = 0
last_window (w ∷ []) = w
last_window (w ∷ v ∷ windows) = last_window (v ∷ windows)

module _ {A : Allocator} where
  pub gui_init : Gui A → Gui A
  gui_init g = record g {
    windows = [];
    active_window = 0;
    next_window_id = 1;
    desktop_initialized = true;
    mouse_x = 160;
    mouse_y = 100;
    mouse_buttons = 0;
  }

  -- The structure is not cleared: `content_buffer` is what the memory held. `current` is the process
  -- that `process_get_current` returns.
  pub gui_create_window : Gui A → (title : List ℕ) → (x y width height current : ℕ) → ℕ × Gui A
  gui_create_window g title x y width height current =
      let (p, heap') = A.malloc g.heap window_size in
      let old = g.window p in
      let new = record old {
        id = g.next_window_id;
        title = take 31 title;
        x = x;
        y = y;
        width = width;
        height = height;
        state = window_state_normal;
        visible = true;
        z_order = length g.windows;
        owner_process = current;
        next = 0;
      } in
      if leb max_windows (length g.windows)
      then (0, g)
      else if p == 0
      then (0, record g { heap = heap' })
      else (
        p,
        record g {
          window = λ a. if a == p then new else g.window a;
          next_window_id = add32 g.next_window_id 1;
          windows = g.windows ++ p ∷ [];
          active_window = p;
          heap = heap';
        },
      )

  pub gui_destroy_window : Gui A → (window : ℕ) → Gui A
  gui_destroy_window g window =
      let left = remove_window window g.windows in
      let content : ℕ = (g.window window).content_buffer in
      let heap' = if content == 0 then g.heap else A.free g.heap content in
      if window == 0 then g else record g {
        windows = left;
        active_window = if g.active_window == window then last_window left else g.active_window;
        heap = A.free heap' window;
      }

  pub gui_draw_window : Gui A → (window : ℕ) → Memory → Memory
  gui_draw_window g window m =
      let w = g.window window in
      let m1 = graphics_draw_rect w.x w.y w.width w.height 8 m in
      let m2 =
        graphics_fill_rect (add32 w.x 1) (add32 w.y 1) (sub32 w.width 2) (window_title_height - 1) 1
          m1 in
      let m3 = graphics_draw_string (add32 w.x 5) (add32 w.y 5) w.title 15 m2 in
      let m4 = graphics_draw_string (sub32 (add32 w.x w.width) 15) (add32 w.y 5) (88 ∷ []) 4 m3 in
      let m5 =
        graphics_fill_rect (add32 w.x window_border_width) (add32 w.y window_title_height)
          (sub32 w.width (2 * window_border_width))
          (sub32 (sub32 w.height window_title_height) window_border_width) 15 m4 in
      if (window == 0) || not w.visible then m else m5

  -- The loop over the windows.
  pub draw_windows : Gui A → List ℕ → Memory → Memory
  draw_windows g [] m = m
  draw_windows g (w ∷ windows) m =
      draw_windows g windows (if w == 0 then m else gui_draw_window g w m)

  pub gui_draw_all_windows : Gui A → Memory → Memory
  gui_draw_all_windows g m = draw_windows g g.windows m

-- The next step of a drawing that has not failed to end.
pub and_then : Option Memory → (Memory → Option Memory) → Option Memory
and_then none later = none
and_then (some m) later = later m

-- `n` lines down from (`x`, 0), and then every 20 pixels to the right.
pub grid_columns : ℕ → (x : ℕ) → Memory → Option Memory
grid_columns zero x m = some m
grid_columns (suc n) x m =
    and_then (graphics_draw_line x 0 x (vga_height - 1) 8 m) (λ m'. grid_columns n (x + 20) m')

pub grid_rows : ℕ → (y : ℕ) → Memory → Option Memory
grid_rows zero y m = some m
grid_rows (suc n) y m =
    and_then (graphics_draw_line 0 y (vga_width - 1) y 8 m) (λ m'. grid_rows n (y + 20) m')

-- The bar at the top: "aceOS Desktop Environment" and "GUI Active".
pub title_bar : Memory → Memory
title_bar m =
    let m1 = graphics_fill_rect 0 0 vga_width 20 1 m in
    let m2 =
      graphics_draw_string 5 5
        (97 ∷ 99 ∷ 101 ∷ 79 ∷ 83 ∷ 32 ∷ 68 ∷ 101 ∷ 115 ∷ 107 ∷ 116 ∷ 111 ∷ 112 ∷ 32 ∷ 69 ∷ 110 ∷ 118
          ∷ 105 ∷ 114 ∷ 111 ∷ 110 ∷ 109 ∷ 101 ∷ 110 ∷ 116 ∷ [])
        15 m1 in
    graphics_draw_string (vga_width - 100) 5
      (71 ∷ 85 ∷ 73 ∷ 32 ∷ 65 ∷ 99 ∷ 116 ∷ 105 ∷ 118 ∷ 101 ∷ []) 14 m2

-- 16 columns and 10 rows. A line that does not end gives `none`.
pub gui_draw_desktop : Memory → Option Memory
gui_draw_desktop m =
    and_then (grid_columns 16 0 (graphics_clear_screen 7 m))
      (λ m1. and_then (grid_rows 10 0 m1) (λ m2. some (title_bar m2)))
