-- ===== src/Gui/Tests.antt =====
-- Runs of kernel/gui.c.
use ace_os.Base.{ℕ, ◌+◌, ◌≡◌, true, some, [], ◌∷◌}
use ace_os.Base.Words.{neg32}
use ace_os.Libc.{Memory}
use ace_os.Fs.Blocks.{Allocator}
use ace_os.Graphics.Pixels.{OnScreen}
use ace_os.Gui.{
  Gui, gui_init, gui_create_window, gui_destroy_window, gui_draw_desktop, gui_draw_all_windows,
}
use ace_os.Gui.Windows.{IsGui, init, create, destroy, Reach-IsGui}
use ace_os.Gui.Screen.{redraw_lem}

-- A heap that only grows.
abbrev bump : Allocator
bump = record { State = ℕ; malloc = λ h n. (h, h + n); free = λ h p. h }

abbrev garbage : Gui bump
garbage = record {
  window = λ a. record {
    id = 0;
    title = [];
    x = 0;
    y = 0;
    width = 0;
    height = 0;
    state = 0;
    content_buffer = 77;
    next = 0;
    owner_process = 0;
    visible = true;
    z_order = 0;
  };
  windows = 5 ∷ [];
  active_window = 9;
  next_window_id = 0;
  desktop_initialized = true;
  mouse_x = 0;
  mouse_y = 0;
  mouse_buttons = 0;
  heap = 0x100000;
}

abbrev one_window : Gui bump
one_window = (gui_create_window (gui_init garbage) (87 ∷ []) (neg32 5) 40 180 120 0).1

Reach-IsGui_example : IsGui (gui_destroy_window one_window 0x100000)
Reach-IsGui_example =
    Reach-IsGui (destroy 0x100000 (create (87 ∷ []) (neg32 5) 40 180 120 0 (init garbage)))

abbrev blank : Memory
blank a = 0

redraw_lem_example :
    (m' : Memory) × (gui_draw_desktop blank ≡ some m')
    × OnScreen blank (gui_draw_all_windows one_window m')
redraw_lem_example = redraw_lem one_window blank
