-- ===== src/Gui/Screen.antt =====
-- kernel/gui.c: drawing the desktop and the windows.
use ace_os.Base.{
  ℕ, zero, suc, ◌+◌, ◌*◌, ◌^◌, ◌<◌, ◌≡◌, inl, inr, refl, ap, ◌∙◌, not, ◌||◌, Option, some, List, [],
  ◌∷◌, Bool-cases, if◌then◌else◌, ◌==◌, arith,
}
use ace_os.Libc.{Memory}
use ace_os.Fs.Blocks.{Allocator}
use ace_os.Graphics.{graphics_clear_screen}
use ace_os.Graphics.Pixels.{OnScreen, OnScreen-refl, OnScreen-trans}
use ace_os.Graphics.Line.{draw_line_ends}
use ace_os.Graphics.Drawing.{
  start, draw, clear_screen, draw_rect, fill_rect, draw_string, Drawing-OnScreen,
}
use ace_os.Gui.{
  Gui, gui_draw_window, draw_windows, gui_draw_all_windows, and_then, grid_columns, grid_rows,
  title_bar, gui_draw_desktop,
}

-- The drawing ends with a memory that differs on the screen only.
abbrev EndsOnScreen : Memory → Option Memory → Type 0
EndsOnScreen m r = (m' : Memory) × (r ≡ some m') × OnScreen m m'

grid_columns-EndsOnScreen :
    (n x : ℕ) (m : Memory) → x + n * 20 < 2 ^ 32 → EndsOnScreen m (grid_columns n x m)
unfolding grid_columns and_then
grid_columns-EndsOnScreen zero x m fits = (m, refl, OnScreen-refl m)
grid_columns-EndsOnScreen (suc n) x m fits =
    let h =
      draw_line_ends x 0 x 199 8 m (omega (arith, fits)) (omega arith) (omega (arith, fits))
        (omega arith) (ground (arith, fits)) (ground arith) in
    let (m', ends, on) = grid_columns-EndsOnScreen n (x + 20) h.result (omega (arith, fits)) in
    (
      m',
      ap (λ r. and_then r (grid_columns n (x + 20))) h.returned ∙ ends,
      OnScreen-trans m h.result m' h.on_screen on,
    )

grid_rows-EndsOnScreen :
    (n y : ℕ) (m : Memory) → y + n * 20 < 2 ^ 32 → EndsOnScreen m (grid_rows n y m)
unfolding grid_rows and_then
grid_rows-EndsOnScreen zero y m fits = (m, refl, OnScreen-refl m)
grid_rows-EndsOnScreen (suc n) y m fits =
    let h =
      draw_line_ends 0 y 319 y 8 m (omega arith) (omega (arith, fits)) (omega arith)
        (omega (arith, fits)) (ground arith) (ground (arith, fits)) in
    let (m', ends, on) = grid_rows-EndsOnScreen n (y + 20) h.result (omega (arith, fits)) in
    (
      m',
      ap (λ r. and_then r (grid_rows n (y + 20))) h.returned ∙ ends,
      OnScreen-trans m h.result m' h.on_screen on,
    )

title_bar-OnScreen : (m : Memory) → OnScreen m (title_bar m)
unfolding title_bar
title_bar-OnScreen m = Drawing-OnScreen (
    draw (draw (draw start (fill_rect _ _ _ _ _ m)) (draw_string _ _ _ _ _))
      (draw_string _ _ _ _ _))

desktop-EndsOnScreen : (m : Memory) → EndsOnScreen m (gui_draw_desktop m)
unfolding gui_draw_desktop and_then
desktop-EndsOnScreen m =
    let m0 = graphics_clear_screen 7 m in
    let (m1, e1, o1) = grid_columns-EndsOnScreen 16 0 m0 (omega arith) in
    let (m2, e2, o2) = grid_rows-EndsOnScreen 10 0 m1 (omega arith) in
    let o0 = Drawing-OnScreen (draw start (clear_screen 7 m)) in
    let so_far = OnScreen-trans m m0 m2 o0 (OnScreen-trans m0 m1 m2 o1 o2) in
    (
      title_bar m2,
      ap (λ r. and_then r (λ m1. and_then (grid_rows 10 0 m1) (λ m2. some (title_bar m2)))) e1
          ∙ ap (λ r. and_then r (λ m2. some (title_bar m2))) e2,
      OnScreen-trans m m2 (title_bar m2) so_far (title_bar-OnScreen m2),
    )

module _ {A : Allocator} (g : Gui A) where
  draw_window-OnScreen : (w : ℕ) (m : Memory) → OnScreen m (gui_draw_window g w m)
  unfolding gui_draw_window
  draw_window-OnScreen w m = elim (Bool-cases ((w == 0) || not (g.window w).visible)) [
    | inl e ↦ rw e (OnScreen-refl m)
    | inr e ↦ rw e (
        Drawing-OnScreen (
          draw
            (draw
              (draw (draw (draw start (draw_rect _ _ _ _ _ m)) (fill_rect _ _ _ _ _ _))
                (draw_string _ _ _ _ _))
              (draw_string _ _ _ _ _))
            (fill_rect _ _ _ _ _ _)))
  ]

  draw_windows-OnScreen : (windows : List ℕ) (m : Memory) → OnScreen m (draw_windows g windows m)
  unfolding draw_windows
  draw_windows-OnScreen [] m = OnScreen-refl m
  draw_windows-OnScreen (w ∷ windows) m =
      let m' = if w == 0 then m else gui_draw_window g w m in
      let first : OnScreen m m' = elim (Bool-cases (w == 0)) [
        | inl e ↦ rw e (OnScreen-refl m)
        | inr e ↦ rw e (draw_window-OnScreen w m)
      ] in
      OnScreen-trans m m' (draw_windows g windows m') first (draw_windows-OnScreen windows m')

  -- Drawing the desktop ends, and drawing it and all windows, wherever they lie, changes no byte outside
  -- of the screen.
  pub redraw_lem :
      (m : Memory)
      → (m' : Memory) × (gui_draw_desktop m ≡ some m') × OnScreen m (gui_draw_all_windows g m')
  unfolding gui_draw_all_windows
  redraw_lem m =
      let (m', ends, on) = desktop-EndsOnScreen m in
      (
        m',
        ends,
        OnScreen-trans m m' (draw_windows g g.windows m') on (draw_windows-OnScreen g.windows m'),
      )
