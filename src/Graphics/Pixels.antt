-- ===== src/Graphics/Pixels.antt =====
-- What `graphics_fill_rect` and the single pixels of drivers/graphics.c do to the screen.
use ace_os.Base.{
  ℕ, zero, suc, ◌+◌, ◌-◌, ◌*◌, ◌%◌, ◌^◌, ◌≤◌, ◌<◌, ◌≡◌, refl, ◌∙◌, Bool, true, ◌&&◌, ◌||◌,
  if◌then◌else◌, ◌==◌, ltb, leb, arith,
}
use ace_os.Base.Words.{add32, rounds}
use ace_os.Libc.{Memory}
use ace_os.Graphics.{
  vga_width, vga_height, vga_memory, graphics_put_pixel, fill_row, fill_rows, graphics_fill_rect,
}

-- The byte of a pixel.
abbrev pub pixel : Memory → ℕ → ℕ → ℕ
pixel m x y = m (vga_memory + (y * vga_width + x))

-- Whether an address is that of no pixel.
abbrev pub off_screen : ℕ → Bool
off_screen a = ltb a vga_memory || leb (vga_memory + 64000) a

-- Only bytes of the screen differ.
pub record OnScreen (m m' : Memory) : Type 0 where
  pub same : (a : ℕ) → off_screen a ≡ true → m' a ≡ m a

pub put_pixel-OnScreen : (x y color : ℕ) (m : Memory) → OnScreen m (graphics_put_pixel x y color m)
unfolding graphics_put_pixel
put_pixel-OnScreen x y color m = record { same = λ a off. ground arith }

pub OnScreen-refl : (m : Memory) → OnScreen m m
OnScreen-refl m = record { same = λ a off. refl }

pub OnScreen-trans : (m m' m'' : Memory) → OnScreen m m' → OnScreen m' m'' → OnScreen m m''
OnScreen-trans m m' m'' h k = record { same = λ a off. k.same a off ∙ h.same a off }

pub pixel-put_pixel :
    (x y color : ℕ) (m : Memory) (px py : ℕ)
    → px < vga_width
    → py < vga_height
    → pixel (graphics_put_pixel x y color m) px py
      ≡ (if x == px && y == py then color else pixel m px py)
unfolding graphics_put_pixel
pixel-put_pixel x y color m px py hx hy = ground arith

-- Whether the word `p` is one of the `n` that start at `x`.
abbrev pub among : ℕ → ℕ → ℕ → Bool
among p x n = ltb ((p + 2 ^ 32 - x) % 2 ^ 32) n

-- ... leaving out the first `k`.
abbrev among_from : ℕ → ℕ → ℕ → ℕ → Bool
among_from k p x n = leb k ((p + 2 ^ 32 - x) % 2 ^ 32) && ltb ((p + 2 ^ 32 - x) % 2 ^ 32) (k + n)

module _ (x y color px py : ℕ) (hx : px < vga_width) (hy : py < vga_height) (wx : x < 2 ^ 32) where
  row_lem :
      (n k : ℕ) (m : Memory)
      → k + n ≤ 2 ^ 31
      → pixel (fill_row n k x y color m) px py
        ≡ (if among_from k px x n && y == py then color else pixel m px py)
  unfolding fill_row
  row_lem zero k m small = ground arith
  row_lem (suc n) k m small =
      let here : (add32 x k == px) ≡ (k == (px + 2 ^ 32 - x) % 2 ^ 32) = ground arith in
      row_lem n (k + 1) (graphics_put_pixel (add32 x k) y color m) (omega arith)
      ∙ rw (pixel-put_pixel (add32 x k) y color m px py hx hy, here) (ground arith)

module _ (x y width color px py : ℕ) (hx : px < vga_width) (hy : py < vga_height) (wx : x < 2 ^ 32)
    (wy : y < 2 ^ 32) where
  rows_lem :
      (n k : ℕ) (m : Memory)
      → k + n ≤ 2 ^ 31
      → pixel (fill_rows n k x y width color m) px py
        ≡ (if among px x (rounds width) && among_from k py y n then color else pixel m px py)
  unfolding fill_rows
  rows_lem zero k m small = ground arith
  rows_lem (suc n) k m small =
      let here : (add32 y k == py) ≡ (k == (py + 2 ^ 32 - y) % 2 ^ 32) = ground arith in
      let row = row_lem x (add32 y k) color px py hx hy wx (rounds width) 0 m (ground arith) in
      rows_lem n (k + 1) (fill_row (rounds width) 0 x (add32 y k) color m) (omega arith)
      ∙ rw (row, here) (ground arith)

-- `graphics_fill_rect` colours exactly the pixels of the screen that lie in the rectangle, whose
-- corner may lie outside of the screen; a negative width or height gives none.
pub fill_rect_lem :
    (x y width height color : ℕ) (m : Memory) (px py : ℕ)
    → px < vga_width
    → py < vga_height
    → x < 2 ^ 32
    → y < 2 ^ 32
    → pixel (graphics_fill_rect x y width height color m) px py
      ≡ (if among px x (rounds width) && among py y (rounds height) then color else pixel m px py)
unfolding graphics_fill_rect
fill_rect_lem x y width height color m px py hx hy wx wy =
    rows_lem x y width color px py hx hy wx wy (rounds height) 0 m (ground arith) ∙ ground arith
