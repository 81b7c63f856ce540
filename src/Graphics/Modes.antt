-- ===== src/Graphics/Modes.antt =====
-- drivers/graphics.c: the mode switch and the palette, as the bytes that are sent to ports, in order.
use ace_os.Base.{ℕ, zero, suc, ◌+◌, ◌-◌, ◌*◌, ◌/◌, ◌%◌, List, [], ◌∷◌, ◌++◌}
use ace_os.Libc.{Memory}
use ace_os.Graphics.{Graphics, vga_memory, color_black, graphics_clear_screen}

-- A port and a byte.
abbrev pub Write : Type 0
Write = ℕ × ℕ

-- From the miscellaneous register to the enabling of the video output.
abbrev pub mode13h_writes : List Write
mode13h_writes =
    (0x3c2, 0x63)
    ∷ (0x3c4, 0x00)
    ∷ (0x3c5, 0x01)
    ∷ (0x3c4, 0x01)
    ∷ (0x3c5, 0x01)
    ∷ (0x3c4, 0x02)
    ∷ (0x3c5, 0x0f)
    ∷ (0x3c4, 0x03)
    ∷ (0x3c5, 0x00)
    ∷ (0x3c4, 0x04)
    ∷ (0x3c5, 0x0e)
    ∷ (0x3c4, 0x00)
    ∷ (0x3c5, 0x03)
    ∷ (0x3d4, 0x03)
    ∷ (0x3d5, 0x80)
    ∷ (0x3d4, 0x11)
    ∷ (0x3d5, 0x00)
    ∷ (0x3d4, 0x00)
    ∷ (0x3d5, 0x5f)
    ∷ (0x3d4, 0x01)
    ∷ (0x3d5, 0x4f)
    ∷ (0x3d4, 0x02)
    ∷ (0x3d5, 0x50)
    ∷ (0x3d4, 0x03)
    ∷ (0x3d5, 0x82)
    ∷ (0x3d4, 0x04)
    ∷ (0x3d5, 0x54)
    ∷ (0x3d4, 0x05)
    ∷ (0x3d5, 0x80)
    ∷ (0x3d4, 0x06)
    ∷ (0x3d5, 0xbf)
    ∷ (0x3d4, 0x07)
    ∷ (0x3d5, 0x1f)
    ∷ (0x3d4, 0x08)
    ∷ (0x3d5, 0x00)
    ∷ (0x3d4, 0x09)
    ∷ (0x3d5, 0x41)
    ∷ (0x3d4, 0x0a)
    ∷ (0x3d5, 0x00)
    ∷ (0x3d4, 0x0b)
    ∷ (0x3d5, 0x00)
    ∷ (0x3d4, 0x0c)
    ∷ (0x3d5, 0x00)
    ∷ (0x3d4, 0x0d)
    ∷ (0x3d5, 0x00)
    ∷ (0x3d4, 0x0e)
    ∷ (0x3d5, 0x00)
    ∷ (0x3d4, 0x0f)
    ∷ (0x3d5, 0x00)
    ∷ (0x3d4, 0x10)
    ∷ (0x3d5, 0x9c)
    ∷ (0x3d4, 0x11)
    ∷ (0x3d5, 0x0e)
    ∷ (0x3d4, 0x12)
    ∷ (0x3d5, 0x8f)
    ∷ (0x3d4, 0x13)
    ∷ (0x3d5, 0x28)
    ∷ (0x3d4, 0x14)
    ∷ (0x3d5, 0x40)
    ∷ (0x3d4, 0x15)
    ∷ (0x3d5, 0x96)
    ∷ (0x3d4, 0x16)
    ∷ (0x3d5, 0xb9)
    ∷ (0x3d4, 0x17)
    ∷ (0x3d5, 0xa3)
    ∷ (0x3d4, 0x18)
    ∷ (0x3d5, 0xff)
    ∷ (0x3ce, 0x00)
    ∷ (0x3cf, 0x00)
    ∷ (0x3ce, 0x01)
    ∷ (0x3cf, 0x00)
    ∷ (0x3ce, 0x02)
    ∷ (0x3cf, 0x00)
    ∷ (0x3ce, 0x03)
    ∷ (0x3cf, 0x00)
    ∷ (0x3ce, 0x04)
    ∷ (0x3cf, 0x00)
    ∷ (0x3ce, 0x05)
    ∷ (0x3cf, 0x40)
    ∷ (0x3ce, 0x06)
    ∷ (0x3cf, 0x05)
    ∷ (0x3ce, 0x07)
    ∷ (0x3cf, 0x0f)
    ∷ (0x3ce, 0x08)
    ∷ (0x3cf, 0xff)
    ∷ (0x3c0, 0x00)
    ∷ (0x3c0, 0x00)
    ∷ (0x3c0, 0x01)
    ∷ (0x3c0, 0x01)
    ∷ (0x3c0, 0x02)
    ∷ (0x3c0, 0x02)
    ∷ (0x3c0, 0x03)
    ∷ (0x3c0, 0x03)
    ∷ (0x3c0, 0x04)
    ∷ (0x3c0, 0x04)
    ∷ (0x3c0, 0x05)
    ∷ (0x3c0, 0x05)
    ∷ (0x3c0, 0x06)
    ∷ (0x3c0, 0x06)
    ∷ (0x3c0, 0x07)
    ∷ (0x3c0, 0x07)
    ∷ (0x3c0, 0x08)
    ∷ (0x3c0, 0x08)
    ∷ (0x3c0, 0x09)
    ∷ (0x3c0, 0x09)
    ∷ (0x3c0, 0x0a)
    ∷ (0x3c0, 0x0a)
    ∷ (0x3c0, 0x0b)
    ∷ (0x3c0, 0x0b)
    ∷ (0x3c0, 0x0c)
    ∷ (0x3c0, 0x0c)
    ∷ (0x3c0, 0x0d)
    ∷ (0x3c0, 0x0d)
    ∷ (0x3c0, 0x0e)
    ∷ (0x3c0, 0x0e)
    ∷ (0x3c0, 0x0f)
    ∷ (0x3c0, 0x0f)
    ∷ (0x3c0, 0x10)
    ∷ (0x3c0, 0x41)
    ∷ (0x3c0, 0x11)
    ∷ (0x3c0, 0x00)
    ∷ (0x3c0, 0x12)
    ∷ (0x3c0, 0x0f)
    ∷ (0x3c0, 0x13)
    ∷ (0x3c0, 0x00)
    ∷ (0x3c0, 0x14)
    ∷ (0x3c0, 0x00)
    ∷ (0x3c0, 0x20)
    ∷ []

pub graphics_set_palette_color : (index r g b : ℕ) → List Write
graphics_set_palette_color index r g b =
    (0x3c8, index % 256) ∷ (0x3c9, r) ∷ (0x3c9, g) ∷ (0x3c9, b) ∷ []

-- The sixteen basic colours.
abbrev pub basic_colors : List (ℕ × ℕ × ℕ × ℕ)
basic_colors =
    (0, 0, 0, 0)
    ∷ (1, 0, 0, 42)
    ∷ (2, 0, 42, 0)
    ∷ (3, 0, 42, 42)
    ∷ (4, 42, 0, 0)
    ∷ (5, 42, 0, 42)
    ∷ (6, 42, 21, 0)
    ∷ (7, 42, 42, 42)
    ∷ (8, 21, 21, 21)
    ∷ (9, 21, 21, 63)
    ∷ (10, 21, 63, 21)
    ∷ (11, 21, 63, 63)
    ∷ (12, 63, 21, 21)
    ∷ (13, 63, 21, 63)
    ∷ (14, 63, 63, 21)
    ∷ (15, 63, 63, 63)
    ∷ []

pub set_colors : List (ℕ × ℕ × ℕ × ℕ) → List Write
set_colors [] = []
set_colors ((index, r, g, b) ∷ colors) = graphics_set_palette_color index r g b ++ set_colors colors

-- The loop over the other colours, from `i` on.
pub gradient : ℕ → ℕ → List Write
gradient zero i = []
gradient (suc n) i =
    let level : ℕ = (i - 16) * 63 / 239 in
    graphics_set_palette_color i level level level ++ gradient n (i + 1)

pub graphics_set_default_palette : List Write
graphics_set_default_palette = set_colors basic_colors ++ gradient 240 16

-- The ports, the state and the screen.
pub graphics_set_mode_13h : Graphics → Memory → List Write × Graphics × Memory
graphics_set_mode_13h g m = (
  mode13h_writes ++ graphics_set_default_palette,
  record g { current_mode = 13; framebuffer = vga_memory },
  graphics_clear_screen color_black m,
)
