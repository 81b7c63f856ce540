-- ===== src/Memory.antt =====
-- kernel/memory_utils.c: alignment, on uint32_t, and whole pages.
pub mod Pages
mod Tests
use ace_os.Base.{
  ℕ, ◌+◌, ◌-◌, ◌*◌, ◌/◌, ◌%◌, ◌^◌, ◌≤◌, ◌<◌, ◌≡◌, ◌≢◌, ◌⊎◌, arith, if◌then◌else◌, ◌==◌,
}
use ace_os.Libc.{Memory, memcpy, memset}
use ace_os.Pmm.{page_size}
use native.Mathlib.Nat.{div-add-mod', mul-mod_left, mod-lt}

unfoldable pub memory_align_up : ℕ → ℕ → ℕ
memory_align_up addr alignment =
    if alignment == 0
    then addr
    else let remainder = addr % alignment in
      if remainder == 0 then addr else (addr + (alignment - remainder)) % 2 ^ 32

unfoldable pub memory_align_down : ℕ → ℕ → ℕ
memory_align_down addr alignment = if alignment == 0 then addr else addr - addr % alignment

pub memory_copy_page : ℕ → ℕ → Memory → Memory
memory_copy_page dest src m =
    memcpy (memory_align_down dest page_size) (memory_align_down src page_size) page_size m

pub memory_zero_page : ℕ → Memory → Memory
memory_zero_page addr m = memset (memory_align_down addr page_size) 0 page_size m

-- The next multiple above an address that is none.
next_multiple : (addr a : ℕ) → 0 < a → addr + (a - addr % a) ≡ (addr / a + 1) * a
next_multiple addr a h = omega (arith, div-add-mod' addr a, mod-lt addr h)

-- Aligning up gives a multiple of the alignment, not below the address and less than one alignment
-- above it, if one alignment more than the address fits 32 bits.
memory_align_up_lem :
    (addr alignment : ℕ)
    → 0 < alignment
    → addr + alignment < 2 ^ 32
    → let r = memory_align_up addr alignment in
      (r % alignment ≡ 0) × (addr ≤ r) × (r < addr + alignment)
unfolding memory_align_up
memory_align_up_lem addr alignment h k = ground (
  arith,
  next_multiple addr alignment h,
  mul-mod_left (addr / alignment + 1) alignment,
  mod-lt addr h,
)

-- Aligning down gives the multiple of the alignment that is nearest below.
pub memory_align_down_lem :
    (addr alignment : ℕ)
    → 0 < alignment
    → let r = memory_align_down addr alignment in
      (r % alignment ≡ 0) × (r ≤ addr) × (addr < r + alignment)
unfolding memory_align_down
memory_align_down_lem addr alignment h =
    ground
      (arith, div-add-mod' addr alignment, mul-mod_left (addr / alignment) alignment, mod-lt addr h)
