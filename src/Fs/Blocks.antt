-- ===== src/Fs/Blocks.antt =====
-- `malloc` and `free` as drivers/fs.c uses them, over an unknown heap. `malloc` returns the address
-- of the block, 0 for NULL.
use ace_os.Base.{ℕ}

pub record Allocator : Type 1 where
  pub State : Type 0
  pub malloc : State → ℕ → ℕ × State
  pub free : State → ℕ → State
