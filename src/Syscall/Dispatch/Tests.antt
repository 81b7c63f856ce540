-- ===== src/Syscall/Dispatch/Tests.antt =====
-- Runs of kernel/syscall.c.
use ace_os.Base.{
  ℕ, ◌+◌, ◌≡◌, ◌≢◌, ◌⊎◌, refl, true, false, some, List, [], ◌∷◌, ◌++◌, if◌then◌else◌, ◌==◌, arith,
}
use ace_os.Libc.{Memory}
use ace_os.Heap.{HeapManager, heap_magic_free}
use ace_os.Fs.Blocks.{Allocator}
use ace_os.Fs.{fs_init}
use ace_os.Syscall.{Layout, Kernel, minus_one, kernel_sleep}
use ace_os.Syscall.Sleep.{sleep_ends}
use ace_os.Syscall.Dispatch.{
  Registers, count_call, syscall_handler, sys_write, sys_close, sys_mkdir,
}
use ace_os.Syscall.Dispatch.Handler.{syscall_errno}

-- A heap that only grows.
abbrev bump : Allocator
bump = record { State = ℕ; malloc = λ h n. (h, h + n); free = λ h p. h }

abbrev layout : Layout
layout = record { entry_size = 56; entry_byte = λ e i. 0 }

-- "/d" at address 4096.
abbrev text : Memory
text a = if a == 4096 then 0x2f else if a == 4097 then 100 else 0

abbrev no_heap : HeapManager
no_heap = record {
  block = λ a. record { size = 0; free = true; magic = heap_magic_free; next = 0; prev = 0 };
  bytes = λ a. 0;
  first_block = 0;
  heap_start = 0;
  heap_end = 0;
  total_size = 0;
  free_size = 0;
  blocks_allocated = 0;
  blocks_free = 0;
  heap_initialized = false;
}

abbrev boot : Kernel bump
boot = record {
  world = record { fs = fs_init.0; heap = 0x100000; memory = text };
  current_directory = 0x2f ∷ [];
  heap = no_heap;
  readings = 5 ∷ (6 ∷ 1000 ∷ []) ++ 1005 ∷ 1006 ∷ [];
  output = [];
  current_errno = 0;
  syscall_count = λ n. 0;
  total_syscalls = 0;
}

abbrev registers : ℕ → ℕ → ℕ → ℕ → Registers
registers a b c d = record { eax = a; ebx = b; ecx = c; edx = d }

-- The directory "/d".
syscall_errno_example :
    (regs' : Registers) × (k' : Kernel bump) × (syscall_handler layout
        (registers sys_mkdir 4096 0 0)
        boot
      ≡ some (regs', k'))
    × (((regs'.eax ≢ minus_one) × (k'.current_errno ≡ 0))
        ⊎ ((regs'.eax ≡ minus_one) × (k'.current_errno ≢ 0)))
syscall_errno_example =
    syscall_errno layout (registers sys_mkdir 4096 0 0) boot (λ e. absurd (omega (arith, e)))
      (λ e. absurd (omega (arith, e))) (λ e. absurd (omega (arith, e)))
      (λ e. absurd (omega (arith, e))) (λ e. absurd (omega (arith, e))) (omega arith)

-- The text to standard output, and descriptor 5 closed.
abbrev two_calls : List Registers
two_calls = registers sys_write 1 4096 10 ∷ registers sys_close 5 0 0 ∷ []

abbrev after : Kernel bump
after =
    count_call layout sys_close
      (record (count_call layout sys_write boot) { output = 0x2f ∷ 100 ∷ [] })

-- One second from tick 5 on.
sleep_ends_example : kernel_sleep boot 1 ≡ some (0, record boot { readings = 1006 ∷ [] })
sleep_ends_example =
    sleep_ends boot 1 5 1005 (6 ∷ 1000 ∷ []) (1006 ∷ []) (λ e. absurd (omega (arith, e))) refl
      (omega arith, (omega arith, tt)) (omega arith)
