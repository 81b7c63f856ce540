-- ===== src/Syscall/Dispatch.antt =====
-- kernel/syscall.c: the dispatcher. The registers are passed by value, so the result in `eax` is
-- that of the handler's own copy.
pub mod Handler
mod Tests
use ace_os.Base.{
  ℕ, ◌+◌, ◌^◌, ◌%◌, ◌≡◌, ◌≢◌, inl, inr, Bool, true, false, ◌&&◌, Option, none, some, List, [],
  Bool-cases, if◌then◌else◌, ◌==◌, ltb, arith,
}
use ace_os.Base.Words.{add32}
use ace_os.Fs.Blocks.{Allocator}
use ace_os.Syscall.{
  Layout, Kernel, fail, minus_one, einval, kernel_exit, kernel_read, kernel_write, kernel_open,
  kernel_close, kernel_malloc, kernel_free, kernel_getpid, kernel_sleep, kernel_chdir,
  kernel_getcwd, kernel_mkdir, kernel_rmdir, kernel_unlink, kernel_stat, kernel_time,
}

abbrev pub sys_exit : ℕ
sys_exit = 0

abbrev pub sys_read : ℕ
sys_read = 1

abbrev pub sys_write : ℕ
sys_write = 2

abbrev pub sys_open : ℕ
sys_open = 3

abbrev pub sys_close : ℕ
sys_close = 4

abbrev pub sys_malloc : ℕ
sys_malloc = 5

abbrev pub sys_free : ℕ
sys_free = 6

abbrev pub sys_getpid : ℕ
sys_getpid = 7

abbrev pub sys_sleep : ℕ
sys_sleep = 8

abbrev pub sys_chdir : ℕ
sys_chdir = 13

abbrev pub sys_getcwd : ℕ
sys_getcwd = 14

abbrev pub sys_mkdir : ℕ
sys_mkdir = 15

abbrev pub sys_rmdir : ℕ
sys_rmdir = 16

abbrev pub sys_unlink : ℕ
sys_unlink = 17

abbrev pub sys_stat : ℕ
sys_stat = 18

abbrev pub sys_time : ℕ
sys_time = 19

abbrev pub sys_max : ℕ
sys_max = 30

-- The registers of `registers_t` that a system call reads and writes.
pub record Registers : Type 0 where
  pub eax : ℕ
  pub ebx : ℕ
  pub ecx : ℕ
  pub edx : ℕ

module _ {A : Allocator} (l : Layout) where
  -- The `switch`.
  pub dispatch : (syscall_no arg1 arg2 arg3 : ℕ) → Kernel A → Option (ℕ × Kernel A)
  dispatch syscall_no arg1 arg2 arg3 k =
      if syscall_no == sys_exit
      then some (kernel_exit k arg1)
      else if syscall_no == sys_read
      then some (kernel_read k arg1 arg2 arg3)
      else if syscall_no == sys_write
      then some (kernel_write k arg1 arg2 arg3)
      else if syscall_no == sys_open
      then some (kernel_open k arg1 arg2)
      else if syscall_no == sys_close
      then some (kernel_close k arg1)
      else if syscall_no == sys_malloc
      then some (kernel_malloc k arg1)
      else if syscall_no == sys_free
      then some (kernel_free k arg1)
      else if syscall_no == sys_getpid
      then some (kernel_getpid k)
      else if syscall_no == sys_sleep
      then kernel_sleep k arg1
      else if syscall_no == sys_chdir
      then some (kernel_chdir k arg1)
      else if syscall_no == sys_getcwd
      then some (kernel_getcwd k arg1 arg2)
      else if syscall_no == sys_mkdir
      then some (kernel_mkdir k arg1)
      else if syscall_no == sys_rmdir
      then some (kernel_rmdir k arg1)
      else if syscall_no == sys_unlink
      then some (kernel_unlink k arg1)
      else if syscall_no == sys_stat
      then some (kernel_stat l k arg1 arg2)
      else if syscall_no == sys_time
      then kernel_time k
      else some (fail k einval)

  -- The statistics and `current_errno = 0`.
  pub count_call : (syscall_no : ℕ) → Kernel A → Kernel A
  count_call syscall_no k = record k {
    total_syscalls = add32 k.total_syscalls 1;
    syscall_count = λ n.
        if (n == syscall_no) && ltb syscall_no sys_max
        then add32 (k.syscall_count n) 1
        else k.syscall_count n;
    current_errno = 0;
  }

  pub returns : Registers → Option (ℕ × Kernel A) → Option (Registers × Kernel A)
  returns regs none = none
  returns regs (some (result, k)) = some (record regs { eax = result }, k)

  pub syscall_handler : Registers → Kernel A → Option (Registers × Kernel A)
  syscall_handler regs k =
      returns regs (dispatch regs.eax regs.ebx regs.ecx regs.edx (count_call regs.eax k))

  -- A property of all sixteen calls and of the refusal of other numbers is one of the dispatcher.
  pub dispatch_every :
      (Q : Option (ℕ × Kernel A) → Type 0) (n a b c : ℕ) (k : Kernel A)
      → (n ≡ sys_exit → Q (some (kernel_exit k a)))
      → (n ≡ sys_read → Q (some (kernel_read k a b c)))
      → (n ≡ sys_write → Q (some (kernel_write k a b c)))
      → (n ≡ sys_open → Q (some (kernel_open k a b)))
      → (n ≡ sys_close → Q (some (kernel_close k a)))
      → (n ≡ sys_malloc → Q (some (kernel_malloc k a)))
      → (n ≡ sys_free → Q (some (kernel_free k a)))
      → (n ≡ sys_getpid → Q (some (kernel_getpid k)))
      → (n ≡ sys_sleep → Q (kernel_sleep k a))
      → (n ≡ sys_chdir → Q (some (kernel_chdir k a)))
      → (n ≡ sys_getcwd → Q (some (kernel_getcwd k a b)))
      → (n ≡ sys_mkdir → Q (some (kernel_mkdir k a)))
      → (n ≡ sys_rmdir → Q (some (kernel_rmdir k a)))
      → (n ≡ sys_unlink → Q (some (kernel_unlink k a)))
      → (n ≡ sys_stat → Q (some (kernel_stat l k a b)))
      → (n ≡ sys_time → Q (kernel_time k))
      → Q (some (fail k einval))
      → Q (dispatch n a b c k)
  unfolding dispatch
  dispatch_every Q n a b c k on_exit on_read on_write on_open on_close on_malloc on_free on_getpid
        on_sleep on_chdir on_getcwd on_mkdir on_rmdir on_unlink on_stat on_time on_other =
      elim (Bool-cases (n == sys_exit)) [
        | inl e ↦ rw e (on_exit (ground arith))
        | inr e ↦ rw e (elim (Bool-cases (n == sys_read)) [
          | inl e ↦ rw e (on_read (ground arith))
          | inr e ↦ rw e (elim (Bool-cases (n == sys_write)) [
            | inl e ↦ rw e (on_write (ground arith))
            | inr e ↦ rw e (elim (Bool-cases (n == sys_open)) [
              | inl e ↦ rw e (on_open (ground arith))
              | inr e ↦ rw e (elim (Bool-cases (n == sys_close)) [
                | inl e ↦ rw e (on_close (ground arith))
                | inr e ↦ rw e (elim (Bool-cases (n == sys_malloc)) [
                  | inl e ↦ rw e (on_malloc (ground arith))
                  | inr e ↦ rw e (elim (Bool-cases (n == sys_free)) [
                    | inl e ↦ rw e (on_free (ground arith))
                    | inr e ↦ rw e (elim (Bool-cases (n == sys_getpid)) [
                      | inl e ↦ rw e (on_getpid (ground arith))
                      | inr e ↦ rw e (elim (Bool-cases (n == sys_sleep)) [
                        | inl e ↦ rw e (on_sleep (ground arith))
                        | inr e ↦ rw e (elim (Bool-cases (n == sys_chdir)) [
                          | inl e ↦ rw e (on_chdir (ground arith))
                          | inr e ↦ rw e (elim (Bool-cases (n == sys_getcwd)) [
                            | inl e ↦ rw e (on_getcwd (ground arith))
                            | inr e ↦ rw e (elim (Bool-cases (n == sys_mkdir)) [
                              | inl e ↦ rw e (on_mkdir (ground arith))
                              | inr e ↦ rw e (elim (Bool-cases (n == sys_rmdir)) [
                                | inl e ↦ rw e (on_rmdir (ground arith))
                                | inr e ↦ rw e (elim (Bool-cases (n == sys_unlink)) [
                                  | inl e ↦ rw e (on_unlink (ground arith))
                                  | inr e ↦ rw e (elim (Bool-cases (n == sys_stat)) [
                                    | inl e ↦ rw e (on_stat (ground arith))
                                    | inr e ↦ rw e (elim (Bool-cases (n == sys_time)) [
                                      | inl e ↦ rw e (on_time (ground arith))
                                      | inr e ↦ rw e (on_other)
                                    ])
                                  ])
                                ])
                              ])
                            ])
                          ])
                        ])
                      ])
                    ])
                  ])
                ])
              ])
            ])
          ])
        ])
      ]
