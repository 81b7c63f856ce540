-- ===== src/Syscall.antt =====
-- kernel/syscall.c: the system calls, over the file system, the kernel heap and the timer.
-- Arguments and results are words, a pointer is an address and 0 is NULL; -1 is `minus_one`. A wait
-- that does not end has no result. `output` is what `kernel_write` sends to the serial port; the
-- debug messages on that port are left out.
pub mod Dispatch
pub mod Reported
pub mod Sleep
use ace_os.Base.{
  ℕ, zero, suc, ◌+◌, ◌-◌, ◌*◌, ◌/◌, ◌%◌, ◌^◌, Bool, true, false, not, ◌&&◌, ◌||◌, Option, none,
  some, List, [], ◌∷◌, ◌++◌, if◌then◌else◌, ◌==◌, ltb, leb, length,
}
use ace_os.Base.Words.{add32, mul32, is_negative}
use ace_os.Libc.{Memory, poke, memcpy, strlen, strncpy}
use ace_os.Heap.{HeapManager, heap_malloc, heap_free}
use ace_os.Timer.{sleep_loop}
use ace_os.Fs.Blocks.{Allocator}
use ace_os.Fs.{
  World, Entry, Found, root, missing, found, fs_find, fs_mkdir, fs_delete, zero_filesystem,
}
use ace_os.Fs.Cwd.{fs_change_dir}
use ace_os.Fs.Content.{fs_stat}

abbrev pub enoent : ℕ
enoent = 2

abbrev pub ebadf : ℕ
ebadf = 9

abbrev pub eagain : ℕ
eagain = 11

abbrev pub enomem : ℕ
enomem = 12

abbrev pub efault : ℕ
efault = 14

abbrev pub eexist : ℕ
eexist = 17

abbrev pub einval : ℕ
einval = 22

abbrev pub erange : ℕ
erange = 34

abbrev pub minus_one : ℕ
minus_one = 2 ^ 32 - 1

-- The bytes of an `fs_entry_t`, as the compiler lays it out.
pub record Layout : Type 0 where
  pub entry_size : ℕ
  pub entry_byte : Entry → ℕ → ℕ

-- The state that the calls use. `readings` are the values of `timer_ticks` that are still to be
-- read; the file system has its memory with it, which the pointers point into.
pub record Kernel (A : Allocator) : Type 0 where
  pub world : World A
  pub current_directory : List ℕ
  pub heap : HeapManager
  pub readings : List ℕ
  pub output : List ℕ
  pub current_errno : ℕ
  pub syscall_count : ℕ → ℕ
  pub total_syscalls : ℕ

-- The characters from address `p` on up to the 0, which stands within `n`.
pub c_string : ℕ → Memory → (p : ℕ) → List ℕ
c_string zero m p = []
c_string (suc n) m p = let rest = c_string n m (p + 1) in if m p == 0 then [] else m p ∷ rest

-- A string argument.
abbrev pub string_at : Memory → ℕ → List ℕ
string_at m p = c_string (2 ^ 32) m p

-- `n` bytes at address `p`.
pub put_bytes : Memory → (p : ℕ) → List ℕ → Memory
put_bytes m p [] = m
put_bytes m p (c ∷ bytes) = put_bytes (poke m p c) (p + 1) bytes

pub put_entry : Layout → Memory → (p : ℕ) → Entry → Memory
put_entry l m p e a = if leb p a && ltb a (p + l.entry_size) then l.entry_byte e (a - p) else m a

-- The loop of `kernel_write` from character `p` on: how many it writes, and the output.
pub write_loop : ℕ → Memory → (p written : ℕ) → List ℕ → ℕ × List ℕ
write_loop zero m p written output = (written, output)
write_loop (suc n) m p written output =
    let rest = write_loop n m (p + 1) (written + 1) (output ++ m p ∷ []) in
    if m p == 0 then (written, output) else rest

module _ {A : Allocator} where
  abbrev pub fail : Kernel A → ℕ → ℕ × Kernel A
  fail k errno = (minus_one, record k { current_errno = errno })

  abbrev pub with_memory : Kernel A → Memory → Kernel A
  with_memory k m = record k { world = record k.world { memory = m } }

  pub kernel_exit : Kernel A → (status : ℕ) → ℕ × Kernel A
  kernel_exit k status = (status, k)

  pub kernel_read : Kernel A → (fd buffer count : ℕ) → ℕ × Kernel A
  kernel_read k fd buffer count =
      if buffer == 0
      then fail k efault
      else if fd == 0
      then (0, record k { current_errno = eagain })
      else fail k ebadf

  pub kernel_write : Kernel A → (fd buffer count : ℕ) → ℕ × Kernel A
  kernel_write k fd buffer count =
      let (written, output) = write_loop count k.world.memory buffer 0 k.output in
      if buffer == 0
      then fail k efault
      else if (fd == 1) || (fd == 2)
      then (written, record k { output = output })
      else fail k ebadf

  pub kernel_open : Kernel A → (pathname flags : ℕ) → ℕ × Kernel A
  kernel_open k pathname flags =
      if pathname == 0
      then fail k efault
      else elim (fs_find k.world.fs (string_at k.world.memory pathname)) [
        | root ↦ fail k enoent
        | missing ↦ fail k enoent
        | found i ↦ (3, k)
      ]

  pub kernel_close : Kernel A → (fd : ℕ) → ℕ × Kernel A
  kernel_close k fd =
      if is_negative fd then fail k ebadf else if leb fd 2 then fail k ebadf else (0, k)

  pub kernel_malloc : Kernel A → (size : ℕ) → ℕ × Kernel A
  kernel_malloc k size =
      let (ptr, heap') = heap_malloc k.heap size in
      if size == 0
      then (0, record k { current_errno = einval })
      else if ptr == 0
      then (ptr, record k { heap = heap'; current_errno = enomem })
      else (ptr, record k { heap = heap' })

  pub kernel_free : Kernel A → (ptr : ℕ) → ℕ × Kernel A
  kernel_free k ptr =
      if ptr == 0 then fail k einval else (0, record k { heap = heap_free k.heap ptr })

  pub kernel_getpid : Kernel A → ℕ × Kernel A
  kernel_getpid k = (1, k)

  -- The end of the wait.
  pub wake : Kernel A → Option (List ℕ) → Option (ℕ × Kernel A)
  wake k none = none
  wake k (some readings) = some (0, record k { readings = readings })

  -- `start_time` is the first value read, the wait reads the others.
  pub sleep_from : Kernel A → (seconds : ℕ) → (readings : List ℕ) → Option (ℕ × Kernel A)
  sleep_from k seconds [] = none
  sleep_from k seconds (start_time ∷ readings) =
      wake k (sleep_loop (add32 start_time (mul32 seconds 1000)) readings)

  pub kernel_sleep : Kernel A → (seconds : ℕ) → Option (ℕ × Kernel A)
  kernel_sleep k seconds = if seconds == 0 then some (0, k) else sleep_from k seconds k.readings

  pub kernel_chdir : Kernel A → (path : ℕ) → ℕ × Kernel A
  kernel_chdir k path =
      let (done, directory) =
        fs_change_dir k.world.fs k.current_directory (string_at k.world.memory path) in
      if path == 0
      then fail k efault
      else if done
      then (0, record k { current_directory = directory })
      else fail (record k { current_directory = directory }) enoent

  pub kernel_getcwd : Kernel A → (buffer size : ℕ) → ℕ × Kernel A
  kernel_getcwd k buffer size =
      let bytes = strncpy k.current_directory size in
      if (buffer == 0) || (size == 0)
      then fail k efault
      else if leb size (strlen k.current_directory)
      then fail k erange
      else (0, with_memory k (poke (put_bytes k.world.memory buffer bytes) (buffer + size - 1) 0))

  pub kernel_mkdir : Kernel A → (pathname : ℕ) → ℕ × Kernel A
  kernel_mkdir k pathname =
      let (done, fs') = fs_mkdir k.world.fs (string_at k.world.memory pathname) in
      let k' = record k { world = record k.world { fs = fs' } } in
      if pathname == 0 then fail k efault else if done then (0, k') else fail k' eexist

  pub kernel_rmdir : Kernel A → (pathname : ℕ) → ℕ × Kernel A
  kernel_rmdir k pathname =
      let (done, world') = fs_delete k.world (string_at k.world.memory pathname) in
      let k' = record k { world = world' } in
      if pathname == 0 then fail k efault else if done then (0, k') else fail k' enoent

  pub kernel_unlink : Kernel A → (pathname : ℕ) → ℕ × Kernel A
  kernel_unlink k pathname =
      let (done, world') = fs_delete k.world (string_at k.world.memory pathname) in
      let k' = record k { world = world' } in
      if pathname == 0 then fail k efault else if done then (0, k') else fail k' enoent

  -- `info` is on the stack; what `fs_stat` leaves of it is not defined, 0 here.
  pub kernel_stat : Layout → Kernel A → (pathname statbuf : ℕ) → ℕ × Kernel A
  kernel_stat l k pathname statbuf =
      let (done, info) =
        fs_stat k.world.fs (string_at k.world.memory pathname) (zero_filesystem.files 0) in
      if (pathname == 0) || (statbuf == 0)
      then fail k efault
      else if done
      then (0, with_memory k (put_entry l k.world.memory statbuf info))
      else fail k enoent

  pub time_from : Kernel A → (readings : List ℕ) → Option (ℕ × Kernel A)
  time_from k [] = none
  time_from k (ticks ∷ readings) = some (ticks / 1000, record k { readings = readings })

  pub kernel_time : Kernel A → Option (ℕ × Kernel A)
  kernel_time k = time_from k k.readings

  pub get_errno : Kernel A → ℕ
  get_errno k = k.current_errno
