-- ===== src/Syscall/Reported.antt =====
-- kernel/syscall.c: what each call does to the file system and to `current_errno`.
use ace_os.Base.{
  ℕ, zero, suc, ◌+◌, ◌^◌, ◌≤◌, ◌<◌, ◌≡◌, ◌≢◌, ◌⊎◌, inl, inr, refl, ◌∙◌, false, ◌||◌, List, [], ◌∷◌,
  ◌++◌, Bool-cases, if◌then◌else◌, ◌==◌, leb, arith,
}
use ace_os.Base.Words.{is_negative}
use ace_os.Libc.{Memory, strlen}
use ace_os.Libc.Compare.{IsString}
use ace_os.Heap.{heap_malloc, heap_free}
use ace_os.Fs.Blocks.{Allocator}
use ace_os.Fs.{fs_find, fs_mkdir, fs_delete, zero_filesystem}
use ace_os.Fs.Cwd.{fs_change_dir}
use ace_os.Fs.Content.{fs_stat}
use ace_os.Fs.Invariant.{IsValid}
use ace_os.Fs.Outcomes.{Found-cases}
use ace_os.Fs.Calls.{mkdir-IsValid, delete-IsValid}
use ace_os.Syscall.{
  Layout, Kernel, c_string, string_at, write_loop, fail, minus_one, enoent, ebadf, efault, eexist,
  einval, erange, kernel_exit, kernel_read, kernel_write, kernel_open, kernel_close, kernel_malloc,
  kernel_free, kernel_getpid, kernel_chdir, kernel_getcwd, kernel_mkdir, kernel_rmdir,
  kernel_unlink, kernel_stat,
}

pub c_string-IsString : (n : ℕ) (m : Memory) (p : ℕ) → IsString (c_string n m p)
unfolding c_string
c_string-IsString zero m p = tt
c_string-IsString (suc n) m p = elim (Bool-cases (m p == 0)) [
  | inl e ↦ rw e tt
  | inr e ↦ rw e (ground arith, c_string-IsString n m (p + 1))
]

write_loop-le :
    (n : ℕ) (m : Memory) (p written : ℕ) (output : List ℕ)
    → (write_loop n m p written output).0 ≤ written + n
unfolding write_loop
write_loop-le zero m p written output = omega arith
write_loop-le (suc n) m p written output = elim (Bool-cases (m p == 0)) [
  | inl e ↦ rw e (omega arith)
  | inr e ↦ rw e (omega (arith, write_loop-le n m (p + 1) (written + 1) (output ++ m p ∷ [])))
]

module _ {A : Allocator} where
  -- Either the result is not -1 and there is no error, or it is -1 and there is one.
  abbrev pub IsReported : ℕ × Kernel A → Type 0
  IsReported r =
      ((r.0 ≢ minus_one) × (r.1.current_errno ≡ 0)) ⊎ ((r.0 ≡ minus_one) × (r.1.current_errno ≢ 0))

  -- From state `k`, a call keeps the file system's invariant and the statistics.
  pub record Keeps (k k' : Kernel A) : Type 0 where
    pub valid : IsValid k.world.fs → IsValid k'.world.fs
    pub total : k'.total_syscalls ≡ k.total_syscalls
    pub counts : k'.syscall_count ≡ k.syscall_count

  -- A change elsewhere.
  pub kept :
      {k k' : Kernel A}
      → (IsValid k.world.fs → IsValid k'.world.fs)
      → k'.total_syscalls ≡ k.total_syscalls
      → k'.syscall_count ≡ k.syscall_count
      → Keeps k k'
  kept v t c = record { valid = v; total = t; counts = c }

  pub record IsSound (k : Kernel A) (r : ℕ × Kernel A) : Type 0 where
    pub keeps : Keeps k r.1
    pub reported : k.current_errno ≡ 0 → IsReported r

  failed : (k k' : Kernel A) (e : ℕ) → (e == 0) ≡ false → Keeps k k' → IsSound k (fail k' e)
  failed k k' e some_error keeps = record {
    keeps = kept keeps.valid keeps.total keeps.counts;
    reported = λ z. inr (refl, ground arith);
  }

  worked :
      (k k' : Kernel A) (r : ℕ)
      → r ≢ minus_one
      → Keeps k k'
      → k'.current_errno ≡ k.current_errno
      → IsSound k (r, k')
  worked k k' r result keeps same = record { keeps = keeps; reported = λ z. inl (result, same ∙ z) }

  -- A call that only sets `current_errno`.
  pub refused : (k : Kernel A) (e : ℕ) → (e == 0) ≡ false → IsSound k (fail k e)
  refused k e some_error = failed k k e some_error (kept (λ v. v) refl refl)

  -- 0 and no change of the file system.
  done : (k k' : Kernel A) → Keeps k k' → k'.current_errno ≡ k.current_errno → IsSound k (0, k')
  done k k' = worked k k' 0 (λ q. absurd (omega (arith, q)))

  module _ (k : Kernel A) where
    pub exit-Keeps : (status : ℕ) → Keeps k (kernel_exit k status).1
    unfolding kernel_exit
    exit-Keeps status = kept (λ v. v) refl refl

    pub read-Keeps : (fd buffer count : ℕ) → Keeps k (kernel_read k fd buffer count).1
    unfolding kernel_read
    read-Keeps fd buffer count = elim (Bool-cases (buffer == 0)) [
      | inl e ↦ rw e (kept (λ v. v) refl refl)
      | inr e ↦ elim (Bool-cases (fd == 0)) [
        | inl z ↦ rw (e, z) (kept (λ v. v) refl refl)
        | inr z ↦ rw (e, z) (kept (λ v. v) refl refl)
      ]
    ]

    pub malloc-Keeps : (size : ℕ) → Keeps k (kernel_malloc k size).1
    unfolding kernel_malloc
    malloc-Keeps size = elim (Bool-cases (size == 0)) [
      | inl e ↦ rw e (kept (λ v. v) refl refl)
      | inr e ↦ elim (Bool-cases ((heap_malloc k.heap size).0 == 0)) [
        | inl z ↦ rw (e, z) (kept (λ v. v) refl refl)
        | inr z ↦ rw (e, z) (kept (λ v. v) refl refl)
      ]
    ]

    pub write-Keeps : (fd buffer count : ℕ) → Keeps k (kernel_write k fd buffer count).1
    unfolding kernel_write
    write-Keeps fd buffer count = elim (Bool-cases (buffer == 0)) [
      | inl e ↦ rw e (kept (λ v. v) refl refl)
      | inr e ↦ elim (Bool-cases ((fd == 1) || (fd == 2))) [
        | inl z ↦ rw (e, z) (kept (λ v. v) refl refl)
        | inr z ↦ rw (e, z) (kept (λ v. v) refl refl)
      ]
    ]

    pub write-IsSound :
        (fd buffer count : ℕ) → count < minus_one → IsSound k (kernel_write k fd buffer count)
    unfolding kernel_write
    write-IsSound fd buffer count small = elim (Bool-cases (buffer == 0)) [
      | inl e ↦ rw e (refused k efault refl)
      | inr e ↦ elim (Bool-cases ((fd == 1) || (fd == 2))) [
        | inl z ↦
            let (written, output) = write_loop count k.world.memory buffer 0 k.output in
            let le = write_loop-le count k.world.memory buffer 0 k.output in
            rw (e, z)
              (worked k (record k { output = output }) written
                (λ q. absurd (omega (arith, q, le, small))) (kept (λ v. v) refl refl) refl)
        | inr z ↦ rw (e, z) (refused k ebadf refl)
      ]
    ]

    pub open-IsSound : (pathname flags : ℕ) → IsSound k (kernel_open k pathname flags)
    unfolding kernel_open
    open-IsSound pathname flags = elim (Bool-cases (pathname == 0)) [
      | inl e ↦ rw e (refused k efault refl)
      | inr e ↦ elim (Found-cases (fs_find k.world.fs (string_at k.world.memory pathname))) [
        | inl z ↦ rw (e, z) (refused k enoent refl)
        | inr (inl z) ↦ rw (e, z) (refused k enoent refl)
        | inr (inr (i, z)) ↦
            rw (e, z) (worked k k 3 (λ q. absurd (omega (arith, q))) (kept (λ v. v) refl refl) refl)
      ]
    ]

    pub close-IsSound : (fd : ℕ) → IsSound k (kernel_close k fd)
    unfolding kernel_close
    close-IsSound fd = elim (Bool-cases (is_negative fd)) [
      | inl e ↦ rw e (refused k ebadf refl)
      | inr e ↦ elim (Bool-cases (leb fd 2)) [
        | inl z ↦ rw (e, z) (refused k ebadf refl)
        | inr z ↦ rw (e, z) (done k k (kept (λ v. v) refl refl) refl)
      ]
    ]

    pub free-IsSound : (ptr : ℕ) → IsSound k (kernel_free k ptr)
    unfolding kernel_free
    free-IsSound ptr = elim (Bool-cases (ptr == 0)) [
      | inl e ↦ rw e (refused k einval refl)
      | inr e ↦
          rw e (done k (record k { heap = heap_free k.heap ptr }) (kept (λ v. v) refl refl) refl)
    ]

    pub getpid-IsSound : IsSound k (kernel_getpid k)
    unfolding kernel_getpid
    getpid-IsSound = worked k k 1 (λ q. absurd (omega (arith, q))) (kept (λ v. v) refl refl) refl

    pub chdir-IsSound : (path : ℕ) → IsSound k (kernel_chdir k path)
    unfolding kernel_chdir
    chdir-IsSound path =
        let (ok, directory) =
          fs_change_dir k.world.fs k.current_directory (string_at k.world.memory path) in
        let k' = record k { current_directory = directory } in
        elim (Bool-cases (path == 0)) [
          | inl e ↦ rw e (refused k efault refl)
          | inr e ↦ elim (Bool-cases ok) [
            | inl z ↦ rw (e, z) (done k k' (kept (λ v. v) refl refl) refl)
            | inr z ↦ rw (e, z) (failed k k' enoent refl (kept (λ v. v) refl refl))
          ]
        ]

    pub getcwd-IsSound : (buffer size : ℕ) → IsSound k (kernel_getcwd k buffer size)
    unfolding kernel_getcwd
    getcwd-IsSound buffer size = elim (Bool-cases ((buffer == 0) || (size == 0))) [
      | inl e ↦ rw e (refused k efault refl)
      | inr e ↦ elim (Bool-cases (leb size (strlen k.current_directory))) [
        | inl z ↦ rw (e, z) (refused k erange refl)
        | inr z ↦ rw (e, z) (done k _ (kept (λ v. v) refl refl) refl)
      ]
    ]

    pub mkdir-IsSound : (pathname : ℕ) → IsSound k (kernel_mkdir k pathname)
    unfolding kernel_mkdir
    mkdir-IsSound pathname =
        let path = string_at k.world.memory pathname in
        let (ok, fs') = fs_mkdir k.world.fs path in
        let k' = record k { world = record k.world { fs = fs' } } in
        let keeps : Keeps k k' =
          kept
            (λ v.
              mkdir-IsValid k.world.fs path v (c_string-IsString (2 ^ 32) k.world.memory pathname))
            refl refl in
        elim (Bool-cases (pathname == 0)) [
          | inl e ↦ rw e (refused k efault refl)
          | inr e ↦ elim (Bool-cases ok) [
            | inl z ↦ rw (e, z) (done k k' keeps refl)
            | inr z ↦ rw (e, z) (failed k k' eexist refl keeps)
          ]
        ]

    -- `kernel_rmdir` and `kernel_unlink`.
    delete-IsSound :
        (pathname : ℕ)
        → let (ok, world') = fs_delete k.world (string_at k.world.memory pathname) in
          let k' = record k { world = world' } in
          IsSound k
            (if pathname == 0 then fail k efault else if ok then (0, k') else fail k' enoent)
    delete-IsSound pathname =
        let path = string_at k.world.memory pathname in
        let (ok, world') = fs_delete k.world path in
        let k' = record k { world = world' } in
        elim (Bool-cases (pathname == 0)) [
          | inl e ↦ rw e (refused k efault refl)
          | inr e ↦ elim (Bool-cases ok) [
            | inl z ↦ rw (e, z) (done k k' (kept (delete-IsValid k.world path) refl refl) refl)
            | inr z ↦
                rw (e, z) (failed k k' enoent refl (kept (delete-IsValid k.world path) refl refl))
          ]
        ]

    pub rmdir-IsSound : (pathname : ℕ) → IsSound k (kernel_rmdir k pathname)
    unfolding kernel_rmdir
    rmdir-IsSound pathname = delete-IsSound pathname

    pub unlink-IsSound : (pathname : ℕ) → IsSound k (kernel_unlink k pathname)
    unfolding kernel_unlink
    unlink-IsSound pathname = delete-IsSound pathname

    pub stat-IsSound :
        (l : Layout) (pathname statbuf : ℕ) → IsSound k (kernel_stat l k pathname statbuf)
    unfolding kernel_stat
    stat-IsSound l pathname statbuf =
        let (ok, info) =
          fs_stat k.world.fs (string_at k.world.memory pathname) (zero_filesystem.files 0) in
        elim (Bool-cases ((pathname == 0) || (statbuf == 0))) [
          | inl e ↦ rw e (refused k efault refl)
          | inr e ↦ elim (Bool-cases ok) [
            | inl z ↦ rw (e, z) (done k _ (kept (λ v. v) refl refl) refl)
            | inr z ↦ rw (e, z) (refused k enoent refl)
          ]
        ]
