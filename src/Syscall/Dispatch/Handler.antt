-- ===== src/Syscall/Dispatch/Handler.antt =====
-- kernel/syscall.c: the dispatcher as a whole, and sequences of calls.
use ace_os.Base.{
  ℕ, ◌+◌, ◌<◌, ◌≡◌, ◌≢◌, ◌⊎◌, refl, Option, none, some, List, [], ◌∷◌, if◌then◌else◌, ◌==◌,
}
use ace_os.Fs.Blocks.{Allocator}
use ace_os.Syscall.{Layout, Kernel, minus_one, einval}
use ace_os.Syscall.Dispatch.{
  Registers, dispatch, count_call, returns, syscall_handler, dispatch_every, sys_exit, sys_read,
  sys_malloc, sys_free, sys_sleep, sys_getcwd, sys_stat, sys_time,
}
use ace_os.Syscall.Reported.{
  IsReported, refused, write-IsSound, open-IsSound, close-IsSound, free-IsSound, getpid-IsSound,
  chdir-IsSound, getcwd-IsSound, mkdir-IsSound, rmdir-IsSound, unlink-IsSound, stat-IsSound,
}

-- No call passes on or writes through a pointer of the caller that it does not check.
abbrev pub AreContained : List Registers → Type 0
AreContained [] = Unit {0}
AreContained (regs ∷ calls) =
    (regs.eax ≢ sys_free) × (regs.eax ≢ sys_getcwd) × (regs.eax ≢ sys_stat) × AreContained calls

-- The calls of number `n`.
pub calls_to : ℕ → List Registers → ℕ
calls_to n [] = 0
calls_to n (regs ∷ calls) = (if n == regs.eax then 1 else 0) + calls_to n calls

module _ {A : Allocator} (l : Layout) where
  -- The result and the state of a call that ended.
  abbrev pub Ends : (ℕ × Kernel A → Type 0) → Option (ℕ × Kernel A) → Type 0
  Ends Q o = (r : ℕ × Kernel A) × (o ≡ some r) × Q r

  ended : {Q : ℕ × Kernel A → Type 0} (r : ℕ × Kernel A) → Q r → Ends Q (some r)
  ended r q = (r, refl, q)

  dispatch-IsReported :
      (n a b c : ℕ) (k : Kernel A)
      → n ≢ sys_exit
      → n ≢ sys_read
      → n ≢ sys_malloc
      → n ≢ sys_sleep
      → n ≢ sys_time
      → c < minus_one
      → k.current_errno ≡ 0
      → Ends IsReported (dispatch l n a b c k)
  dispatch-IsReported n a b c k no_exit no_read no_malloc no_sleep no_time small z =
      dispatch_every l (Ends IsReported) n a b c k (λ e. absurd (no_exit e))
        (λ e. absurd (no_read e)) (λ e. ended _ ((write-IsSound k a b c small).reported z))
        (λ e. ended _ ((open-IsSound k a b).reported z))
        (λ e. ended _ ((close-IsSound k a).reported z)) (λ e. absurd (no_malloc e))
        (λ e. ended _ ((free-IsSound k a).reported z))
        (λ e. ended _ ((getpid-IsSound k).reported z)) (λ e. absurd (no_sleep e))
        (λ e. ended _ ((chdir-IsSound k a).reported z))
        (λ e. ended _ ((getcwd-IsSound k a b).reported z))
        (λ e. ended _ ((mkdir-IsSound k a).reported z))
        (λ e. ended _ ((rmdir-IsSound k a).reported z))
        (λ e. ended _ ((unlink-IsSound k a).reported z))
        (λ e. ended _ ((stat-IsSound k l a b).reported z)) (λ e. absurd (no_time e))
        (ended _ ((refused k einval refl).reported z))

  -- A call other than exit, read, malloc, sleep and time, of known number or not, with a third argument
  -- below 2^32 - 1 returns, and either its result is not -1 and `errno` is 0, or the result is -1 and
  -- `errno` is not 0.
  pub syscall_errno :
      (regs : Registers) (k : Kernel A)
      → regs.eax ≢ sys_exit
      → regs.eax ≢ sys_read
      → regs.eax ≢ sys_malloc
      → regs.eax ≢ sys_sleep
      → regs.eax ≢ sys_time
      → regs.edx < minus_one
      → (regs' : Registers) × (k' : Kernel A) × (syscall_handler l regs k ≡ some (regs', k'))
        × (((regs'.eax ≢ minus_one) × (k'.current_errno ≡ 0))
            ⊎ ((regs'.eax ≡ minus_one) × (k'.current_errno ≢ 0)))
  unfolding syscall_handler count_call returns
  syscall_errno regs k a b c d e small =
      let (r, ends, reported) =
        dispatch-IsReported regs.eax regs.ebx regs.ecx regs.edx (count_call l regs.eax k) a b c d e
          small refl in
      (record regs { eax = r.0 }, r.1, rw ends refl, reported)

  state_or : Kernel A → Option (Registers × Kernel A) → Kernel A
  state_or k none = k
  state_or k (some (regs, k')) = k'

  -- The calls with the registers of the list, one after the other.
  pub data Calls : List Registers → Kernel A → Kernel A → Type 0 where
    stop : {k : Kernel A} → Calls [] k k
    call :
        {regs regs' : Registers} {calls : List Registers} {k k1 k2 : Kernel A}
        → syscall_handler l regs k ≡ some (regs', k1)
        → Calls calls k1 k2
        → Calls (regs ∷ calls) k k2
