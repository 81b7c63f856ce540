-- ===== src/ProcessTable/Pids.antt =====
-- The pids that kernel/process.c gives out.
use ace_os.Base.{ℕ, zero, suc, ◌+◌, ◌-◌, ◌%◌, ◌≤◌, ◌<◌, ◌≡◌, ◌∙◌, arith}
use ace_os.ProcessTable.{ProcessTable, process_get_next_pid}

-- The pid of the call after `k` calls.
pub nth_pid : ProcessTable → ℕ → ℕ
nth_pid p zero = (process_get_next_pid p).0
nth_pid p (suc k) = nth_pid (process_get_next_pid p).1 k

next_lem :
    (p : ProcessTable)
    → 1 ≤ p.next_pid
    → p.next_pid < 32
    → (process_get_next_pid p).1.next_pid ≡ 1 + p.next_pid % 31
unfolding process_get_next_pid
next_lem p a b = ground arith

-- The pids count from the next one up and go round from 31 to 1, so 0, the kernel's, is never given
-- out and 31 calls in a row give 31 pids.
pub nth_pid_lem :
    (p : ProcessTable) (k : ℕ)
    → 1 ≤ p.next_pid
    → p.next_pid < 32
    → nth_pid p k ≡ 1 + (p.next_pid - 1 + k) % 31
unfolding nth_pid process_get_next_pid
nth_pid_lem p zero a b = omega (arith, a, b)
nth_pid_lem p (suc k) a b =
    let e = next_lem p a b in
    nth_pid_lem (process_get_next_pid p).1 k (omega (arith, e)) (omega (arith, e))
    ∙ omega (arith, e, a, b)
