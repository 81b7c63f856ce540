-- ===== src/ProcessTable/Exit.antt =====
-- `process_exit` of kernel/process.c and the scheduler.
use ace_os.Base.{ℕ, ◌≡◌, ◌≢◌, refl, ◌∙◌, false, some, List, ◌∷◌, arith, ◌==◌}
use ace_os.Pcb.{state_terminated}
use ace_os.Scheduler.{scheduler_schedule}
use ace_os.Scheduler.Links.{NotIn}
use ace_os.Scheduler.Leave.{leave_turn}
use ace_os.Scheduler.Turns.{Running, IsQueue-cong}
use ace_os.ProcessTable.{ProcessTable, process_at, set_process, process_exit}

abbrev ended : ProcessTable → ℕ → ℕ → ProcessTable
ended p code c =
    set_process p c (record (process_at p c) { exit_code = code; state = state_terminated })

exit_eq :
    (p : ProcessTable) (code c : ℕ)
    → p.scheduler.current_process ≡ some c
    → (process_at p c).pid ≢ 0
    → process_exit p code
      ≡ record (ended p code c) { scheduler = scheduler_schedule (ended p code c).scheduler }
unfolding process_exit
exit_eq p code c cur user =
    let kernel : ((process_at p c).pid == 0) ≡ false = ground arith in rw (cur, kernel) refl

-- When a process other than the kernel's exits and others wait, the first of them runs, the rest
-- wait in the same order, and the process is TERMINATED and not among them.
pub exit_turn :
    (p : ProcessTable) (code c i : ℕ) (q : List ℕ)
    → Running p.scheduler c (i ∷ q)
    → (process_at p c).pid ≢ 0
    → let p' = process_exit p code in
      Running p'.scheduler i q × ((process_at p' c).state ≡ state_terminated) × NotIn c q
exit_turn p code c i q v user =
    let s = (ended p code c).scheduler in
    let after =
      leave_turn s c i q v.enabled v.current (λ e. ground arith)
        (IsQueue-cong p.scheduler.process_table s.process_table p.scheduler.ready_queue (i ∷ q)
          (λ j. ground arith) v.queue)
        v.apart.0 (omega (arith, v.small)) in
    rw (exit_eq p code c v.current user) (after.0, after.1 ∙ ground arith, v.apart.1)
