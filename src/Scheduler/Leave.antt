-- ===== src/Scheduler/Leave.antt =====
-- `scheduler_schedule` of kernel/scheduler.c when the current process has stopped.
use ace_os.Base.{ℕ, ◌-◌, ◌^◌, ◌<◌, ◌≡◌, ◌≢◌, sym, ap, ◌∙◌, true, some, List, ◌∷◌, arith, length}
use ace_os.Pcb.{Process, state_running}
use ace_os.Scheduler.{Scheduler, get_next_process, suspend, scheduler_schedule}
use ace_os.Scheduler.Queue.{IsQueue, Dequeued, get_next-cons}
use ace_os.Scheduler.Turns.{Running, schedule_eq, resume-Running, resume_state}

suspend_other :
    (s : Scheduler) (c : ℕ) → (s.process_table c).state ≢ state_running → suspend s (some c) ≡ s
unfolding suspend
suspend_other s c stopped = ground arith

-- A call of `scheduler_schedule` when the current process does not run any more.
pub leave_turn :
    (s : Scheduler) (c i : ℕ) (q : List ℕ)
    → s.scheduler_enabled ≡ true
    → s.current_process ≡ some c
    → (s.process_table c).state ≢ state_running
    → IsQueue s.process_table s.ready_queue (i ∷ q)
    → c ≢ i
    → length q < 2 ^ 32 - 1
    → Running (scheduler_schedule s) i q
      × (((scheduler_schedule s).process_table c).state ≡ (s.process_table c).state)
leave_turn s c i q on cur stopped v ne small =
    let s1 = (get_next_process s).1 in
    let took : Dequeued s i q s1 = (get_next-cons s i q v).1 in
    let turn =
      schedule_eq s c i on (get_next-cons s i q v).0
        (ap (λ (r : Scheduler). r.current_process) took.rest ∙ cur) in
    let state : (s1.process_table c).state ≡ (s.process_table c).state =
      ap (λ (p : Process). p.state) (took.only_links c) ∙ ground arith in
    rw (turn, suspend_other s1 c (λ e. stopped (sym state ∙ e)))
      (
        resume-Running s1 i q (ap (λ (r : Scheduler). r.scheduler_enabled) took.rest ∙ on)
            took.queue v.distinct.0 small,
        resume_state s1 i c ne ∙ state,
      )
