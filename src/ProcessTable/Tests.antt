-- ===== src/ProcessTable/Tests.antt =====
-- Runs of kernel/process.c.
use ace_os.Base.{
  ℕ, zero, suc, ◌+◌, ◌-◌, ◌%◌, ◌≡◌, ◌≢◌, ◌⊎◌, ◌≤◌, ◌<◌, refl, true, none, some, List, [], ◌∷◌,
  arith,
}
use ace_os.Pcb.{Table, state_running, state_ready, state_terminated}
use ace_os.Pmm.{is_free, set_used, scan, pmm_alloc_frame}
use ace_os.Vmm.{empty_entry, vmm_create_page_directory}
use ace_os.Scheduler.Links.{NotIn}
use ace_os.Scheduler.Turns.{Running}
use ace_os.ProcessTable.{
  ProcessTable, zero_process, process_at, process_create, process_destroy, process_exit,
  process_get_next_pid, name_process, give_memory, start_process, free_slot,
}
use ace_os.ProcessTable.Pids.{nth_pid, nth_pid_lem}
use ace_os.ProcessTable.Create.{Created, create_lem, create-destroy}
use ace_os.ProcessTable.Exit.{exit_turn}

-- Slot 0 is the kernel, slot 1 runs with pid 5 and slot 2 waits.
abbrev slots : Table
slots zero = record zero_process { state = state_ready }
slots (suc zero) = record zero_process { pid = 5; state = state_running }
slots (suc (suc zero)) = record zero_process { pid = 6; state = state_ready }
slots (suc (suc (suc i))) = zero_process

abbrev busy : ProcessTable
busy = record {
  scheduler = record {
    process_table = slots;
    current_process = some 1;
    ready_queue = record { head = some 2; tail = some 2; count = 1 };
    stats = record {
      total_processes = 2;
      running_processes = 1;
      context_switches = 0;
      time_slices = 0;
      idle_time = 0;
    };
    scheduler_enabled = true;
    loaded_directory = 0;
  };
  vmm = record {
    pmm = record {
      bitmap = 7 ∷ 2 ∷ [];
      bitmap_size = 2;
      total_frames = 64;
      free_frames = 60;
      first_free_frame = 3;
    };
    entry = λ p i. empty_entry;
    current_page_directory = 0;
    kernel_page_directory = 0;
  };
  next_pid = 7;
  multitasking_enabled = true;
}

busy-Running : Running busy.scheduler 1 (2 ∷ [])
busy-Running = record {
  enabled = refl;
  current = refl;
  runs = refl;
  queue = record { chain = (refl, refl); tail_last = refl; counted = refl; distinct = (tt, tt) };
  apart = (omega arith, tt);
  small = omega arith;
}

shell : List ℕ
shell = 115 ∷ 104 ∷ []

got_slot : (process_create busy shell 0x40000000 2 0).0 ≡ some 3
unfolding process_create free_slot give_memory name_process process_get_next_pid start_process
    vmm_create_page_directory pmm_alloc_frame scan is_free set_used
got_slot = refl

fresh_pid : (j : ℕ) → (process_at busy j).pid ≡ 7 → (process_at busy j).state ≡ 0
fresh_pid zero e = omega (arith, e)
fresh_pid (suc zero) e = omega (arith, e)
fresh_pid (suc (suc zero)) e = omega (arith, e)
fresh_pid (suc (suc (suc j))) e = refl

nth_pid_lem_example : nth_pid busy 30 ≡ 1 + (7 - 1 + 30) % 31
nth_pid_lem_example = nth_pid_lem busy 30 (omega arith) (omega arith)

create_lem_example :
    let (r, p') = process_create busy shell 0x40000000 2 0 in
    ((process_create busy shell 0x40000000 2 0 ≡ (none, busy))
      × ((i : ℕ) → 1 ≤ i → i < 32 → (process_at busy i).state ≢ 0))
    ⊎ ((i : ℕ) × Created busy shell i r p')
create_lem_example = create_lem busy shell 0x40000000 2 0

create-destroy_example :
    let p' = process_destroy (process_create busy shell 0x40000000 2 0).1 (some 3) in
    (process_at p' 3 ≡ zero_process) × ((j : ℕ) → j ≢ 3 → process_at p' j ≡ process_at busy j)
create-destroy_example = create-destroy busy shell 0x40000000 2 0 3 (omega arith) got_slot

exit_turn_example :
    let p' = process_exit busy 9 in
    Running p'.scheduler 2 [] × ((process_at p' 1).state ≡ state_terminated) × NotIn 1 []
exit_turn_example = exit_turn busy 9 1 2 [] busy-Running (omega arith)
