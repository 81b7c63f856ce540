-- ===== src/Scheduler/Tests.antt =====
-- Runs of kernel/scheduler.c with three processes.
use ace_os.Base.{zero, suc, refl, true, none, some, [], ◌∷◌, arith}
use ace_os.Pcb.{Process, Table, state_running, state_ready}
use ace_os.Scheduler.{Scheduler, scheduler_add_process, scheduler_remove_process}
use ace_os.Scheduler.Queue.{IsQueue, Added, add-IsQueue}
use ace_os.Scheduler.Remove.{Removed, remove-Removed}
use ace_os.Scheduler.Turns.{Running, schedules, schedules_turn}

abbrev blank : Process
blank = record {
  pid = 0;
  parent_pid = 0;
  name = [];
  state = 0;
  priority = 2;
  context = record {
    eax = 0;
    ebx = 0;
    ecx = 0;
    edx = 0;
    esi = 0;
    edi = 0;
    esp = 0;
    ebp = 0;
    eip = 0;
    eflags = 0x202;
  };
  page_directory = 0;
  kernel_stack = 0;
  user_stack = 0;
  heap_start = 0;
  heap_end = 0;
  time_slice = 100;
  time_used = 99;
  total_time = 0;
  current_directory = [];
  next = none;
  creation_time = 0;
  exit_code = 0;
}

-- Slot 0 runs, slots 1 and 2 wait.
abbrev three : Table
three zero = record blank { state = state_running }
three (suc zero) = record blank { state = state_ready; next = some 2 }
three (suc (suc i)) = record blank { state = state_ready }

abbrev two_wait : Scheduler
two_wait = record {
  process_table = three;
  current_process = some 0;
  ready_queue = record { head = some 1; tail = some 2; count = 2 };
  stats = record {
    total_processes = 2;
    running_processes = 1;
    context_switches = 0;
    time_slices = 0;
    idle_time = 0;
  };
  scheduler_enabled = true;
  loaded_directory = 0;
}

two_wait-IsQueue : IsQueue three (record { head = some 1; tail = some 2; count = 2 }) (1 ∷ 2 ∷ [])
two_wait-IsQueue = record {
  chain = (refl, (refl, refl));
  tail_last = refl;
  counted = refl;
  distinct = ((omega arith, tt), (tt, tt));
}

two_wait-Running : Running two_wait 0 (1 ∷ 2 ∷ [])
two_wait-Running = record {
  enabled = refl;
  current = refl;
  runs = refl;
  queue = two_wait-IsQueue;
  apart = (omega arith, (omega arith, tt));
  small = omega arith;
}

schedules_turn_example : Running (schedules 2 two_wait) 2 (0 ∷ 1 ∷ [])
schedules_turn_example = schedules_turn two_wait 0 2 (1 ∷ []) [] two_wait-Running

remove-Removed_example : Removed two_wait 2 (1 ∷ []) (scheduler_remove_process two_wait (some 2))
remove-Removed_example = remove-Removed two_wait 2 [] (1 ∷ []) refl two_wait-IsQueue

add-IsQueue_example : Added two_wait 3 (1 ∷ 2 ∷ []) (scheduler_add_process two_wait (some 3))
add-IsQueue_example =
    add-IsQueue two_wait 3 refl (1 ∷ 2 ∷ []) two_wait-IsQueue (omega arith, (omega arith, tt))
      (omega arith)
