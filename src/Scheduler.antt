-- ===== src/Scheduler.antt =====
-- kernel/scheduler.c over the process table of kernel/process.c.
-- A `process_t*` is a slot number of `process_table`, NULL is `none`; the ready queue is linked
-- through the slots' `next` fields. Serial output is left out. The children prove.
pub mod Queue
pub mod Links
pub mod Remove
pub mod Turns
pub mod Leave
mod Tests
use ace_os.Base.{
  ℕ, zero, suc, ◌+◌, ◌-◌, ◌%◌, ◌^◌, Bool, true, false, not, ◌&&◌, ◌||◌, Option, none, some, List,
  [], ◌∷◌, if◌then◌else◌, ◌==◌, leb,
}
use ace_os.Pcb.{
  Process, Table, update, state_running, state_ready, state_terminated, add32, save_context,
  load_context,
}

-- `scheduler_stats_t`.
pub record SchedulerStats : Type 0 where
  pub total_processes : ℕ
  pub running_processes : ℕ
  pub context_switches : ℕ
  pub time_slices : ℕ
  pub idle_time : ℕ

-- `task_queue_t`.
pub record TaskQueue : Type 0 where
  pub head : Option ℕ
  pub tail : Option ℕ
  pub count : ℕ

-- The globals that the scheduler works on. `loaded_directory` is the page directory of the last
-- `vmm_switch_page_directory`.
pub record Scheduler : Type 0 where
  pub process_table : Table
  pub current_process : Option ℕ
  pub ready_queue : TaskQueue
  pub stats : SchedulerStats
  pub scheduler_enabled : Bool
  pub loaded_directory : ℕ

pub scheduler_init : Scheduler → Scheduler
scheduler_init s = record s {
  ready_queue = record { head = none; tail = none; count = 0 };
  stats = record {
    total_processes = 0;
    running_processes = 0;
    context_switches = 0;
    time_slices = 0;
    idle_time = 0;
  };
  scheduler_enabled = true;
}

-- `process->state = READY; process->next = NULL`.
abbrev pub enter : Table → ℕ → Table
enter t i = update t i (record (t i) { state = state_ready; next = none })

-- The tail's `next` is set after that.
abbrev pub link_last : Table → Option ℕ → ℕ → Table
link_last t none i = t
link_last t (some l) i = update t l (record (t l) { next = some i })

abbrev pub new_head : TaskQueue → ℕ → Option ℕ
new_head q i = elim q.tail [ some l ↦ q.head | none ↦ some i ]

pub scheduler_add_process : Scheduler → Option ℕ → Scheduler
scheduler_add_process s none = s
scheduler_add_process s (some i) = if not s.scheduler_enabled then s else record s {
  process_table = link_last (enter s.process_table i) s.ready_queue.tail i;
  ready_queue = record {
    head = new_head s.ready_queue i;
    tail = some i;
    count = add32 s.ready_queue.count 1;
  };
  stats = record (s.stats) { total_processes = add32 s.stats.total_processes 1 };
}

-- `if (current == tail) tail = previous`.
abbrev pub retail : Option ℕ → Option ℕ → ℕ → Option ℕ
retail none previous i = none
retail (some l) previous i = if l == i then previous else some l

-- The body of the removal: `current` is the process, `previous` what stands before it.
-- `count--` runs only on a queue that is not empty.
abbrev pub unlink : Scheduler → Option ℕ → ℕ → Scheduler
unlink s none i = record s {
  process_table = update s.process_table i (record (s.process_table i) { next = none });
  ready_queue = record {
    head = (s.process_table i).next;
    tail = retail s.ready_queue.tail none i;
    count = s.ready_queue.count - 1;
  };
}
unlink s (some l) i =
    let t =
      update s.process_table l (record (s.process_table l) { next = (s.process_table i).next }) in
    record s {
      process_table = update t i (record (t i) { next = none });
      ready_queue = record (s.ready_queue) {
        tail = retail s.ready_queue.tail (some l) i;
        count = s.ready_queue.count - 1;
      };
    }

-- `while (current)`, on fuel.
pub remove_loop : ℕ → Scheduler → ℕ → Option ℕ → Option ℕ → Scheduler
remove_loop zero s i previous current = s
remove_loop (suc fuel) s i previous none = s
remove_loop (suc fuel) s i previous (some c) =
    let rest = remove_loop fuel s i (some c) (s.process_table c).next in
    if c == i then unlink s previous i else rest

-- The queue has `count` links, so `count` rounds and the last test are enough.
pub scheduler_remove_process : Scheduler → Option ℕ → Scheduler
scheduler_remove_process s none = s
scheduler_remove_process s (some i) =
    if not s.scheduler_enabled || s.ready_queue.count == 0
    then s
    else remove_loop (s.ready_queue.count + 1) s i none s.ready_queue.head

-- The tail is NULL when the new head is.
abbrev pub new_tail : Option ℕ → Option ℕ → Option ℕ
new_tail none l = none
new_tail (some j) l = l

pub get_next_process : Scheduler → Option ℕ × Scheduler
get_next_process s = if s.ready_queue.count == 0 then (none, s) else elim s.ready_queue.head [
  | none ↦ (none, s)
  | some i ↦ (
    some i,
    record s {
      process_table = update s.process_table i (record (s.process_table i) { next = none });
      ready_queue = record {
        head = (s.process_table i).next;
        tail = new_tail (s.process_table i).next s.ready_queue.tail;
        count = s.ready_queue.count - 1;
      };
    },
  )
]

-- Whether the slot is a process that runs.
abbrev pub is_running : Table → Option ℕ → Bool
is_running t none = false
is_running t (some i) = (t i).state == state_running

-- What happens to the process that ran: it is saved and queued again.
pub suspend : Scheduler → Option ℕ → Scheduler
suspend s none = s
suspend s (some c) =
    let t = update s.process_table c (save_context (s.process_table c)) in
    let t' = update t c (record (t c) { state = state_ready }) in
    let s' : Scheduler = record s { process_table = t' } in
    let queued =
      if (t' c).state == state_terminated then s' else scheduler_add_process s' (some c) in
    if (s.process_table c).state == state_running then queued else s

-- What happens to the process that is to run.
pub resume : Scheduler → ℕ → Scheduler
resume s i =
    let t =
      update s.process_table i
        (record (s.process_table i) { state = state_running; time_used = 0 }) in
    let t' = update t i (load_context (t i)) in
    record s {
      process_table = t';
      current_process = some i;
      stats = record (s.stats) {
        context_switches = add32 s.stats.context_switches 1;
        running_processes = add32 s.ready_queue.count 1;
      };
      loaded_directory =
          if (t' i).page_directory == 0 then s.loaded_directory else (t' i).page_directory;
    }

-- With no process to switch to.
abbrev pub stay : Scheduler → Scheduler
stay s =
    if is_running s.process_table s.current_process
    then s
    else record s { stats = record (s.stats) { idle_time = add32 s.stats.idle_time 1 } }

pub scheduler_schedule : Scheduler → Scheduler
scheduler_schedule s =
    if not s.scheduler_enabled
    then s
    else let (chosen, s') = get_next_process s in
      elim chosen [ none ↦ stay s' | some i ↦ resume (suspend s' s'.current_process) i ]

pub scheduler_yield : Scheduler → Scheduler
scheduler_yield s = if not s.scheduler_enabled then s else scheduler_schedule s

pub scheduler_tick : Scheduler → Scheduler
scheduler_tick s = if not s.scheduler_enabled then s else elim s.current_process [
  | none ↦ s
  | some c ↦
      let p = s.process_table c in
      let p' : Process = record p {
        time_used = add32 p.time_used 1;
        total_time = add32 p.total_time 1;
      } in
      let s' : Scheduler = record s {
        process_table = update s.process_table c p';
        stats = record (s.stats) { time_slices = add32 s.stats.time_slices 1 };
      } in
      if leb p'.time_slice p'.time_used then scheduler_yield s' else s'
]
