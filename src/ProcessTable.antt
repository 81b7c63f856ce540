-- ===== src/ProcessTable.antt =====
-- kernel/process.c: creating, finding and ending processes in the slots of the process table, over
-- the scheduler, the page directories and the frame allocator.
-- A `process_t*` is a slot number, NULL is `none`.
pub mod Slots
pub mod Pids
pub mod Memory
pub mod Create
pub mod Exit
mod Tests
use ace_os.Base.{
  ℕ, zero, suc, ◌+◌, ◌-◌, Bool, true, false, not, ◌&&◌, ◌||◌, Option, none, some, List, [], ◌∷◌,
  if◌then◌else◌, ◌==◌, leb, take,
}
use ace_os.Pcb.{
  Process, Context, Table, update, add32, state_running, state_ready, state_terminated,
  priority_high, priority_normal, max_processes,
}
use ace_os.Pmm.{pmm_alloc_frame, pmm_free_frame}
use ace_os.Vmm.{Vmm, vmm_create_page_directory, vmm_map_page}
use ace_os.Scheduler.{Scheduler, scheduler_schedule}

abbrev pub user_virtual_base : ℕ
user_virtual_base = 0x40000000

abbrev pub process_stack_size : ℕ
process_stack_size = 4096

-- '/'.
abbrev pub slash : ℕ
slash = 0x2f

-- The globals of kernel/process.c; `process_table` and `current_process` are those of the
-- scheduler.
pub record ProcessTable : Type 0 where
  pub scheduler : Scheduler
  pub vmm : Vmm
  pub next_pid : ℕ
  pub multitasking_enabled : Bool

-- A `process_t` of zeros.
abbrev pub zero_process : Process
zero_process = record {
  pid = 0;
  parent_pid = 0;
  name = [];
  state = 0;
  priority = 0;
  context = record {
    eax = 0;
    ebx = 0;
    ecx = 0;
    edx = 0;
    esi = 0;
    edi = 0;
    esp = 0;
    ebp = 0;
    eip = 0;
    eflags = 0;
  };
  page_directory = 0;
  kernel_stack = 0;
  user_stack = 0;
  heap_start = 0;
  heap_end = 0;
  time_slice = 0;
  time_used = 0;
  total_time = 0;
  current_directory = [];
  next = none;
  creation_time = 0;
  exit_code = 0;
}

-- `process_table[i]`.
abbrev pub process_at : ProcessTable → ℕ → Process
process_at p i = p.scheduler.process_table i

abbrev pub set_process : ProcessTable → ℕ → Process → ProcessTable
set_process p i v = record p {
  scheduler = record (p.scheduler) { process_table = update p.scheduler.process_table i v };
}

pub process_init : ProcessTable → ProcessTable
process_init p = record p {
  scheduler = record (p.scheduler) {
    process_table =
        update (λ i. zero_process) 0
          (record zero_process {
            name = 107 ∷ 101 ∷ 114 ∷ 110 ∷ 101 ∷ 108 ∷ [];
            state = state_running;
            priority = priority_high;
            time_slice = 100;
            current_directory = slash ∷ [];
          });
    current_process = some 0;
  };
}

-- The pid, and the new `next_pid`.
pub process_get_next_pid : ProcessTable → ℕ × ProcessTable
process_get_next_pid p =
    let next : ℕ = add32 p.next_pid 1 in
    (p.next_pid, record p { next_pid = if leb max_processes next then 1 else next })

-- `for (i = k; ...)` up to a slot with state 0, `n` rounds.
pub free_slot : Table → ℕ → ℕ → Option ℕ
free_slot t k zero = none
free_slot t k (suc n) =
    let later = free_slot t (k + 1) n in if (t k).state == 0 then some k else later

-- The fields of the slot up to its memory.
pub name_process : ProcessTable → ℕ → List ℕ → ℕ → ProcessTable
name_process p i name priority =
    let (pid, p1) = process_get_next_pid p in
    let p2 = set_process p1 i (record zero_process { pid = pid }) in
    let parent_pid : ℕ = elim p2.scheduler.current_process [
      | none ↦ 0
      | some c ↦ (process_at p2 c).pid
    ] in
    set_process p2 i (record zero_process {
      pid = pid;
      parent_pid = parent_pid;
      name = take 31 name;
      state = state_ready;
      priority = priority;
      time_slice =
          if priority == priority_high
          then 50
          else if priority == priority_normal
          then 100
          else 200;
    })

-- `process->page_directory = page_dir`.
pub set_page_directory : ProcessTable → ℕ → ℕ → ProcessTable
set_page_directory p i page_dir =
    set_process p i (record (process_at p i) { page_directory = page_dir })

-- `process->kernel_stack = frame`.
pub set_kernel_stack : ProcessTable → ℕ → ℕ → ProcessTable
set_kernel_stack p i frame = set_process p i (record (process_at p i) { kernel_stack = frame })

-- `process->user_stack = frame`.
pub set_user_stack : ProcessTable → ℕ → ℕ → ProcessTable
set_user_stack p i frame = set_process p i (record (process_at p i) { user_stack = frame })

-- The page directory and the stacks; `false` when a frame is missing.
pub give_memory : ProcessTable → ℕ → Bool × ProcessTable
give_memory p i =
    let (page_dir, v1) = vmm_create_page_directory p.vmm in
    let p1 = set_page_directory (record p { vmm = v1 }) i page_dir in
    let (kernel_stack, pmm2) = pmm_alloc_frame v1.pmm in
    let v2 : Vmm = record v1 { pmm = pmm2 } in
    let p2 = set_kernel_stack (record p1 { vmm = v2 }) i kernel_stack in
    let (user_stack, pmm3) = pmm_alloc_frame pmm2 in
    let v3 : Vmm = record v2 { pmm = pmm3 } in
    let p3 = set_user_stack (record p2 { vmm = v3 }) i user_stack in
    if page_dir == 0
    then (false, p1)
    else if kernel_stack == 0
    then (false, p2)
    else if user_stack == 0
    then (false, record p3 { vmm = record v3 { pmm = pmm_free_frame pmm3 kernel_stack } })
    else (
      true,
      record p3 { vmm = vmm_map_page v3 page_dir (user_virtual_base + 0x10000) user_stack 0x007 },
    )

-- The part behind it.
pub start_process : ProcessTable → ℕ → ℕ → ℕ → ProcessTable
start_process p i entry_point timer_ticks =
    let v = process_at p i in
    let esp : ℕ = user_virtual_base + 0x10000 + process_stack_size - 4 in
    set_process p i (record v {
      context = record (v.context) { eip = entry_point; esp = esp; ebp = esp; eflags = 0x202 };
      heap_start = user_virtual_base + 0x20000;
      heap_end = user_virtual_base + 0x100000;
      current_directory = elim p.scheduler.current_process [
        | none ↦ slash ∷ []
        | some c ↦ (process_at p c).current_directory
      ];
      creation_time = timer_ticks;
    })

pub process_create : ProcessTable → List ℕ → ℕ → ℕ → ℕ → Option ℕ × ProcessTable
process_create p name entry_point priority timer_ticks =
    elim (free_slot p.scheduler.process_table 1 31) [
      | none ↦ (none, p)
      | some i ↦
          let (given, p') = give_memory (name_process p i name priority) i in
          if given then (some i, start_process p' i entry_point timer_ticks) else (none, p')
    ]

-- Returns a frame to the allocator, if there is one.
abbrev pub release : ProcessTable → ℕ → ProcessTable
release p frame =
    if frame == 0
    then p
    else record p { vmm = record (p.vmm) { pmm = pmm_free_frame p.vmm.pmm frame } }

pub process_destroy : ProcessTable → Option ℕ → ProcessTable
process_destroy p none = p
process_destroy p (some i) =
    let v = process_at p i in
    let p' = release (release p v.kernel_stack) v.user_stack in
    if v.pid == 0 then p else set_process p' i zero_process

-- `for (i = k; ...)` up to a process in use with the pid, `n` rounds.
pub find_pid : Table → ℕ → ℕ → ℕ → Option ℕ
find_pid t pid k zero = none
find_pid t pid k (suc n) =
    let later = find_pid t pid (k + 1) n in
    if (t k).pid == pid && not ((t k).state == 0) then some k else later

pub process_get_by_pid : ProcessTable → ℕ → Option ℕ
process_get_by_pid p pid = find_pid p.scheduler.process_table pid 0 max_processes

-- `exit_code` as a word.
pub process_exit : ProcessTable → ℕ → ProcessTable
process_exit p exit_code = elim p.scheduler.current_process [
  | none ↦ p
  | some c ↦
      let v = process_at p c in
      let p' = set_process p c (record v { exit_code = exit_code; state = state_terminated }) in
      if v.pid == 0 then p else record p' { scheduler = scheduler_schedule p'.scheduler }
]

pub enable_multitasking : ProcessTable → ProcessTable
enable_multitasking p = record p { multitasking_enabled = true }

pub disable_multitasking : ProcessTable → ProcessTable
disable_multitasking p = record p { multitasking_enabled = false }
