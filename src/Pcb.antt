-- ===== src/Pcb.antt =====
-- include/process.h: the process control block, and the two context functions of
-- kernel/scheduler.c.
pub use ace_os.Base.Words.{add32}
use ace_os.Base.{ℕ, Option, List, if◌then◌else◌, ◌==◌}

abbrev pub state_running : ℕ
state_running = 1

abbrev pub state_ready : ℕ
state_ready = 2

abbrev pub state_blocked : ℕ
state_blocked = 3

abbrev pub state_terminated : ℕ
state_terminated = 4

abbrev pub priority_high : ℕ
priority_high = 1

abbrev pub priority_normal : ℕ
priority_normal = 2

abbrev pub max_processes : ℕ
max_processes = 32

-- The CPU context of a process.
pub record Context : Type 0 where
  pub eax : ℕ
  pub ebx : ℕ
  pub ecx : ℕ
  pub edx : ℕ
  pub esi : ℕ
  pub edi : ℕ
  pub esp : ℕ
  pub ebp : ℕ
  pub eip : ℕ
  pub eflags : ℕ

-- `process_t`. A string is the list of its characters; a page directory is its address, 0 is NULL.
pub record Process : Type 0 where
  pub pid : ℕ
  pub parent_pid : ℕ
  pub name : List ℕ
  pub state : ℕ
  pub priority : ℕ
  pub context : Context
  pub page_directory : ℕ
  pub kernel_stack : ℕ
  pub user_stack : ℕ
  pub heap_start : ℕ
  pub heap_end : ℕ
  pub time_slice : ℕ
  pub time_used : ℕ
  pub total_time : ℕ
  pub current_directory : List ℕ
  pub next : Option ℕ
  pub creation_time : ℕ
  pub exit_code : ℕ

-- `process_table`, by slot.
abbrev pub Table : Type 0
Table = ℕ → Process

abbrev pub update : Table → ℕ → Process → Table
update t i p j = if j == i then p else t j

unfoldable pub save_context : Process → Process
save_context p = record p {
  context = record (p.context) {
    eax = 0;
    ebx = 0;
    ecx = 0;
    edx = 0;
    esi = 0;
    edi = 0;
    esp = 0;
    ebp = 0;
    eflags = 0x202;
  };
}

unfoldable pub load_context : Process → Process
load_context p = record p { state = state_running }
