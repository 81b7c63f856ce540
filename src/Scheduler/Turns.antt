-- ===== src/Scheduler/Turns.antt =====
-- `scheduler_schedule` of kernel/scheduler.c takes turns: round robin over the ready queue.
use ace_os.Base.{
  ℕ, zero, suc, ◌-◌, ◌^◌, ◌<◌, ◌≡◌, refl, sym, ◌∙◌, ap, ◌≢◌, true, some, List, [], ◌∷◌, ◌++◌, arith,
  if◌then◌else◌, length, length-append, ==_refl, subst, leb, Bool-cases, inl, inr,
}
use mathlib.Core.List.{append_assoc}
use ace_os.Pcb.{
  Process, Table, update, add32, state_ready, state_running, save_context, load_context,
}
use ace_os.Scheduler.{
  Scheduler, TaskQueue, scheduler_add_process, get_next_process, suspend, resume, stay,
  scheduler_schedule, scheduler_yield, scheduler_tick,
}
use ace_os.Scheduler.Links.{links, NotIn, Chain-cong, NotIn-append}
use ace_os.Scheduler.Queue.{IsQueue, Added, add-IsQueue, Dequeued, get_next-cons, get_next-nil}

-- Process `c` runs, the slots `q` wait in that order, and `c` is not among them.
pub record Running (s : Scheduler) (c : ℕ) (q : List ℕ) : Type 0 where
  pub enabled : s.scheduler_enabled ≡ true
  pub current : s.current_process ≡ some c
  pub runs : (s.process_table c).state ≡ state_running
  pub queue : IsQueue s.process_table s.ready_queue q
  pub apart : NotIn c q
  pub small : length q < 2 ^ 32 - 1

pub IsQueue-cong :
    (t u : Table) (r : TaskQueue) (q : List ℕ)
    → ((j : ℕ) → links u j ≡ links t j)
    → IsQueue t r q
    → IsQueue u r q
IsQueue-cong t u r q e v = record {
  chain = Chain-cong (links t) (links u) r.head q e v.chain;
  tail_last = v.tail_last;
  counted = v.counted;
  distinct = v.distinct;
}

abbrev set_aside : Scheduler → ℕ → Scheduler
set_aside s c =
    let t = update s.process_table c (save_context (s.process_table c)) in
    record s { process_table = update t c (record (t c) { state = state_ready }) }

suspend_eq :
    (s : Scheduler) (c : ℕ)
    → (s.process_table c).state ≡ state_running
    → suspend s (some c) ≡ scheduler_add_process (set_aside s c) (some c)
unfolding suspend save_context
suspend_eq s c e = rw (e, ==_refl c)

links-set_aside :
    (s : Scheduler) (c j : ℕ) → links (set_aside s c).process_table j ≡ links s.process_table j
unfolding save_context
links-set_aside s c j = ground arith

enabled-add :
    (s : Scheduler) (i : ℕ)
    → (scheduler_add_process s (some i)).scheduler_enabled ≡ s.scheduler_enabled
unfolding scheduler_add_process
enabled-add s i = ground arith

suspend-Added :
    (s : Scheduler) (c : ℕ) (q : List ℕ)
    → s.scheduler_enabled ≡ true
    → (s.process_table c).state ≡ state_running
    → IsQueue s.process_table s.ready_queue q
    → NotIn c q
    → length q < 2 ^ 32 - 1
    → Added (set_aside s c) c q (suspend s (some c))
      × ((suspend s (some c)).scheduler_enabled ≡ true)
suspend-Added s c q on e v n h = rw (suspend_eq s c e) (
  add-IsQueue (set_aside s c) c on q
      (IsQueue-cong s.process_table (set_aside s c).process_table s.ready_queue q
        (links-set_aside s c) v)
      n h,
  enabled-add (set_aside s c) c ∙ on,
)

links-resume :
    (s : Scheduler) (i j : ℕ) → links (resume s i).process_table j ≡ links s.process_table j
unfolding resume load_context
links-resume s i j = ground arith

pub resume-Running :
    (s : Scheduler) (i : ℕ) (q : List ℕ)
    → s.scheduler_enabled ≡ true
    → IsQueue s.process_table s.ready_queue q
    → NotIn i q
    → length q < 2 ^ 32 - 1
    → Running (resume s i) i q
unfolding resume load_context
resume-Running s i q on v n h = record {
  enabled = on;
  current = refl;
  runs = ground arith;
  queue =
      IsQueue-cong s.process_table (resume s i).process_table s.ready_queue q (links-resume s i) v;
  apart = n;
  small = h;
}

pub resume_state :
    (s : Scheduler) (i j : ℕ)
    → j ≢ i
    → ((resume s i).process_table j).state ≡ (s.process_table j).state
unfolding resume load_context
resume_state s i j ne = ground arith

pub schedule_eq :
    (s : Scheduler) (c i : ℕ)
    → s.scheduler_enabled ≡ true
    → (get_next_process s).0 ≡ some i
    → (get_next_process s).1.current_process ≡ some c
    → scheduler_schedule s ≡ resume (suspend (get_next_process s).1 (some c)) i
unfolding scheduler_schedule
schedule_eq s c i on o cur = ground arith

module _ (s : Scheduler) (c i : ℕ) (q : List ℕ) (v : Running s c (i ∷ q)) where
  -- The state after the front of the queue was taken.
  after_next : Scheduler
  after_next = (get_next_process s).1

  took : Dequeued s i q after_next
  unfolding after_next
  took = (get_next-cons s i q v.queue).1

  suspended :
      Added (set_aside after_next c) c q (suspend after_next (some c))
      × ((suspend after_next (some c)).scheduler_enabled ≡ true)
  suspended =
      suspend-Added after_next c q
        (ap (λ (r : Scheduler). r.scheduler_enabled) took.rest ∙ v.enabled)
        (ap (λ (p : Process). p.state) (took.only_links c) ∙ ground (arith, v.runs, v.apart.0))
        took.queue v.apart.1 (omega (arith, v.small))

  turn : scheduler_schedule s ≡ resume (suspend after_next (some c)) i
  unfolding after_next
  turn =
      schedule_eq s c i v.enabled (get_next-cons s i q v.queue).0
        (ap (λ (r : Scheduler). r.current_process) (get_next-cons s i q v.queue).1.rest ∙ v.current)

  -- A call of `scheduler_schedule` with a process waiting: the running process goes READY to the
  -- end of the queue and the first in the queue runs.
  pub schedule_turn :
      Running (scheduler_schedule s) i (q ++ (c ∷ []))
      × (((scheduler_schedule s).process_table c).state ≡ state_ready)
  schedule_turn = rw turn (
    resume-Running (suspend after_next (some c)) i (q ++ (c ∷ [])) suspended.1 suspended.0.queue
        (NotIn-append i q (c ∷ []) v.queue.distinct.0 ((λ e. v.apart.0 (sym e)), tt))
        (omega (arith, v.small, length-append q (c ∷ []))),
    resume_state (suspend after_next (some c)) i c v.apart.0 ∙ suspended.0.ready,
  )

-- `n` calls in a row.
pub schedules : ℕ → Scheduler → Scheduler
schedules zero s = s
schedules (suc n) s = schedules n (scheduler_schedule s)

-- Every waiting process gets its turn: after as many further calls as processes stand before it,
-- it runs, and those before it wait behind the others and the process that ran first.
pub schedules_turn :
    (s : Scheduler) (c i : ℕ) (before after : List ℕ)
    → Running s c (before ++ (i ∷ after))
    → Running (schedules (suc (length before)) s) i (after ++ (c ∷ before))
unfolding schedules
schedules_turn s c i [] after v = (schedule_turn s c i after v).0
schedules_turn s c i (b ∷ before) after v =
    let first = schedule_turn s c b (before ++ (i ∷ after)) v in
    subst (Running (schedules (suc (length (b ∷ before))) s) i)
      (append_assoc after (c ∷ []) (b ∷ before))
      (schedules_turn (scheduler_schedule s) b i before (after ++ (c ∷ [])) (
        subst (Running (scheduler_schedule s) b) (append_assoc before (i ∷ after) (c ∷ []))
          first.0))

-- The state after the counting part of `scheduler_tick`.
abbrev ticked : Scheduler → ℕ → Scheduler
ticked s c = record s {
  process_table = update s.process_table c (record (s.process_table c) {
    time_used = add32 (s.process_table c).time_used 1;
    total_time = add32 (s.process_table c).total_time 1;
  });
  stats = record (s.stats) { time_slices = add32 s.stats.time_slices 1 };
}

ticked-Running : (s : Scheduler) (c : ℕ) (q : List ℕ) → Running s c q → Running (ticked s c) c q
ticked-Running s c q v = record {
  enabled = v.enabled;
  current = v.current;
  runs = ground (arith, v.runs);
  queue =
      IsQueue-cong s.process_table (ticked s c).process_table s.ready_queue q (λ j. ground arith)
        v.queue;
  apart = v.apart;
  small = v.small;
}

tick_eq :
    (s : Scheduler) (c : ℕ) (q : List ℕ)
    → Running s c q
    → scheduler_tick s ≡ (
        if leb (s.process_table c).time_slice (add32 (s.process_table c).time_used 1)
        then scheduler_schedule (ticked s c)
        else ticked s c)
unfolding scheduler_tick scheduler_yield
tick_eq s c q v = ground (arith, v.enabled, v.current)

-- A timer tick: while the running process has used less than its slice, it goes on and the queue
-- is unchanged; when the slice is used up, the first waiting process runs and the other one goes
-- to the end of the queue.
pub tick_turn :
    (s : Scheduler) (c i : ℕ) (q : List ℕ)
    → Running s c (i ∷ q)
    → if leb (s.process_table c).time_slice (add32 (s.process_table c).time_used 1)
      then Running (scheduler_tick s) i (q ++ (c ∷ []))
      else Running (scheduler_tick s) c (i ∷ q)
tick_turn s c i q v =
    rw (tick_eq s c (i ∷ q) v)
      (elim (Bool-cases
        (leb (s.process_table c).time_slice (add32 (s.process_table c).time_used 1))) [
          | inl up ↦ rw up (schedule_turn (ticked s c) c i q (ticked-Running s c (i ∷ q) v)).0
          | inr left ↦ rw left (ticked-Running s c (i ∷ q) v)
        ])

-- With nothing waiting, a running process goes on and nothing changes.
pub schedule_alone : (s : Scheduler) (c : ℕ) → Running s c [] → scheduler_schedule s ≡ s
unfolding scheduler_schedule
schedule_alone s c v =
    let stays : stay s ≡ s = ground (arith, v.current, v.runs) in
    simp (get_next-nil s v.queue) (ground (arith, v.enabled, stays))
