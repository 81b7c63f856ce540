-- ===== src/ProcessTable/Create.antt =====
-- `process_create`, `process_destroy` and `process_get_by_pid` of kernel/process.c together.
use ace_os.Base.{
  ℕ, ◌≤◌, ◌<◌, ◌≡◌, ◌≢◌, ◌⊎◌, inl, inr, refl, sym, ap, subst, ◌∙◌, false, Option, none, some, List,
  if◌then◌else◌, ◌==◌, Bool-cases, arith, take,
}
use ace_os.Pcb.{Process, update, state_ready, max_processes}
use ace_os.Scheduler.{Scheduler}
use ace_os.ProcessTable.{
  ProcessTable, process_at, process_get_next_pid, free_slot, name_process, give_memory,
  start_process, process_create, zero_process, process_destroy, process_get_by_pid, release,
}
use ace_os.ProcessTable.Slots.{Lowest, free_slot_lem, find_pid-only}
use ace_os.ProcessTable.Memory.{IsShort, Holds, give-Given}

-- Slot `i` was the lowest that was free and has been taken for the new process; `r` is the result.
pub record Created (p : ProcessTable) (called : List ℕ) (i : ℕ) (r : Option ℕ) (p' : ProcessTable)
    : Type 0 where
  pub slot : Lowest p.scheduler.process_table 1 31 i
  pub others : (j : ℕ) → j ≢ i → process_at p' j ≡ process_at p j
  pub ready : (process_at p' i).state ≡ state_ready
  pub pid : (process_at p' i).pid ≡ p.next_pid
  pub name : (process_at p' i).name ≡ take 31 called
  pub counter : p'.next_pid ≡ (process_get_next_pid p).1.next_pid
  pub result : ((r ≡ none) × IsShort p.vmm) ⊎ ((r ≡ some i) × Holds p.vmm (process_at p' i))

module _ (p : ProcessTable) (name : List ℕ) (entry_point priority timer_ticks : ℕ) where
  abbrev create : Option ℕ × ProcessTable
  create = process_create p name entry_point priority timer_ticks

  named :
      (i j : ℕ)
      → process_at (name_process p i name priority) j
        ≡ (if j == i then process_at (name_process p i name priority) i else process_at p j)
  unfolding name_process process_get_next_pid
  named i j = ground arith

  named_slot :
      (i : ℕ)
      → let q = name_process p i name priority in
        ((process_at q i).state ≡ state_ready)
        × ((process_at q i).pid ≡ p.next_pid)
        × ((process_at q i).name ≡ take 31 name)
        × (q.next_pid ≡ (process_get_next_pid p).1.next_pid)
        × (q.vmm ≡ p.vmm)
  unfolding name_process process_get_next_pid
  named_slot i = (ground arith, ground arith, ground arith, ground arith, refl)

  -- What the call gives with slot `i`.
  abbrev create_in : ℕ → Option ℕ × ProcessTable
  create_in i =
      let (given, p') = give_memory (name_process p i name priority) i in
      if given then (some i, start_process p' i entry_point timer_ticks) else (none, p')

  create_eq :
      (i : ℕ)
      → free_slot p.scheduler.process_table 1 31 ≡ some i
      → process_create p name entry_point priority timer_ticks ≡ create_in i
  unfolding process_create
  create_eq i o = rw (process_create, o) refl

  create_full :
      free_slot p.scheduler.process_table 1 31 ≡ none
      → process_create p name entry_point priority timer_ticks ≡ (none, p)
  unfolding process_create
  create_full o = rw (process_create, o) refl

  started :
      (q : ProcessTable) (i : ℕ)
      → let q' = start_process q i entry_point timer_ticks in
        ((j : ℕ) → j ≢ i → process_at q' j ≡ process_at q j)
        × ((process_at q' i).state ≡ (process_at q i).state)
        × ((process_at q' i).pid ≡ (process_at q i).pid)
        × ((process_at q' i).name ≡ (process_at q i).name)
        × ((process_at q' i).page_directory ≡ (process_at q i).page_directory)
        × ((process_at q' i).kernel_stack ≡ (process_at q i).kernel_stack)
        × ((process_at q' i).user_stack ≡ (process_at q i).user_stack)
  unfolding start_process
  started q i = (
    (λ j ne. ground arith),
    ground arith,
    ground arith,
    ground arith,
    ground arith,
    ground arith,
    ground arith,
  )

  started_counter :
      (i : ℕ)
      → let q = (give_memory (name_process p i name priority) i).1 in
        (start_process q i entry_point timer_ticks).next_pid ≡ q.next_pid
  unfolding start_process
  started_counter i = refl

  in-Created :
      (i : ℕ)
      → Lowest p.scheduler.process_table 1 31 i
      → Created p name i (create_in i).0 (create_in i).1
  in-Created i low =
      let q : ProcessTable = name_process p i name priority in
      let g = give-Given q i in
      let n = named_slot i in
      let (apart, state, pid, named', d, k, u) = started (give_memory q i).1 i in
      elim (Bool-cases (give_memory q i).0) [
        | inl e ↦
            let m = subst (λ v. Holds v (process_at (give_memory q i).1 i)) n.4 (g.memory e) in
            rw e (record {
              slot = low;
              others = λ j ne. apart j ne ∙ g.others j ne ∙ named i j ∙ ground arith;
              ready = state ∙ g.state ∙ n.0;
              pid = pid ∙ g.pid ∙ n.1;
              name = named' ∙ g.name ∙ n.2;
              counter = started_counter i ∙ g.counter ∙ n.3;
              result = inr (
                refl,
                record {
                  directory = d ∙ m.directory;
                  kernel = k ∙ m.kernel;
                  user = u ∙ m.user;
                  full = m.full;
                },
              );
            })
        | inr e ↦ rw e (record {
          slot = low;
          others = λ j ne. g.others j ne ∙ named i j ∙ ground arith;
          ready = g.state ∙ n.0;
          pid = g.pid ∙ n.1;
          name = g.name ∙ n.2;
          counter = g.counter ∙ n.3;
          result = inl (refl, subst IsShort n.4 (g.short e));
        })
      ]

  -- `process_create` changes nothing and returns NULL when all slots are in use. Else it takes the
  -- lowest free slot for a READY process with the next pid and the name cut at 31 characters, and
  -- leaves the others; it gives the process the frames of a page directory and of both stacks and
  -- returns it; or, when the allocator lacks one of these three frames, it returns NULL, with the slot
  -- taken all the same.
  pub create_lem :
      ((create ≡ (none, p)) × ((i : ℕ) → 1 ≤ i → i < 32 → (process_at p i).state ≢ 0))
      ⊎ ((i : ℕ) × Created p name i create.0 create.1)
  create_lem = elim (free_slot_lem p.scheduler.process_table 1 31) [
    | inl (o, full) ↦ inl (create_full o, full)
    | inr (i, o, low) ↦ inr (i, rw (create_eq i o) (in-Created i low))
  ]

-- The slot that the call returns is the one it took.
returned-Created :
    (p : ProcessTable) (name : List ℕ) (k i : ℕ) (r : Option ℕ) (p' : ProcessTable)
    → r ≡ some i
    → Created p name k r p'
    → Created p name i r p'
returned-Created p name k i r p' got c = elim c.result [
  | inl (e, short) ↦ absurd (cc (e, got))
  | inr full ↦ let same : k ≡ i = cc (full.0, got) in subst (λ j. Created p name j r p') same c
]

-- With a result, the other outcomes of `create_lem` are ruled out.
got-Created :
    (p : ProcessTable) (name : List ℕ) (entry_point priority timer_ticks i : ℕ)
    → let (r, p') = process_create p name entry_point priority timer_ticks in
      r ≡ some i → Created p name i r p'
got-Created p name entry_point priority timer_ticks i got =
    elim (create_lem p name entry_point priority timer_ticks) [
      | inl (same, full) ↦ absurd (cc (got, same))
      | inr (k, c) ↦ returned-Created p name k i _ _ got c
    ]

-- A process that `process_create` returns is found by its pid, unless a process in use has that pid
-- already.
pub create-get_by_pid :
    (p : ProcessTable) (name : List ℕ) (entry_point priority timer_ticks i : ℕ)
    → ((j : ℕ) → (process_at p j).pid ≡ p.next_pid → (process_at p j).state ≡ 0)
    → (process_create p name entry_point priority timer_ticks).0 ≡ some i
    → process_get_by_pid (process_create p name entry_point priority timer_ticks).1 p.next_pid
      ≡ some i
unfolding process_get_by_pid
create-get_by_pid p name entry_point priority timer_ticks i fresh got =
    let c = got-Created p name entry_point priority timer_ticks i got in
    find_pid-only _ p.next_pid i 0 max_processes (omega arith) (omega (arith, c.slot.below)) c.pid
      (λ e. omega (arith, e, c.ready))
      (λ j ne own.
        ap (λ (v : Process). v.state) (c.others j ne)
        ∙ fresh j (ap (λ (v : Process). v.pid) (sym (c.others j ne)) ∙ own))

release-scheduler : (p : ProcessTable) (frame : ℕ) → (release p frame).scheduler ≡ p.scheduler
release-scheduler p frame = ground arith

destroy_lem :
    (p : ProcessTable) (i j : ℕ)
    → (process_at p i).pid ≢ 0
    → process_at (process_destroy p (some i)) j ≡ (if j == i then zero_process else process_at p j)
unfolding process_destroy
destroy_lem p i j nz =
    let v = process_at p i in
    let kernel : ((process_at p i).pid == 0) ≡ false = ground arith in
    let s =
      release-scheduler (release p v.kernel_stack) v.user_stack
      ∙ release-scheduler p v.kernel_stack in
    rw kernel (ap (λ (s : Scheduler). update s.process_table i zero_process j) s)

-- A process that was created with a pid other than 0 and destroyed leaves its slot free and every
-- other slot as it was.
pub create-destroy :
    (p : ProcessTable) (name : List ℕ) (entry_point priority timer_ticks i : ℕ)
    → p.next_pid ≢ 0
    → (process_create p name entry_point priority timer_ticks).0 ≡ some i
    → let p' =
        process_destroy (process_create p name entry_point priority timer_ticks).1 (some i) in
      (process_at p' i ≡ zero_process) × ((j : ℕ) → j ≢ i → process_at p' j ≡ process_at p j)
create-destroy p name entry_point priority timer_ticks i nz got =
    let c = got-Created p name entry_point priority timer_ticks i got in
    let p1 = (process_create p name entry_point priority timer_ticks).1 in
    let in_use : (process_at p1 i).pid ≢ 0 = λ e. nz (sym c.pid ∙ e) in
    (
      destroy_lem p1 i i in_use ∙ ground arith,
      λ j ne. destroy_lem p1 i j in_use ∙ ground arith ∙ c.others j ne,
    )
