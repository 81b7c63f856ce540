-- ===== src/ProcessTable/Memory.antt =====
-- The memory that `process_create` of kernel/process.c gives a process: the page directory and the
-- stacks.
use ace_os.Base.{
  ℕ, ◌≡◌, ◌≢◌, ◌⊎◌, inl, inr, refl, sym, ap, subst, ◌∙◌, Bool, true, false, ◌==◌, Bool-cases, arith,
}
use ace_os.Pcb.{Process}
use ace_os.Pmm.{pmm_alloc_frame}
use ace_os.Vmm.{Vmm, vmm_create_page_directory}
use ace_os.ProcessTable.{
  set_page_directory, set_kernel_stack, set_user_stack, ProcessTable, process_at, give_memory,
}

-- The frames that `give_memory` asks for, 0 when there is none.
abbrev pub directory_frame : Vmm → ℕ
directory_frame v = (vmm_create_page_directory v).0

abbrev pub kernel_frame : Vmm → ℕ
kernel_frame v = (pmm_alloc_frame (vmm_create_page_directory v).1.pmm).0

abbrev pub user_frame : Vmm → ℕ
user_frame v = (pmm_alloc_frame (pmm_alloc_frame (vmm_create_page_directory v).1.pmm).1).0

-- One of them is missing.
abbrev pub IsShort : Vmm → Type 0
IsShort v = (directory_frame v ≡ 0) ⊎ ((kernel_frame v ≡ 0) ⊎ (user_frame v ≡ 0))

-- All of them are there, and the process has them.
pub record Holds (v : Vmm) (q : Process) : Type 0 where
  pub directory : q.page_directory ≡ directory_frame v
  pub kernel : q.kernel_stack ≡ kernel_frame v
  pub user : q.user_stack ≡ user_frame v
  pub full : (directory_frame v ≢ 0) × (kernel_frame v ≢ 0) × (user_frame v ≢ 0)

-- What `give_memory` does to the slots, and what the result says.
pub record Given (p : ProcessTable) (i : ℕ) (given : Bool) (p' : ProcessTable) : Type 0 where
  pub others : (j : ℕ) → j ≢ i → process_at p' j ≡ process_at p j
  pub state : (process_at p' i).state ≡ (process_at p i).state
  pub pid : (process_at p' i).pid ≡ (process_at p i).pid
  pub name : (process_at p' i).name ≡ (process_at p i).name
  pub memory : given ≡ true → Holds p.vmm (process_at p' i)
  pub short : given ≡ false → IsShort p.vmm
  pub counter : p'.next_pid ≡ p.next_pid

abbrev with_memory : Process → ℕ → ℕ → ℕ → Process
with_memory v d k u = record v { page_directory = d; kernel_stack = k; user_stack = u }

abbrev own_kernel : ℕ → Process → Process
own_kernel k v = record v { kernel_stack = k }

abbrev own_user : ℕ → Process → Process
own_user u v = record v { user_stack = u }

with_memory-Given :
    (p p' : ProcessTable) (i : ℕ) (given : Bool) (d k u : ℕ)
    → (process_at p' i ≡ with_memory (process_at p i) d k u)
      × ((j : ℕ) → j ≢ i → process_at p' j ≡ process_at p j)
      × (p'.next_pid ≡ p.next_pid)
    → (given ≡ true → Holds p.vmm (with_memory (process_at p i) d k u))
    → (given ≡ false → IsShort p.vmm)
    → Given p i given p'
with_memory-Given p p' i given d k u (own, others, counter) full short = record {
  others = others;
  state = ap (λ (v : Process). v.state) own;
  pid = ap (λ (v : Process). v.pid) own;
  name = ap (λ (v : Process). v.name) own;
  memory = λ e. subst (Holds p.vmm) (sym own) (full e);
  short = short;
  counter = counter;
}

module _ (p : ProcessTable) (i a : ℕ) where
  set_directory_lem :
      (process_at (set_page_directory p i a) i ≡ record (process_at p i) { page_directory = a })
      × ((j : ℕ) → j ≢ i → process_at (set_page_directory p i a) j ≡ process_at p j)
      × ((set_page_directory p i a).next_pid ≡ p.next_pid)
  unfolding set_page_directory
  set_directory_lem = (ground arith, (λ j ne. ground arith), refl)

  set_kernel_lem :
      (process_at (set_kernel_stack p i a) i ≡ record (process_at p i) { kernel_stack = a })
      × ((j : ℕ) → j ≢ i → process_at (set_kernel_stack p i a) j ≡ process_at p j)
      × ((set_kernel_stack p i a).next_pid ≡ p.next_pid)
  unfolding set_kernel_stack
  set_kernel_lem = (ground arith, (λ j ne. ground arith), refl)

  set_user_lem :
      (process_at (set_user_stack p i a) i ≡ record (process_at p i) { user_stack = a })
      × ((j : ℕ) → j ≢ i → process_at (set_user_stack p i a) j ≡ process_at p j)
      × ((set_user_stack p i a).next_pid ≡ p.next_pid)
  unfolding set_user_stack
  set_user_lem = (ground arith, (λ j ne. ground arith), refl)

-- The state after the page directory, after the kernel stack and after the user stack.
module _ (p : ProcessTable) (i d k u : ℕ) (v1 v2 v3 : Vmm) where
  abbrev with_directory : ProcessTable
  with_directory = set_page_directory (record p { vmm = v1 }) i d

  abbrev with_kernel : ProcessTable
  with_kernel = set_kernel_stack (record with_directory { vmm = v2 }) i k

  abbrev with_user : ProcessTable
  with_user = set_user_stack (record with_kernel { vmm = v3 }) i u

  directory_slots :
      (process_at with_directory i ≡ record (process_at p i) { page_directory = d })
      × ((j : ℕ) → j ≢ i → process_at with_directory j ≡ process_at p j)
      × (with_directory.next_pid ≡ p.next_pid)
  directory_slots = set_directory_lem (record p { vmm = v1 }) i d

  kernel_slots :
      (process_at with_kernel i ≡ record (process_at p i) { page_directory = d; kernel_stack = k })
      × ((j : ℕ) → j ≢ i → process_at with_kernel j ≡ process_at p j)
      × (with_kernel.next_pid ≡ p.next_pid)
  kernel_slots =
      let (own, others, counter) = directory_slots in
      let (own', others', counter') = set_kernel_lem (record with_directory { vmm = v2 }) i k in
      (own' ∙ ap (own_kernel k) own, (λ j ne. others' j ne ∙ others j ne), counter' ∙ counter)

  user_slots :
      (process_at with_user i ≡ with_memory (process_at p i) d k u)
      × ((j : ℕ) → j ≢ i → process_at with_user j ≡ process_at p j)
      × (with_user.next_pid ≡ p.next_pid)
  user_slots =
      let (own, others, counter) = kernel_slots in
      let (own', others', counter') = set_user_lem (record with_kernel { vmm = v3 }) i u in
      (own' ∙ ap (own_user u) own, (λ j ne. others' j ne ∙ others j ne), counter' ∙ counter)

pub give-Given : (p : ProcessTable) (i : ℕ) → Given p i (give_memory p i).0 (give_memory p i).1
unfolding give_memory
give-Given p i =
    let (d, v1) = vmm_create_page_directory p.vmm in
    let (k, pmm2) = pmm_alloc_frame v1.pmm in
    let v2 : Vmm = record v1 { pmm = pmm2 } in
    let (u, pmm3) = pmm_alloc_frame pmm2 in
    let v3 : Vmm = record v2 { pmm = pmm3 } in
    let old = process_at p i in
    elim (Bool-cases (d == 0)) [
      | inl a ↦ rw a (
          with_memory-Given p _ i false d old.kernel_stack old.user_stack
            (directory_slots p i d k u v1 v2 v3) (λ e. absurd (cc e)) (λ e. inl (ground arith)))
      | inr a ↦ elim (Bool-cases (k == 0)) [
        | inl b ↦
            rw (a, b)
              (with_memory-Given p _ i false d k old.user_stack (kernel_slots p i d k u v1 v2 v3)
                (λ e. absurd (cc e)) (λ e. inr (inl (ground arith))))
        | inr b ↦ elim (Bool-cases (u == 0)) [
          | inl c ↦
              rw (a, b, c)
                (with_memory-Given p _ i false d k u (user_slots p i d k u v1 v2 v3)
                  (λ e. absurd (cc e)) (λ e. inr (inr (ground arith))))
          | inr c ↦
              rw (a, b, c)
                (with_memory-Given p _ i true d k u (user_slots p i d k u v1 v2 v3)
                  (λ e. record {
                    directory = refl;
                    kernel = refl;
                    user = refl;
                    full = (ground arith, ground arith, ground arith);
                  })
                  (λ e. absurd (cc e)))
        ]
      ]
    ]
