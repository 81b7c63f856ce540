-- ===== src/Interrupts/Gates.antt =====
-- kernel/idt.c and kernel/isr.c: what the gates hold.
use ace_os.Base.{
  ℕ, zero, suc, ◌+◌, ◌*◌, ◌^◌, ◌≤◌, ◌<◌, ◌≡◌, ◌≢◌, ◌⊎◌, inl, inr, refl, sym, subst, ◌∙◌, true,
  false, Bool-cases, ◌==◌, ltb, arith,
}
use ace_os.Ports.{Ports}
use ace_os.Interrupts.{Gate, idt_set_gate, set_gates, idt_init, isr_init}

-- The address that the processor jumps to.
abbrev pub offset_of : Gate → ℕ
offset_of g = g.offset_low + g.offset_high * 2 ^ 16

-- A gate for the handler, with its selector and its type.
pub record IsGate (g : Gate) (handler selector type_attr : ℕ) : Type 0 where
  pub offset : offset_of g ≡ handler
  pub selects : g.selector ≡ selector
  pub attributes : g.type_attr ≡ type_attr
  pub zeroed : g.reserved ≡ 0

set_gate-IsGate :
    (idt : ℕ → Gate) (num handler selector type_attr : ℕ)
    → handler < 2 ^ 32
    → IsGate (idt_set_gate idt num handler selector type_attr num) handler selector type_attr
unfolding idt_set_gate
set_gate-IsGate idt num handler selector type_attr fits =
    let same : (num == num) ≡ true = ground arith in
    rw same
      record { offset = omega (arith, fits); selects = refl; attributes = refl; zeroed = refl }

set_gate_other :
    (idt : ℕ → Gate) (num handler selector type_attr n : ℕ)
    → n ≢ num
    → idt_set_gate idt num handler selector type_attr n ≡ idt n
unfolding idt_set_gate
set_gate_other idt num handler selector type_attr n apart =
    let other : (n == num) ≡ false = ground (arith, apart) in rw other refl

module _ (isr : ℕ → ℕ) (fits : (i : ℕ) → isr i < 2 ^ 32) (selector type_attr : ℕ) where
  set_gates_other :
      (n first : ℕ) (idt : ℕ → Gate) (i : ℕ)
      → (i < first) ⊎ (first + n ≤ i)
      → set_gates n first isr selector type_attr idt i ≡ idt i
  unfolding set_gates
  set_gates_other zero first idt i out = refl
  set_gates_other (suc n) first idt i out =
      set_gates_other n (first + 1) _ i (grind arith)
      ∙ set_gate_other idt first (isr first) selector type_attr i (grind arith)

  set_gates-IsGate :
      (n first : ℕ) (idt : ℕ → Gate) (i : ℕ)
      → first ≤ i
      → i < first + n
      → IsGate (set_gates n first isr selector type_attr idt i) (isr i) selector type_attr
  unfolding set_gates
  set_gates-IsGate zero first idt i lo hi = absurd (omega (arith, lo, hi))
  set_gates-IsGate (suc n) first idt i lo hi =
      let idt' = idt_set_gate idt first (isr first) selector type_attr in
      elim (Bool-cases (i == first)) [
        | inl e ↦
            let same : first ≡ i = ground arith in
            let kept = set_gates_other n (first + 1) idt' first (inl (omega arith)) in
            let first_gate =
              set_gate-IsGate idt first (isr first) selector type_attr (fits first) in
            subst
              (λ j.
                IsGate (set_gates n (first + 1) isr selector type_attr idt' j) (isr j) selector
                  type_attr)
              same (subst (λ g. IsGate g (isr first) selector type_attr) (sym kept) first_gate)
        | inr e ↦ set_gates-IsGate n (first + 1) idt' i (ground arith) (omega (arith, hi))
      ]

module _ (P : Ports) (isr : ℕ → ℕ) (fits : (i : ℕ) → isr i < 2 ^ 32) (idt : ℕ → Gate)
    (s : P.State) where
  -- With stubs at 32-bit addresses, after `idt_init` and `isr_init`, gates 0 to 47 lead to their stubs as
  -- kernel gates, gate 128 to its stub as one that user mode may call, and all other gates are empty.
  pub isr_init_lem :
      let (gates, s') = isr_init P isr (idt_init idt, s) in
      ((i : ℕ) → i < 48 → IsGate (gates i) (isr i) 0x08 0x8e)
      × IsGate (gates 128) (isr 128) 0x08 0xee
      × ((i : ℕ) → 48 ≤ i → i < 256 → i ≢ 128 → IsGate (gates i) 0 0 0)
  unfolding isr_init idt_init
  isr_init_lem =
      let empty = set_gates 256 0 (λ i. 0) 0 0 idt in
      let low = set_gates 32 0 isr 0x08 0x8e empty in
      let all = set_gates 16 32 isr 0x08 0x8e low in
      let last = set_gate_other all 128 (isr 128) 0x08 0xee in
      (
        λ i lt.
            subst (λ g. IsGate g (isr i) 0x08 0x8e)
              (sym (last i (λ e. absurd (omega (arith, lt, e)))))
              (elim (Bool-cases (ltb i 32)) [
                | inl e ↦
                    subst (λ g. IsGate g (isr i) 0x08 0x8e)
                      (sym (set_gates_other isr fits 0x08 0x8e 16 32 low i (inl (ground arith))))
                      (set_gates-IsGate isr fits 0x08 0x8e 32 0 empty i (omega arith)
                        (ground arith))
                | inr e ↦
                    set_gates-IsGate isr fits 0x08 0x8e 16 32 low i (ground arith)
                      (omega (arith, lt))
              ]),
        set_gate-IsGate all 128 (isr 128) 0x08 0xee (fits 128),
        λ i lo hi apart.
            let e =
              last i apart
              ∙ set_gates_other isr fits 0x08 0x8e 16 32 low i (inr (omega (arith, lo)))
              ∙ set_gates_other isr fits 0x08 0x8e 32 0 empty i (inr (omega (arith, lo))) in
            subst (λ g. IsGate g 0 0 0) (sym e)
              (set_gates-IsGate (λ i. 0) (λ i. omega arith) 0 0 256 0 idt i (omega arith)
                (omega (arith, hi))),
      )
