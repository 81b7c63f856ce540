-- ===== src/Interrupts/Tests.antt =====
-- Runs of kernel/isr.c.
use ace_os.Base.{ℕ, ◌+◌, ◌-◌, ◌*◌, ◌^◌, ◌%◌, ◌≤◌, ◌<◌, ◌≡◌, ◌≢◌, ◌⊎◌, none, List, [], ◌∷◌, arith}
use ace_os.Ports.{Ports}
use ace_os.Interrupts.{
  Gate, Handler, idt_init, isr_init, isr_handler, register_interrupt_handler, pic_send_eoi,
}
use ace_os.Interrupts.Gates.{IsGate, isr_init_lem}
use ace_os.Interrupts.Acknowledge.{handler_runs}

-- The writes, the last one first; a read gives 0xff.
abbrev logged : Ports
logged = record {
  State = List (ℕ × ℕ);
  inb = λ s port. (0xff, s);
  outb = λ s port v. (port, v) ∷ s;
  inw = λ s port. (0xffff, s);
  outw = λ s port v. (port, v) ∷ s;
}

-- The stubs are 16 bytes each.
abbrev stub : ℕ → ℕ
stub i = (0x100000 + i * 16) % 2 ^ 32

abbrev junk : ℕ → Gate
junk i = record { offset_low = 1; selector = 1; reserved = 1; type_attr = 1; offset_high = 1 }

isr_init_lem_example :
    let (gates, s') = isr_init logged stub (idt_init junk, []) in
    ((i : ℕ) → i < 48 → IsGate (gates i) (stub i) 0x08 0x8e)
    × IsGate (gates 128) (stub 128) 0x08 0xee
    × ((i : ℕ) → 48 ≤ i → i < 256 → i ≢ 128 → IsGate (gates i) 0 0 0)
isr_init_lem_example = isr_init_lem logged stub (λ i. omega arith) junk []

-- A handler that writes its registers to port 1.
abbrev note : Handler logged ℕ
note regs s = (1, regs) ∷ s

-- The mouse, line 12.
handler_runs_example :
    let handlers = register_interrupt_handler logged (λ i. none) 44 note in
    ((32 ≤ 44)
      × (44 < 48)
      × (isr_handler logged handlers 44 7 [] ≡ pic_send_eoi logged (44 - 32) (note 7 [])))
    ⊎ (((44 < 32) ⊎ (48 ≤ 44)) × (isr_handler logged handlers 44 7 [] ≡ note 7 []))
handler_runs_example = handler_runs logged (λ i. none) 44 note 7 []
