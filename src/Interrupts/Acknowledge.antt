-- ===== src/Interrupts/Acknowledge.antt =====
-- kernel/isr.c and kernel/pic.c: the end of an interrupt.
use ace_os.Base.{
  ℕ, ◌-◌, ◌≤◌, ◌<◌, ◌≡◌, ◌⊎◌, inl, inr, refl, true, ◌&&◌, Option, Bool-cases, ◌==◌, ltb, leb, arith,
}
use ace_os.Ports.{Ports}
use ace_os.Interrupts.{Handler, isr_handler, register_interrupt_handler, pic_send_eoi}

module _ (P : Ports) {R : Type 0} where
  -- An interrupt runs the handler that was registered for it last, once. A hardware interrupt then
  -- sends what `pic_send_eoi` does for its line, any other interrupt sends nothing.
  pub handler_runs :
      (handlers : ℕ → Option (Handler P R)) (n : ℕ) (handler : Handler P R) (regs : R) (s : P.State)
      → let handlers' = register_interrupt_handler P handlers n handler in
        ((32 ≤ n)
          × (n < 48)
          × (isr_handler P handlers' n regs s ≡ pic_send_eoi P (n - 32) (handler regs s)))
        ⊎ (((n < 32) ⊎ (48 ≤ n)) × (isr_handler P handlers' n regs s ≡ handler regs s))
  unfolding isr_handler register_interrupt_handler pic_send_eoi
  handler_runs handlers n handler regs s =
      let same : (n == n) ≡ true = ground arith in
      elim (Bool-cases (leb 32 n && ltb n 48)) [
        | inl e ↦
            let line : leb 40 n ≡ leb 8 (n - 32) = ground arith in
            inl (ground arith, ground arith, rw (same, e, line) refl)
        | inr e ↦ inr (ground arith, rw (same, e) refl)
      ]
