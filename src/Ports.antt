-- ===== src/Ports.antt =====
-- include/io.h: the instructions on I/O ports, over unknown devices. Reading a port can change the
-- state of its device.
use ace_os.Base.{ℕ}

pub record Ports : Type 1 where
  pub State : Type 0
  pub inb : State → ℕ → ℕ × State
  pub outb : State → ℕ → ℕ → State
  pub inw : State → ℕ → ℕ × State
  pub outw : State → ℕ → ℕ → State
