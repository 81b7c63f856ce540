-- ===== src/Interrupts.antt =====
-- kernel/idt.c, kernel/pic.c and kernel/isr.c: the table of interrupt gates, the two interrupt
-- controllers and the dispatch to handlers. The addresses of the assembly stubs are `isr`.
pub mod Gates
pub mod Acknowledge
mod Tests
use ace_os.Base.{
  ℕ, zero, suc, ◌+◌, ◌-◌, ◌*◌, ◌/◌, ◌%◌, ◌^◌, Bool, true, false, not, ◌&&◌, Option, none, some,
  if◌then◌else◌, ◌==◌, ltb, leb, bit_and, bit_or,
}
use ace_os.Ports.{Ports}

-- `idt_gate_t`.
pub record Gate : Type 0 where
  pub offset_low : ℕ
  pub selector : ℕ
  pub reserved : ℕ
  pub type_attr : ℕ
  pub offset_high : ℕ

-- `idt`; the number of a gate has 8 bits.
pub idt_set_gate : (ℕ → Gate) → (num handler selector type_attr : ℕ) → ℕ → Gate
idt_set_gate idt num handler selector type_attr n =
    if n == num
    then record {
      offset_low = handler % 2 ^ 16;
      selector = selector;
      reserved = 0;
      type_attr = type_attr;
      offset_high = handler / 2 ^ 16 % 2 ^ 16;
    }
    else idt n

-- `n` calls of `idt_set_gate` for the gates from `first` on.
pub set_gates : ℕ → (first : ℕ) → (isr : ℕ → ℕ) → (selector type_attr : ℕ) → (ℕ → Gate) → ℕ → Gate
set_gates zero first isr selector type_attr idt = idt
set_gates (suc n) first isr selector type_attr idt =
    set_gates n (first + 1) isr selector type_attr
      (idt_set_gate idt first (isr first) selector type_attr)

-- The table that `idt_load` is given.
pub idt_init : (ℕ → Gate) → ℕ → Gate
idt_init idt = set_gates 256 0 (λ i. 0) 0 0 idt

abbrev pub pic1_command : ℕ
pic1_command = 0x20

abbrev pub pic1_data : ℕ
pic1_data = 0x21

abbrev pub pic2_command : ℕ
pic2_command = 0xa0

abbrev pub pic2_data : ℕ
pic2_data = 0xa1

abbrev pub icw1_init : ℕ
icw1_init = 0x11

abbrev pub icw4_8086 : ℕ
icw4_8086 = 0x01

module _ (P : Ports) where
  pub pic_init : P.State → P.State
  pic_init s =
      let (mask1, s1) = P.inb s pic1_data in
      let (mask2, s2) = P.inb s1 pic2_data in
      let s3 = P.outb (P.outb s2 pic1_command icw1_init) pic2_command icw1_init in
      let s4 = P.outb (P.outb s3 pic1_data 0x20) pic2_data 0x28 in
      let s5 = P.outb (P.outb s4 pic1_data 4) pic2_data 2 in
      let s6 = P.outb (P.outb s5 pic1_data icw4_8086) pic2_data icw4_8086 in
      P.outb (P.outb s6 pic1_data mask1) pic2_data mask2

  pub pic_send_eoi : (irq : ℕ) → P.State → P.State
  pic_send_eoi irq s =
      P.outb (if leb 8 irq then P.outb s pic2_command 0x20 else s) pic1_command 0x20

  -- `1 << irq` has 8 bits in `value`.
  pub irq_set_mask : (irq : ℕ) → P.State → P.State
  irq_set_mask irq s =
      let port : ℕ = if ltb irq 8 then pic1_data else pic2_data in
      let irq' : ℕ = if ltb irq 8 then irq else irq - 8 in
      let (value, s') = P.inb s port in P.outb s' port (bit_or value (2 ^ irq') % 2 ^ 8)

  pub irq_clear_mask : (irq : ℕ) → P.State → P.State
  irq_clear_mask irq s =
      let port : ℕ = if ltb irq 8 then pic1_data else pic2_data in
      let irq' : ℕ = if ltb irq 8 then irq else irq - 8 in
      let (value, s') = P.inb s port in
      P.outb s' port (bit_and value (2 ^ 32 - 1 - 2 ^ irq') % 2 ^ 8)

  pub isr_init : (isr : ℕ → ℕ) → (ℕ → Gate) × P.State → (ℕ → Gate) × P.State
  isr_init isr (idt, s) = (
    idt_set_gate (set_gates 16 32 isr 0x08 0x8e (set_gates 32 0 isr 0x08 0x8e idt)) 128 (isr 128)
        0x08 0xee,
    pic_init s,
  )

  -- A handler gets the registers by value; the number of the interrupt is all that is read of them
  -- here.
  abbrev pub Handler : Type 0 → Type 0
  Handler R = R → P.State → P.State

  pub register_interrupt_handler :
      {R : Type 0} → (ℕ → Option (Handler R)) → (n : ℕ) → Handler R → ℕ → Option (Handler R)
  register_interrupt_handler handlers n handler i = if i == n then some handler else handlers i

  pub isr_handler :
      {R : Type 0} → (ℕ → Option (Handler R)) → (int_no : ℕ) → (regs : R) → P.State → P.State
  isr_handler handlers int_no regs s =
      let s1 : P.State = elim (handlers int_no) [ none ↦ s | some handler ↦ handler regs s ] in
      if leb 32 int_no && ltb int_no 48
      then P.outb (if leb 40 int_no then P.outb s1 0xa0 0x20 else s1) 0x20 0x20
      else s1
