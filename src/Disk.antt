-- ===== src/Disk.antt =====
-- drivers/disk.c: ATA drives by programmed I/O, over the ports of include/io.h.
-- A buffer is its address in memory; `uint16_t` elements are two bytes, the low one first. The
-- result is `true` for 0 and `false` for -1. Serial output is left out.
pub mod Geometry
pub mod Drive
pub mod Commands
pub mod Transfer
pub mod Detect
pub mod RoundTrip
mod Tests
use ace_os.Base.{
  ℕ, zero, suc, ◌+◌, ◌-◌, ◌*◌, ◌/◌, ◌%◌, ◌^◌, Bool, true, false, not, ◌&&◌, Option, none, some,
  List, [], ◌∷◌, if◌then◌else◌, ◌==◌, ltb, leb, bit_and, get_or,
}
use ace_os.Libc.{Memory, poke}
use ace_os.Ports.{Ports}

abbrev pub ata_primary_base : ℕ
ata_primary_base = 0x1f0

abbrev pub ata_secondary_base : ℕ
ata_secondary_base = 0x170

abbrev pub ata_reg_sector_count : ℕ
ata_reg_sector_count = 2

abbrev pub ata_reg_lba_low : ℕ
ata_reg_lba_low = 3

abbrev pub ata_reg_lba_mid : ℕ
ata_reg_lba_mid = 4

abbrev pub ata_reg_lba_high : ℕ
ata_reg_lba_high = 5

abbrev pub ata_reg_drive_head : ℕ
ata_reg_drive_head = 6

abbrev pub ata_reg_status : ℕ
ata_reg_status = 7

abbrev pub ata_reg_command : ℕ
ata_reg_command = 7

abbrev pub ata_status_bsy : ℕ
ata_status_bsy = 0x80

abbrev pub ata_status_rdy : ℕ
ata_status_rdy = 0x40

abbrev pub ata_status_drq : ℕ
ata_status_drq = 0x08

abbrev pub ata_status_err : ℕ
ata_status_err = 0x01

abbrev pub ata_cmd_read_sectors : ℕ
ata_cmd_read_sectors = 0x20

abbrev pub ata_cmd_write_sectors : ℕ
ata_cmd_write_sectors = 0x30

abbrev pub base_of : ℕ → ℕ
base_of drive = if ltb drive 2 then ata_primary_base else ata_secondary_base

-- The bits of the drive and of the address are apart, so `|` is a sum.
abbrev pub select_of : ℕ → ℕ → ℕ
select_of drive lba = (if drive % 2 == 0 then 0xe0 else 0xf0) + lba / 2 ^ 24 % 16

-- Element `i` of a buffer of words.
abbrev pub word_at : Memory → ℕ → ℕ → ℕ
word_at m buffer i = m (buffer + 2 * i) + 256 * m (buffer + 2 * i + 1)

abbrev pub put_word : Memory → ℕ → ℕ → ℕ → Memory
put_word m buffer i w =
    poke (poke m (buffer + 2 * i) (w % 256)) (buffer + 2 * i + 1) (w / 256 % 256)

module _ (P : Ports) where
  -- `while (!(inb(base + ATA_REG_STATUS) & bit) && --timeout)`, or without `!` for `set` = false:
  -- `timeout` reads at most, and `false` when it came down to 0.
  pub wait_for : ℕ → Bool → (bit base : ℕ) → P.State → Bool × P.State
  wait_for zero set bit base s = (false, s)
  wait_for (suc timeout) set bit base s =
      let (status, s') = P.inb s (base + ata_reg_status) in
      let later = wait_for timeout set bit base s' in
      let clear = bit_and status bit == 0 in
      if (if set then not clear else clear) then (true, s') else later

  -- The registers and the command.
  pub set_up : (drive lba count command : ℕ) → P.State → P.State
  set_up drive lba count command s =
      let base : ℕ = base_of drive in
      let s1 = P.outb s (base + ata_reg_drive_head) (select_of drive lba) in
      let s2 = P.outb s1 (base + ata_reg_sector_count) (count % 256) in
      let s3 = P.outb s2 (base + ata_reg_lba_low) (lba % 256) in
      let s4 = P.outb s3 (base + ata_reg_lba_mid) (lba / 2 ^ 8 % 256) in
      let s5 = P.outb s4 (base + ata_reg_lba_high) (lba / 2 ^ 16 % 256) in
      P.outb s5 (base + ata_reg_command) command

  -- `for (...; i++) buf[i] = inw(base)`, `n` rounds from `i` on.
  pub read_words : ℕ → (i base buffer : ℕ) → P.State → Memory → P.State × Memory
  read_words zero i base buffer s m = (s, m)
  read_words (suc n) i base buffer s m =
      let (w, s') = P.inw s base in read_words n (i + 1) base buffer s' (put_word m buffer i w)

  pub write_words : ℕ → (i base buffer : ℕ) → P.State → Memory → P.State
  write_words zero i base buffer s m = s
  write_words (suc n) i base buffer s m =
      write_words n (i + 1) base buffer (P.outw s base (word_at m buffer i)) m

  -- The loop over the sectors, from `sector` on.
  pub read_loop : ℕ → (sector base buffer : ℕ) → P.State → Memory → Bool × P.State × Memory
  read_loop zero sector base buffer s m = (true, s, m)
  read_loop (suc n) sector base buffer s m =
      let (ready, s1) = wait_for 1000000 true ata_status_drq base s in
      let (s2, m2) = read_words 256 (sector * 256) base buffer s1 m in
      let rest = read_loop n (sector + 1) base buffer s2 m2 in
      if ready then rest else (false, s1, m)

  pub write_loop : ℕ → (sector base buffer : ℕ) → P.State → Memory → Bool × P.State
  write_loop zero sector base buffer s m = (true, s)
  write_loop (suc n) sector base buffer s m =
      let (ready, s1) = wait_for 1000000 true ata_status_drq base s in
      let rest =
        write_loop n (sector + 1) base buffer (write_words 256 (sector * 256) base buffer s1 m) m in
      if ready then rest else (false, s1)

  pub ata_read_sectors : (drive lba count buffer : ℕ) → P.State → Memory → Bool × P.State × Memory
  ata_read_sectors drive lba count buffer s m =
      let base : ℕ = base_of drive in
      let (ready, s1) = wait_for 1000000 true ata_status_rdy base s in
      if ready
      then read_loop count 0 base buffer (set_up drive lba count ata_cmd_read_sectors s1) m
      else (false, s1, m)

  pub ata_write_sectors : (drive lba count buffer : ℕ) → P.State → Memory → Bool × P.State
  ata_write_sectors drive lba count buffer s m =
      let base : ℕ = base_of drive in
      let (ready, s1) = wait_for 1000000 true ata_status_rdy base s in
      let (sent, s2) =
        write_loop count 0 base buffer (set_up drive lba count ata_cmd_write_sectors s1) m in
      if ready
      then if sent then wait_for 1000000 false ata_status_bsy base s2 else (false, s2)
      else (false, s1)
