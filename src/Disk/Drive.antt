-- ===== src/Disk/Drive.antt =====
-- What drivers/disk.c relies on of a drive: the PIO protocol of ATA at the ports of its channel.
use ace_os.Base.{
  ℕ, zero, suc, ◌+◌, ◌*◌, ◌/◌, ◌%◌, ◌^◌, ◌≤◌, ◌<◌, ◌≡◌, ◌≢◌, if◌then◌else◌, ◌==◌, bit_and,
}
use ace_os.Ports.{Ports}
use ace_os.Disk.{
  base_of, ata_reg_sector_count, ata_reg_lba_low, ata_reg_lba_mid, ata_reg_lba_high,
  ata_reg_drive_head, ata_reg_status, ata_reg_command, ata_status_bsy, ata_status_rdy,
  ata_status_drq, ata_cmd_read_sectors, ata_cmd_write_sectors,
}

pub data Direction : Type 0 where
  reading : Direction
  writing : Direction

-- What a drive does: nothing; it gets ready for the block at word `position` of the medium, after
-- `wait` more readings of its status, with `left` sectors behind that block; it moves a block, with
-- `words` words of it to go from `position` on; or it stores what was written.
pub data Phase : Type 0 where
  idle : Phase
  busy : (dir : Direction) (position left wait : ℕ) → Phase
  transfer : (dir : Direction) (position words left : ℕ) → Phase
  finishing : (wait : ℕ) → Phase

-- The readings of the status within which a drive answers.
abbrev pub patience : ℕ
patience = 1000000

-- The phase at word `position`, with `words` words of a block and `left` more sectors to go.
abbrev pub IsAt : Phase → Direction → (position words left : ℕ) → Type 0
IsAt ph dir position (suc words) left = ph ≡ transfer dir position (suc words) left
IsAt ph dir position zero (suc left) =
    (wait : ℕ) × (wait < patience) × (ph ≡ busy dir position left wait)
IsAt ph reading position zero zero = ph ≡ idle
IsAt ph writing position zero zero = (wait : ℕ) × (wait < patience) × (ph ≡ finishing wait)

-- READ SECTORS and WRITE SECTORS.
abbrev pub command_of : Direction → ℕ
command_of reading = ata_cmd_read_sectors
command_of writing = ata_cmd_write_sectors

-- The number of sectors that the sector count register asks for.
abbrev pub sectors_of : ℕ → ℕ
sectors_of count = if count == 0 then 256 else count

-- The address of 28 bits in the registers.
abbrev pub address_of : (ℕ → ℕ) → ℕ
address_of register =
    register ata_reg_lba_low
    + register ata_reg_lba_mid * 2 ^ 8
    + register ata_reg_lba_high * 2 ^ 16
    + register ata_reg_drive_head % 16 * 2 ^ 24

-- `stored s k` is word `k` of the medium, 256 to a sector.
pub record Drive (P : Ports) (drive : ℕ) : Type 1 where
  pub phase : P.State → Phase
  pub register : P.State → ℕ → ℕ
  pub stored : P.State → ℕ → ℕ
  pub stored_word : (s : P.State) (k : ℕ) → stored s k < 2 ^ 16
  -- Readings of the status register.
  pub status_quiet :
      (s : P.State) (k : ℕ) → stored (P.inb s (base_of drive + ata_reg_status)).1 k ≡ stored s k
  pub idle_status :
      (s : P.State)
      → phase s ≡ idle
      → let (status, s') = P.inb s (base_of drive + ata_reg_status) in
        (bit_and status ata_status_rdy ≢ 0) × (phase s' ≡ idle)
  pub busy_status :
      (s : P.State) (dir : Direction) (position left wait : ℕ)
      → phase s ≡ busy dir position left (suc wait)
      → let (status, s') = P.inb s (base_of drive + ata_reg_status) in
        (bit_and status ata_status_drq ≡ 0) × (phase s' ≡ busy dir position left wait)
  pub data_status :
      (s : P.State) (dir : Direction) (position left : ℕ)
      → phase s ≡ busy dir position left 0
      → let (status, s') = P.inb s (base_of drive + ata_reg_status) in
        (bit_and status ata_status_drq ≢ 0) × (phase s' ≡ transfer dir position 256 left)
  pub finishing_status :
      (s : P.State) (wait : ℕ)
      → phase s ≡ finishing (suc wait)
      → let (status, s') = P.inb s (base_of drive + ata_reg_status) in
        (bit_and status ata_status_bsy ≢ 0) × (phase s' ≡ finishing wait)
  pub finished_status :
      (s : P.State)
      → phase s ≡ finishing 0
      → let (status, s') = P.inb s (base_of drive + ata_reg_status) in
        (bit_and status ata_status_bsy ≡ 0) × (phase s' ≡ idle)
  -- A byte for one of the registers 2 to 6.
  pub set_register :
      (s : P.State) (r v : ℕ)
      → phase s ≡ idle
      → 2 ≤ r
      → r ≤ 6
      → v < 256
      → let s' = P.outb s (base_of drive + r) v in
        (phase s' ≡ idle)
        × (register s' r ≡ v)
        × ((q : ℕ) → q ≢ r → register s' q ≡ register s q)
        × ((k : ℕ) → stored s' k ≡ stored s k)
  -- A command for this drive of the channel.
  pub command :
      (s : P.State) (dir : Direction)
      → phase s ≡ idle
      → register s ata_reg_drive_head / 16 ≡ (if drive % 2 == 0 then 0xe else 0xf)
      → let s' = P.outb s (base_of drive + ata_reg_command) (command_of dir) in
        IsAt
          (phase s')
          dir
          (address_of (register s) * 256)
          0
          (sectors_of (register s ata_reg_sector_count))
        × ((k : ℕ) → stored s' k ≡ stored s k)
  -- The data register.
  pub read_word :
      (s : P.State) (position words left : ℕ)
      → phase s ≡ transfer reading position (suc words) left
      → let (w, s') = P.inw s (base_of drive) in
        (w ≡ stored s position)
        × IsAt (phase s') reading (position + 1) words left
        × ((k : ℕ) → stored s' k ≡ stored s k)
  pub write_word :
      (s : P.State) (position words left w : ℕ)
      → phase s ≡ transfer writing position (suc words) left
      → w < 2 ^ 16
      → let s' = P.outw s (base_of drive) w in
        (stored s' position ≡ w)
        × IsAt (phase s') writing (position + 1) words left
        × ((k : ℕ) → k ≢ position → stored s' k ≡ stored s k)
