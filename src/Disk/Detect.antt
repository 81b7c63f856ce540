-- ===== src/Disk/Detect.antt =====
-- drivers/disk.c: the table of drives and the calls by drive number.
pub mod Table
use ace_os.Base.{
  ℕ, zero, suc, ◌+◌, ◌-◌, ◌*◌, ◌/◌, ◌%◌, ◌^◌, ◌≤◌, ◌<◌, ◌≡◌, ◌≢◌, ◌⊎◌, inl, inr, refl, sym, ap, ◌∙◌,
  Bool, true, false, not, ◌&&◌, Option, none, some, Bool-cases, if◌then◌else◌, ◌==◌, ltb, leb,
  bit_and, arith,
}
use ace_os.Libc.{Memory, poke}
use ace_os.Ports.{Ports}
use ace_os.Disk.{
  base_of, wait_for, read_words, word_at, ata_read_sectors, ata_write_sectors, ata_reg_status,
  ata_reg_command, ata_reg_drive_head, ata_status_bsy, ata_status_drq, ata_status_err,
}
use ace_os.Disk.Geometry.{DiskGeometry}

abbrev pub max_drives : ℕ
max_drives = 4

abbrev pub disk_type_floppy : ℕ
disk_type_floppy = 1

abbrev pub disk_type_ata : ℕ
disk_type_ata = 2

abbrev pub ata_cmd_identify : ℕ
ata_cmd_identify = 0xec

-- `disk_info_t`; a string is its characters.
pub record DiskInfo : Type 0 where
  pub drive_number : ℕ
  pub disk_type : ℕ
  pub model : ℕ → ℕ
  pub serial : ℕ → ℕ
  pub total_sectors : ℕ
  pub sector_size : ℕ
  pub geometry : DiskGeometry
  pub present : Bool

-- `drives` and `drives_detected`.
pub record Drives : Type 0 where
  pub drives : ℕ → DiskInfo
  pub drives_detected : ℕ

-- What `memset` leaves.
abbrev pub no_drive : DiskInfo
no_drive = record {
  drive_number = 0;
  disk_type = 0;
  model = λ i. 0;
  serial = λ i. 0;
  total_sectors = 0;
  sector_size = 0;
  geometry = record {
    cylinders = 0;
    heads = 0;
    sectors_per_track = 0;
    sector_size = 0;
    total_sectors = 0;
  };
  present = false;
}

-- The characters of `n` words from `i` on, the high byte of a word first, and the end of the string.
pub info_string : ℕ → (i first : ℕ) → Memory → (ℕ → ℕ) → ℕ → ℕ
info_string zero i first answer str = poke str (i * 2) 0
info_string (suc n) i first answer str =
    let word = word_at answer 0 (first + i) in
    info_string n (i + 1) first answer
      (poke (poke str (i * 2) (word / 2 ^ 8 % 256)) (i * 2 + 1) (word % 256))

-- What the 256 words of an answer say.
pub identified : Memory → DiskInfo → DiskInfo
identified answer info =
    let total : ℕ = word_at answer 0 60 + word_at answer 0 61 * 2 ^ 16 in
    record info {
      model = info_string 20 0 27 answer info.model;
      serial = info_string 10 0 10 answer info.serial;
      total_sectors = total;
      sector_size = 512;
      geometry = record {
        cylinders = total / (63 * 16);
        heads = 16;
        sectors_per_track = 63;
        sector_size = 512;
        total_sectors = total;
      };
    }

pub set_entry : (ℕ → DiskInfo) → ℕ → DiskInfo → ℕ → DiskInfo
set_entry drives i info j = if j == i then info else drives j

module _ (P : Ports) where
  -- `for (...) inb(base + ATA_REG_STATUS);`
  pub delay : ℕ → (base : ℕ) → P.State → P.State
  delay zero base s = s
  delay (suc n) base s = delay n base (P.inb s (base + ata_reg_status)).1

  -- From the check for errors on.
  pub identify_data : (base : ℕ) → DiskInfo → P.State → Bool × DiskInfo × P.State
  identify_data base info s =
      let (status, s1) = P.inb s (base + ata_reg_status) in
      let (ready, s2) = wait_for P 1000000 true ata_status_drq base s1 in
      let (s3, answer) = read_words P 256 0 base 0 s2 (λ a. 0) in
      if not (bit_and status ata_status_err == 0)
      then (false, info, s1)
      else if ready
      then (true, identified answer info, s3)
      else (false, info, s2)

  pub ata_identify_drive : (drive : ℕ) → DiskInfo → P.State → Bool × DiskInfo × P.State
  ata_identify_drive drive info s =
      let base : ℕ = base_of drive in
      let drive_select : ℕ = if drive % 2 == 0 then 0xa0 else 0xb0 in
      let s1 = delay 4 base (P.outb s (base + ata_reg_drive_head) drive_select) in
      let (status, s2) =
        P.inb (P.outb s1 (base + ata_reg_command) ata_cmd_identify) (base + ata_reg_status) in
      let (idle, s3) = wait_for P 1000000 false ata_status_bsy base s2 in
      let answer = identify_data base info s3 in
      if status == 0 then (false, info, s2) else if idle then answer else (false, info, s3)

  -- The body of both loops of `disk_detect_drives`.
  pub detect : (i : ℕ) → (ℕ → DiskInfo) × ℕ × P.State → (ℕ → DiskInfo) × ℕ × P.State
  detect i (drives, count, s) =
      let (found, info, s') = ata_identify_drive i (drives count) s in
      if found
      then (
        set_entry drives count
            (record info { drive_number = i; disk_type = disk_type_ata; present = true }),
        count + 1,
        s',
      )
      else (set_entry drives count info, count, s')

  pub disk_detect_drives : (ℕ → DiskInfo) × ℕ × P.State → (ℕ → DiskInfo) × ℕ × P.State
  disk_detect_drives t = detect 3 (detect 2 (detect 1 (detect 0 t)))

  pub disk_init : P.State → Drives × P.State
  disk_init s =
      let (drives, count, s') = disk_detect_drives ((λ i. no_drive), 0, s) in
      (record { drives = drives; drives_detected = count }, s')

  -- `for (...; i < drives_detected; i++)`, `n` rounds from `i` on; `&drives[i]` is `some i`.
  pub find_drive : ℕ → (i drive : ℕ) → (ℕ → DiskInfo) → Option ℕ
  find_drive zero i drive drives = none
  find_drive (suc n) i drive drives =
      let later = find_drive n (i + 1) drive drives in
      if ((drives i).drive_number == drive) && (drives i).present then some i else later

  pub disk_get_info : Drives → (drive : ℕ) → Option ℕ
  disk_get_info d drive =
      if leb max_drives drive then none else find_drive d.drives_detected 0 drive d.drives

  pub floppy_read_sectors :
      (drive lba count buffer : ℕ) → P.State → Memory → Bool × P.State × Memory
  floppy_read_sectors drive lba count buffer s m = (false, s, m)

  pub floppy_write_sectors : (drive lba count buffer : ℕ) → P.State → Memory → Bool × P.State
  floppy_write_sectors drive lba count buffer s m = (false, s)

  pub disk_read_sectors :
      Drives → (drive lba count buffer : ℕ) → P.State → Memory → Bool × P.State × Memory
  disk_read_sectors d drive lba count buffer s m = elim (disk_get_info d drive) [
    | none ↦ (false, s, m)
    | some i ↦
        let kind : ℕ = (d.drives i).disk_type in
        if kind == disk_type_ata
        then ata_read_sectors P drive lba count buffer s m
        else if kind == disk_type_floppy
        then floppy_read_sectors drive lba count buffer s m
        else (false, s, m)
  ]

  pub disk_write_sectors : Drives → (drive lba count buffer : ℕ) → P.State → Memory → Bool × P.State
  disk_write_sectors d drive lba count buffer s m = elim (disk_get_info d drive) [
    | none ↦ (false, s)
    | some i ↦
        let kind : ℕ = (d.drives i).disk_type in
        if kind == disk_type_ata
        then ata_write_sectors P drive lba count buffer s m
        else if kind == disk_type_floppy
        then floppy_write_sectors drive lba count buffer s m
        else (false, s)
  ]
