-- ===== src/Disk/Detect/Table.antt =====
-- drivers/disk.c: what the table of drives holds after `disk_init`.
use ace_os.Base.{ℕ, ◌≤◌, ◌<◌, ◌≡◌, true}
use ace_os.Ports.{Ports}
use ace_os.Disk.Detect.{DiskInfo, disk_type_ata}

-- The entries below `count` are ATA drives that are there, with numbers below `bound`.
pub record AreDrives (drives : ℕ → DiskInfo) (count bound : ℕ) : Type 0 where
  pub few : count ≤ bound
  pub ata : (i : ℕ) → i < count → (drives i).disk_type ≡ disk_type_ata
  pub here : (i : ℕ) → i < count → (drives i).present ≡ true
  pub number : (i : ℕ) → i < count → (drives i).drive_number < bound
