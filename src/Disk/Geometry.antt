-- ===== src/Disk/Geometry.antt =====
-- drivers/disk.c: cylinders, heads and sectors, and linear block addresses.
use ace_os.Base.{ℕ, ◌+◌, ◌-◌, ◌*◌, ◌/◌, ◌%◌, ◌^◌, ◌≤◌, ◌<◌, ◌≡◌, arith}
use native.Mathlib.Nat.{div-add-mod', mod-lt, div-div-eq-div-mul, mul-le-mul}

-- `disk_geometry_t`.
pub record DiskGeometry : Type 0 where
  pub cylinders : ℕ
  pub heads : ℕ
  pub sectors_per_track : ℕ
  pub sector_size : ℕ
  pub total_sectors : ℕ

pub chs_to_lba : (cylinder head sector : ℕ) → DiskGeometry → ℕ
chs_to_lba cylinder head sector geom =
    ((cylinder * geom.heads + head) * geom.sectors_per_track + (sector + 2 ^ 32 - 1)) % 2 ^ 32

-- The cylinder, the head and the sector, as the 16 and 8 bits that they are stored in.
pub lba_to_chs : ℕ → DiskGeometry → ℕ × ℕ × ℕ
lba_to_chs lba geom = (
  lba / (geom.sectors_per_track * geom.heads % 2 ^ 32) % 2 ^ 16,
  lba / geom.sectors_per_track % geom.heads % 2 ^ 8,
  (lba % geom.sectors_per_track + 1) % 2 ^ 8,
)

-- With at most 255 sectors per track and 256 heads, an address whose cylinder number fits 16 bits
-- comes back from its cylinder, head and sector.
pub lba_chs_lba :
    (lba : ℕ) (geom : DiskGeometry)
    → 0 < geom.sectors_per_track
    → geom.sectors_per_track < 256
    → 0 < geom.heads
    → geom.heads ≤ 256
    → lba < 2 ^ 32
    → lba / (geom.sectors_per_track * geom.heads) < 2 ^ 16
    → let (cylinder, head, sector) = lba_to_chs lba geom in
      chs_to_lba cylinder head sector geom ≡ lba
unfolding lba_to_chs chs_to_lba
lba_chs_lba lba geom ps ss ph sh small fits =
    let s = geom.sectors_per_track in
    let h = geom.heads in
    let ss' : s ≤ 255 = omega (arith, ss) in
    let product : s * h % 2 ^ 32 ≡ s * h = omega (arith, mul-le-mul ss' sh) in
    let cylinder : lba / (s * h) % 2 ^ 16 ≡ lba / s / h =
      omega (arith, fits, div-div-eq-div-mul lba s h) in
    let head : lba / s % h % 2 ^ 8 ≡ lba / s % h = omega (arith, mod-lt (lba / s) ph, sh) in
    let sector : (lba % s + 1) % 2 ^ 8 ≡ lba % s + 1 = omega (arith, mod-lt lba ps, ss) in
    let track : lba / s / h * h + lba / s % h ≡ lba / s = div-add-mod' (lba / s) h in
    let whole : lba / s * s + lba % s ≡ lba = div-add-mod' lba s in
    rw (product, cylinder, head, sector, track) (omega (arith, whole, small))
