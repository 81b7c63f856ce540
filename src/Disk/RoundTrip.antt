-- ===== src/Disk/RoundTrip.antt =====
-- Writing sectors and reading them back with drivers/disk.c.
use ace_os.Base.{ℕ, ◌+◌, ◌*◌, ◌^◌, ◌<◌, ◌≡◌, subst, ◌∙◌, true, arith}
use ace_os.Libc.{Memory}
use ace_os.Ports.{Ports}
use ace_os.Disk.{
  base_of, wait_for, set_up, write_loop, word_at, ata_read_sectors, ata_write_sectors,
  ata_status_rdy, ata_cmd_read_sectors, ata_cmd_write_sectors,
}
use ace_os.Disk.Drive.{idle, reading, writing, IsAt, patience, Drive}
use ace_os.Disk.Commands.{wait_rdy, wait_bsy, set_up_lem}
use ace_os.Disk.Transfer.{AreBytes, Wrote, write_loop-Wrote, read_loop-Fetched}

module _ {P : Ports} {drive : ℕ} (D : Drive P drive) (lba count buffer : ℕ) (s : P.State)
    (m : Memory) (ready : D.phase s ≡ idle) (address : lba < 2 ^ 28) (some_sectors : 0 < count)
    (byte_count : count < 256) where
  -- The state when the drive is ready.
  abbrev waited : P.State
  waited = (wait_for P patience true ata_status_rdy (base_of drive) s).1

  -- Writing succeeds, leaves the drive idle and stores the buffer in the sectors from `lba` on; the
  -- sectors below are as they were.
  pub write_sectors_lem :
      AreBytes m
      → let (done, s') = ata_write_sectors P drive lba count buffer s m in
        (done ≡ true) × (D.phase s' ≡ idle) × Wrote D (lba * 256) 0 (count * 256) buffer m s s'
  unfolding ata_write_sectors
  write_sectors_lem bytes =
      let (up, i, q1) = wait_rdy D 999_999 s ready in
      let (at, q2) = set_up_lem D waited writing lba count i address some_sectors byte_count in
      let s1 = set_up P drive lba count ata_cmd_write_sectors waited in
      let (sent, (wait, soon, f), h) =
        write_loop-Wrote D count (lba * 256) 0 buffer m s1 bytes
          (subst (λ k. IsAt (D.phase s1) writing k 0 count) (omega arith) at) in
      let s2 = (write_loop P count 0 (base_of drive) buffer s1 m).1 in
      let (done, idle', q3) = wait_bsy D patience wait s2 soon f in
      rw (up, sent)
        (
          done,
          idle',
          record {
            filled = λ j a b. q3 (lba * 256 + j) ∙ h.filled j a b;
            kept = λ k lt. q3 k ∙ h.kept k lt ∙ q2 k ∙ q1 k;
          },
        )

  -- Reading succeeds and fills the buffer with the sectors from `lba` on; the memory below the buffer
  -- is as it was.
  pub read_sectors_lem :
      let (done, s', m') = ata_read_sectors P drive lba count buffer s m in
      (done ≡ true)
      × (D.phase s' ≡ idle)
      × ((j : ℕ) → j < count * 256 → word_at m' buffer j ≡ D.stored s (lba * 256 + j))
      × ((a : ℕ) → a < buffer → m' a ≡ m a)
  unfolding ata_read_sectors
  read_sectors_lem =
      let (up, i, q1) = wait_rdy D 999_999 s ready in
      let (at, q2) = set_up_lem D waited reading lba count i address some_sectors byte_count in
      let s1 = set_up P drive lba count ata_cmd_read_sectors waited in
      let (done, idle', h) =
        read_loop-Fetched D count (lba * 256) 0 buffer m s1
          (subst (λ k. IsAt (D.phase s1) reading k 0 count) (omega arith) at) in
      rw up (
        done,
        idle',
        λ j lt. h.filled j (omega arith) (omega (arith, lt)) ∙ q2 _ ∙ q1 _,
        λ a lt. h.kept a (omega (arith, lt)),
      )

-- On a drive that is idle, keeps to the PIO protocol and answers within 1000000 readings of its status,
-- 1 to 255 sectors of bytes that are written at an address below 2^28 and read again into another
-- buffer come back word by word, both calls return 0, and the drive is idle again.
pub write-read :
    {P : Ports} {drive : ℕ} (D : Drive P drive) (lba count from to : ℕ) (s : P.State) (m : Memory)
    → D.phase s ≡ idle
    → lba < 2 ^ 28
    → 0 < count
    → count < 256
    → AreBytes m
    → let (written, s1) = ata_write_sectors P drive lba count from s m in
      let (done, s2, m') = ata_read_sectors P drive lba count to s1 m in
      (written ≡ true)
      × (done ≡ true)
      × (D.phase s2 ≡ idle)
      × ((j : ℕ) → j < count * 256 → word_at m' to j ≡ word_at m from j)
write-read {P} {drive} D lba count from to s m ready address some_sectors byte_count bytes =
    let (written, ready', h) =
      write_sectors_lem D lba count from s m ready address some_sectors byte_count bytes in
    let s1 = (ata_write_sectors P drive lba count from s m).1 in
    let (done, ready'', filled, kept) =
      read_sectors_lem D lba count to s1 m ready' address some_sectors byte_count in
    (written, done, ready'', λ j lt. filled j lt ∙ h.filled j (omega arith) (omega (arith, lt)))
