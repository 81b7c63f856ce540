-- ===== src/Disk/Commands.antt =====
-- The waits and the commands of drivers/disk.c on a drive that keeps to the protocol.
use ace_os.Base.{
  ℕ, zero, suc, ◌+◌, ◌*◌, ◌/◌, ◌%◌, ◌^◌, ◌<◌, ◌≡◌, ◌≢◌, refl, subst, ◌∙◌, true, false,
  if◌then◌else◌, ◌==◌, bit_and, arith,
}
use ace_os.Ports.{Ports}
use ace_os.Disk.{
  base_of, select_of, wait_for, set_up, ata_reg_status, ata_status_bsy, ata_status_rdy,
  ata_status_drq,
}
use ace_os.Disk.Drive.{
  Direction, idle, busy, transfer, finishing, IsAt, command_of, sectors_of, address_of, Drive,
}

module _ {P : Ports} {drive : ℕ} (D : Drive P drive) where
  abbrev base : ℕ
  base = base_of drive

  -- A status with, and without, the bit that is waited for.
  wait_over :
      (n : ℕ) (bit : ℕ) (s : P.State)
      → bit_and (P.inb s (base + ata_reg_status)).0 bit ≢ 0
      → wait_for P (suc n) true bit base s ≡ (true, (P.inb s (base + ata_reg_status)).1)
  unfolding wait_for
  wait_over n bit s up =
      let e : (bit_and (P.inb s (base + ata_reg_status)).0 bit == 0) ≡ false = ground (arith, up) in
      rw e refl

  wait_on :
      (n : ℕ) (bit : ℕ) (s : P.State)
      → bit_and (P.inb s (base + ata_reg_status)).0 bit ≡ 0
      → wait_for P (suc n) true bit base s
        ≡ wait_for P n true bit base (P.inb s (base + ata_reg_status)).1
  unfolding wait_for
  wait_on n bit s down =
      let e : (bit_and (P.inb s (base + ata_reg_status)).0 bit == 0) ≡ true =
        ground (arith, down) in
      rw e refl

  clear_over :
      (n : ℕ) (bit : ℕ) (s : P.State)
      → bit_and (P.inb s (base + ata_reg_status)).0 bit ≡ 0
      → wait_for P (suc n) false bit base s ≡ (true, (P.inb s (base + ata_reg_status)).1)
  unfolding wait_for
  clear_over n bit s down =
      let e : (bit_and (P.inb s (base + ata_reg_status)).0 bit == 0) ≡ true =
        ground (arith, down) in
      rw e refl

  clear_on :
      (n : ℕ) (bit : ℕ) (s : P.State)
      → bit_and (P.inb s (base + ata_reg_status)).0 bit ≢ 0
      → wait_for P (suc n) false bit base s
        ≡ wait_for P n false bit base (P.inb s (base + ata_reg_status)).1
  unfolding wait_for
  clear_on n bit s up =
      let e : (bit_and (P.inb s (base + ata_reg_status)).0 bit == 0) ≡ false = ground (arith, up) in
      rw e refl

  -- An idle drive is ready at once.
  pub wait_rdy :
      (n : ℕ) (s : P.State)
      → D.phase s ≡ idle
      → let (done, s') = wait_for P (suc n) true ata_status_rdy base s in
        (done ≡ true) × (D.phase s' ≡ idle) × ((k : ℕ) → D.stored s' k ≡ D.stored s k)
  wait_rdy n s i =
      let (up, i') = D.idle_status s i in
      rw (wait_over n ata_status_rdy s up) (refl, i', D.status_quiet s)

  -- A drive that answers within the readings gives the block.
  pub wait_drq :
      (n wait : ℕ) (s : P.State) (dir : Direction) (position left : ℕ)
      → wait < n
      → D.phase s ≡ busy dir position left wait
      → let (done, s') = wait_for P n true ata_status_drq base s in
        (done ≡ true)
        × (D.phase s' ≡ transfer dir position 256 left)
        × ((k : ℕ) → D.stored s' k ≡ D.stored s k)
  wait_drq zero wait s dir position left lt b = absurd (omega (arith, lt))
  wait_drq (suc n) zero s dir position left lt b =
      let (up, t) = D.data_status s dir position left b in
      rw (wait_over n ata_status_drq s up) (refl, t, D.status_quiet s)
  wait_drq (suc n) (suc wait) s dir position left lt b =
      let (down, b') = D.busy_status s dir position left wait b in
      let s1 = (P.inb s (base + ata_reg_status)).1 in
      let (done, t, quiet) = wait_drq n wait s1 dir position left (omega (arith, lt)) b' in
      rw (wait_on n ata_status_drq s down) (done, t, λ k. quiet k ∙ D.status_quiet s k)

  pub wait_bsy :
      (n wait : ℕ) (s : P.State)
      → wait < n
      → D.phase s ≡ finishing wait
      → let (done, s') = wait_for P n false ata_status_bsy base s in
        (done ≡ true) × (D.phase s' ≡ idle) × ((k : ℕ) → D.stored s' k ≡ D.stored s k)
  wait_bsy zero wait s lt f = absurd (omega (arith, lt))
  wait_bsy (suc n) zero s lt f =
      let (down, i) = D.finished_status s f in
      rw (clear_over n ata_status_bsy s down) (refl, i, D.status_quiet s)
  wait_bsy (suc n) (suc wait) s lt f =
      let (up, f') = D.finishing_status s wait f in
      let s1 = (P.inb s (base + ata_reg_status)).1 in
      let (done, i, quiet) = wait_bsy n wait s1 (omega (arith, lt)) f' in
      rw (clear_on n ata_status_bsy s up) (done, i, λ k. quiet k ∙ D.status_quiet s k)

  select_of-lt : (lba : ℕ) → select_of drive lba < 256
  select_of-lt lba = ground arith

  select_of-drive : (lba : ℕ) → select_of drive lba / 16 ≡ (if drive % 2 == 0 then 0xe else 0xf)
  select_of-drive lba = ground arith

  address-lba :
      (lba : ℕ) (register : ℕ → ℕ)
      → lba < 2 ^ 28
      → register 3 ≡ lba % 256
      → register 4 ≡ lba / 2 ^ 8 % 256
      → register 5 ≡ lba / 2 ^ 16 % 256
      → register 6 % 16 ≡ lba / 2 ^ 24 % 16
      → address_of register ≡ lba
  address-lba lba register fits a b c d = omega (arith, fits, a, b, c, d)

  sectors-count : (count c : ℕ) → 0 < count → count < 256 → c ≡ count % 256 → sectors_of c ≡ count
  sectors-count count c low high e = ground (arith, low, high, e)

  select_of-head : (lba : ℕ) → select_of drive lba % 16 ≡ lba / 2 ^ 24 % 16
  select_of-head lba = ground arith

  -- The registers ask for `count` sectors from `lba` on.
  pub set_up_lem :
      (s : P.State) (dir : Direction) (lba count : ℕ)
      → D.phase s ≡ idle
      → lba < 2 ^ 28
      → 0 < count
      → count < 256
      → let s' = set_up P drive lba count (command_of dir) s in
        IsAt (D.phase s') dir (lba * 256) 0 count × ((k : ℕ) → D.stored s' k ≡ D.stored s k)
  unfolding set_up
  set_up_lem s dir lba count i0 fits low high =
      let s1 = P.outb s (base + 6) (select_of drive lba) in
      let (i1, v1, o1, q1) =
        D.set_register s 6 _ i0 (omega arith) (omega arith) (select_of-lt lba) in
      let s2 = P.outb s1 (base + 2) (count % 256) in
      let (i2, v2, o2, q2) =
        D.set_register s1 2 (count % 256) i1 (omega arith) (omega arith) (omega arith) in
      let s3 = P.outb s2 (base + 3) (lba % 256) in
      let (i3, v3, o3, q3) =
        D.set_register s2 3 (lba % 256) i2 (omega arith) (omega arith) (omega arith) in
      let s4 = P.outb s3 (base + 4) (lba / 2 ^ 8 % 256) in
      let (i4, v4, o4, q4) =
        D.set_register s3 4 (lba / 2 ^ 8 % 256) i3 (omega arith) (omega arith) (omega arith) in
      let s5 = P.outb s4 (base + 5) (lba / 2 ^ 16 % 256) in
      let (i5, v5, o5, q5) =
        D.set_register s4 5 (lba / 2 ^ 16 % 256) i4 (omega arith) (omega arith) (omega arith) in
      let r6 : D.register s5 6 ≡ select_of drive lba =
        o5 6 (omega arith) ∙ o4 6 (omega arith) ∙ o3 6 (omega arith) ∙ o2 6 (omega arith) ∙ v1 in
      let r2 : D.register s5 2 ≡ count % 256 =
        o5 2 (omega arith) ∙ o4 2 (omega arith) ∙ o3 2 (omega arith) ∙ v2 in
      let r3 : D.register s5 3 ≡ lba % 256 = o5 3 (omega arith) ∙ o4 3 (omega arith) ∙ v3 in
      let r4 : D.register s5 4 ≡ lba / 2 ^ 8 % 256 = o5 4 (omega arith) ∙ v4 in
      let (at, quiet) = D.command s5 dir i5 (rw r6 (select_of-drive lba)) in
      let from_lba : address_of (D.register s5) ≡ lba =
        address-lba lba (D.register s5) fits r3 r4 v5 (rw r6 (select_of-head lba)) in
      let for_count : sectors_of (D.register s5 2) ≡ count =
        sectors-count count (D.register s5 2) low high r2 in
      let s6 = P.outb s5 (base + 7) (command_of dir) in
      (
        subst (λ a. IsAt (D.phase s6) dir (a * 256) 0 count) from_lba
            (subst (IsAt (D.phase s6) dir (address_of (D.register s5) * 256) 0) for_count at),
        λ k. quiet k ∙ q5 k ∙ q4 k ∙ q3 k ∙ q2 k ∙ q1 k,
      )
