-- ===== src/Disk/Tests.antt =====
-- drivers/disk.c on a concrete drive.
use ace_os.Base.{
  ℕ, zero, suc, ◌+◌, ◌*◌, ◌%◌, ◌^◌, ◌<◌, ◌≤◌, ◌≡◌, ◌≢◌, refl, true, false, arith, if◌then◌else◌,
  ◌==◌,
}
use ace_os.Libc.{Memory}
use ace_os.Ports.{Ports}
use ace_os.Disk.{word_at, ata_read_sectors, ata_write_sectors}
use ace_os.Disk.Drive.{
  Direction, reading, writing, Phase, idle, busy, transfer, finishing, IsAt, command_of, sectors_of,
  address_of, Drive,
}
use ace_os.Disk.Transfer.{AreBytes}
use ace_os.Disk.RoundTrip.{write-read}

-- A drive at the primary ports that takes three readings of its status to get ready.
record Device : Type 0 where
  phase : Phase
  register : ℕ → ℕ
  medium : ℕ → ℕ

abbrev status_of : Phase → ℕ
status_of idle = 0x40
status_of (busy dir position left zero) = 0x48
status_of (busy dir position left (suc wait)) = 0x80
status_of (transfer dir position words left) = 0x48
status_of (finishing zero) = 0x40
status_of (finishing (suc wait)) = 0x80

-- The phase after a reading of the status.
abbrev later : Phase → Phase
later idle = idle
later (busy dir position left zero) = transfer dir position 256 left
later (busy dir position left (suc wait)) = busy dir position left wait
later (transfer dir position words left) = transfer dir position words left
later (finishing zero) = idle
later (finishing (suc wait)) = finishing wait

-- The phase at a word of the medium.
abbrev arrive : Direction → (position words left : ℕ) → Phase
arrive dir position (suc words) left = transfer dir position (suc words) left
arrive dir position zero (suc left) = busy dir position left 3
arrive reading position zero zero = idle
arrive writing position zero zero = finishing 3

arrive-IsAt :
    (dir : Direction) (position words left : ℕ)
    → IsAt (arrive dir position words left) dir position words left
arrive-IsAt dir position (suc words) left = refl
arrive-IsAt dir position zero (suc left) = (3, omega arith, refl)
arrive-IsAt reading position zero zero = refl
arrive-IsAt writing position zero zero = (3, omega arith, refl)

abbrev start : Device → Direction → Device
start s dir = record s {
  phase = arrive dir (address_of s.register * 256) 0 (sectors_of (s.register 2));
}

abbrev put : Device → ℕ → ℕ → Device
put s port v =
    if port == 0x1f7
    then if v == 0x20 then start s reading else if v == 0x30 then start s writing else s
    else record s { register = λ r. if r + 0x1f0 == port then v else s.register r }

abbrev read_data : Device → Phase → ℕ × Device
read_data s idle = (0, s)
read_data s (busy dir position left wait) = (0, s)
read_data s (transfer dir position zero left) = (0, s)
read_data s (transfer dir position (suc words) left) =
    (s.medium position % 2 ^ 16, record s { phase = arrive dir (position + 1) words left })
read_data s (finishing wait) = (0, s)

abbrev write_data : Device → ℕ → Phase → Device
write_data s w idle = s
write_data s w (busy dir position left wait) = s
write_data s w (transfer dir position zero left) = s
write_data s w (transfer dir position (suc words) left) = record s {
  phase = arrive dir (position + 1) words left;
  medium = λ k. if k == position then w else s.medium k;
}
write_data s w (finishing wait) = s

abbrev ports : Ports
ports = record {
  State = Device;
  inb = λ s port. (status_of s.phase, record s { phase = later s.phase });
  outb = put;
  inw = λ s port. read_data s s.phase;
  outw = λ s port w. write_data s w s.phase;
}

put_register :
    (s : Device) (r v : ℕ)
    → s.phase ≡ idle
    → r ≤ 6
    → let s' = put s (0x1f0 + r) v in
      (s'.phase ≡ idle)
      × (s'.register r ≡ v)
      × ((q : ℕ) → q ≢ r → s'.register q ≡ s.register q)
      × ((k : ℕ) → s'.medium k % 2 ^ 16 ≡ s.medium k % 2 ^ 16)
put_register s r v i le =
    let port : (0x1f0 + r == 0x1f7) ≡ false = ground (arith, le) in
    rw port (i, ground arith, (λ q ne. ground (arith, ne)), λ k. refl)

put_command :
    (s : Device) (dir : Direction)
    → let s' = put s 0x1f7 (command_of dir) in
      IsAt s'.phase dir (address_of s.register * 256) 0 (sectors_of (s.register 2))
      × ((k : ℕ) → s'.medium k % 2 ^ 16 ≡ s.medium k % 2 ^ 16)
put_command s reading = (arrive-IsAt reading _ 0 _, λ k. refl)
put_command s writing = (arrive-IsAt writing _ 0 _, λ k. refl)

abbrev follows : Drive ports 0
follows = record {
  phase = λ s. s.phase;
  register = λ s r. s.register r;
  stored = λ s k. s.medium k % 2 ^ 16;
  stored_word = λ s k. omega arith;
  status_quiet = λ s k. refl;
  idle_status = λ s e. rw e (omega arith, refl);
  busy_status = λ s dir position left wait e. rw e (refl, refl);
  data_status = λ s dir position left e. rw e (omega arith, refl);
  finishing_status = λ s wait e. rw e (omega arith, refl);
  finished_status = λ s e. rw e (refl, refl);
  set_register = λ s r v i ge le fits. put_register s r v i le;
  command = λ s dir i own. put_command s dir;
  read_word = λ s position words left e.
      rw e (refl, arrive-IsAt reading (position + 1) words left, λ k. refl);
  write_word = λ s position words left w e fits. rw e (
    ground (arith, fits),
    arrive-IsAt writing (position + 1) words left,
    λ k ne. ground (arith, ne),
  );
}

abbrev blank : Device
blank = record { phase = idle; register = λ r. 0; medium = λ k. 0 }

abbrev text : Memory
text a = a % 256

text-AreBytes : AreBytes text
text-AreBytes a = omega arith

-- Two sectors at address 7, from 4096 to 8192.
write-read_example :
    let (written, s1) = ata_write_sectors ports 0 7 2 4096 blank text in
    let (done, s2, m') = ata_read_sectors ports 0 7 2 8192 s1 text in
    (written ≡ true)
    × (done ≡ true)
    × (s2.phase ≡ idle)
    × ((j : ℕ) → j < 2 * 256 → word_at m' 8192 j ≡ word_at text 4096 j)
write-read_example =
    write-read follows 7 2 4096 8192 blank text refl (omega arith) (omega arith) (omega arith)
      text-AreBytes
