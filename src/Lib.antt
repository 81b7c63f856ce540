-- ===== src/Lib.antt =====
-- Verification library of aceOS: models of the kernel's C code, translated function by function,
-- and theorems about them.
--
-- Parts and files. The keyboard interrupt handler fills a ring that a blocking reader empties
-- (drivers/keyboard.c: Keyboard). The frame allocator hands out physical pages by a bitmap
-- (kernel/pmm.c: Pmm). The scheduler queues the slots of the process table (include/process.h: Pcb;
-- kernel/scheduler.c: Scheduler) and takes turns on timer ticks, which the timer's handler counts
-- and passes on (drivers/timer.c: Timer). Processes are created, found and ended over the
-- scheduler, the page directories and the frames (kernel/process.c: ProcessTable). Page directories
-- and tables stand in frames of the frame allocator (kernel/vmm.c: Vmm). The kernel heap serves
-- blocks out of one region (kernel/heap.c: Heap) with sizes aligned by kernel/memory_utils.c
-- (Memory). The memory and string functions are those of src/libc/string.c (Libc), numbers are read
-- as in src/libc/stdlib.c (Stdlib), whose allocator is Stdlib/Malloc. The file system in memory
-- (drivers/fs.c: Fs) keeps its state and the search by path in Fs, the splitting of paths in
-- Fs/Tokens, the contents of files in Fs/Content, the current directory in Fs/Cwd and `fs_list_dir`
-- in Fs/Listing; it takes malloc and free as an interface (Fs/Blocks), which Stdlib/Malloc fills.
-- Pixels, lines and text are drawn into the memory of the screen (drivers/graphics.c: Graphics,
-- Graphics/Font, Graphics/Modes), and windows with them (kernel/gui.c: Gui). The instructions on
-- ports are an interface (include/io.h: Ports); over it stand the ATA driver (drivers/disk.c: Disk,
-- Disk/Detect, Disk/Geometry) and the interrupt tables, the interrupt controllers and the dispatch
-- to handlers (kernel/idt.c, kernel/pic.c, kernel/isr.c: Interrupts). System calls come together in
-- one dispatcher over the file system, the kernel heap and the timer (kernel/syscall.c: Syscall,
-- Syscall/Dispatch). Base holds what the parts share: tests, lists indexed by native numbers, bits
-- of a word, and the arithmetic of 32-bit words.
--
-- Correspondence. A function keeps its C name. Static variables are the fields of a record that a
-- function takes and returns. uint32_t sums wrap by `% 2 ^ 32` where they can reach the modulus; a
-- decrement that its guard keeps above 0 is plain. Pointers to table entries are indices, NULL is
-- `none`. Serial and screen output is left out. What hardware delivers (a scancode) is an argument.
-- An `int` is its word: coordinates below 0 are words from 2^31 on. What the port writes of
-- drivers/graphics.c send is a list of bytes. What a drive does with its registers, its commands
-- and its data port, a register or a port at a time, is a hypothesis of the transfers (Disk/Drive:
-- the PIO protocol of ATA, with waits that last less than 1000000 readings of the status), and the
-- tests have such a drive. The values of the tick counter that a system call reads are a list, and
-- a wait that outlasts it has no result. The layout of an `fs_entry_t` in bytes is a parameter. In
-- the file system the counted part of an array of entries is a list, a path is the list of its
-- characters, and the parts of a path are taken as they stood in the buffer of `fs_parse_path`,
-- which hands out pointers into its own frame. A path of 256 characters or more, which leaves the
-- buffer without a NUL, ends there.
--
-- Loops. Counted loops recur on the rounds left. The walk along the ready queue takes as fuel the
-- queue's `count` and one more; the theorems about it show that this reaches the end. The search
-- for a heap block takes one more than the bytes of the heap, which a list of blocks within it
-- cannot exceed. The heap check leaves its loop itself after 10001 blocks and has 10002 rounds. The
-- parts of a path are collected in the 256 rounds that the array of parts has room for, and a size
-- is written in 10 rounds, as many digits as a word has. A line has one round for each column and
-- row between its points and one more, a circle two more than its radius, and a call that has not
-- ended in them has no result: a line ends before, with the bound on its points that the theorem
-- about it states, and what is said of all calls that draw is said after any number of rounds
-- (`line_rounds`, `circle_rounds`). A wait for a bit of the status reads it 1000000 times at most,
-- as the C code does. The list of the C library's allocator lies in an array of 1 MiB with headers
-- at least 12 bytes apart, so its loops have as many rounds as the array has bytes. A C string ends
-- within 2^32 characters.
--
-- Not modelled. The tables of the kernel and of the file system stand apart from the memory that
-- the pointers of a system call lead to, so a write of getcwd or stat into them, or a free of their
-- address, is not followed; what is said of sequences of calls leaves these calls out. In the heap
-- the headers are kept apart from the bytes of user data, so an overrun of a buffer into a header
-- is not followed; neither is one of the array of file entries. The file system's listings other
-- than `fs_list_dir` go through snprintf, a stub of the C library. The functions of the disk driver
-- that test a drive or print, the keys and the main loop of the windows, the serial port, printing
-- to the console and the shell are not modelled, and neither is assembly code.
mod Base
pub mod Keyboard
pub mod Pmm
pub mod Vmm
pub mod Pcb
pub mod Scheduler
pub mod Memory
pub mod Heap
pub mod Timer
pub mod Libc
pub mod Stdlib
pub mod Fs
pub mod ProcessTable
pub mod Graphics
pub mod Gui
pub mod Ports
pub mod Disk
pub mod Syscall
pub mod Interrupts
