-- ===== src/Stdlib/Malloc.antt =====
-- src/libc/stdlib.c: the allocator, a linked list of blocks with headers in the array `heap`.
-- `base` is the address of the array and 0 is NULL. `block a` is the header that stands at address
-- `a`, and `bytes` is the memory that user data is written to; the two are kept apart.
pub mod Tiles
pub mod Grant
pub mod Alloc
pub mod Merging
pub mod Passes
pub mod Release
mod Tests
use ace_os.Base.{
  ℕ, zero, suc, ◌+◌, ◌-◌, ◌*◌, ◌/◌, ◌%◌, ◌^◌, Bool, true, false, not, ◌&&◌, if◌then◌else◌, ◌==◌,
  ltb, leb,
}
use ace_os.Base.Words.{add32, sub32}
use ace_os.Libc.{Memory, memset, memcpy}
use ace_os.Fs.Blocks.{Allocator}

abbrev pub heap_size : ℕ
heap_size = 0x100000

-- `sizeof(memory_block_t)`: three words.
abbrev pub header_size : ℕ
header_size = 12

-- `memory_block_t`.
pub record MemoryBlock : Type 0 where
  pub size : ℕ
  pub free : Bool
  pub next : ℕ

-- `free_list`, `heap_initialized` and the memory.
pub record MemoryHeap : Type 0 where
  pub block : ℕ → MemoryBlock
  pub bytes : Memory
  pub free_list : ℕ
  pub heap_initialized : Bool

-- A write of the header at address `a`.
abbrev pub store : MemoryHeap → ℕ → MemoryBlock → MemoryHeap
store h a b = record h { block = λ x. if x == a then b else h.block x }

-- The first free block, which spans the heap.
abbrev pub one_block : (base : ℕ) → MemoryHeap → MemoryHeap
one_block base h =
    record (store h base (record { size = heap_size - header_size; free = true; next = 0 })) {
      free_list = base;
      heap_initialized = true;
    }

pub initialize_heap : (base : ℕ) → MemoryHeap → MemoryHeap
initialize_heap base h = if h.heap_initialized then h else one_block base h

-- The size that is looked for.
pub block_size : ℕ → ℕ
block_size size =
    let aligned : ℕ = if size % 8 == 0 then size else (size / 8 + 1) * 8 % 2 ^ 32 in
    if ltb aligned 16 then 16 else aligned

-- A block that was found: it is split if it is large enough.
pub take_block : MemoryHeap → (current size : ℕ) → MemoryHeap
take_block h current size =
    let b = h.block current in
    let new_block : ℕ = current + header_size + size in
    if leb (add32 (add32 size header_size) 16) b.size
    then store
        (store h new_block
          (record { size = b.size - size - header_size; free = true; next = b.next }))
        current (record { size = size; free = false; next = new_block })
    else store h current (record b { free = false })

-- The search from `current` on, at most `n` rounds.
pub malloc_loop : ℕ → MemoryHeap → (size current : ℕ) → ℕ × MemoryHeap
malloc_loop zero h size current = (0, h)
malloc_loop (suc n) h size current =
    let b = h.block current in
    let later = malloc_loop n h size b.next in
    if current == 0
    then (0, h)
    else if b.free && leb size b.size
    then (current + header_size, take_block h current size)
    else later

-- The headers of a list lie at least 12 bytes apart, so `heap_size` rounds are enough.
pub malloc : (base : ℕ) → MemoryHeap → (size : ℕ) → ℕ × MemoryHeap
malloc base h size =
    let h' = initialize_heap base h in malloc_loop heap_size h' (block_size size) h'.free_list

-- The loop of `free`, at most `n` rounds.
pub free_loop : ℕ → MemoryHeap → (block current : ℕ) → MemoryHeap
free_loop zero h block current = h
free_loop (suc n) h block current =
    let c = h.block current in
    let b = h.block block in
    let d = h.block c.next in
    let with_previous =
      store h current (record c { size = add32 c.size (header_size + b.size); next = b.next }) in
    let with_next =
      store h current (record c { size = add32 c.size (header_size + d.size); next = d.next }) in
    let merged_previous = free_loop n with_previous current b.next in
    let merged_next = free_loop n with_next block d.next in
    let later = free_loop n h block c.next in
    if current == 0
    then h
    else if c.free && (add32 (add32 current header_size) c.size == block)
    then merged_previous
    else if (current == block) && (not (c.next == 0) && d.free)
    then merged_next
    else later

pub free_block : MemoryHeap → (ptr : ℕ) → MemoryHeap
free_block h ptr =
    let block : ℕ = sub32 ptr header_size in
    let h' = store h block (record (h.block block) { free = true }) in
    if ptr == 0 then h else free_loop heap_size h' block h'.free_list

pub calloc : (base : ℕ) → MemoryHeap → (nmemb size : ℕ) → ℕ × MemoryHeap
calloc base h nmemb size =
    let total_size : ℕ = nmemb * size % 2 ^ 32 in
    let (ptr, h') = malloc base h total_size in
    if ptr == 0 then (ptr, h') else (ptr, record h' { bytes = memset ptr 0 total_size h'.bytes })

pub realloc : (base : ℕ) → MemoryHeap → (ptr size : ℕ) → ℕ × MemoryHeap
realloc base h ptr size =
    let old_size : ℕ = (h.block (sub32 ptr header_size)).size in
    let (new_ptr, h') = malloc base h size in
    if ptr == 0
    then (new_ptr, h')
    else if size == 0
    then (0, free_block h ptr)
    else if leb size old_size
    then (ptr, h)
    else if new_ptr == 0
    then (0, h')
    else (
      new_ptr,
      free_block
          (record h' {
            bytes = memcpy new_ptr ptr (h'.block (sub32 ptr header_size)).size h'.bytes;
          })
          ptr,
    )

-- What drivers/fs.c calls.
abbrev pub libc : (base : ℕ) → Allocator
libc base = record { State = MemoryHeap; malloc = malloc base; free = free_block }
