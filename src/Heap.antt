-- ===== src/Heap.antt =====
-- kernel/heap.c: the kernel heap, a doubly linked list of blocks with headers.
-- A pointer is an address and 0 is NULL. `block a` is the header that stands at address `a`, and
-- `bytes` is the memory that user data is written to; the two are kept apart, so a write of user
-- data past its block is not followed into the next header. size_t and uint32_t have 32 bits.
pub mod Fit
pub mod Split
mod Tests
pub use ace_os.Base.Words.{add32}
use ace_os.Base.{
  ℕ, zero, suc, ◌+◌, ◌-◌, ◌*◌, ◌/◌, ◌%◌, ◌^◌, Bool, true, false, not, ◌&&◌, ◌||◌, Option, none,
  some, List, [], ◌∷◌, if◌then◌else◌, ◌==◌, ltb, leb,
}
use ace_os.Memory.{memory_align_up}

abbrev pub heap_magic_allocated : ℕ
heap_magic_allocated = 0xabcdef00

abbrev pub heap_magic_free : ℕ
heap_magic_free = 0x12345678

abbrev pub min_alloc_size : ℕ
min_alloc_size = 32

-- `sizeof(heap_block_t)`: five words.
abbrev pub header_size : ℕ
header_size = 20

abbrev pub size_max : ℕ
size_max = 2 ^ 32 - 1

abbrev pub sub32 : ℕ → ℕ → ℕ
sub32 a b = (a + 2 ^ 32 - b) % 2 ^ 32

-- `heap_block_t`.
pub record HeapBlock : Type 0 where
  pub size : ℕ
  pub free : Bool
  pub magic : ℕ
  pub next : ℕ
  pub prev : ℕ

-- `heap_manager_t`, `heap_initialized` and the memory that they manage.
pub record HeapManager : Type 0 where
  pub block : ℕ → HeapBlock
  pub bytes : ℕ → ℕ
  pub first_block : ℕ
  pub heap_start : ℕ
  pub heap_end : ℕ
  pub total_size : ℕ
  pub free_size : ℕ
  pub blocks_allocated : ℕ
  pub blocks_free : ℕ
  pub heap_initialized : Bool

-- A write of the header at address `a`.
abbrev pub store : HeapManager → ℕ → HeapBlock → HeapManager
store h a b = record h { block = λ x. if x == a then b else h.block x }

pub heap_init : HeapManager → ℕ → ℕ → HeapManager
heap_init h start size =
    let heap_start = memory_align_up start 16 in
    let aligned_size = sub32 size (sub32 heap_start start) in
    store
      (record h {
        first_block = heap_start;
        heap_start = heap_start;
        heap_end = add32 heap_start aligned_size;
        total_size = aligned_size;
        free_size = sub32 aligned_size header_size;
        blocks_allocated = 0;
        blocks_free = 1;
        heap_initialized = true;
      })
      heap_start
      (record {
        size = sub32 aligned_size header_size;
        free = true;
        magic = heap_magic_free;
        next = 0;
        prev = 0;
      })

-- The loop of `find_best_fit`, on fuel: `best` is 0 for NULL.
pub best_fit_loop : ℕ → (ℕ → HeapBlock) → ℕ → ℕ → ℕ → ℕ → ℕ
best_fit_loop zero block size current best best_size = best
best_fit_loop (suc fuel) block size current best best_size =
    let b = block current in
    let better = best_fit_loop fuel block size b.next current b.size in
    let same = best_fit_loop fuel block size b.next best best_size in
    if current == 0
    then best
    else if b.free && (leb size b.size && ltb b.size best_size)
    then (if b.size == size then current else better)
    else same

-- A block takes at least a header, so a list within the heap has fewer links than bytes.
pub find_best_fit : HeapManager → ℕ → ℕ
find_best_fit h size = best_fit_loop (h.total_size + 1) h.block size h.first_block 0 size_max

pub split_block : HeapManager → ℕ → ℕ → HeapManager
split_block h a size =
    let b = h.block a in
    let remaining_size = sub32 (sub32 b.size size) header_size in
    if leb min_alloc_size remaining_size
    then (let new_block = add32 (add32 a header_size) size in
        let h1 = store h new_block (record {
          size = remaining_size;
          free = true;
          magic = heap_magic_free;
          next = b.next;
          prev = a;
        }) in
        let h2 =
          if (h1.block a).next == 0
          then h1
          else store h1 (h1.block a).next
              (record (h1.block (h1.block a).next) { prev = new_block }) in
        let h3 = store h2 a (record (h2.block a) { next = new_block; size = size }) in
        record h3 { blocks_free = add32 h3.blocks_free 1 })
    else h

-- The first half of `merge_free_blocks`.
pub merge_next : HeapManager → ℕ → HeapManager
merge_next h a =
    let b = h.block a in
    let n = b.next in
    if not (n == 0) && (h.block n).free
    then (let h1 = store h a (record b {
      size = add32 b.size (add32 header_size (h.block n).size);
      next = (h.block n).next;
    }) in
        let nn = (h1.block n).next in
        let h2 = if nn == 0 then h1 else store h1 nn (record (h1.block nn) { prev = a }) in
        record h2 { blocks_free = sub32 h2.blocks_free 1 })
    else h

-- The second half.
pub merge_prev : HeapManager → ℕ → HeapManager
merge_prev h a =
    let b = h.block a in
    let p = b.prev in
    if not (p == 0) && (h.block p).free
    then (let h1 = store h p (record (h.block p) {
      size = add32 (h.block p).size (add32 header_size b.size);
      next = b.next;
    }) in
        let h2 =
          if (h1.block a).next == 0
          then h1
          else store h1 (h1.block a).next (record (h1.block (h1.block a).next) { prev = p }) in
        record h2 { blocks_free = sub32 h2.blocks_free 1 })
    else h

pub merge_free_blocks : HeapManager → ℕ → HeapManager
merge_free_blocks h a = merge_prev (merge_next h a) a

-- The size that a request is rounded to.
pub request_size : ℕ → ℕ
request_size size =
    let aligned = memory_align_up size 8 in
    if ltb aligned min_alloc_size then min_alloc_size else aligned

-- The part of `heap_malloc` behind a successful search.
pub take_block : HeapManager → ℕ → ℕ → HeapManager
take_block h a size =
    let h1 = split_block h a size in
    let h2 = store h1 a (record (h1.block a) { free = false; magic = heap_magic_allocated }) in
    record h2 {
      blocks_allocated = add32 h2.blocks_allocated 1;
      blocks_free = sub32 h2.blocks_free 1;
      free_size = sub32 h2.free_size (add32 size header_size);
    }

-- The address of the user data, 0 for NULL.
pub heap_malloc : HeapManager → ℕ → ℕ × HeapManager
heap_malloc h size =
    if not h.heap_initialized
    then (0, h)
    else if size == 0
    then (0, h)
    else let a = find_best_fit h (request_size size) in
      if a == 0 then (0, h) else (add32 a header_size, take_block h a (request_size size))

pub heap_free : HeapManager → ℕ → HeapManager
heap_free h ptr =
    if ptr == 0 || not h.heap_initialized
    then h
    else let a = sub32 ptr header_size in
      let b = h.block a in
      if b.magic == heap_magic_allocated
      then (let h1 = store h a (record b { free = true; magic = heap_magic_free }) in
          merge_free_blocks
            (record h1 {
              blocks_allocated = sub32 h1.blocks_allocated 1;
              blocks_free = add32 h1.blocks_free 1;
              free_size = add32 h1.free_size (add32 b.size header_size);
            })
            a)
      else h

-- `memset(ptr, 0, n)` and `memcpy(to, from, n)` on the user data.
abbrev pub zero_bytes : HeapManager → ℕ → ℕ → HeapManager
zero_bytes h ptr n = record h { bytes = λ x. if leb ptr x && ltb x (ptr + n) then 0 else h.bytes x }

abbrev pub copy_bytes : HeapManager → ℕ → ℕ → ℕ → HeapManager
copy_bytes h to from n = record h {
  bytes = λ x. if leb to x && ltb x (to + n) then h.bytes (from + (x - to)) else h.bytes x;
}

pub heap_calloc : HeapManager → ℕ → ℕ → ℕ × HeapManager
heap_calloc h nmemb size =
    let total_size = nmemb * size % 2 ^ 32 in
    if not (nmemb == 0) && not (total_size / nmemb == size)
    then (0, h)
    else let (ptr, h') = heap_malloc h total_size in
      if ptr == 0 then (0, h') else (ptr, zero_bytes h' ptr total_size)

pub heap_realloc : HeapManager → ℕ → ℕ → ℕ × HeapManager
heap_realloc h ptr size =
    if ptr == 0
    then heap_malloc h size
    else if size == 0
    then (0, heap_free h ptr)
    else let a = sub32 ptr header_size in
      if not ((h.block a).magic == heap_magic_allocated)
      then (0, h)
      else if leb (request_size size) (h.block a).size
      then (ptr, h)
      else let (new_ptr, h') = heap_malloc h (request_size size) in
        if new_ptr == 0
        then (0, h')
        else (new_ptr, heap_free (copy_bytes h' new_ptr ptr (h'.block a).size) ptr)

-- The loop of `heap_validate`: the errors found, with the blocks counted so far. It leaves the list
-- after 10001 blocks with one more error, so 10002 rounds are enough.
pub validate_loop : ℕ → HeapManager → ℕ → ℕ → ℕ → ℕ
validate_loop zero h current block_count errors = errors
validate_loop (suc fuel) h current block_count errors =
    let b = h.block current in
    let expected_magic = if b.free then heap_magic_free else heap_magic_allocated in
    let bad_magic : ℕ = if b.magic == expected_magic then 0 else 1 in
    let out_of_bounds : ℕ = if ltb current h.heap_start || leb h.heap_end current then 1 else 0 in
    let errors' = errors + bad_magic + out_of_bounds in
    let rest = validate_loop fuel h b.next (block_count + 1) errors' in
    if current == 0 then errors else if ltb 10000 (block_count + 1) then errors' + 1 else rest

pub heap_validate : HeapManager → Bool
heap_validate h =
    if not h.heap_initialized then false else validate_loop 10002 h h.first_block 0 0 == 0
