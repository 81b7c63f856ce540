-- ===== src/Pmm.antt =====
-- kernel/pmm.c: the physical frame allocator over a bitmap of 32-bit words.
-- An `if` on `bitmap[i / 32] & (1 << (i % 32))` is `is_free`.
pub mod Bitmap
pub mod Count
pub mod Invariant
pub mod Alloc
pub mod Free
pub mod Reach
mod Tests
use ace_os.Base.{
  ℕ, zero, suc, ◌+◌, ◌-◌, ◌*◌, ◌/◌, ◌%◌, ◌^◌, Bool, true, false, not, Option, none, some, List, [],
  ◌∷◌, if◌then◌else◌, ◌==◌, ltb, leb, get_or, set, replicate, bit_and, bit_or,
}

abbrev pub page_size : ℕ
page_size = 4096

abbrev pub memory_start : ℕ
memory_start = 0x200000

abbrev pub memory_size : ℕ
memory_size = 0x1e00000

-- `physical_memory_manager_t`, with the words that `bitmap` points to.
pub record Pmm : Type 0 where
  pub bitmap : List ℕ
  pub bitmap_size : ℕ
  pub total_frames : ℕ
  pub free_frames : ℕ
  pub first_free_frame : ℕ

-- `!(bitmap[i / 32] & (1 << (i % 32)))`.
unfoldable pub is_free : List ℕ → ℕ → Bool
is_free bitmap i = bit_and (get_or bitmap (i / 32) 0) (2 ^ (i % 32)) == 0

-- `bitmap[i / 32] |= (1 << (i % 32))`.
unfoldable pub set_used : List ℕ → ℕ → List ℕ
set_used bitmap i = set bitmap (i / 32) (bit_or (get_or bitmap (i / 32) 0) (2 ^ (i % 32)))

-- `bitmap[i / 32] &= ~(1 << (i % 32))`.
pub set_free : List ℕ → ℕ → List ℕ
set_free bitmap i =
    set bitmap (i / 32) (bit_and (get_or bitmap (i / 32) 0) (2 ^ 32 - 1 - 2 ^ (i % 32)))

pub pmm_mark_frame_used : Pmm → ℕ → Pmm
pmm_mark_frame_used p i =
    if leb p.total_frames i
    then p
    else if is_free p.bitmap i
    then record p {
      bitmap = set_used p.bitmap i;
      free_frames = (p.free_frames + 2 ^ 32 - 1) % 2 ^ 32;
    }
    else p

-- The loop of `pmm_init` over the bitmap's own frames: `n` rounds from `i` on.
pub mark_bitmap : ℕ → ℕ → Pmm → Pmm
mark_bitmap zero i p = p
mark_bitmap (suc n) i p = mark_bitmap n (i + 1) (pmm_mark_frame_used p i)

-- The `memset` clears the words, whatever the memory held.
pub pmm_init : Pmm
pmm_init =
    let total_frames : ℕ = memory_size / page_size in
    let bitmap_size : ℕ = (total_frames + 31) / 32 in
    let bitmap_frames : ℕ = (bitmap_size * 4 + page_size - 1) / page_size in
    mark_bitmap bitmap_frames 0 (record {
      bitmap = replicate bitmap_size 0;
      bitmap_size = bitmap_size;
      total_frames = total_frames;
      free_frames = total_frames;
      first_free_frame = 0;
    })

-- `for (i = start; i < start + n; i++)` up to the first free frame.
unfoldable pub scan : List ℕ → ℕ → ℕ → Option ℕ
scan bitmap i zero = none
scan bitmap i (suc n) =
    let later = scan bitmap (i + 1) n in if is_free bitmap i then some i else later

abbrev pub address : ℕ → ℕ
address i = (memory_start + i * page_size) % 2 ^ 32

-- The address of the frame, 0 when there is none. `free_frames--` runs only above 0.
unfoldable pub pmm_alloc_frame : Pmm → ℕ × Pmm
pmm_alloc_frame p =
    if p.free_frames == 0
    then (0, p)
    else elim (scan p.bitmap p.first_free_frame (p.total_frames - p.first_free_frame)) [
      | some i ↦ (
        address i,
        record p {
          bitmap = set_used p.bitmap i;
          free_frames = p.free_frames - 1;
          first_free_frame =
              if i == p.first_free_frame then p.first_free_frame + 1 else p.first_free_frame;
        },
      )
      | none ↦ elim (scan p.bitmap 0 p.first_free_frame) [
        | some i ↦
            (address i, record p { bitmap = set_used p.bitmap i; free_frames = p.free_frames - 1 })
        | none ↦ (0, p)
      ]
    ]

pub pmm_free_frame : Pmm → ℕ → Pmm
pmm_free_frame p frame_addr =
    if ltb frame_addr memory_start
    then p
    else let i = (frame_addr - memory_start) / page_size in
      if leb p.total_frames i then p else if is_free p.bitmap i then p else record p {
        bitmap = set_free p.bitmap i;
        free_frames = (p.free_frames + 1) % 2 ^ 32;
        first_free_frame = if ltb i p.first_free_frame then i else p.first_free_frame;
      }

pub pmm_get_free_frames : Pmm → ℕ
pmm_get_free_frames p = p.free_frames
