-- ===== src/Stdlib/Malloc/Tests.antt =====
-- Runs of the allocator of src/libc/stdlib.c.
use ace_os.Base.{ℕ, ◌+◌, ◌-◌, ◌^◌, ◌≡◌, inl, refl, false, List, [], ◌∷◌, arith}
use ace_os.Stdlib.Malloc.{
  MemoryHeap, initialize_heap, block_size, take_block, malloc_loop, malloc, free_block,
}
use ace_os.Stdlib.Malloc.Alloc.{IsHeap, IsAnswer, initialize-IsHeap, malloc_lem}
use ace_os.Stdlib.Malloc.Release.{IsReleased, free_lem}

abbrev base : ℕ
base = 0x200000

abbrev unused : MemoryHeap
unused = record {
  block = λ a. record { size = 0; free = false; next = 0 };
  bytes = λ a. 0;
  free_list = 0;
  heap_initialized = false;
}

abbrev whole : MemoryHeap
whole = initialize_heap base unused

malloc_lem_example : IsAnswer base whole (base ∷ []) 100 (malloc base whole 100)
malloc_lem_example =
    malloc_lem base whole (base ∷ []) 100 (omega arith) (omega arith) (omega arith)
      (initialize-IsHeap base unused refl)

-- The heap after `malloc(100)`: two blocks.
abbrev with_100 : MemoryHeap
with_100 = (malloc base unused 100).1

abbrev two_blocks : List ℕ
two_blocks = base ∷ (base + 116) ∷ []

with_100-IsHeap : IsHeap base with_100 two_blocks
unfolding malloc malloc_loop initialize_heap block_size take_block
with_100-IsHeap = record {
  initialized = refl;
  start = refl;
  first = refl;
  tiles = (refl, refl, (refl, refl, refl));
}

free_lem_example : IsReleased base with_100 two_blocks base (free_block with_100 (base + 12))
free_lem_example =
    free_lem base with_100 two_blocks base (omega arith) (omega arith) with_100-IsHeap (inl refl)

-- A request of 2^32 - 1 bytes is rounded to 0 and then to 16.
huge_request : block_size (2 ^ 32 - 1) ≡ 16
unfolding block_size
huge_request = refl
