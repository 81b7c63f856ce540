-- ===== src/Heap/Tests.antt =====
-- Runs of kernel/heap.c on a heap of 4 KB at 1 MB.
use ace_os.Base.{ℕ, ◌≡◌, ◌⊎◌, inl, refl, true, List, [], ◌∷◌, arith}
use ace_os.Heap.{
  HeapBlock, HeapManager, heap_magic_free, request_size, find_best_fit, size_max, heap_malloc,
  best_fit_loop,
}
use ace_os.Memory.{memory_align_up}
use ace_os.Heap.Fit.{Among, fits, AtLeast, find_best_fit_lem}
use ace_os.Heap.Split.{IsPlaced}

abbrev first : HeapBlock
first = record { size = 4076; free = true; magic = heap_magic_free; next = 0; prev = 0 }

abbrev fresh : HeapManager
fresh = record {
  block = λ a. first;
  bytes = λ a. 0;
  first_block = 0x100000;
  heap_start = 0x100000;
  heap_end = 0x101000;
  total_size = 4096;
  free_size = 4076;
  blocks_allocated = 0;
  blocks_free = 1;
  heap_initialized = true;
}

fresh-IsPlaced : IsPlaced fresh 0x100000
fresh-IsPlaced = record { not_null = omega arith; ends = omega arith; follows = inl refl }

malloc_first : (heap_malloc fresh 100).0 ≡ 0x100014
unfolding heap_malloc find_best_fit best_fit_loop request_size memory_align_up
malloc_first = refl

find_best_fit_lem_example :
    let r = find_best_fit fresh 104 in
    let xs : List ℕ = 0x100000 ∷ [] in
    ((r ≡ 0) × AtLeast fresh.block 104 size_max xs)
    ⊎ (Among r xs
        × (fits fresh.block 104 r ≡ true)
        × AtLeast fresh.block 104 (fresh.block r).size xs)
find_best_fit_lem_example =
    find_best_fit_lem fresh 104 (0x100000 ∷ []) (refl, (omega arith), refl) (omega arith)
