-- ===== src/Stdlib/Malloc/Alloc.antt =====
-- src/libc/stdlib.c: what `malloc` does to the list of blocks.
use ace_os.Base.{
  ℕ, zero, suc, ◌+◌, ◌-◌, ◌^◌, ◌≤◌, ◌<◌, ◌≡◌, ◌≢◌, ◌⊎◌, inl, inr, refl, sym, ap, subst, ◌∙◌, true,
  false, ◌&&◌, List, [], ◌∷◌, length, Bool-cases, if◌then◌else◌, ◌==◌, leb, arith,
}
use ace_os.Stdlib.Malloc.{
  MemoryBlock, MemoryHeap, header_size, heap_size, store, block_size, one_block, initialize_heap,
  malloc_loop, malloc,
}
use ace_os.Stdlib.Malloc.Tiles.{head, Among, AreTiles, AreTiles-le, store_same, tile}
use ace_os.Stdlib.Malloc.Grant.{Granted, take_block-Granted, later-Granted}

-- No free block of the list has `size` bytes.
abbrev pub IsFull : (ℕ → MemoryBlock) → (size : ℕ) → List ℕ → Type 0
IsFull block size xs = (a : ℕ) → Among a xs → (block a).free ≡ true → (block a).size < size

pub malloc_loop_lem :
    (n : ℕ) (h : MemoryHeap) (p stop size : ℕ) (xs : List ℕ)
    → length xs ≤ n
    → 0 < p
    → stop + 16 ≤ 2 ^ 32
    → AreTiles h.block p xs stop
    → let (ptr, h') = malloc_loop n h size (head xs) in
      ((ptr ≡ 0) × (h' ≡ h) × IsFull h.block size xs)
      ⊎ ((x : ℕ) × (xs' : List ℕ) × (ptr ≡ x + header_size) × Granted h h' p stop size xs xs' x)
unfolding malloc_loop
malloc_loop_lem zero h p stop size [] few pos fits t = inl (refl, refl, λ a m. absurd m)
malloc_loop_lem zero h p stop size (x ∷ xs) few pos fits t = absurd (omega (arith, few))
malloc_loop_lem (suc n) h p stop size [] few pos fits t = inl (refl, refl, λ a m. absurd m)
malloc_loop_lem (suc n) h p stop size (x ∷ xs) few pos fits (at, link, rest) =
    let b = h.block x in
    let here : (x == 0) ≡ false = ground (arith, at) in
    elim (Bool-cases (b.free && leb size b.size)) [
      | inl e ↦
          let (xs', g) =
            take_block-Granted h p stop size x xs (at, link, rest) (ground (arith, e))
              (ground (arith, e)) fits (omega (arith, at, pos)) in
          rw (here, e) (inr (x, xs', refl, g))
      | inr e ↦
          let q : ℕ = x + header_size + b.size in
          rw (here, e, link)
            (elim (malloc_loop_lem n h q stop size xs (omega (arith, few)) (omega (arith, at, pos))
              fits rest) [
                | inl (none, same, full) ↦ inl (
                  none,
                  same,
                  λ a m free. elim m [
                    | inl here ↦
                        subst (λ c. (h.block c).free ≡ true → (h.block c).size < size) (sym here)
                          (λ on. ground (arith, e, on)) free
                    | inr m ↦ full a m free
                  ],
                )
                | inr (y, ys, ptr, g) ↦
                    inr (y, x ∷ ys, ptr, later-Granted h _ p stop size x y xs ys at link rest g)
              ])
    ]

-- The heap after `initialize_heap`: the list `xs` starts at `base` and fills the array.
pub record IsHeap (base : ℕ) (h : MemoryHeap) (xs : List ℕ) : Type 0 where
  pub initialized : h.heap_initialized ≡ true
  pub start : h.free_list ≡ base
  pub first : head xs ≡ base
  pub tiles : AreTiles h.block base xs (base + heap_size)

pub initialize-IsHeap :
    (base : ℕ) (h : MemoryHeap)
    → h.heap_initialized ≡ false
    → IsHeap base (initialize_heap base h) (base ∷ [])
unfolding initialize_heap
initialize-IsHeap base h fresh =
    let only : MemoryBlock = record { size = heap_size - header_size; free = true; next = 0 } in
    rw fresh record {
      initialized = refl;
      start = refl;
      first = refl;
      tiles =
          tile (store h base only).block base base [] (base + heap_size) only refl
            (store_same h base only) refl (omega arith);
    }

-- What `malloc` answers for `size` bytes in a heap with the blocks `xs`: NULL and no change if no
-- free block has the rounded size, and otherwise the bytes behind the header of a free block `x` that
-- has `size` bytes and is taken now. The blocks of the new list fill the array again, and all others
-- keep their headers.
abbrev pub IsAnswer : (base : ℕ) → MemoryHeap → List ℕ → (size : ℕ) → ℕ × MemoryHeap → Type 0
IsAnswer base h xs size (ptr, h') =
    ((ptr ≡ 0) × (h' ≡ h) × IsFull h.block (block_size size) xs)
    ⊎ ((x : ℕ) × (xs' : List ℕ) × (ptr ≡ x + header_size)
        × IsHeap base h' xs'
        × (Among x xs × ((h.block x).free ≡ true))
        × (Among x xs' × ((h'.block x).free ≡ false) × (size ≤ (h'.block x).size))
        × ((a : ℕ) → Among a xs → a ≢ x → Among a xs' × (h'.block a ≡ h.block a)))

block_size-le : (size : ℕ) → size + 7 < 2 ^ 32 → size ≤ block_size size
unfolding block_size
block_size-le size small = ground arith

-- In a heap that was set up in an array not at NULL that ends at 2^32 - 16 or below, `malloc` answers
-- a request of up to 2^32 - 8 bytes with a free block that takes it, or with NULL if no free block has
-- the rounded size.
pub malloc_lem :
    (base : ℕ) (h : MemoryHeap) (xs : List ℕ) (size : ℕ)
    → 0 < base
    → base + heap_size + 16 ≤ 2 ^ 32
    → size + 7 < 2 ^ 32
    → IsHeap base h xs
    → IsAnswer base h xs size (malloc base h size)
unfolding malloc initialize_heap
malloc_lem base h xs size pos fits small v =
    let few : length xs ≤ heap_size =
      omega (arith, AreTiles-le h.block base xs (base + heap_size) v.tiles) in
    let ready : initialize_heap base h ≡ h =
      ap (λ b. if b then h else one_block base h) v.initialized in
    let run =
      ap (λ k. malloc_loop heap_size k (block_size size) k.free_list) ready
      ∙ ap (malloc_loop heap_size h (block_size size)) (v.start ∙ sym v.first) in
    subst (IsAnswer base h xs size) (sym run)
      (elim (malloc_loop_lem heap_size h base (base + heap_size) (block_size size) xs few pos fits
        v.tiles) [
          | inl full ↦ inl full
          | inr (x, xs', ptr, g) ↦ inr (
            x,
            xs',
            ptr,
            record {
              initialized = g.ready ∙ v.initialized;
              start = g.start ∙ v.start;
              first = g.first ∙ v.first;
              tiles = g.tiles;
            },
            g.was_free,
            (g.is_taken.0, g.is_taken.1, omega (arith, g.is_taken.2, block_size-le size small)),
            g.others,
          )
        ])
