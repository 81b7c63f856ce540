-- ===== src/Heap/Split.antt =====
-- `split_block` of kernel/heap.c: what it does where a block has room for a second one, and what
-- it does where it has not.
use ace_os.Base.{ℕ, ◌+◌, ◌-◌, ◌^◌, ◌≤◌, ◌<◌, ◌≡◌, ◌≢◌, ◌⊎◌, true, false, arith}
use ace_os.Heap.{
  HeapManager, min_alloc_size, header_size, heap_magic_free, heap_magic_allocated, add32,
  split_block, take_block,
}

-- The block at `a` was cut: `size` bytes stay, and a free block behind them has the rest.
pub record Cut (h : HeapManager) (a size : ℕ) (h' : HeapManager) : Type 0 where
  pub front_size : (h'.block a).size ≡ size
  pub front_next : (h'.block a).next ≡ a + header_size + size
  pub front_prev : (h'.block a).prev ≡ (h.block a).prev
  pub back_size : size + header_size + (h'.block (a + header_size + size)).size ≡ (h.block a).size
  pub back_free : (h'.block (a + header_size + size)).free ≡ true
  pub back_magic : (h'.block (a + header_size + size)).magic ≡ heap_magic_free
  pub back_next : (h'.block (a + header_size + size)).next ≡ (h.block a).next
  pub back_prev : (h'.block (a + header_size + size)).prev ≡ a
  pub one_more : h'.blocks_free ≡ add32 h.blocks_free 1

-- A block in address order: it ends below 4 GB, and its successor is NULL or at its end.
pub record IsPlaced (h : HeapManager) (a : ℕ) : Type 0 where
  pub not_null : a ≢ 0
  pub ends : a + header_size + (h.block a).size < 2 ^ 32
  pub follows : ((h.block a).next ≡ 0) ⊎ ((h.block a).next ≡ a + header_size + (h.block a).size)

module _ (h : HeapManager) (a size : ℕ) (p : IsPlaced h a) where
  -- With room for a header and 32 bytes behind the request the block is cut in two.
  split-Cut :
      size + header_size + min_alloc_size ≤ (h.block a).size → Cut h a size (split_block h a size)
  unfolding split_block
  split-Cut room = ground arith

  -- With room for a header but for fewer than 32 bytes behind it the heap stays as it is.
  split_small :
      size + header_size ≤ (h.block a).size
      → (h.block a).size < size + header_size + min_alloc_size
      → split_block h a size ≡ h
  unfolding split_block
  split_small lo hi = ground arith

  -- The block behind a cut is linked back to the new one, and no other header changes.
  pub split_others :
      size + header_size + min_alloc_size ≤ (h.block a).size
      → let h' = split_block h a size in
        ((h.block a).next ≢ 0 → (h'.block (h.block a).next).prev ≡ a + header_size + size)
        × ((x : ℕ)
            → x ≢ a
            → x ≢ a + header_size + size
            → x ≢ (h.block a).next
            → h'.block x ≡ h.block x)
  unfolding split_block
  split_others room = ((λ nz. ground arith), (λ x i j k. ground arith))

  -- A block that fits but has no room for a second header is cut all the same: the remaining size
  -- wraps round, and the header of a free block of nearly 4 GB is written behind the request, where
  -- the next block starts or lies.
  split_wraps :
      size ≤ (h.block a).size
      → (h.block a).size < size + header_size
      → let h' = split_block h a size in
        let n = a + header_size + size in
        ((h'.block n).size + header_size ≡ 2 ^ 32 + ((h.block a).size - size))
        × ((h'.block n).free ≡ true)
        × ((h'.block a).next ≡ n)
  unfolding split_block
  split_wraps lo hi = ground arith

  -- In `heap_malloc` an exact fit therefore always leaves such a block behind: the header at the
  -- end of the block, where its successor stands, is overwritten by a free block of 2^32 - 20
  -- bytes.
  pub take_exact :
      (h.block a).size ≡ size
      → let h' = take_block h a size in
        let n = a + header_size + size in
        ((h'.block n).size ≡ 2 ^ 32 - header_size)
        × ((h'.block n).free ≡ true)
        × ((h'.block a).next ≡ n)
  unfolding take_block split_block
  take_exact e = ground arith

  -- With room the block is marked as allocated, and the free block behind it stays free.
  pub take-Cut :
      size + header_size + min_alloc_size ≤ (h.block a).size
      → let h' = take_block h a size in
        ((h'.block a).size ≡ size)
        × ((h'.block a).free ≡ false)
        × ((h'.block a).magic ≡ heap_magic_allocated)
        × (size + header_size + (h'.block (a + header_size + size)).size ≡ (h.block a).size)
        × ((h'.block (a + header_size + size)).free ≡ true)
        × (h'.blocks_allocated ≡ add32 h.blocks_allocated 1)
  unfolding take_block split_block
  take-Cut room = ground arith
