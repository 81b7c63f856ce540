-- ===== src/Stdlib/Malloc/Release.antt =====
-- src/libc/stdlib.c: what `free` does to the list of blocks.
use ace_os.Base.{
  ℕ, ◌+◌, ◌^◌, ◌≤◌, ◌<◌, ◌≡◌, ◌≢◌, inl, inr, sym, ap, subst, ◌∙◌, true, false, List, [], ◌∷◌,
  length, Bool-cases, ◌==◌, arith,
}
use ace_os.Base.Words.{sub32}
use ace_os.Stdlib.Malloc.{MemoryHeap, header_size, heap_size, store, free_loop, free_block}
use ace_os.Stdlib.Malloc.Tiles.{
  head, Among, AreTiles, AreTiles-le, AreTiles-inside, store_same, store_other, tile,
}
use ace_os.Stdlib.Malloc.Alloc.{IsHeap}
use ace_os.Stdlib.Malloc.Passes.{same_address, free_loop_lem}

-- The marks do not matter for the tiles.
AreTiles-marked :
    (h : MemoryHeap) (b p : ℕ) (xs : List ℕ) (stop : ℕ)
    → AreTiles h.block p xs stop
    → AreTiles (store h b (record (h.block b) { free = true })).block p xs stop
AreTiles-marked h b p [] stop t = t
AreTiles-marked h b p (x ∷ xs) stop (at, link, rest) =
    let marked = record (h.block b) { free = true } in
    let h1 = store h b marked in
    let tail = AreTiles-marked h b (x + header_size + (h.block x).size) xs stop rest in
    elim (Bool-cases (x == b)) [
      | inl e ↦
          let same : x ≡ b = same_address x b e in
          tile h1.block p x xs stop marked at (ap h1.block same ∙ store_same h b marked)
            (subst (λ c. (h.block c).next ≡ head xs) same link)
            (subst (λ c. AreTiles h1.block (x + header_size + (h.block c).size) xs stop) same tail)
      | inr e ↦
          tile h1.block p x xs stop (h.block x) at
            (store_other h b marked x (λ s. absurd (ground (arith, e, s)))) link tail
    ]

-- What is left of the blocks `xs` when `b` was given back: the blocks of the new list fill the array
-- again, `b` is free or part of another block, and all other blocks that are taken keep their place
-- and their headers.
abbrev pub IsReleased : (base : ℕ) → MemoryHeap → List ℕ → (b : ℕ) → MemoryHeap → Type 0
IsReleased base h xs b h' =
    (xs' : List ℕ) × IsHeap base h' xs'
    × (Among b xs' → (h'.block b).free ≡ true)
    × ((a : ℕ)
        → Among a xs
        → a ≢ b
        → (h.block a).free ≡ false
        → Among a xs' × (h'.block a ≡ h.block a))

-- In a heap that was set up in an array not at NULL that ends below 2^32, `free` of the address behind
-- the header of a block of the list releases that block.
pub free_lem :
    (base : ℕ) (h : MemoryHeap) (xs : List ℕ) (b : ℕ)
    → 0 < base
    → base + heap_size < 2 ^ 32
    → IsHeap base h xs
    → Among b xs
    → IsReleased base h xs b (free_block h (b + header_size))
unfolding free_block
free_lem base h xs b pos fits v m =
    let stop : ℕ = base + heap_size in
    let marked = record (h.block b) { free = true } in
    let h1 = store h b marked in
    let few : length xs ≤ heap_size = omega (arith, AreTiles-le h.block base xs stop v.tiles) in
    let inside : b < stop = omega (arith, AreTiles-inside h.block base xs stop b v.tiles m) in
    let on_b : h1.block b ≡ marked = store_same h b marked in
    let (xs', g) =
      free_loop_lem heap_size h1 base stop b xs few pos fits inside (ap (λ c. c.free) on_b)
        (AreTiles-marked h b base xs stop v.tiles) in
    let some_ptr : (b + header_size == 0) ≡ false = ground arith in
    let back : sub32 (b + header_size) header_size ≡ b = omega (arith, inside, fits) in
    let run : free_block h (b + header_size) ≡ free_loop heap_size h1 b (head xs) =
      rw (some_ptr, back) (ap (free_loop heap_size h1 b) (v.start ∙ sym v.first)) in
    subst (IsReleased base h xs b) (sym run) (
      xs',
      record {
        initialized = g.ready ∙ v.initialized;
        start = g.start ∙ v.start;
        first = g.first ∙ v.first;
        tiles = g.tiles;
      },
      λ m'. g.still_free b m (ap (λ c. c.free) on_b) m',
      λ a m other e.
          let same = store_other h b marked a other in
          let (m', s) = g.taken a m (ap (λ c. c.free) same ∙ e) in (m', s ∙ same),
    )
