-- ===== src/Heap/Fit.antt =====
-- The search and the rounding of `heap_malloc` in kernel/heap.c.
use ace_os.Base.{
  ℕ, zero, suc, ◌+◌, ◌-◌, ◌%◌, ◌^◌, ◌≤◌, ◌<◌, ◌≡◌, refl, sym, ◌∙◌, ap, ◌≢◌, ◌⊎◌, inl, inr, Bool,
  true, false, ◌&&◌, List, [], ◌∷◌, arith, if◌then◌else◌, ◌==◌, ltb, leb, length, Bool-cases, subst,
}
use ace_os.Memory.{memory_align_up}
use ace_os.Heap.{
  HeapBlock, HeapManager, min_alloc_size, request_size, best_fit_loop, find_best_fit, size_max,
}

-- A request is rounded up to a multiple of 8 and to at least 32, if the rounding fits 32 bits.
request_size_lem :
    (size : ℕ)
    → size ≤ 2 ^ 32 - 8
    → let r = request_size size in
      (r % 8 ≡ 0) × (size ≤ r) × (min_alloc_size ≤ r) × ((r < size + 8) ⊎ (r ≡ min_alloc_size))
unfolding request_size memory_align_up
request_size_lem size h = ground arith

-- A request of the last seven sizes wraps round, and is served by 32 bytes.
pub request_size_wraps :
    (size : ℕ) → 2 ^ 32 - 8 < size → size < 2 ^ 32 → request_size size ≡ min_alloc_size
unfolding request_size memory_align_up
request_size_wraps size h k = ground arith

-- The `next` pointers lead from `a` through exactly these blocks to NULL.
abbrev pub Blocks : (ℕ → HeapBlock) → ℕ → List ℕ → Type 0
Blocks block a [] = a ≡ 0
Blocks block a (x ∷ xs) = (a ≡ x) × (x ≢ 0) × Blocks block (block x).next xs

abbrev pub Among : ℕ → List ℕ → Type 0
Among a [] = ⊥
Among a (x ∷ xs) = (a ≡ x) ⊎ Among a xs

-- The block is free and takes `size` bytes. No block has the size SIZE_MAX.
abbrev pub fits : (ℕ → HeapBlock) → ℕ → ℕ → Bool
fits block size a = (block a).free && (leb size (block a).size && ltb (block a).size size_max)

-- Every block of the list that fits has at least `k` bytes.
abbrev pub AtLeast : (ℕ → HeapBlock) → ℕ → ℕ → List ℕ → Type 0
AtLeast block size k [] = Unit {0}
AtLeast block size k (x ∷ xs) =
    (fits block size x ≡ true → k ≤ (block x).size) × AtLeast block size k xs

AtLeast-mono :
    (block : ℕ → HeapBlock) (size j k : ℕ) (xs : List ℕ)
    → j ≤ k
    → AtLeast block size k xs
    → AtLeast block size j xs
AtLeast-mono block size j k [] h a = tt
AtLeast-mono block size j k (x ∷ xs) h (a, b) =
    ((λ f. omega (arith, a f)), AtLeast-mono block size j k xs h b)

-- From the candidate `best`, of size `best_size`: it stays, or a smaller block replaces it.
abbrev Outcome : (ℕ → HeapBlock) → ℕ → ℕ → ℕ → List ℕ → ℕ → Type 0
Outcome block size best best_size xs r =
    ((r ≡ best) × AtLeast block size best_size xs)
    ⊎ (Among r xs
        × (fits block size r ≡ true)
        × ((block r).size < best_size)
        × AtLeast block size (block r).size xs)

module _ (block : ℕ → HeapBlock) (size : ℕ) where
  AtLeast-size : (xs : List ℕ) → AtLeast block size size xs
  AtLeast-size [] = tt
  AtLeast-size (x ∷ xs) = ((λ f. ground arith), AtLeast-size xs)

  -- The loop went on with the same candidate.
  keep :
      (x : ℕ) (xs : List ℕ) (best best_size r : ℕ)
      → (fits block size x ≡ true → best_size ≤ (block x).size)
      → Outcome block size best best_size xs r
      → Outcome block size best best_size (x ∷ xs) r
  keep x xs best best_size r h (inl (e, a)) = inl (e, (h, a))
  keep x xs best best_size r h (inr (m, f, lt, a)) =
      inr (inr m, f, lt, ((λ g. omega (arith, h g)), a))

  -- The loop ended with the block `x`.
  pick :
      (x : ℕ) (xs : List ℕ) (best best_size r : ℕ)
      → fits block size x ≡ true
      → (block x).size < best_size
      → r ≡ x
      → AtLeast block size (block x).size xs
      → Outcome block size best best_size (x ∷ xs) r
  pick x xs best best_size r f lt e a =
      subst (Outcome block size best best_size (x ∷ xs)) (sym e)
        (inr (inl refl, f, lt, ((λ g. omega arith), a)))

  -- The loop went on with the block `x` as its candidate.
  replace :
      (x : ℕ) (xs : List ℕ) (best best_size r : ℕ)
      → fits block size x ≡ true
      → (block x).size < best_size
      → Outcome block size x (block x).size xs r
      → Outcome block size best best_size (x ∷ xs) r
  replace x xs best best_size r f lt (inl (e, a)) = pick x xs best best_size r f lt e a
  replace x xs best best_size r f lt (inr (m, g, lt', a)) =
      inr (inr m, g, omega arith, ((λ _. omega arith), a))

  abbrev test : ℕ → ℕ → Bool
  test x bs = (block x).free && (leb size (block x).size && ltb (block x).size bs)

  loop_eq :
      (fuel x best bs : ℕ)
      → x ≢ 0
      → best_fit_loop (suc fuel) block size x best bs ≡ (
          if test x bs
          then (if (block x).size == size
              then x
              else best_fit_loop fuel block size (block x).next x (block x).size)
          else best_fit_loop fuel block size (block x).next best bs)
  unfolding best_fit_loop
  loop_eq fuel x best bs nz = let some_block : (x == 0) ≡ false = ground arith in rw some_block

  best_fit_loop_lem :
      (fuel a best best_size : ℕ) (xs : List ℕ)
      → Blocks block a xs
      → length xs < fuel
      → best_size ≤ size_max
      → Outcome block size best best_size xs (best_fit_loop fuel block size a best best_size)
  best_fit_loop_lem zero a best bs xs c f h = absurd (omega arith)
  best_fit_loop_lem (suc fuel) a best bs [] c f h = unfold best_fit_loop in rw c (inl (refl, tt))
  best_fit_loop_lem (suc fuel) a best bs (x ∷ xs) (e, nz, c) f h =
      let to : ℕ → Type 0 = Outcome block size best bs (x ∷ xs) in
      let start =
        ap (λ k. best_fit_loop (suc fuel) block size k best bs) e ∙ loop_eq fuel x best bs nz in
      elim (Bool-cases (test x bs)) [
        | inl better ↦
            let good : fits block size x ≡ true = ground arith in
            let less : (block x).size < bs = ground arith in
            elim (Bool-cases ((block x).size == size)) [
              | inl exact ↦
                  pick x xs best bs _ good less (start ∙ rw (better, exact)) (
                    AtLeast-mono block size (block x).size size xs (ground arith) (AtLeast-size xs))
              | inr more ↦ subst to (sym (start ∙ rw (better, more))) (
                  replace x xs best bs _ good less (
                    best_fit_loop_lem fuel (block x).next x (block x).size xs c (omega arith)
                      (omega arith)))
            ]
        | inr worse ↦ subst to (sym (start ∙ rw worse)) (
            keep x xs best bs _ (λ g. ground arith)
              (best_fit_loop_lem fuel (block x).next best bs xs c (omega arith) h))
      ]

-- `find_best_fit` returns NULL exactly when no block of the list fits, and else a block of the
-- list that fits and is not larger than any other that does.
pub find_best_fit_lem :
    (h : HeapManager) (size : ℕ) (xs : List ℕ)
    → Blocks h.block h.first_block xs
    → length xs ≤ h.total_size
    → let r = find_best_fit h size in
      ((r ≡ 0) × AtLeast h.block size size_max xs)
      ⊎ (Among r xs × (fits h.block size r ≡ true) × AtLeast h.block size (h.block r).size xs)
unfolding find_best_fit
find_best_fit_lem h size xs c f =
    elim (best_fit_loop_lem h.block size (h.total_size + 1) h.first_block 0 size_max xs c
      (omega arith) (omega arith)) [ inl (e, a) ↦ inl (e, a) | inr (m, g, lt, a) ↦ inr (m, g, a) ]
