-- ===== src/Stdlib/Malloc/Passes.antt =====
-- src/libc/stdlib.c: the loop of `free` over the list of blocks.
use ace_os.Base.{
  ℕ, zero, suc, ◌+◌, ◌^◌, ◌≤◌, ◌<◌, ◌≡◌, inl, inr, refl, sym, ap, subst, ◌∙◌, Bool, true, false,
  not, ◌&&◌, List, [], ◌∷◌, length, Bool-cases, ◌==◌, arith,
}
use ace_os.Base.Words.{add32}
use ace_os.Stdlib.Malloc.{MemoryBlock, MemoryHeap, header_size, store, free_loop}
use ace_os.Stdlib.Malloc.Tiles.{head, AreTiles, AreTiles-cong, AreTiles-le, store_same, store_other}
use ace_os.Stdlib.Malloc.Merging.{Merged, unchanged, keep_front, join_front}

-- The block that takes the one behind it.
abbrev joined : MemoryBlock → MemoryBlock → MemoryBlock
joined c b = record c { size = c.size + (header_size + b.size); next = b.next }

-- The rounds of the loop at a block `x` that ends at `q`.
module _ (n : ℕ) (h : MemoryHeap) (block x : ℕ) (pos : 0 < x) where
  with_previous :
      ((h.block x).free && (add32 (add32 x header_size) (h.block x).size == block)) ≡ true
      → (h.block x).size + (header_size + (h.block block).size) < 2 ^ 32
      → free_loop (suc n) h block x
        ≡ free_loop n (store h x (joined (h.block x) (h.block block))) x (h.block block).next
  unfolding free_loop
  with_previous e small =
      let here : (x == 0) ≡ false = ground (arith, pos) in
      let sum : add32 (h.block x).size (header_size + (h.block block).size)
          ≡ (h.block x).size + (header_size + (h.block block).size) =
        omega (arith, small) in
      rw (here, e, sum) refl

  with_next :
      ((h.block x).free && (add32 (add32 x header_size) (h.block x).size == block)) ≡ false
      → ((x == block) && (not ((h.block x).next == 0) && (h.block (h.block x).next).free)) ≡ true
      → (h.block x).size + (header_size + (h.block (h.block x).next).size) < 2 ^ 32
      → free_loop (suc n) h block x
        ≡ free_loop n
            (store h x (joined (h.block x) (h.block (h.block x).next)))
            block
            (h.block (h.block x).next).next
  unfolding free_loop
  with_next e1 e2 small =
      let here : (x == 0) ≡ false = ground (arith, pos) in
      let sum : add32 (h.block x).size (header_size + (h.block (h.block x).next).size)
          ≡ (h.block x).size + (header_size + (h.block (h.block x).next).size) =
        omega (arith, small) in
      rw (here, e1, e2, sum) refl

  passed :
      ((h.block x).free && (add32 (add32 x header_size) (h.block x).size == block)) ≡ false
      → ((x == block) && (not ((h.block x).next == 0) && (h.block (h.block x).next).free)) ≡ false
      → free_loop (suc n) h block x ≡ free_loop n h block (h.block x).next
  unfolding free_loop
  passed e1 e2 = let here : (x == 0) ≡ false = ground (arith, pos) in rw (here, e1, e2) refl

-- What the loop leaves of the list `xs`.
abbrev pub Leaves : MemoryHeap → (p stop : ℕ) → List ℕ → MemoryHeap → Type 0
Leaves h p stop xs h' = (xs' : List ℕ) × Merged h h' p stop xs xs'

both : (a b : Bool) → (a && b) ≡ true → (a ≡ true) × (b ≡ true)
both true b e = (refl, e)
both false b e = absurd (cc e)

end_of :
    (x size y block : ℕ)
    → (add32 (add32 x header_size) size == block) ≡ true
    → y ≡ x + header_size + size
    → y < 2 ^ 32
    → y ≡ block
end_of x size y block e behind small = ground arith

pub same_address : (x y : ℕ) → (x == y) ≡ true → x ≡ y
same_address x y e = ground arith

-- Two blocks `x` and `y` in front of `xs`, when what the loop makes of `xs` behind the joined block is
-- known.
module _ (n : ℕ) (h : MemoryHeap) (p stop x y : ℕ) (xs : List ℕ) (px : 0 < x)
    (link : (h.block x).next ≡ y) (behind : y ≡ x + header_size + (h.block x).size)
    (link_y : (h.block y).next ≡ head xs) (bound : y + header_size + (h.block y).size ≤ stop)
    (fits : stop < 2 ^ 32)
    (merged : (block : ℕ)
      → block < stop
      → ((store h x (joined (h.block x) (h.block y))).block block).free ≡ true
      → (h.block x).free ≡ true
      → (h.block y).free ≡ true
      → Leaves h p stop
          (x ∷ y ∷ xs)
          (free_loop n (store h x (joined (h.block x) (h.block y))) block (head xs))) where
  abbrev h1 : MemoryHeap
  h1 = store h x (joined (h.block x) (h.block y))

  small : (h.block x).size + (header_size + (h.block y).size) < 2 ^ 32
  small = omega (arith, bound, behind, fits)

  still_on : (h.block x).free ≡ true → (h1.block x).free ≡ true
  still_on on = ap (λ b. b.free) (store_same h x (joined (h.block x) (h.block y))) ∙ on

  joins_previous :
      (block : ℕ)
      → (h.block block).free ≡ true
      → ((h.block x).free && (add32 (add32 x header_size) (h.block x).size == block)) ≡ true
      → Leaves h p stop (x ∷ y ∷ xs) (free_loop (suc n) h block x)
  joins_previous block freed e =
      let (free_x, ends) = both _ _ e in
      let same : y ≡ block =
        end_of x (h.block x).size y block ends behind (omega (arith, bound, fits)) in
      let free_y : (h.block y).free ≡ true =
        subst (λ k. (h.block k).free ≡ true) (sym same) freed in
      let e_y =
        subst
          (λ k. ((h.block x).free && (add32 (add32 x header_size) (h.block x).size == k)) ≡ true)
          (sym same) e in
      let step = with_previous n h y x px e_y small ∙ ap (free_loop n h1 x) link_y in
      subst (λ k. Leaves h p stop (x ∷ y ∷ xs) (free_loop (suc n) h k x)) same
        (subst (Leaves h p stop (x ∷ y ∷ xs)) (sym step)
          (merged x (omega (arith, behind, bound)) (still_on free_x) free_x free_y))

  joins_next :
      (block : ℕ)
      → block < stop
      → (h.block block).free ≡ true
      → ((h.block x).free && (add32 (add32 x header_size) (h.block x).size == block)) ≡ false
      → ((x == block) && (not ((h.block x).next == 0) && (h.block (h.block x).next).free)) ≡ true
      → Leaves h p stop (x ∷ y ∷ xs) (free_loop (suc n) h block x)
  joins_next block inside freed e1 e2 =
      let (is_x, e3) = both _ _ e2 in
      let same : x ≡ block = same_address x block is_x in
      let free_x : (h.block x).free ≡ true =
        subst (λ k. (h.block k).free ≡ true) (sym same) freed in
      let free_y : (h.block y).free ≡ true =
        subst (λ k. (h.block k).free ≡ true) link (both _ _ e3).1 in
      let on = subst (λ k. (h1.block k).free ≡ true) same (still_on free_x) in
      let fits_next =
        subst (λ k. (h.block x).size + (header_size + (h.block k).size) < 2 ^ 32) (sym link)
          small in
      let step =
        with_next n h block x px e1 e2 fits_next
        ∙ ap (λ k. free_loop n (store h x (joined (h.block x) (h.block k))) block (h.block k).next)
            link
        ∙ ap (free_loop n h1 block) link_y in
      subst (Leaves h p stop (x ∷ y ∷ xs)) (sym step) (merged block inside on free_x free_y)

pub free_loop_lem :
    (n : ℕ) (h : MemoryHeap) (p stop block : ℕ) (xs : List ℕ)
    → length xs ≤ n
    → 0 < p
    → stop < 2 ^ 32
    → block < stop
    → (h.block block).free ≡ true
    → AreTiles h.block p xs stop
    → Leaves h p stop xs (free_loop n h block (head xs))
unfolding free_loop
free_loop_lem zero h p stop block [] few pos fits inside freed t = ([], unchanged h p stop t)
free_loop_lem zero h p stop block (x ∷ xs) few pos fits inside freed t = absurd (omega (arith, few))
free_loop_lem (suc n) h p stop block [] few pos fits inside freed t = ([], unchanged h p stop t)
free_loop_lem (suc n) h p stop block (x ∷ []) few pos fits inside freed (at, link, rest) =
    let c = h.block x in
    let e1 : (c.free && (add32 (add32 x header_size) c.size == block)) ≡ false =
      ground (arith, rest, inside, fits) in
    let e2 : ((x == block) && (not (c.next == 0) && (h.block c.next).free)) ≡ false =
      ground (arith, link) in
    let (ys, g) =
      free_loop_lem n h (x + header_size + c.size) stop block [] (omega (arith, few))
        (omega (arith, at, pos)) fits inside freed rest in
    subst (Leaves h p stop (x ∷ []))
      (sym (passed n h block x (omega (arith, at, pos)) e1 e2 ∙ ap (free_loop n h block) link))
      (x ∷ ys, keep_front h _ p stop x [] ys at link g)
free_loop_lem (suc n) h p stop block (x ∷ y ∷ xs) few pos fits inside freed
      (at, link, (behind, link_y, rest)) =
    let c = h.block x in
    let q : ℕ = y + header_size + (h.block y).size in
    let px : 0 < x = omega (arith, at, pos) in
    let bound = AreTiles-le h.block q xs stop rest in
    let h1 = store h x (joined c (h.block y)) in
    let rest1 =
      AreTiles-cong h.block h1.block q xs stop
        (λ a le.
          store_other h x (joined c (h.block y)) a (λ s. absurd (omega (arith, s, le, behind))))
        rest in
    let merged : (block' : ℕ)
        → block' < stop
        → (h1.block block').free ≡ true
        → c.free ≡ true
        → (h.block y).free ≡ true
        → Leaves h p stop (x ∷ y ∷ xs) (free_loop n h1 block' (head xs)) =
      λ block' inside' freed' free_x free_y.
        let (ys, g) =
          free_loop_lem n h1 q stop block' xs (omega (arith, few)) (omega (arith, px, behind)) fits
            inside' freed' rest1 in
        (x ∷ ys, join_front h _ p stop x y xs ys at free_x free_y behind link_y rest g) in
    let end_y : q ≤ stop = omega (arith, bound) in
    elim (Bool-cases (c.free && (add32 (add32 x header_size) c.size == block))) [
      | inl e1 ↦
          joins_previous n h p stop x y xs px link behind link_y end_y fits merged block freed e1
      | inr e1 ↦ elim (Bool-cases ((x == block) && (not (c.next == 0) && (h.block c.next).free))) [
        | inl e2 ↦
            joins_next n h p stop x y xs px link behind link_y end_y fits merged block inside freed
              e1 e2
        | inr e2 ↦
            let (ys, g) =
              free_loop_lem n h (x + header_size + c.size) stop block (y ∷ xs) (omega (arith, few))
                (omega (arith, px)) fits inside freed (behind, link_y, rest) in
            subst (Leaves h p stop (x ∷ y ∷ xs))
              (sym (passed n h block x px e1 e2 ∙ ap (free_loop n h block) link))
              (x ∷ ys, keep_front h _ p stop x (y ∷ xs) ys at link g)
      ]
    ]
