-- ===== src/Stdlib/Malloc/Merging.antt =====
-- src/libc/stdlib.c: how `free` changes a list of blocks from one block on.
use ace_os.Base.{
  ℕ, ◌+◌, ◌≤◌, ◌<◌, ◌≡◌, inl, inr, refl, sym, ap, subst, ◌∙◌, true, false, List, [], ◌∷◌, arith,
}
use ace_os.Stdlib.Malloc.{MemoryHeap, header_size, store}
use ace_os.Stdlib.Malloc.Tiles.{
  head, Among, AreTiles, AreTiles-above, store_same, store_other, tile,
}

-- The list `xs` became `xs'`, and blocks that are taken are as they were.
pub record Merged (h h' : MemoryHeap) (p stop : ℕ) (xs xs' : List ℕ) : Type 0 where
  pub tiles : AreTiles h'.block p xs' stop
  pub first : head xs' ≡ head xs
  pub taken :
      (a : ℕ) → Among a xs → (h.block a).free ≡ false → Among a xs' × (h'.block a ≡ h.block a)
  pub still_free :
      (a : ℕ) → Among a xs → (h.block a).free ≡ true → Among a xs' → (h'.block a).free ≡ true
  pub below : (a : ℕ) → a < p → h'.block a ≡ h.block a
  pub start : h'.free_list ≡ h.free_list
  pub ready : h'.heap_initialized ≡ h.heap_initialized

pub unchanged : (h : MemoryHeap) (p stop : ℕ) → AreTiles h.block p [] stop → Merged h h p stop [] []
unchanged h p stop t = record {
  tiles = t;
  first = refl;
  taken = λ a m e. absurd m;
  still_free = λ a m e m'. absurd m;
  below = λ a lt. refl;
  start = refl;
  ready = refl;
}

-- A block in front of the list that stays as it is.
pub keep_front :
    (h h' : MemoryHeap) (p stop x : ℕ) (xs ys : List ℕ)
    → x ≡ p
    → (h.block x).next ≡ head xs
    → Merged h h' (x + header_size + (h.block x).size) stop xs ys
    → Merged h h' p stop (x ∷ xs) (x ∷ ys)
keep_front h h' p stop x xs ys at link g =
    let b = h.block x in
    let same : h'.block x ≡ b = g.below x (omega arith) in
    record {
      tiles = tile h'.block p x ys stop b at same (link ∙ sym g.first) g.tiles;
      first = refl;
      taken = λ a m e. elim m [
        | inl here ↦ (inl here, rw here same)
        | inr m ↦ let (m', q) = g.taken a m e in (inr m', q)
      ];
      still_free = λ a m e m'. elim m [
        | inl here ↦ ap (λ c. c.free) (g.below a (omega (arith, here))) ∙ e
        | inr m ↦ elim m' [
          | inl here ↦ ap (λ c. c.free) (g.below a (omega (arith, here))) ∙ e
          | inr m' ↦ g.still_free a m e m'
        ]
      ];
      below = λ a lt. g.below a (omega (arith, lt, at));
      start = g.start;
      ready = g.ready;
    }

-- A free block in front of the list that took the free block `y` behind it.
pub join_front :
    (h h' : MemoryHeap) (p stop x y : ℕ) (xs ys : List ℕ)
    → x ≡ p
    → (h.block x).free ≡ true
    → (h.block y).free ≡ true
    → y ≡ x + header_size + (h.block x).size
    → (h.block y).next ≡ head xs
    → AreTiles h.block (y + header_size + (h.block y).size) xs stop
    → let b = record (h.block x) {
      size = (h.block x).size + (header_size + (h.block y).size);
      next = (h.block y).next;
    } in
      Merged (store h x b) h' (y + header_size + (h.block y).size) stop xs ys
      → Merged h h' p stop (x ∷ y ∷ xs) (x ∷ ys)
join_front h h' p stop x y xs ys at free_x free_y behind link rest g =
    let b = record (h.block x) {
      size = (h.block x).size + (header_size + (h.block y).size);
      next = (h.block y).next;
    } in
    let h1 = store h x b in
    let q : ℕ = y + header_size + (h.block y).size in
    let same : h'.block x ≡ b = g.below x (omega arith) ∙ store_same h x b in
    let apart : (a : ℕ) → q ≤ a → h1.block a ≡ h.block a =
      λ a le. store_other h x b a (λ s. absurd (omega (arith, s, le, behind))) in
    record {
      tiles =
          tile h'.block p x ys stop b at same (link ∙ sym g.first)
            (subst (λ r. AreTiles h'.block r ys stop) (omega (arith, behind)) g.tiles);
      first = refl;
      taken = λ a m e. elim m [
        | inl here ↦
            absurd (subst (λ c. (h.block c).free ≡ false → ⊥) (sym here) (λ e. cc (e, free_x)) e)
        | inr (inl here) ↦
            absurd (subst (λ c. (h.block c).free ≡ false → ⊥) (sym here) (λ e. cc (e, free_y)) e)
        | inr (inr m) ↦
            let e' = apart a (AreTiles-above h.block q xs stop a rest m) in
            let (m', s) = g.taken a m (ap (λ c. c.free) e' ∙ e) in (inr m', s ∙ e')
      ];
      still_free = λ a m e m'. elim m' [
        | inl here ↦ ap (λ c. c.free) (ap h'.block here ∙ same) ∙ free_x
        | inr m' ↦
            let far = AreTiles-above h'.block q ys stop a g.tiles m' in
            elim m [
              | inl here ↦ absurd (omega (arith, far, here, behind))
              | inr (inl here) ↦ absurd (omega (arith, far, here))
              | inr (inr m) ↦ g.still_free a m (ap (λ c. c.free) (apart a far) ∙ e) m'
            ]
      ];
      below = λ a lt.
          g.below a (omega (arith, lt, at, behind))
          ∙ store_other h x b a (λ s. absurd (omega (arith, s, lt, at)));
      start = g.start;
      ready = g.ready;
    }
