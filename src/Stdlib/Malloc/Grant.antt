-- ===== src/Stdlib/Malloc/Grant.antt =====
-- src/libc/stdlib.c: how `malloc` changes a list of blocks from the block that it takes on.
use ace_os.Base.{
  ℕ, ◌+◌, ◌-◌, ◌^◌, ◌≤◌, ◌<◌, ◌≡◌, ◌≢◌, inl, inr, refl, sym, ap, subst, ◌∙◌, true, false, List, ◌∷◌,
  Bool-cases, leb, arith,
}
use ace_os.Base.Words.{add32}
use ace_os.Stdlib.Malloc.{MemoryBlock, MemoryHeap, header_size, store, take_block}
use ace_os.Stdlib.Malloc.Tiles.{
  head, Among, AreTiles, AreTiles-cong, AreTiles-le, AreTiles-above, store_same, store_other, tile,
}

-- Block `x` of the list `xs` was free and is given away with at least `size` bytes; the list is
-- `xs'` then, and the other blocks are as they were.
pub record Granted (h h' : MemoryHeap) (p stop size : ℕ) (xs xs' : List ℕ) (x : ℕ) : Type 0 where
  pub tiles : AreTiles h'.block p xs' stop
  pub first : head xs' ≡ head xs
  pub was_free : Among x xs × ((h.block x).free ≡ true)
  pub is_taken : Among x xs' × ((h'.block x).free ≡ false) × (size ≤ (h'.block x).size)
  pub others : (a : ℕ) → Among a xs → a ≢ x → Among a xs' × (h'.block a ≡ h.block a)
  pub below : (a : ℕ) → a < p → h'.block a ≡ h.block a
  pub start : h'.free_list ≡ h.free_list
  pub ready : h'.heap_initialized ≡ h.heap_initialized

module _ (h : MemoryHeap) (p stop size x : ℕ) (xs : List ℕ) (t : AreTiles h.block p (x ∷ xs) stop)
    (free : (h.block x).free ≡ true) (enough : size ≤ (h.block x).size) where
  -- The block is given away whole.
  abbrev whole : MemoryHeap
  whole = store h x (record (h.block x) { free = false })

  whole-Granted : Granted h whole p stop size (x ∷ xs) (x ∷ xs) x
  whole-Granted =
      let (at, link, rest) = t in
      let b = h.block x in
      let taken : MemoryBlock = record b { free = false } in
      let at_x : whole.block x ≡ taken = store_same h x taken in
      let tail =
        AreTiles-cong h.block whole.block (x + header_size + b.size) xs stop
          (λ a le. store_other h x taken a (λ q. absurd (omega (arith, q, le)))) rest in
      record {
        tiles = tile whole.block p x xs stop taken at at_x link tail;
        first = refl;
        was_free = (inl refl, free);
        is_taken = (inl refl, ap (λ c. c.free) at_x, rw at_x enough);
        others = λ a m other. (m, store_other h x taken a other);
        below = λ a lt. store_other h x taken a (λ q. absurd (omega (arith, q, lt, at)));
        start = refl;
        ready = refl;
      }

  -- The block is split, with its rest at `y`.
  abbrev y : ℕ
  y = x + header_size + size

  abbrev second : MemoryBlock
  second = record {
    size = (h.block x).size - size - header_size;
    free = true;
    next = (h.block x).next;
  }

  abbrev taken : MemoryBlock
  taken = record { size = size; free = false; next = y }

  abbrev halved : MemoryHeap
  halved = store (store h y second) x taken

  halved-apart : (a : ℕ) → a ≢ x → a ≢ y → halved.block a ≡ h.block a
  halved-apart a p q = store_other (store h y second) x taken a p ∙ store_other h y second a q

  halved-tiles : size + header_size ≤ (h.block x).size → AreTiles halved.block p (x ∷ y ∷ xs) stop
  halved-tiles room =
      let (at, link, rest) = t in
      let b = h.block x in
      let at_x = store_same (store h y second) x taken in
      let at_y : halved.block y ≡ second =
        store_other (store h y second) x taken y (λ q. absurd (omega (arith, q)))
        ∙ store_same h y second in
      let same : (a : ℕ) → x + header_size + b.size ≤ a → halved.block a ≡ h.block a = λ a le.
        halved-apart a (λ q. absurd (omega (arith, q, le)))
          (λ q. absurd (omega (arith, q, le, room))) in
      let tail : AreTiles halved.block (y + header_size + second.size) xs stop =
        subst (λ q. AreTiles halved.block q xs stop) (omega (arith, room))
          (AreTiles-cong h.block halved.block (x + header_size + b.size) xs stop same rest) in
      tile halved.block p x (y ∷ xs) stop taken at at_x refl
        (tile halved.block y y xs stop second refl at_y link tail)

  halved-Granted :
      size + header_size ≤ (h.block x).size → Granted h halved p stop size (x ∷ xs) (x ∷ y ∷ xs) x
  halved-Granted room =
      let (at, link, rest) = t in
      let q : ℕ = x + header_size + (h.block x).size in
      let at_x : halved.block x ≡ taken = store_same (store h y second) x taken in
      record {
        tiles = halved-tiles room;
        first = refl;
        was_free = (inl refl, free);
        is_taken = (inl refl, ap (λ c. c.free) at_x, rw at_x (omega arith));
        others = λ a m other. elim m [
          | inl e ↦ absurd (other e)
          | inr m ↦
              let far = AreTiles-above h.block q xs stop a rest m in
              (inr (inr m), halved-apart a other (λ e. absurd (omega (arith, e, far, room))))
        ];
        below = λ a lt.
            halved-apart a (λ e. absurd (omega (arith, e, lt, at)))
              (λ e. absurd (omega (arith, e, lt, at)));
        start = refl;
        ready = refl;
      }

  pub take_block-Granted :
      stop + 16 ≤ 2 ^ 32
      → 0 < x
      → (xs' : List ℕ) × Granted h (take_block h x size) p stop size (x ∷ xs) xs' x
  unfolding take_block
  take_block-Granted fits pos =
      let (at, link, rest) = t in
      let b = h.block x in
      let bound = AreTiles-le h.block (x + header_size + b.size) xs stop rest in
      let no_wrap : add32 (add32 size header_size) 16 ≡ size + header_size + 16 =
        omega (arith, bound, enough, fits) in
      elim (Bool-cases (leb (size + header_size + 16) b.size)) [
        | inl e ↦ rw (no_wrap, e) (x ∷ y ∷ xs, halved-Granted (ground arith))
        | inr e ↦ rw (no_wrap, e) (x ∷ xs, whole-Granted)
      ]

-- A block in front of the list.
pub later-Granted :
    (h h' : MemoryHeap) (p stop size x y : ℕ) (xs ys : List ℕ)
    → x ≡ p
    → (h.block x).next ≡ head xs
    → AreTiles h.block (x + header_size + (h.block x).size) xs stop
    → Granted h h' (x + header_size + (h.block x).size) stop size xs ys y
    → Granted h h' p stop size (x ∷ xs) (x ∷ ys) y
later-Granted h h' p stop size x y xs ys at link rest g =
    let b = h.block x in
    let q : ℕ = x + header_size + b.size in
    let same : h'.block x ≡ b = g.below x (omega arith) in
    record {
      tiles = tile h'.block p x ys stop b at same (link ∙ sym g.first) g.tiles;
      first = refl;
      was_free = (inr g.was_free.0, g.was_free.1);
      is_taken = (inr g.is_taken.0, g.is_taken.1, g.is_taken.2);
      others = λ a m other. elim m [
        | inl e ↦ (inl e, rw e same)
        | inr m ↦ let (m', e) = g.others a m other in (inr m', e)
      ];
      below = λ a lt. g.below a (omega (arith, lt, at));
      start = g.start;
      ready = g.ready;
    }
