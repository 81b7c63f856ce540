-- ===== src/Stdlib/Malloc/Tiles.antt =====
-- src/libc/stdlib.c: the blocks of the list fill the heap.
use ace_os.Base.{
  ℕ, ◌+◌, ◌*◌, ◌≤◌, ◌≡◌, ◌≢◌, ◌⊎◌, inl, inr, refl, true, false, List, [], ◌∷◌, length, ◌==◌, arith,
}
use ace_os.Stdlib.Malloc.{MemoryBlock, MemoryHeap, header_size, store}

-- The pointer to a list of blocks.
abbrev pub head : List ℕ → ℕ
head [] = 0
head (x ∷ xs) = x

abbrev pub Among : ℕ → List ℕ → Type 0
Among a [] = ⊥
Among a (x ∷ xs) = (a ≡ x) ⊎ Among a xs

-- The blocks are linked in the order of the list and stand one behind the other from `p` to `stop`.
abbrev pub AreTiles : (ℕ → MemoryBlock) → (p : ℕ) → List ℕ → (stop : ℕ) → Type 0
AreTiles block p [] stop = p ≡ stop
AreTiles block p (x ∷ xs) stop =
    (x ≡ p) × ((block x).next ≡ head xs) × AreTiles block (x + header_size + (block x).size) xs stop

-- Headers below `p` do not matter.
pub AreTiles-cong :
    (block block' : ℕ → MemoryBlock) (p : ℕ) (xs : List ℕ) (stop : ℕ)
    → ((a : ℕ) → p ≤ a → block' a ≡ block a)
    → AreTiles block p xs stop
    → AreTiles block' p xs stop
AreTiles-cong block block' p [] stop same t = t
AreTiles-cong block block' p (x ∷ xs) stop same (at, link, rest) =
    let e : block' x ≡ block x = same x (omega (arith, at)) in
    rw e (
      at,
      link,
      AreTiles-cong block block' (x + header_size + (block x).size) xs stop
          (λ a le. same a (omega (arith, at, le))) rest,
    )

-- The blocks stand between `p` and `stop`.
pub AreTiles-le :
    (block : ℕ → MemoryBlock) (p : ℕ) (xs : List ℕ) (stop : ℕ)
    → AreTiles block p xs stop
    → p + header_size * length xs ≤ stop
AreTiles-le block p [] stop t = omega (arith, t)
AreTiles-le block p (x ∷ xs) stop (at, link, rest) =
    omega (arith, at, AreTiles-le block (x + header_size + (block x).size) xs stop rest)

pub AreTiles-above :
    (block : ℕ → MemoryBlock) (p : ℕ) (xs : List ℕ) (stop a : ℕ)
    → AreTiles block p xs stop
    → Among a xs
    → p ≤ a
AreTiles-above block p [] stop a t m = absurd m
AreTiles-above block p (x ∷ xs) stop a (at, link, rest) (inl e) = omega (arith, at, e)
AreTiles-above block p (x ∷ xs) stop a (at, link, rest) (inr m) =
    omega (arith, at, AreTiles-above block (x + header_size + (block x).size) xs stop a rest m)

pub store_same : (h : MemoryHeap) (a : ℕ) (b : MemoryBlock) → (store h a b).block a ≡ b
store_same h a b = let same : (a == a) ≡ true = ground arith in rw same refl

pub store_other :
    (h : MemoryHeap) (a : ℕ) (b : MemoryBlock) (x : ℕ) → x ≢ a → (store h a b).block x ≡ h.block x
store_other h a b x apart = let other : (x == a) ≡ false = ground (arith, apart) in rw other refl

-- A list with a first block that is known.
pub tile :
    (block : ℕ → MemoryBlock) (p x : ℕ) (xs : List ℕ) (stop : ℕ) (b : MemoryBlock)
    → x ≡ p
    → block x ≡ b
    → b.next ≡ head xs
    → AreTiles block (x + header_size + b.size) xs stop
    → AreTiles block p (x ∷ xs) stop
tile block p x xs stop b at e link rest = rw e (at, link, rest)

pub AreTiles-inside :
    (block : ℕ → MemoryBlock) (p : ℕ) (xs : List ℕ) (stop a : ℕ)
    → AreTiles block p xs stop
    → Among a xs
    → a + header_size + (block a).size ≤ stop
AreTiles-inside block p [] stop a t m = absurd m
AreTiles-inside block p (x ∷ xs) stop a (at, link, rest) (inl e) =
    rw e (omega (arith, AreTiles-le block (x + header_size + (block x).size) xs stop rest))
AreTiles-inside block p (x ∷ xs) stop a (at, link, rest) (inr m) =
    AreTiles-inside block (x + header_size + (block x).size) xs stop a rest m
