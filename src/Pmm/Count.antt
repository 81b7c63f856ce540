-- ===== src/Pmm/Count.antt =====
-- Counting and searching the free frames of kernel/pmm.c.
use ace_os.Base.{
  ℕ, zero, suc, ◌+◌, ◌≤◌, ◌<◌, ◌≡◌, refl, ◌≢◌, inl, inr, Bool, true, false, none, some, List, arith,
  if◌then◌else◌, ◌==◌, Bool-cases,
}
use ace_os.Pmm.{is_free, scan}

-- How many of the numbers below `n` pass the test.
unfoldable pub count : (ℕ → Bool) → ℕ → ℕ
count f zero = 0
count f (suc n) = (if f n then 1 else 0) + count f n

pub count-le : (f : ℕ → Bool) (n : ℕ) → count f n ≤ n
unfolding count
count-le f zero = omega arith
count-le f (suc n) = ground (arith, count-le f n)

pub count_same : (f g : ℕ → Bool) (n : ℕ) → ((j : ℕ) → j < n → f j ≡ g j) → count f n ≡ count g n
unfolding count
count_same f g zero h = refl
count_same f g (suc n) h =
    ground (arith, h n (omega arith), count_same f g n (λ j p. h j (omega arith)))

-- One number more passes.
pub count_more :
    (f g : ℕ → Bool) (n i : ℕ)
    → ((j : ℕ) → j ≢ i → f j ≡ g j)
    → i < n
    → f i ≡ true
    → g i ≡ false
    → count f n ≡ suc (count g n)
unfolding count
count_more f g zero i h p hf hg = absurd (omega arith)
count_more f g (suc n) i h p hf hg = elim (Bool-cases (n == i)) [
  | inl e ↦
      let e' : n ≡ i = ground arith in
      rw e' (rw (hf, hg) (ground (arith, count_same f g i (λ j q. h j (omega arith)))))
  | inr ne ↦ ground (arith, h n (ground arith), count_more f g n i h (ground arith) hf hg)
]

pub count-pos : (f : ℕ → Bool) (n : ℕ) → 0 < count f n → (i : ℕ) × (i < n) × (f i ≡ true)
unfolding count
count-pos f zero h = absurd (omega arith)
count-pos f (suc n) h = elim (Bool-cases (f n)) [
  | inl e ↦ (n, omega arith, e)
  | inr e ↦ let (i, p, q) = count-pos f n (ground arith) in (i, omega arith, q)
]

pub count_all : (f : ℕ → Bool) (n : ℕ) → ((j : ℕ) → j < n → f j ≡ true) → count f n ≡ n
unfolding count
count_all f zero h = refl
count_all f (suc n) h = ground (arith, h n (omega arith), count_all f n (λ j p. h j (omega arith)))

-- The loop of `pmm_alloc_frame` stops at the first free frame of its range.
pub scan-some :
    (m : List ℕ) (i n : ℕ) {k : ℕ}
    → scan m i n ≡ some k
    → (i ≤ k) × (k < i + n) × (is_free m k ≡ true) × ((j : ℕ) → i ≤ j → j < k → is_free m j ≡ false)
unfolding scan
scan-some m i zero e = absurd (ground arith)
scan-some m i (suc n) {k} e = elim (Bool-cases (is_free m i)) [
  | inl f ↦
      let e' : i ≡ k = ground arith in
      (omega arith, omega arith, rw (← e') f, λ j p q. absurd (omega arith))
  | inr f ↦
      let (a, b, c, d) = scan-some m (i + 1) n {k = k} (ground arith) in
      (
        omega arith,
        omega arith,
        c,
        λ j p q. elim (Bool-cases (i == j)) [
          | inl s ↦ let s' : i ≡ j = ground arith in rw (← s') f
          | inr s ↦ d j (ground arith) q
        ],
      )
]

pub scan-none :
    (m : List ℕ) (i n : ℕ) → scan m i n ≡ none → (j : ℕ) → i ≤ j → j < i + n → is_free m j ≡ false
unfolding scan
scan-none m i zero e j p q = absurd (omega arith)
scan-none m i (suc n) e j p q = elim (Bool-cases (is_free m i)) [
  | inl f ↦ absurd (ground arith)
  | inr f ↦ elim (Bool-cases (i == j)) [
    | inl s ↦ let s' : i ≡ j = ground arith in rw (← s') f
    | inr s ↦ scan-none m (i + 1) n (ground arith) j (ground arith) (omega arith)
  ]
]

pub count-zero : (f : ℕ → Bool) (n i : ℕ) → count f n ≡ 0 → i < n → f i ≡ false
unfolding count
count-zero f zero i e h = absurd (omega arith)
count-zero f (suc n) i e h = elim (Bool-cases (i == n)) [
  | inl s ↦ let s' : i ≡ n = ground arith in rw s' (ground arith)
  | inr s ↦ count-zero f n i (ground arith) (ground arith)
]
