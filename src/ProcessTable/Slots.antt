-- ===== src/ProcessTable/Slots.antt =====
-- The searches through the process table of kernel/process.c.
use ace_os.Base.{
  ℕ, zero, suc, ◌+◌, ◌≤◌, ◌<◌, ◌≡◌, ◌≢◌, ◌⊎◌, inl, inr, refl, sym, ap, subst, true, false, not,
  ◌&&◌, none, some, ◌==◌, Bool-cases, arith,
}
use ace_os.Pcb.{Table}
use ace_os.ProcessTable.{free_slot, find_pid}

-- The lowest slot that is free, of `n` from `k` on.
pub record Lowest (t : Table) (k n i : ℕ) : Type 0 where
  pub from : k ≤ i
  pub below : i < k + n
  pub free : (t i).state ≡ 0
  pub lowest : (j : ℕ) → k ≤ j → j < i → (t j).state ≢ 0

-- What holds at `k` and above holds from `k` on.
from_first :
    (P : ℕ → Type 0) (k m : ℕ)
    → P k
    → ((j : ℕ) → k + 1 ≤ j → j < m → P j)
    → (j : ℕ) → k ≤ j
    → j < m
    → P j
from_first P k m first later j a b = elim (Bool-cases (j == k)) [
  | inl e ↦ let same : k ≡ j = ground arith in subst P same first
  | inr e ↦ later j (ground arith) b
]

pub free_slot_lem :
    (t : Table) (k n : ℕ)
    → ((free_slot t k n ≡ none) × ((j : ℕ) → k ≤ j → j < k + n → (t j).state ≢ 0))
      ⊎ ((i : ℕ) × (free_slot t k n ≡ some i) × Lowest t k n i)
unfolding free_slot
free_slot_lem t k zero = inl (refl, λ j a b. absurd (omega (arith, a, b)))
free_slot_lem t k (suc n) = elim (Bool-cases ((t k).state == 0)) [
  | inl e ↦ inr (
    k,
    rw e refl,
    record {
      from = omega arith;
      below = omega arith;
      free = ground arith;
      lowest = λ j a b. absurd (omega (arith, a, b));
    },
  )
  | inr e ↦ elim (free_slot_lem t (k + 1) n) [
    | inl (o, full) ↦ inl (
      rw e o,
      λ j a b.
          from_first (λ j. (t j).state ≢ 0) k (k + suc n) (ground arith)
            (λ j a b. full j a (omega (arith, b))) j a b,
    )
    | inr (i, o, low) ↦ inr (
      i,
      rw e o,
      record {
        from = omega (arith, low.from);
        below = omega (arith, low.below);
        free = low.free;
        lowest = from_first (λ j. (t j).state ≢ 0) k i (ground arith) low.lowest;
      },
    )
  ]
]

-- A process in use with the pid is found when it is the only one.
pub find_pid-only :
    (t : Table) (pid i k n : ℕ)
    → k ≤ i
    → i < k + n
    → (t i).pid ≡ pid
    → (t i).state ≢ 0
    → ((j : ℕ) → j ≢ i → (t j).pid ≡ pid → (t j).state ≡ 0)
    → find_pid t pid k n ≡ some i
unfolding find_pid
find_pid-only t pid i k zero a b p s only = absurd (omega (arith, a, b))
find_pid-only t pid i k (suc n) a b p s only = elim (Bool-cases (k == i)) [
  | inl e ↦
      let same : i ≡ k = ground arith in
      let hit : ((t k).pid == pid && not ((t k).state == 0)) ≡ true =
        subst (λ k. ((t k).pid == pid && not ((t k).state == 0)) ≡ true) same
          (ground (arith, p, s)) in
      rw hit (ap (λ j. some j) (sym same))
  | inr e ↦
      let later : find_pid t pid (k + 1) n ≡ some i =
        find_pid-only t pid i (k + 1) n (ground arith) (ground arith) p s only in
      let miss : ((t k).pid == pid && not ((t k).state == 0)) ≡ false =
        ground (arith, only k (ground arith)) in
      rw miss later
]
