-- ===== src/Libc/Copy.antt =====
-- The memory functions of src/libc/string.c.
use ace_os.Base.{
  ℕ, zero, suc, ◌+◌, ◌-◌, ◌%◌, ◌≤◌, ◌≡◌, ◌⊎◌, sym, ap, ◌∙◌, ◌&&◌, inl, inr, Bool-cases, arith,
  if◌then◌else◌, ◌==◌, ltb, leb,
}
use ace_os.Libc.{Memory, poke, copy_up, copy_down, memcpy, memmove, fill_up, memset}

-- Going up is right when the target starts below the source, or behind its end.
copy_up_lem :
    (d s k n : ℕ) (m : Memory) (x : ℕ)
    → (d ≤ s) ⊎ (s + k + n ≤ d + k)
    → copy_up d s k n m x ≡ (if leb (d + k) x && ltb x (d + k + n) then m (s + (x - d)) else m x)
unfolding copy_up
copy_up_lem d s k zero m x h = ground arith
copy_up_lem d s k (suc n) m x h =
    copy_up_lem d s (k + 1) n (poke m (d + k) (m (s + k))) x (omega arith)
    ∙ elim (Bool-cases (x == d + k)) [
      | inl here ↦ let e : s + k ≡ s + (x - d) = ground arith in ground (arith, ap m e)
      | inr other ↦ elim h [ inl lo ↦ ground arith | inr hi ↦ ground arith ]
    ]

copy_down_lem :
    (d s n : ℕ) (m : Memory) (x : ℕ)
    → s ≤ d
    → copy_down d s n m x ≡ (if leb d x && ltb x (d + n) then m (s + (x - d)) else m x)
unfolding copy_down
copy_down_lem d s zero m x h = ground arith
copy_down_lem d s (suc n) m x h =
    copy_down_lem d s n (poke m (d + n) (m (s + n))) x h ∙ elim (Bool-cases (x == d + n)) [
      | inl here ↦ let e : s + n ≡ s + (x - d) = ground arith in ground (arith, ap m e)
      | inr other ↦ ground arith
    ]

-- `memmove` copies the `n` bytes as they were before the call, whether or not the two ranges
-- overlap, and changes no byte outside the target.
pub memmove_lem :
    (d s n : ℕ) (m : Memory) (x : ℕ)
    → memmove d s n m x ≡ (if leb d x && ltb x (d + n) then m (s + (x - d)) else m x)
unfolding memmove
memmove_lem d s n m x = elim (Bool-cases (ltb d s)) [
  | inl up ↦ rw up (copy_up_lem d s 0 n m x (ground arith) ∙ ground arith)
  | inr nup ↦ elim (Bool-cases (ltb s d)) [
    | inl down ↦ rw (nup, down) (copy_down_lem d s n m x (ground arith))
    | inr eq ↦
        let e : s ≡ d = ground arith in
        rw (nup, eq)
          (elim (Bool-cases (leb d x && ltb x (d + n))) [
            | inl here ↦ let e' : s + (x - d) ≡ x = ground arith in rw (here, e')
            | inr away ↦ rw away
          ])
  ]
]

-- `memcpy` does the same for ranges that do not overlap, or overlap with the target below.
pub memcpy-memmove :
    (d s n : ℕ) (m : Memory) (x : ℕ) → (d ≤ s) ⊎ (s + n ≤ d) → memcpy d s n m x ≡ memmove d s n m x
unfolding memcpy
memcpy-memmove d s n m x h =
    copy_up_lem d s 0 n m x (ground arith) ∙ (ground arith) ∙ sym (memmove_lem d s n m x)

fill_up_lem :
    (p v k n : ℕ) (m : Memory) (x : ℕ)
    → fill_up p v k n m x ≡ (if leb (p + k) x && ltb x (p + k + n) then v else m x)
unfolding fill_up
fill_up_lem p v k zero m x = ground arith
fill_up_lem p v k (suc n) m x = fill_up_lem p v (k + 1) n (poke m (p + k) v) x ∙ ground arith

-- `memset` writes the low byte of `c` to exactly the `n` bytes.
pub memset_lem :
    (p c n : ℕ) (m : Memory) (x : ℕ)
    → memset p c n m x ≡ (if leb p x && ltb x (p + n) then c % 256 else m x)
unfolding memset
memset_lem p c n m x = fill_up_lem p (c % 256) 0 n m x ∙ ground arith
