-- ===== src/Libc/Compare.antt =====
-- The string functions of src/libc/string.c that compare, cut and pad.
use ace_os.Base.{
  ℕ, zero, suc, ◌+◌, ◌<◌, ◌≡◌, ◌≢◌, ◌↔◌, refl, ap, true, List, [], ◌∷◌, ◌++◌, inl, inr, Bool-cases,
  arith, ◌==◌, take, replicate,
}
use ace_os.Libc.{same, is_same, strcmp, strncpy}

-- No character of the string is a NUL.
abbrev pub IsString : List ℕ → Type 0
IsString [] = Unit {0}
IsString (c ∷ s) = (c ≢ 0) × IsString s

pub strcmp_self : (s : List ℕ) → strcmp s s ≡ same
unfolding strcmp
strcmp_self [] = refl
strcmp_self (c ∷ s) = ground (arith, strcmp_self s)

strcmp-same : (s t : List ℕ) → IsString s → IsString t → is_same (strcmp s t) ≡ true → s ≡ t
unfolding strcmp
strcmp-same [] [] hs ht h = refl
strcmp-same [] (b ∷ t) hs (nz, ht) h = absurd (ground arith)
strcmp-same (a ∷ s) [] (nz, hs) ht h = absurd (ground arith)
strcmp-same (a ∷ s) (b ∷ t) (na, hs) (nb, ht) h = elim (Bool-cases (a == b)) [
  | inl e ↦
      let e' : a ≡ b = ground arith in
      let rest = strcmp-same s t hs ht (ground arith) in rw (e', rest)
  | inr ne ↦ absurd (ground arith)
]

-- `strcmp` returns 0 exactly for two equal strings.
pub strcmp_lem : (s t : List ℕ) → IsString s → IsString t → (is_same (strcmp s t) ≡ true) ↔ (s ≡ t)
strcmp_lem s t hs ht = (strcmp-same s t hs ht, λ e. rw e (ap is_same (strcmp_self t)))

strncpy-take : (s : List ℕ) (n m : ℕ) → n < m + 1 → strncpy s n ≡ take n (s ++ replicate m 0)
unfolding strncpy
strncpy-take s zero m h = refl
strncpy-take [] (suc n) zero h = absurd (omega arith)
strncpy-take [] (suc n) (suc m) h = ap (λ t. 0 ∷ t) (strncpy-take [] n m (omega arith))
strncpy-take (c ∷ s) (suc n) m h = ap (λ t. c ∷ t) (strncpy-take s n m (omega arith))

-- `strncpy` writes exactly `n` bytes: the first `n` of the string with NULs behind it, so the
-- target has no NUL when the string has `n` characters or more.
strncpy_lem : (s : List ℕ) (n : ℕ) → strncpy s n ≡ take n (s ++ replicate n 0)
strncpy_lem s n = strncpy-take s n n (omega arith)
