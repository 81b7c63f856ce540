-- ===== src/Fs/Listing/Decimal.antt =====
-- The decimal numbers that `fs_list_dir` of drivers/fs.c writes.
use ace_os.Base.{
  ℕ, zero, suc, ◌+◌, ◌-◌, ◌*◌, ◌/◌, ◌%◌, ◌^◌, ◌<◌, ◌≡◌, refl, ◌∙◌, inl, inr, List, [], ◌∷◌, ◌++◌,
  Bool-cases, ◌==◌, arith,
}
use ace_os.Fs.Listing.{last_digits, reversed, size_str}

-- The number that a string of decimal digits stands for, with `n` before it.
unfoldable pub read : ℕ → List ℕ → ℕ
read n [] = n
read n (c ∷ s) = read (n * 10 + (c - 0x30)) s

read_snoc : (n : ℕ) (s : List ℕ) (c : ℕ) → read n (s ++ (c ∷ [])) ≡ read n s * 10 + (c - 0x30)
unfolding read
read_snoc n [] c = refl
read_snoc n (a ∷ s) c = read_snoc (n * 10 + (a - 0x30)) s c

read-digits :
    (rounds size : ℕ) → size < 10 ^ rounds → read 0 (reversed (last_digits rounds size)) ≡ size
unfolding last_digits reversed read
read-digits zero size small = omega (arith, small)
read-digits (suc rounds) size small = elim (Bool-cases (size == 0)) [
  | inl e ↦ rw e (ground arith)
  | inr e ↦
      let before : read 0 (reversed (last_digits rounds (size / 10))) ≡ size / 10 =
        read-digits rounds (size / 10) (omega (arith, small)) in
      rw e (
        read_snoc 0 (reversed (last_digits rounds (size / 10))) (0x30 + size % 10)
        ∙ omega (arith, before))
]

-- The size of a file as `fs_list_dir` writes it reads back as the size.
pub read-size_str : (size : ℕ) → size < 2 ^ 32 → read 0 (size_str size) ≡ size
unfolding size_str read
read-size_str size small = elim (Bool-cases (size == 0)) [
  | inl e ↦ rw e (ground arith)
  | inr e ↦ rw e (read-digits 10 size (omega (arith, small)))
]
