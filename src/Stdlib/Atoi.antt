-- ===== src/Stdlib/Atoi.antt =====
-- `atoi` of src/libc/stdlib.c reads back the numbers that `fs_list_dir` of drivers/fs.c writes.
use ace_os.Base.{
  ℕ, zero, suc, ◌+◌, ◌-◌, ◌*◌, ◌/◌, ◌%◌, ◌^◌, ◌≤◌, ◌<◌, ◌≡◌, refl, ◌∙◌, true, inl, inr, List, [],
  ◌∷◌, ◌++◌, ◌&&◌, Bool-cases, ◌==◌, leb, arith,
}
use ace_os.Fs.Listing.{last_digits, reversed, size_str}
use ace_os.Fs.Listing.Decimal.{read, read-size_str}
use ace_os.Stdlib.{skip_blanks, digits_loop, signed_digits, atoi}

pub AreDigits : List ℕ → Type 0
AreDigits [] = Unit
AreDigits (c ∷ s) = (0x30 ≤ c) × (c ≤ 0x39) × AreDigits s

AreDigits-append : (s t : List ℕ) → AreDigits s → AreDigits t → AreDigits (s ++ t)
unfolding AreDigits
AreDigits-append [] t h k = k
AreDigits-append (c ∷ s) t (a, b, h) k = (a, b, AreDigits-append s t h k)

reversed-AreDigits : (rounds size : ℕ) → AreDigits (reversed (last_digits rounds size))
unfolding AreDigits last_digits reversed
reversed-AreDigits zero size = tt
reversed-AreDigits (suc rounds) size = elim (Bool-cases (size == 0)) [
  | inl e ↦ rw e tt
  | inr e ↦ rw e (
      AreDigits-append (reversed (last_digits rounds (size / 10))) ((0x30 + size % 10) ∷ [])
        (reversed-AreDigits rounds (size / 10)) (omega arith, omega arith, tt))
]

size_str-AreDigits : (size : ℕ) → AreDigits (size_str size)
unfolding AreDigits size_str
size_str-AreDigits size = elim (Bool-cases (size == 0)) [
  | inl e ↦ rw e (omega arith, omega arith, tt)
  | inr e ↦ rw e (reversed-AreDigits 10 size)
]

-- Reading more digits does not make the number less.
le-read : (n : ℕ) (s : List ℕ) → n ≤ read n s
unfolding read
le-read n [] = omega arith
le-read n (c ∷ s) = omega (arith, le-read (n * 10 + (c - 0x30)) s)

digits_loop-read :
    (n : ℕ) (s : List ℕ) → AreDigits s → read n s < 2 ^ 32 → digits_loop n s ≡ read n s
unfolding digits_loop read AreDigits
digits_loop-read n [] h small = refl
digits_loop-read n (c ∷ s) (a, b, h) small =
    let digit : (leb 0x30 c && leb c 0x39) ≡ true = ground (arith, a, b) in
    let fits : (n * 10 + (c - 0x30)) % 2 ^ 32 ≡ n * 10 + (c - 0x30) =
      omega (arith, small, le-read (n * 10 + (c - 0x30)) s) in
    rw (digit, fits) (digits_loop-read (n * 10 + (c - 0x30)) s h small)

-- A string of digits has no blank and no sign in front.
atoi-read : (s : List ℕ) → AreDigits s → read 0 s < 2 ^ 32 → atoi s ≡ read 0 s
unfolding atoi skip_blanks signed_digits AreDigits
atoi-read [] h small = unfold read in refl
atoi-read (c ∷ s) (a, b, h) small = ground (arith, digits_loop-read 0 (c ∷ s) (a, b, h) small)

-- `atoi` reads the size of a file as `fs_list_dir` writes it back as the size.
pub atoi-size_str : (size : ℕ) → size < 2 ^ 32 → atoi (size_str size) ≡ size
atoi-size_str size small =
    let e = read-size_str size small in
    atoi-read (size_str size) (size_str-AreDigits size) (omega (arith, e, small)) ∙ e
