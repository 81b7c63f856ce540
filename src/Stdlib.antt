-- ===== src/Stdlib.antt =====
-- src/libc/stdlib.c: reading numbers, and pseudo-random numbers. Malloc has the allocator. An
-- `int` is its word; sums wrap.
pub mod Malloc
pub mod Atoi
mod Tests
use ace_os.Base.{
  ℕ, ◌+◌, ◌-◌, ◌*◌, ◌/◌, ◌%◌, ◌^◌, Bool, true, false, ◌&&◌, ◌||◌, List, [], ◌∷◌, if◌then◌else◌,
  ◌==◌, leb,
}

-- ' ', '\t' or '\n'.
abbrev pub is_blank : ℕ → Bool
is_blank c = c == 0x20 || (c == 0x09 || c == 0x0a)

-- `while (*nptr == ' ' || ...) nptr++`.
pub skip_blanks : List ℕ → List ℕ
skip_blanks [] = []
skip_blanks (c ∷ s) = let rest = skip_blanks s in if is_blank c then rest else c ∷ s

-- The loop over the digits.
pub digits_loop : ℕ → List ℕ → ℕ
digits_loop result [] = result
digits_loop result (c ∷ s) =
    let later = digits_loop ((result * 10 + (c - 0x30)) % 2 ^ 32) s in
    if leb 0x30 c && leb c 0x39 then later else result

-- The sign, and the digits behind it.
pub signed_digits : List ℕ → ℕ
signed_digits [] = 0
signed_digits (c ∷ s) =
    if c == 0x2d
    then (2 ^ 32 - digits_loop 0 s) % 2 ^ 32
    else if c == 0x2b
    then digits_loop 0 s
    else digits_loop 0 (c ∷ s)

pub atoi : List ℕ → ℕ
atoi nptr = signed_digits (skip_blanks nptr)

abbrev pub rand_max : ℕ
rand_max = 32767

pub srand : ℕ → ℕ
srand seed = seed

-- The number, and the new `next`.
pub rand : ℕ → ℕ × ℕ
rand next =
    let next' : ℕ = (next * 1103515245 + 12345) % 2 ^ 32 in (next' / 65536 % (rand_max + 1), next')
