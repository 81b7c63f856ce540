-- ===== src/Base/Bits.antt =====
-- The bits of a machine word: what `&`, `|` and `1 << i` do to each of them.
use Prim.Native.Nat.{
  ℕ, zero, suc, ◌+◌, ◌-◌, ◌*◌, ◌/◌, ◌%◌, ◌^◌, ◌≤◌, ◌<◌, min, max, bit_and, bit_or, digits,
  bit_and-bitwise, bit_or-bitwise,
}
use mathlib.Core.Path.{◌≡◌, refl}
use mathlib.Core.Bool.{true}
use native.Mathlib.Omega.{arith}
use native.Mathlib.Nat.{pow-suc}
use ace_os.Base.Tests.{◌==◌, ==_iff, if◌then◌else◌, holds_below, holds_below-lt}

-- Bit `i` of `w`, 0 or 1.
pub bit : ℕ → ℕ → ℕ
bit zero w = w % 2
bit (suc i) w = bit i (w / 2)

pub bit-zero : (i : ℕ) → bit i 0 ≡ 0
unfolding bit
bit-zero zero = refl
bit-zero (suc i) = bit-zero i

pub bit-le-one : (i w : ℕ) → bit i w ≤ 1
unfolding bit
bit-le-one zero w = omega arith
bit-le-one (suc i) w = bit-le-one i (w / 2)

-- Both operations run over the binary digits, lowest first, with one function on two digits and
-- one for what is left when the first number has run out. Their bits follow at once.
module _ (rest : ℕ → ℕ) (op : ℕ → ℕ → ℕ) (bit-rest : (i b : ℕ) → bit i (rest b) ≡ op 0 (bit i b))
    (digit : (x y : ℕ) → op (x % 2) (y % 2) < 2) where
  bit-digits : (i n a b : ℕ) → a < n + 1 → bit i (digits rest op n a b) ≡ op (bit i a) (bit i b)
  unfolding bit
  bit-digits i zero zero b h = rw bit-zero (bit-rest i b)
  bit-digits i zero (suc a) b h = absurd (omega arith)
  bit-digits i (suc n) zero b h = rw bit-zero (bit-rest i b)
  bit-digits zero (suc n) (suc a) b h = omega (arith, digit (suc a) b)
  bit-digits (suc i) (suc n) (suc a) b h =
      let low = digit (suc a) b in
      let high = digits rest op n (suc a / 2) (b / 2) in
      let shifted : (high * 2 + op (suc a % 2) (b % 2)) / 2 ≡ high = omega arith in
      rw shifted (bit-digits i n (suc a / 2) (b / 2) (omega arith))

pub bit-bit_and : (i a b : ℕ) → bit i (bit_and a b) ≡ min (bit i a) (bit i b)
bit-bit_and i a b = rw bit_and-bitwise (
    bit-digits (λ b. zero) min (λ j c. omega (arith, bit-zero j)) (λ x y. omega arith) i a a b
      (omega arith))

pub bit-bit_or : (i a b : ℕ) → bit i (bit_or a b) ≡ max (bit i a) (bit i b)
bit-bit_or i a b =
    rw bit_or-bitwise
      (bit-digits (λ b. b) max (λ j c. omega arith) (λ x y. omega arith) i a a b (omega arith))

pub pow-pos : (i : ℕ) → 0 < 2 ^ i
pow-pos zero = omega arith
pow-pos (suc i) = omega (arith, pow-suc 2 i, pow-pos i)

-- `w & (1 << i)` is the bit in its place.
none_left : (n a : ℕ) → digits (λ b. zero) min n a 0 ≡ 0
none_left zero a = refl
none_left (suc n) zero = refl
none_left (suc n) (suc a) = omega (arith, none_left n (suc a / 2))

one_digit : (i n a : ℕ) → a < n + 1 → digits (λ b. zero) min n a (2 ^ i) ≡ bit i a * 2 ^ i
unfolding bit
one_digit i zero zero h = rw bit-zero (omega arith)
one_digit i zero (suc a) h = absurd (omega arith)
one_digit i (suc n) zero h = rw bit-zero (omega arith)
one_digit zero (suc n) (suc a) h = omega (arith, none_left n (suc a / 2))
one_digit (suc i) (suc n) (suc a) h =
    let half : 2 ^ suc i / 2 ≡ 2 ^ i = omega (arith, pow-suc 2 i) in
    let even : 2 ^ suc i % 2 ≡ 0 = omega (arith, pow-suc 2 i) in
    let later = one_digit i n (suc a / 2) (omega arith) in
    rw (half, even, later) (grind (arith, pow-suc 2 i))

bit_and-pow : (i w : ℕ) → bit_and w (2 ^ i) ≡ bit i w * 2 ^ i
bit_and-pow i w = rw bit_and-bitwise (one_digit i w w (omega arith))

-- The test `w & (1 << i)` reads bit `i`.
pub mask_test : (i w : ℕ) → (bit_and w (2 ^ i) == 0) ≡ (bit i w == 0)
mask_test i w = grind (arith, bit_and-pow i w, bit-le-one i w, pow-pos i)

-- The bits of `1 << j` and of `~(1 << j)` in a 32-bit word.
pow_table :
    holds_below 32 (λ i. holds_below 32 (λ j. bit i (2 ^ j) == (if i == j then 1 else 0))) ≡ true
unfolding holds_below bit
pow_table = refl

pub bit-pow : (i j : ℕ) → i < 32 → j < 32 → bit i (2 ^ j) ≡ (if i == j then 1 else 0)
bit-pow i j hi hj = (==_iff _ _).0 (holds_below-lt 32 _ j (holds_below-lt 32 _ i pow_table hi) hj)

not_pow_table :
    holds_below 32
      (λ i. holds_below 32 (λ j. bit i (2 ^ 32 - 1 - 2 ^ j) == (if i == j then 0 else 1)))
    ≡ true
unfolding holds_below bit
not_pow_table = refl

pub bit-not-pow :
    (i j : ℕ) → i < 32 → j < 32 → bit i (2 ^ 32 - 1 - 2 ^ j) ≡ (if i == j then 0 else 1)
bit-not-pow i j hi hj =
    (==_iff _ _).0 (holds_below-lt 32 _ j (holds_below-lt 32 _ i not_pow_table hi) hj)
