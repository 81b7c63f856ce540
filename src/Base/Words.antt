-- ===== src/Base/Words.antt =====
-- The words of C's 32-bit `int` and `uint32_t`: an `int` is kept as its two's complement, and the
-- tests on its sign are written out.
use Prim.Native.Nat.{ℕ, ◌+◌, ◌-◌, ◌*◌, ◌%◌, ◌^◌}
use mathlib.Core.Bool.{Bool}
use ace_os.Base.Tests.{ltb, leb, if◌then◌else◌}

abbrev pub add32 : ℕ → ℕ → ℕ
add32 a b = (a + b) % 2 ^ 32

abbrev pub sub32 : ℕ → ℕ → ℕ
sub32 a b = (a + 2 ^ 32 - b) % 2 ^ 32

-- `-a`.
abbrev pub neg32 : ℕ → ℕ
neg32 a = (2 ^ 32 - a) % 2 ^ 32

abbrev pub mul32 : ℕ → ℕ → ℕ
mul32 a b = a * b % 2 ^ 32

-- `a < 0` of an `int`.
abbrev pub is_negative : ℕ → Bool
is_negative a = leb (2 ^ 31) a

-- `a < b` of two `int`s.
abbrev pub less : ℕ → ℕ → Bool
less a b = ltb ((a + 2 ^ 31) % 2 ^ 32) ((b + 2 ^ 31) % 2 ^ 32)

-- The rounds of `for (int i = 0; i < n; i++)`.
abbrev pub rounds : ℕ → ℕ
rounds n = if is_negative n then 0 else n
