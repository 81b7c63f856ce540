-- ===== src/Stdlib/Tests.antt =====
-- Runs of src/libc/stdlib.c.
use ace_os.Base.{◌-◌, ◌^◌, ◌≡◌, refl, [], ◌∷◌, arith}
use ace_os.Fs.Listing.{size_str}
use ace_os.Stdlib.{atoi, skip_blanks, signed_digits, digits_loop}
use ace_os.Stdlib.Atoi.{atoi-size_str}

-- " -12x".
negative : atoi (32 ∷ 45 ∷ 49 ∷ 50 ∷ 120 ∷ []) ≡ 2 ^ 32 - 12
unfolding atoi skip_blanks signed_digits digits_loop
negative = refl

atoi-size_str_example : atoi (size_str 205) ≡ 205
atoi-size_str_example = atoi-size_str 205 (omega arith)
