-- ===== src/Libc/Tests.antt =====
-- Runs of src/libc/string.c.
use ace_os.Base.{ℕ, ◌%◌, ◌≡◌, arith, if◌then◌else◌, leb, ltb, ◌&&◌, List, [], ◌∷◌}
use ace_os.Libc.{Memory, memmove}
use ace_os.Libc.Copy.{memmove_lem}
use ace_os.Libc.Compare.{IsString}

-- Byte `x` holds `x` modulo 256.
abbrev ramp : Memory
ramp x = x % 256

-- The ranges overlap: the copy goes down.
memmove_lem_example :
    memmove 12 10 5 ramp 13 ≡ (if leb 12 13 && ltb 13 17 then ramp 11 else ramp 13)
memmove_lem_example = memmove_lem 12 10 5 ramp 13

abbrev hello : List ℕ
hello = 104 ∷ 101 ∷ 108 ∷ 108 ∷ 111 ∷ []

abbrev lo : List ℕ
lo = 108 ∷ 111 ∷ []

hello-IsString : IsString hello
hello-IsString = omega arith

lo-IsString : IsString lo
lo-IsString = omega arith
