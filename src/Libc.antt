-- ===== src/Libc.antt =====
-- src/libc/string.c: the memory and string functions.
-- A memory is a function from addresses to bytes. A C string is the list of its characters up to
-- the NUL, none of them 0; reading past the end gives the NUL.
pub mod Copy
pub mod Compare
pub mod Search
pub mod Last
mod Tests
use ace_os.Base.{
  ℕ, zero, suc, ◌+◌, ◌-◌, ◌%◌, Bool, true, false, not, ◌&&◌, ◌||◌, Option, none, some, List, [],
  ◌∷◌, ◌++◌, if◌then◌else◌, ◌==◌, ltb, leb, length, take, drop, replicate,
}

abbrev pub Memory : Type 0
Memory = ℕ → ℕ

abbrev pub poke : Memory → ℕ → ℕ → Memory
poke m a v x = if x == a then v else m x

-- `for (i = k; i < k + n; i++) d[i] = s[i]`.
pub copy_up : ℕ → ℕ → ℕ → ℕ → Memory → Memory
copy_up d s k zero m = m
copy_up d s k (suc n) m = copy_up d s (k + 1) n (poke m (d + k) (m (s + k)))

-- `for (i = n; i > 0; i--) d[i-1] = s[i-1]`.
pub copy_down : ℕ → ℕ → ℕ → Memory → Memory
copy_down d s zero m = m
copy_down d s (suc n) m = copy_down d s n (poke m (d + n) (m (s + n)))

pub memcpy : ℕ → ℕ → ℕ → Memory → Memory
memcpy d s n m = copy_up d s 0 n m

pub memmove : ℕ → ℕ → ℕ → Memory → Memory
memmove d s n m = if ltb d s then copy_up d s 0 n m else if ltb s d then copy_down d s n m else m

pub fill_up : ℕ → ℕ → ℕ → ℕ → Memory → Memory
fill_up p value k zero m = m
fill_up p value k (suc n) m = fill_up p value (k + 1) n (poke m (p + k) value)

pub memset : ℕ → ℕ → ℕ → Memory → Memory
memset p c n m = fill_up p (c % 256) 0 n m

-- The `int` result: the difference of the first bytes that differ, by its sign and size.
pub data Difference : Type 0 where
  same : Difference
  below : ℕ → Difference
  above : ℕ → Difference

abbrev pub difference : ℕ → ℕ → Difference
difference a b = if a == b then same else if ltb a b then below (b - a) else above (a - b)

pub memcmp_loop : ℕ → ℕ → ℕ → ℕ → Memory → Difference
memcmp_loop p q k zero m = same
memcmp_loop p q k (suc n) m =
    let later = memcmp_loop p q (k + 1) n m in
    if m (p + k) == m (q + k) then later else difference (m (p + k)) (m (q + k))

pub memcmp : ℕ → ℕ → ℕ → Memory → Difference
memcmp p q n m = memcmp_loop p q 0 n m

-- The address of the first such byte, `none` for NULL.
pub memchr_loop : ℕ → ℕ → ℕ → ℕ → Memory → Option ℕ
memchr_loop p value k zero m = none
memchr_loop p value k (suc n) m =
    let later = memchr_loop p value (k + 1) n m in
    if m (p + k) == value then some (p + k) else later

pub memchr : ℕ → ℕ → ℕ → Memory → Option ℕ
memchr p c n m = memchr_loop p (c % 256) 0 n m

unfoldable pub strlen : List ℕ → ℕ
strlen [] = 0
strlen (c ∷ s) = suc (strlen s)

unfoldable pub strcmp : List ℕ → List ℕ → Difference
strcmp [] [] = same
strcmp [] (b ∷ t) = difference 0 b
strcmp (a ∷ s) [] = difference a 0
strcmp (a ∷ s) (b ∷ t) = let later = strcmp s t in if a == b then later else difference a b

pub strncmp : List ℕ → List ℕ → ℕ → Difference
strncmp s t zero = same
strncmp [] [] (suc n) = same
strncmp [] (b ∷ t) (suc n) = difference 0 b
strncmp (a ∷ s) [] (suc n) = difference a 0
strncmp (a ∷ s) (b ∷ t) (suc n) =
    let later = strncmp s t n in if a == b then later else difference a b

-- The `n` bytes that `strncpy` writes: the string, cut or filled up with NULs.
pub strncpy : List ℕ → ℕ → List ℕ
strncpy s zero = []
strncpy [] (suc n) = 0 ∷ strncpy [] n
strncpy (c ∷ s) (suc n) = c ∷ strncpy s n

-- The offset of the character, the NUL's for 0.
unfoldable pub strchr : List ℕ → ℕ → Option ℕ
strchr [] c = if c == 0 then some 0 else none
strchr (a ∷ s) c =
    let later : Option ℕ = elim (strchr s c) [ none ↦ none | some i ↦ some (i + 1) ] in
    if a == c then some 0 else later

-- The loop of `strrchr` at offset `i`, with the last hit so far.
pub strrchr_loop : List ℕ → ℕ → ℕ → Option ℕ → Option ℕ
strrchr_loop [] c i last = if 0 == c then some i else last
strrchr_loop (a ∷ s) c i last = strrchr_loop s c (i + 1) (if a == c then some i else last)

pub strrchr : List ℕ → ℕ → Option ℕ
strrchr s c = strrchr_loop s (c % 256) 0 none

abbrev pub is_same : Difference → Bool
is_same same = true
is_same (below n) = false
is_same (above n) = false

abbrev pub first_char : List ℕ → ℕ
first_char [] = 0
first_char (c ∷ s) = c

-- The loop of `strstr` at offset `i`.
pub strstr_loop : List ℕ → List ℕ → ℕ → Option ℕ
strstr_loop [] needle i = none
strstr_loop (c ∷ s) needle i =
    let later = strstr_loop s needle (i + 1) in
    if c == first_char needle && is_same (strncmp (c ∷ s) needle (strlen needle))
    then some i
    else later

pub strstr : List ℕ → List ℕ → Option ℕ
strstr haystack needle = if strlen needle == 0 then some 0 else strstr_loop haystack needle 0
