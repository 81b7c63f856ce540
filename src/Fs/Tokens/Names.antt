-- ===== src/Fs/Tokens/Names.antt =====
-- The names that drivers/fs.c takes out of paths are strings of at most 31 characters.
use ace_os.Base.{
  ℕ, zero, suc, ◌≤◌, ◌≡◌, refl, List, [], ◌∷◌, Option, none, some, Bool-cases, inl, inr, length,
  take, arith,
}
use ace_os.Libc.{strchr}
use ace_os.Libc.Compare.{IsString}
use ace_os.Fs.Tokens.{
  slash, is_delim, skip_delims, cut_token, start_token, fs_strtok, collect_parts, fs_parse_path,
  last_part, fs_get_filename,
}

abbrev IsStringOption : Option (List ℕ) → Type 0
IsStringOption none = Unit {0}
IsStringOption (some s) = IsString s

abbrev pub AreStrings : List (List ℕ) → Type 0
AreStrings [] = Unit {0}
AreStrings (s ∷ l) = IsString s × AreStrings l

IsString-take : (n : ℕ) (s : List ℕ) → IsString s → IsString (take n s)
IsString-take zero s h = tt
IsString-take (suc n) [] h = tt
IsString-take (suc n) (c ∷ s) (nz, h) = (nz, IsString-take n s h)

skip_delims-IsString : (delim s : List ℕ) → IsString s → IsString (skip_delims delim s)
unfolding skip_delims
skip_delims-IsString delim [] h = tt
skip_delims-IsString delim (c ∷ s) (nz, h) = elim (Bool-cases (is_delim delim c)) [
  | inl e ↦ rw e (skip_delims-IsString delim s h)
  | inr e ↦ rw e (nz, h)
]

cut_token-IsString :
    (delim s : List ℕ)
    → IsString s
    → IsString (cut_token delim s).0 × IsStringOption (cut_token delim s).1
unfolding cut_token
cut_token-IsString delim [] h = (tt, tt)
cut_token-IsString delim (c ∷ s) (nz, h) =
    let later = cut_token-IsString delim s h in
    elim (Bool-cases (is_delim delim c)) [
      | inl e ↦ rw e (tt, h)
      | inr e ↦ rw e ((nz, later.0), later.1)
    ]

abbrev AreTokens : Option (List ℕ) × Option (List ℕ) → Type 0
AreTokens (token, last_token) = IsStringOption token × IsStringOption last_token

start_token-IsString : (delim s : List ℕ) → IsString s → AreTokens (start_token delim s)
start_token-IsString delim [] h = (tt, tt)
start_token-IsString delim (c ∷ s) h = cut_token-IsString delim (c ∷ s) h

fs_strtok-IsString :
    (str : Option (List ℕ)) (delim : List ℕ) (last_token : Option (List ℕ))
    → IsStringOption str
    → IsStringOption last_token
    → AreTokens (fs_strtok str delim last_token)
unfolding fs_strtok
fs_strtok-IsString (some s) delim last_token h k =
    start_token-IsString delim (skip_delims delim s) (skip_delims-IsString delim s h)
fs_strtok-IsString none delim none h k = (tt, tt)
fs_strtok-IsString none delim (some s) h k =
    start_token-IsString delim (skip_delims delim s) (skip_delims-IsString delim s k)

collect_parts-AreStrings :
    (room : ℕ) (token last_token : Option (List ℕ))
    → IsStringOption token
    → IsStringOption last_token
    → AreStrings (collect_parts room token last_token)
unfolding collect_parts
collect_parts-AreStrings zero token last_token h k = tt
collect_parts-AreStrings (suc room) none last_token h k = tt
collect_parts-AreStrings (suc room) (some token) last_token h k =
    let next = fs_strtok-IsString none (slash ∷ []) last_token tt k in
    (h, collect_parts-AreStrings room _ _ next.0 next.1)

last_part-IsString : (parts : List (List ℕ)) → AreStrings parts → IsString (last_part parts)
last_part-IsString [] h = tt
last_part-IsString (s ∷ []) (h, _) = h
last_part-IsString (s ∷ t ∷ l) (_, h) = last_part-IsString (t ∷ l) h

length-take_le : (n : ℕ) (s : List ℕ) → length (take n s) ≤ n
length-take_le zero s = omega arith
length-take_le (suc n) [] = omega arith
length-take_le (suc n) (c ∷ s) = omega (arith, length-take_le n s)

pub fs_parse_path-AreStrings : (path : List ℕ) → IsString path → AreStrings (fs_parse_path path)
unfolding fs_parse_path
fs_parse_path-AreStrings path h =
    let first =
      fs_strtok-IsString (some (take 256 path)) (slash ∷ []) none (IsString-take 256 path h) tt in
    collect_parts-AreStrings 256 _ _ first.0 first.1

pub fs_get_filename-IsString :
    (path : List ℕ)
    → IsString path
    → IsString (fs_get_filename path) × (length (fs_get_filename path) ≤ 31)
unfolding fs_get_filename
fs_get_filename-IsString path h = (
  IsString-take 31 _ (last_part-IsString (fs_parse_path path) (fs_parse_path-AreStrings path h)),
  length-take_le 31 (last_part (fs_parse_path path)),
)

-- The root has no name.
pub fs_get_filename-nil : fs_get_filename [] ≡ []
unfolding fs_get_filename fs_parse_path fs_strtok skip_delims collect_parts
fs_get_filename-nil = refl

pub fs_get_filename-slash : fs_get_filename (slash ∷ []) ≡ []
unfolding fs_get_filename fs_parse_path fs_strtok skip_delims collect_parts strchr
fs_get_filename-slash = refl
