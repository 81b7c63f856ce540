-- ===== src/Fs/Tokens.antt =====
-- drivers/fs.c: `fs_strtok` and the splitting of paths.
-- A string is the list of its characters up to the NUL. `last_token` is the static variable of
-- `fs_strtok`: the string that it points to, `none` for NULL. A NUL written over a delimiter cuts
-- the string there. `fs_parse_path` hands out pointers into its own buffer, which is gone when it
-- returns: the model takes the parts as they were then.
pub mod Split
pub mod Names
use ace_os.Base.{
  ℕ, zero, suc, ◌∷◌, [], List, Option, none, some, Bool, true, false, if◌then◌else◌, ◌==◌, take,
}
use ace_os.Libc.{strchr}

abbrev pub fs_max_filename_len : ℕ
fs_max_filename_len = 32

abbrev pub fs_max_path_len : ℕ
fs_max_path_len = 256

-- '/'.
abbrev pub slash : ℕ
slash = 0x2f

-- `strchr(delim, c)`, for a character that is no NUL.
abbrev pub is_delim : List ℕ → ℕ → Bool
is_delim delim c = elim (strchr delim c) [ none ↦ false | some i ↦ true ]

-- `while (*str && strchr(delim, *str)) str++`.
unfoldable pub skip_delims : List ℕ → List ℕ → List ℕ
skip_delims delim [] = []
skip_delims delim (c ∷ s) = if is_delim delim c then skip_delims delim s else c ∷ s

-- From the start of a token: the token, and `last_token` behind it.
unfoldable pub cut_token : List ℕ → List ℕ → List ℕ × Option (List ℕ)
cut_token delim [] = ([], none)
cut_token delim (c ∷ s) =
    let (token, last_token) = cut_token delim s in
    if is_delim delim c then ([], some s) else (c ∷ token, last_token)

-- The part of `fs_strtok` behind the leading delimiters.
abbrev pub start_token : List ℕ → List ℕ → Option (List ℕ) × Option (List ℕ)
start_token delim [] = (none, none)
start_token delim (c ∷ s) =
    let (token, last_token) = cut_token delim (c ∷ s) in (some token, last_token)

-- The token, and the new `last_token`.
unfoldable pub fs_strtok :
    Option (List ℕ) → List ℕ → Option (List ℕ) → Option (List ℕ) × Option (List ℕ)
fs_strtok (some str) delim last_token = start_token delim (skip_delims delim str)
fs_strtok none delim none = (none, none)
fs_strtok none delim (some str) = start_token delim (skip_delims delim str)

-- The loop of `fs_parse_path`, with the room left in `parts`.
unfoldable pub collect_parts : ℕ → Option (List ℕ) → Option (List ℕ) → List (List ℕ)
collect_parts zero token last_token = []
collect_parts (suc room) none last_token = []
collect_parts (suc room) (some token) last_token =
    let (token', last_token') = fs_strtok none (slash ∷ []) last_token in
    token ∷ collect_parts room token' last_token'

-- A path of 256 characters or more leaves its copy without a NUL; the model ends it there.
unfoldable pub fs_parse_path : List ℕ → List (List ℕ)
fs_parse_path path =
    let (token, last_token) = fs_strtok (some (take fs_max_path_len path)) (slash ∷ []) none in
    collect_parts fs_max_path_len token last_token

-- The last part, empty for none.
abbrev pub last_part : List (List ℕ) → List ℕ
last_part [] = []
last_part (part ∷ []) = part
last_part (part ∷ next ∷ rest) = last_part (next ∷ rest)

unfoldable pub fs_get_filename : List ℕ → List ℕ
fs_get_filename path = take 31 (last_part (fs_parse_path path))
