-- ===== src/Fs/Cwd.antt =====
-- drivers/fs.c: the current directory, a path.
pub mod Parent
mod Tests
use ace_os.Base.{
  ℕ, ◌+◌, ◌-◌, Bool, true, false, not, Option, none, some, List, [], ◌∷◌, ◌++◌, if◌then◌else◌, ◌==◌,
  ltb, take,
}
use ace_os.Libc.{strlen, strrchr, first_char}
use ace_os.Fs.Tokens.{slash, fs_max_path_len}
use ace_os.Fs.{Filesystem, root, missing, found, fs_find, fs_type_directory, is_name}

abbrev pub dot : ℕ
dot = 0x2e

-- `current_directory` holds at most 255 characters.
pub target_path : List ℕ → List ℕ → List ℕ
target_path current_directory path =
    let len = strlen current_directory in
    if first_char path == slash
    then take 255 path
    else if is_name current_directory (slash ∷ [])
    then take 255 (slash ∷ path)
    else if ltb len 255
    then current_directory ++ (slash ∷ take (254 - len) path)
    else current_directory

-- The case "..". `strrchr` finds a slash in every current directory.
pub parent_path : List ℕ → List ℕ
parent_path current_directory =
    if is_name current_directory (slash ∷ [])
    then current_directory
    else elim (strrchr current_directory slash) [
      | none ↦ current_directory
      | some i ↦ if i == 0 then slash ∷ [] else take i current_directory
    ]

-- The result and the new current directory.
pub fs_change_dir : Filesystem → List ℕ → List ℕ → Bool × List ℕ
fs_change_dir fs current_directory path =
    let target = target_path current_directory path in
    if not fs.initialized
    then (false, current_directory)
    else if is_name path (dot ∷ [])
    then (true, current_directory)
    else if is_name path (dot ∷ dot ∷ [])
    then (true, parent_path current_directory)
    else if is_name target (slash ∷ [])
    then (true, slash ∷ [])
    else elim (fs_find fs target) [
      | root ↦ (false, current_directory)
      | missing ↦ (false, current_directory)
      | found i ↦
          if (fs.files i).kind == fs_type_directory
          then (true, target)
          else (false, current_directory)
    ]
