-- ===== src/Fs/Listing.antt =====
-- drivers/fs.c: `fs_list_dir`.
-- What the buffer holds is the list of the characters written so far; `offset` is its length. The
-- NUL is written behind it.
pub mod Decimal
pub mod Room
mod Tests
use ace_os.Base.{
  ℕ, zero, suc, ◌+◌, ◌-◌, ◌/◌, ◌%◌, ◌^◌, Bool, true, false, not, Option, none, some, List, [], ◌∷◌,
  ◌++◌, if◌then◌else◌, ◌==◌, leb, length,
}
use ace_os.Fs.{
  Filesystem, Entry, Found, root, missing, found, fs_find, fs_type_directory, is_root,
  find_directory,
}

-- The loop that fills `temp`, from the last digit on: a uint32_t has at most 10 digits.
unfoldable pub last_digits : ℕ → ℕ → List ℕ
last_digits zero size = []
last_digits (suc rounds) size =
    let rest = last_digits rounds (size / 10) in if size == 0 then [] else (0x30 + size % 10) ∷ rest

-- The loop that reverses the digits.
unfoldable pub reversed : List ℕ → List ℕ
reversed [] = []
reversed (c ∷ s) = reversed s ++ (c ∷ [])

unfoldable pub size_str : ℕ → List ℕ
size_str size = if size == 0 then 0x30 ∷ [] else reversed (last_digits 10 size)

-- "DIR" or "FILE".
abbrev pub type_str : Entry → List ℕ
type_str e = if e.kind == fs_type_directory then 68 ∷ 73 ∷ 82 ∷ [] else 70 ∷ 73 ∷ 76 ∷ 69 ∷ []

-- ") size: ".
abbrev pub size_prefix : List ℕ
size_prefix = 41 ∷ 32 ∷ 115 ∷ 105 ∷ 122 ∷ 101 ∷ 58 ∷ 32 ∷ []

-- " bytes\n".
abbrev pub suffix : List ℕ
suffix = 32 ∷ 98 ∷ 121 ∷ 116 ∷ 101 ∷ 115 ∷ 10 ∷ []

-- The parts of an entry's line, in order.
abbrev pub line_parts : Entry → List (List ℕ)
line_parts e = e.name ∷ (32 ∷ 40 ∷ []) ∷ type_str e ∷ size_prefix ∷ size_str e.size ∷ suffix ∷ []

-- `if (offset + len >= buffer_size - 1) break;` before each part; `false` after a break.
pub add_parts : ℕ → List ℕ → List (List ℕ) → Bool × List ℕ
add_parts buffer_size text [] = (true, text)
add_parts buffer_size text (part ∷ parts) =
    let rest = add_parts buffer_size (text ++ part) parts in
    if leb ((buffer_size + (2 ^ 32 - 1)) % 2 ^ 32) ((length text + length part) % 2 ^ 32)
    then (false, text)
    else rest

-- The loop over the files of the directory.
pub add_lines : Filesystem → ℕ → List ℕ → List ℕ → List ℕ
add_lines fs buffer_size text [] = text
add_lines fs buffer_size text (i ∷ files) =
    let (fits, text') = add_parts buffer_size text (line_parts (fs.files i)) in
    let rest = add_lines fs buffer_size text' files in if fits then rest else text'

-- The directory to list, `none` for the result -1.
pub list_index : Filesystem → List ℕ → Option ℕ
list_index fs path = if is_root path then some 0 else elim (fs_find fs path) [
  | root ↦ none
  | missing ↦ none
  | found i ↦
      let e = fs.files i in
      if e.kind == fs_type_directory
      then find_directory fs e.name e.parent_dir 0 fs.dir_count
      else none
]

-- What the buffer holds before the NUL, whose length is returned; `none` for -1.
pub fs_list_dir : Filesystem → List ℕ → ℕ → Option (List ℕ)
fs_list_dir fs path buffer_size = if not fs.initialized then none else elim (list_index fs path) [
  | none ↦ none
  | some d ↦ some (add_lines fs buffer_size [] (fs.directories d).files)
]
