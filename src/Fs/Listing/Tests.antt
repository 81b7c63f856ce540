-- ===== src/Fs/Listing/Tests.antt =====
-- Runs of `fs_list_dir` in drivers/fs.c.
use ace_os.Base.{◌≡◌, refl, true, some, [], ◌∷◌}
use ace_os.Fs.{Filesystem}
use ace_os.Fs.Listing.{
  fs_list_dir, list_index, add_lines, add_parts, size_str, last_digits, reversed,
}

-- "/f", a file of 205 bytes.
abbrev with_f : Filesystem
with_f = record {
  initialized = true;
  dir_count = 1;
  file_count = 1;
  directories = λ d. record { name = 0x2f ∷ []; parent_dir = 0; files = 0 ∷ [] };
  files = λ i. record {
    name = 102 ∷ [];
    kind = 0;
    attributes = 0;
    size = 205;
    data_pointer = 0x5000;
    parent_dir = 0;
    creation_time = 0;
  };
}

-- A buffer of 10 bytes ends the line behind "f (FILE".
cut_line : fs_list_dir with_f (0x2f ∷ []) 10 ≡ some (102 ∷ 32 ∷ 40 ∷ 70 ∷ 73 ∷ 76 ∷ 69 ∷ [])
unfolding fs_list_dir list_index add_lines add_parts size_str last_digits reversed
cut_line = refl
