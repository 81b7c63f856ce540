-- ===== src/Fs/Cwd/Tests.antt =====
-- Runs of `fs_change_dir` in drivers/fs.c.
use ace_os.Base.{◌≡◌, refl, true, [], ◌∷◌, arith}
use ace_os.Libc.{strcmp, strchr}
use ace_os.Fs.Tokens.{
  fs_parse_path, fs_get_filename, fs_strtok, skip_delims, cut_token, collect_parts,
}
use ace_os.Fs.{Filesystem, fs_find, fs_find_parent_dir, walk, find_entry}
use ace_os.Fs.Cwd.{dot, fs_change_dir, target_path}
use ace_os.Fs.Cwd.Parent.{IsStep, cd_back}

-- "/d" is a directory.
abbrev with_d : Filesystem
with_d = record {
  initialized = true;
  dir_count = 2;
  file_count = 1;
  directories = λ d. record { name = 100 ∷ []; parent_dir = 0; files = 0 ∷ [] };
  files = λ i. record {
    name = 100 ∷ [];
    kind = 1;
    attributes = 0;
    size = 0;
    data_pointer = 0;
    parent_dir = 0;
    creation_time = 0;
  };
}

d-IsStep : IsStep (100 ∷ [])
d-IsStep = record {
  plain = omega arith;
  named = λ e. cc e;
  not_here = λ e. ground arith;
  not_up = λ e. cc e;
}

went : (fs_change_dir with_d (0x2f ∷ []) (100 ∷ [])).0 ≡ true
unfolding fs_change_dir target_path fs_find fs_find_parent_dir walk find_entry strcmp strchr
    fs_parse_path fs_get_filename fs_strtok skip_delims cut_token collect_parts
went = refl

cd_back_example :
    fs_change_dir with_d (fs_change_dir with_d (0x2f ∷ []) (100 ∷ [])).1 (dot ∷ dot ∷ [])
    ≡ (true, 0x2f ∷ [])
cd_back_example = cd_back with_d (0x2f ∷ []) (100 ∷ []) refl (refl, tt) d-IsStep (omega arith) went
