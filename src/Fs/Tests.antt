-- ===== src/Fs/Tests.antt =====
-- Runs of drivers/fs.c.
use ace_os.Base.{ℕ, ◌+◌, ◌≡◌, ◌≢◌, ◌⊎◌, refl, true, false, List, [], ◌∷◌, arith}
use ace_os.Libc.{strcmp, strchr}
use ace_os.Fs.Blocks.{Allocator}
use ace_os.Fs.Tokens.{
  fs_parse_path, fs_get_filename, fs_strtok, skip_delims, cut_token, collect_parts,
}
use ace_os.Fs.Tokens.Split.{join, fs_parse_path-join}
use ace_os.Fs.{
  World, missing, found, fs_init, fs_create, fs_delete, fs_find, fs_find_parent_dir, walk,
  find_entry, add_file, fs_type_file, fs_type_directory,
}
use ace_os.Fs.Calls.{init-IsValid, create-IsValid}
use ace_os.Fs.Create.{create-find}
use ace_os.Fs.Delete.{delete-find}

-- A heap that only grows.
abbrev pub bump : Allocator
bump = record { State = ℕ; malloc = λ h n. (h, h + n); free = λ h p. h }

abbrev pub fresh : World bump
fresh = record { fs = fs_init.0; heap = 0x100000; memory = λ x. 0 }

-- "/ab/c" and "/f".
fs_parse_path-join_example :
    fs_parse_path (join ((97 ∷ 98 ∷ []) ∷ (99 ∷ []) ∷ [])) ≡ (97 ∷ 98 ∷ []) ∷ (99 ∷ []) ∷ []
fs_parse_path-join_example =
    fs_parse_path-join ((97 ∷ 98 ∷ []) ∷ (99 ∷ []) ∷ [])
      ((λ e. cc e), omega arith, ((λ e. cc e), omega arith, tt)) (omega arith)

abbrev pub path_f : List ℕ
path_f = 0x2f ∷ 102 ∷ []

create-find_example :
    let (done, w') = fs_create fresh path_f 8 in
    ((done ≡ false) × (w'.fs ≡ fresh.fs))
    ⊎ ((done ≡ true)
        × (fs_find w'.fs path_f ≡ found fresh.fs.file_count)
        × ((w'.fs.files fresh.fs.file_count).kind ≡ fs_type_file)
        × ((w'.fs.files fresh.fs.file_count).size ≡ 8)
        × ((w'.fs.files fresh.fs.file_count).name ≡ fs_get_filename path_f))
create-find_example = create-find fresh path_f 8 init-IsValid refl

abbrev with_f : World bump
with_f = (fs_create fresh path_f 8).1

f_is_there : fs_find with_f.fs path_f ≡ found 0
unfolding fs_find fs_create fs_find_parent_dir walk find_entry fs_init add_file strcmp strchr
    fs_parse_path fs_get_filename fs_strtok skip_delims cut_token collect_parts
f_is_there = refl

f_is_file : (with_f.fs.files 0).kind ≢ fs_type_directory
unfolding fs_create add_file fs_init fs_find fs_find_parent_dir walk find_entry strchr fs_parse_path
    fs_get_filename fs_strtok skip_delims cut_token collect_parts
f_is_file = omega arith

f_has_name : fs_get_filename path_f ≢ []
unfolding strchr fs_parse_path fs_get_filename fs_strtok skip_delims cut_token collect_parts
f_has_name = λ e. cc e

initialized : with_f.fs.initialized ≡ true
unfolding fs_create add_file fs_init fs_find fs_find_parent_dir walk find_entry strchr fs_parse_path
    fs_get_filename fs_strtok skip_delims cut_token collect_parts
initialized = refl

delete-find_example :
    let (done, w') = fs_delete with_f path_f in
    (done ≡ true)
    × (fs_find w'.fs path_f ≡ missing)
    × ((j : ℕ) → j ≢ 0 → w'.fs.files j ≡ with_f.fs.files j)
delete-find_example =
    delete-find with_f path_f 0 (create-IsValid fresh path_f init-IsValid 8 (omega arith))
      initialized (omega arith) f_has_name f_is_there f_is_file
