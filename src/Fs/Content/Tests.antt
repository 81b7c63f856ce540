-- ===== src/Fs/Content/Tests.antt =====
-- Runs of the functions on contents in drivers/fs.c.
use ace_os.Base.{ℕ, ◌+◌, ◌<◌, ◌≡◌, ◌⊎◌, inl, inr, refl, true, false, List, [], ◌∷◌, some, arith}
use ace_os.Libc.{strcmp, strchr}
use ace_os.Fs.Blocks.{Allocator}
use ace_os.Fs.Tokens.{
  fs_parse_path, fs_get_filename, fs_strtok, skip_delims, cut_token, collect_parts,
}
use ace_os.Fs.{
  World, found, fs_init, fs_mkdir, fs_create, fs_find, fs_find_parent_dir, walk, find_entry,
}
use ace_os.Fs.Invariant.{IsValid}
use ace_os.Fs.Content.{fs_write, fs_read, fs_copy, fs_move, drop_data, fill_data}
use ace_os.Fs.Content.RoundTrip.{fitting, block_after, read-write}
use ace_os.Fs.Content.Errors.{move_error}
use ace_os.Fs.Content.Reach.{init, mkdir, create, write, Reach-IsValid}

-- A heap that only grows.
abbrev bump : Allocator
bump = record { State = ℕ; malloc = λ h n. (h, h + n); free = λ h p. h }

-- "/f" has 8 bytes at 0x5000.
abbrev with_f : World bump
with_f = record {
  fs = record {
    initialized = true;
    dir_count = 1;
    file_count = 1;
    directories = λ d. record { name = 0x2f ∷ []; parent_dir = 0; files = 0 ∷ [] };
    files = λ i. record {
      name = 102 ∷ [];
      kind = 0;
      attributes = 0;
      size = 8;
      data_pointer = 0x5000;
      parent_dir = 0;
      creation_time = 0;
    };
  };
  heap = 0x6000;
  memory = λ x. x;
}

abbrev path_f : List ℕ
path_f = 0x2f ∷ 102 ∷ []

f_is_there : fs_find with_f.fs path_f ≡ found 0
unfolding fs_find fs_find_parent_dir walk find_entry strcmp strchr fs_parse_path fs_get_filename
    fs_strtok skip_delims cut_token collect_parts
f_is_there = refl

-- 12 bytes need a new block.
new_block : block_after with_f path_f 0 0x100 12 ≡ 0x6000
unfolding fs_write drop_data fill_data fs_find fs_find_parent_dir walk find_entry strcmp strchr
    fs_parse_path fs_get_filename fs_strtok skip_delims cut_token collect_parts
new_block = refl

read-write_example :
    let (done, w1) = fs_write with_f path_f 0x100 12 in
    let (result, w2) = fs_read w1 path_f 0x200 5 in
    ((done ≡ false) × ((bump.malloc (drop_data with_f 0 12).heap 12).0 ≡ 0))
    ⊎ ((done ≡ true)
        × (result ≡ some (fitting 12 5))
        × ((k : ℕ) → k < fitting 12 5 → w2.memory (0x200 + k) ≡ with_f.memory (0x100 + k)))
read-write_example =
    read-write with_f path_f 0 0x100 12 0x200 5 refl f_is_there refl
      (inr (omega (arith, new_block))) (inl (omega (arith, new_block)))

-- "/f" is its own destination.
move_error_example :
    (fs_copy with_f path_f path_f ≡ (false, with_f))
    × (fs_move with_f path_f path_f ≡ (false, with_f))
move_error_example = move_error with_f path_f path_f (inr (rw f_is_there refl))

-- "/d" and "/d/f" of 3 bytes.
Reach-IsValid_example :
    IsValid
      (fs_write
        (fs_create {A = bump}
          (record { fs = (fs_mkdir fs_init.0 (0x2f ∷ 100 ∷ [])).1; heap = 0x6000; memory = λ x. x })
          (0x2f ∷ 100 ∷ 0x2f ∷ 102 ∷ [])
          3).1
        (0x2f ∷ 100 ∷ 0x2f ∷ 102 ∷ [])
        0x100
        20).1.fs
Reach-IsValid_example = Reach-IsValid (
    write (0x2f ∷ 100 ∷ 0x2f ∷ 102 ∷ []) 0x100 20 (
      create (0x2f ∷ 100 ∷ 0x2f ∷ 102 ∷ []) 3 (omega arith)
        (mkdir (0x2f ∷ 100 ∷ []) (omega arith) (init 0x6000 (λ x. x)))))
