-- ===== src/Fs/Content/Errors.antt =====
-- What `fs_copy` and `fs_move` of drivers/fs.c refuse.
use ace_os.Base.{ℕ, ◌≡◌, ◌⊎◌, inl, inr, refl, true, false, not, ◌||◌, List, Bool-cases, ◌==◌, arith}
use ace_os.Fs.Blocks.{Allocator}
use ace_os.Fs.{World, Filesystem, Found, root, missing, found, exists, fs_find, fs_type_file}
use ace_os.Fs.Outcomes.{Found-cases}
use ace_os.Fs.Content.{fs_copy, fs_move}

-- The path is there and stands for a file.
abbrev pub IsFile : Filesystem → Found → Type 0
IsFile fs root = ⊥
IsFile fs missing = ⊥
IsFile fs (found i) = (fs.files i).kind ≡ fs_type_file

module _ {A : Allocator} (w : World A) (src_path dest_path : List ℕ) where
  copy_error :
      (IsFile w.fs (fs_find w.fs src_path) → ⊥) ⊎ (exists (fs_find w.fs dest_path) ≡ true)
      → fs_copy w src_path dest_path ≡ (false, w)
  unfolding fs_copy
  copy_error h = elim (Bool-cases (not w.fs.initialized)) [
    | inl e ↦ rw e refl
    | inr e ↦ elim (Found-cases (fs_find w.fs src_path)) [
      | inl f ↦ rw (e, f) refl
      | inr (inl f) ↦ rw (e, f) refl
      | inr (inr (i, f)) ↦
          let refused : (not ((w.fs.files i).kind == fs_type_file)
                || exists (fs_find w.fs dest_path))
              ≡ true =
            elim (rw f at h) [ inl no_file ↦ ground arith | inr there ↦ ground arith ] in
          rw (e, f, refused) refl
    ]
  ]

  -- A source that is not there or is no file, or a destination that is there: `fs_copy` and `fs_move`
  -- return -1 and change nothing.
  pub move_error :
      (IsFile w.fs (fs_find w.fs src_path) → ⊥) ⊎ (exists (fs_find w.fs dest_path) ≡ true)
      → (fs_copy w src_path dest_path ≡ (false, w)) × (fs_move w src_path dest_path ≡ (false, w))
  unfolding fs_move
  move_error h =
      let refused = copy_error h in
      (
        refused,
        elim (Bool-cases (not w.fs.initialized)) [
          | inl e ↦ rw e refl
          | inr e ↦ rw (e, refused) refl
        ],
      )
