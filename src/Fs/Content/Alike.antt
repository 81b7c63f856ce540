-- ===== src/Fs/Content/Alike.antt =====
-- The searches of drivers/fs.c read the names and kinds of entries, not their contents.
use ace_os.Base.{
  ℕ, ◌≡◌, inl, inr, refl, ap, ◌∙◌, List, [], ◌∷◌, Bool-cases, Option-cases, ◌==◌, arith,
}
use ace_os.Fs.{
  Filesystem, Entry, set_entry, find_directory, enter_dir, find_entry, fs_find, fs_find_parent_dir,
}
use ace_os.Fs.Tokens.{fs_get_filename}
use ace_os.Fs.Search.{find_directory-cong, parent-cong}

-- The same directories, and entries of the same names and kinds.
pub record IsAlike (fs fs' : Filesystem) : Type 0 where
  pub up : fs'.initialized ≡ fs.initialized
  pub count : fs'.dir_count ≡ fs.dir_count
  pub dirs : fs'.directories ≡ fs.directories
  pub names : (i : ℕ) → (fs'.files i).name ≡ (fs.files i).name
  pub kinds : (i : ℕ) → (fs'.files i).kind ≡ (fs.files i).kind

pub IsAlike-refl : (fs : Filesystem) → IsAlike fs fs
IsAlike-refl fs = record {
  up = refl;
  count = refl;
  dirs = refl;
  names = λ i. refl;
  kinds = λ i. refl;
}

pub IsAlike-trans : (f g h : Filesystem) → IsAlike f g → IsAlike g h → IsAlike f h
IsAlike-trans f g h a b = record {
  up = b.up ∙ a.up;
  count = b.count ∙ a.count;
  dirs = b.dirs ∙ a.dirs;
  names = λ i. b.names i ∙ a.names i;
  kinds = λ i. b.kinds i ∙ a.kinds i;
}

pub set_entry-IsAlike :
    (fs : Filesystem) (i : ℕ) (e : Entry)
    → e.name ≡ (fs.files i).name
    → e.kind ≡ (fs.files i).kind
    → IsAlike fs (set_entry fs i e)
set_entry-IsAlike fs i e name kind = record {
  up = refl;
  count = refl;
  dirs = refl;
  names = λ j. elim (Bool-cases (j == i)) [
    | inl s ↦ let s' : i ≡ j = ground arith in rw s (name ∙ ap (λ k. (fs.files k).name) s')
    | inr s ↦ rw s refl
  ];
  kinds = λ j. elim (Bool-cases (j == i)) [
    | inl s ↦ let s' : i ≡ j = ground arith in rw s (kind ∙ ap (λ k. (fs.files k).kind) s')
    | inr s ↦ rw s refl
  ];
}

module _ (fs fs' : Filesystem) (a : IsAlike fs fs') where
  same_directory :
      (name : List ℕ) (parent : ℕ)
      → find_directory fs' name parent 0 fs'.dir_count
        ≡ find_directory fs name parent 0 fs.dir_count
  same_directory name parent =
      ap (find_directory fs' name parent 0) a.count
      ∙ find_directory-cong fs fs' name parent 0 fs.dir_count (λ d. ap (λ f. (f d).name) a.dirs)
          (λ d. ap (λ f. (f d).parent_dir) a.dirs)

  same_enter : (d : ℕ) (part l : List ℕ) → enter_dir fs' d part l ≡ enter_dir fs d part l
  unfolding enter_dir
  same_enter d part [] = refl
  same_enter d part (i ∷ l) =
      rw (a.names i, a.kinds i, same_directory part d, same_enter d part l) refl

  same_entry : (name l : List ℕ) → find_entry fs' name l ≡ find_entry fs name l
  unfolding find_entry
  same_entry name [] = refl
  same_entry name (i ∷ l) = rw (a.names i, same_entry name l) refl

  same_step :
      (d : ℕ) (part : List ℕ)
      → enter_dir fs' d part (fs'.directories d).files
        ≡ enter_dir fs d part (fs.directories d).files
  same_step d part = ap (λ f. enter_dir fs' d part (f d).files) a.dirs ∙ same_enter d part _

  pub IsAlike-find : (path : List ℕ) → fs_find fs' path ≡ fs_find fs path
  unfolding fs_find
  IsAlike-find path = elim (Option-cases (fs_find_parent_dir fs path)) [
    | inl p ↦ rw (parent-cong fs fs' path same_step, p) refl
    | inr (d, p) ↦
        let e : find_entry fs' (fs_get_filename path) (fs'.directories d).files
            ≡ find_entry fs (fs_get_filename path) (fs.directories d).files =
          ap (λ f. find_entry fs' (fs_get_filename path) (f d).files) a.dirs ∙ same_entry _ _ in
        rw (parent-cong fs fs' path same_step, p, e) refl
  ]
