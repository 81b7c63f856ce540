-- ===== src/Fs/Calls.antt =====
-- The calls of drivers/fs.c that make and delete entries keep the invariant.
use ace_os.Base.{ℕ, ◌≡◌, ◌≢◌, inl, inr, refl, true, false, some, List, [], ◌∷◌, Bool-cases, arith}
use ace_os.Libc.Compare.{IsString}
use ace_os.Fs.Blocks.{Allocator}
use ace_os.Fs.Tokens.{slash, fs_get_filename}
use ace_os.Fs.Tokens.Names.{fs_get_filename-IsString, fs_get_filename-nil, fs_get_filename-slash}
use ace_os.Fs.{
  Filesystem, World, exists, is_root, fs_init, fs_mkdir, fs_create, fs_delete, fs_find,
  fs_find_parent_dir,
}
use ace_os.Fs.Search.{Absent, parent-lt, find_entry-missing}
use ace_os.Fs.Invariant.{files_of, IsValid}
use ace_os.Fs.Preserve.{add_file-IsValid, add_directory-IsValid, rename-IsValid}
use ace_os.Fs.Outcomes.{IsFree, mkdir_outcome, create_outcome, delete_outcome}
use ace_os.Fs.Removal.{remove-IsValid}

pub init-IsValid : IsValid fs_init.0
unfolding fs_init
init-IsValid = record {
  lists = record {
    listed = λ d. tt;
    room = λ d. omega arith;
    distinct = λ d. tt;
    strings = λ i. tt;
  };
  some_dir = omega arith;
  dirs_in = omega arith;
  entries_in = omega arith;
  parents_in = λ d. omega arith;
  unused = λ d h. refl;
}

root-no_name : (path : List ℕ) → is_root path ≡ true → fs_get_filename path ≡ []
root-no_name [] h = fs_get_filename-nil
root-no_name (c ∷ []) h = let e : c ≡ slash = ground arith in rw e fs_get_filename-slash
root-no_name (c ∷ d ∷ path) h = absurd (cc h)

-- A path that is not found has a name that is new to its directory, or none at all.
pub find-Absent :
    (fs : Filesystem) (path : List ℕ) (parent : ℕ)
    → exists (fs_find fs path) ≡ false
    → fs_find_parent_dir fs path ≡ some parent
    → fs_get_filename path ≢ []
    → Absent fs (fs_get_filename path) (files_of fs parent)
unfolding fs_find
find-Absent fs path parent gone p ne = elim (Bool-cases (is_root path)) [
  | inl e ↦ absurd (ne (root-no_name path e))
  | inr e ↦ find_entry-missing fs (fs_get_filename path) (files_of fs parent) (rw (e, p) at gone)
]

IsFree-Absent :
    {fs : Filesystem} {path : List ℕ} {parent : ℕ}
    → IsFree fs path parent
    → fs_get_filename path ≢ []
    → Absent fs (fs_get_filename path) (files_of fs parent)
IsFree-Absent {fs} {path} {parent} f = find-Absent fs path parent f.gone f.home

pub mkdir-IsValid :
    (fs : Filesystem) (path : List ℕ) → IsValid fs → IsString path → IsValid (fs_mkdir fs path).1
mkdir-IsValid fs path v s = elim (mkdir_outcome fs path) [
  | inl e ↦ rw e v
  | inr (parent, f, few, e) ↦ rw e (
      add_directory-IsValid fs parent (fs_get_filename path) v ((fs_get_filename-IsString path s).0)
        few f.small (parent-lt fs path parent v.some_dir f.home) (IsFree-Absent f))
]

module _ {A : Allocator} (w : World A) (path : List ℕ) (v : IsValid w.fs) where
  pub create-IsValid : (size : ℕ) → IsString path → IsValid (fs_create w path size).1.fs
  create-IsValid size s = elim (create_outcome w path size) [
    | inl (_, e) ↦ rw e v
    | inr (parent, p, f, few, _, e) ↦ rw e (
        add_file-IsValid w.fs parent (fs_get_filename path) size p v
          ((fs_get_filename-IsString path s).0) few f.small
          (parent-lt w.fs path parent v.some_dir f.home) (IsFree-Absent f))
  ]

  pub delete-IsValid : IsValid (fs_delete w path).1.fs
  delete-IsValid = elim (delete_outcome w path) [
    | inl (_, e) ↦ rw e v
    | inr (i, _, _, inl (_, e)) ↦ rw e (remove-IsValid w.fs i v)
    | inr (i, _, _, inr (d, _, e)) ↦ rw e (remove-IsValid _ i (rename-IsValid w.fs d [] v))
  ]
