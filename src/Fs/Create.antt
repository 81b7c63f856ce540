-- ===== src/Fs/Create.antt =====
-- `fs_create` of drivers/fs.c makes its path found.
use ace_os.Base.{
  ℕ, ◌<◌, ◌≡◌, ◌≢◌, ◌⊎◌, inl, inr, refl, sym, ap, ◌∙◌, true, false, List, [], ◌∷◌, ◌++◌, Bool-cases,
  ◌==◌, arith,
}
use ace_os.Fs.Blocks.{Allocator}
use ace_os.Fs.Tokens.{fs_get_filename}
use ace_os.Fs.{
  Filesystem, Entry, World, found, exists, is_root, is_name, fs_create, fs_find, fs_find_parent_dir,
  find_entry, find_directory, enter_dir, add_file, fs_type_directory, fs_type_file,
}
use ace_os.Fs.Search.{All, is_name_refl, find_directory-cong, parent-cong}
use ace_os.Fs.Names.{All-mono}
use ace_os.Fs.Invariant.{
  files_of, IsListed, IsValid, grow, new_entry, old_entry, longer_list, other_list,
}
use ace_os.Fs.Outcomes.{IsFree, create_outcome}

-- The entries of the list are the same in both.
abbrev pub Same : Filesystem → Filesystem → List ℕ → Type 0
Same fs fs' l = All (λ i. fs'.files i ≡ fs.files i) l

pub enter_dir-Same :
    (fs fs' : Filesystem) (d : ℕ) (part l : List ℕ)
    → Same fs fs' l
    → find_directory fs' part d 0 fs'.dir_count ≡ find_directory fs part d 0 fs.dir_count
    → enter_dir fs' d part l ≡ enter_dir fs d part l
unfolding enter_dir
enter_dir-Same fs fs' d part [] s e = refl
enter_dir-Same fs fs' d part (i ∷ l) (h, s) e = rw (h, e, enter_dir-Same fs fs' d part l s e) refl

-- A file is never entered.
pub enter_dir-snoc :
    (fs : Filesystem) (d : ℕ) (part l : List ℕ) (i : ℕ)
    → (fs.files i).kind ≢ fs_type_directory
    → enter_dir fs d part (l ++ (i ∷ [])) ≡ enter_dir fs d part l
unfolding enter_dir
enter_dir-snoc fs d part [] i k =
    let not_dir : ((fs.files i).kind == fs_type_directory) ≡ false = ground arith in rw not_dir refl
enter_dir-snoc fs d part (j ∷ l) i k = rw (enter_dir-snoc fs d part l i k) refl

pub find_entry-Same :
    (fs fs' : Filesystem) (name l : List ℕ)
    → Same fs fs' l
    → find_entry fs' name l ≡ find_entry fs name l
unfolding find_entry
find_entry-Same fs fs' name [] s = refl
find_entry-Same fs fs' name (i ∷ l) (h, s) = rw (h, find_entry-Same fs fs' name l s) refl

find_entry-snoc :
    (fs : Filesystem) (name l : List ℕ) (i : ℕ)
    → exists (find_entry fs name l) ≡ false
    → (fs.files i).name ≡ name
    → find_entry fs name (l ++ (i ∷ [])) ≡ found i
unfolding find_entry
find_entry-snoc fs name [] i h e = rw (e, is_name_refl name) refl
find_entry-snoc fs name (j ∷ l) i h e = elim (Bool-cases (is_name (fs.files j).name name)) [
  | inl m ↦ absurd (cc (rw m at h))
  | inr m ↦ rw m (find_entry-snoc fs name l i (rw m at h) e)
]

-- A new file changes no way through the directories.
module _ (fs : Filesystem) (parent : ℕ) (e : Entry) (v : IsListed fs)
    (file : e.kind ≢ fs_type_directory) where
  abbrev g : Filesystem
  g = grow fs parent e

  pub listed-Same : (d : ℕ) → Same fs g (files_of fs d)
  listed-Same d =
      All-mono (λ i. (i < fs.file_count) × ((fs.files i).parent_dir ≡ d))
        (λ i. g.files i ≡ fs.files i) (files_of fs d)
        (λ i h. old_entry fs parent e i (omega (arith, h.0))) (v.listed d)

  same_directory :
      (part : List ℕ) (d : ℕ)
      → find_directory g part d 0 g.dir_count ≡ find_directory fs part d 0 fs.dir_count
  same_directory part d =
      find_directory-cong fs g part d 0 fs.dir_count
        (λ k. elim (Bool-cases (k == parent)) [
          | inl s ↦
              let s' : parent ≡ k = ground arith in rw s (ap (λ x. (fs.directories x).name) s')
          | inr s ↦ rw s refl
        ])
        (λ k. elim (Bool-cases (k == parent)) [
          | inl s ↦
              let s' : parent ≡ k = ground arith in
              rw s (ap (λ x. (fs.directories x).parent_dir) s')
          | inr s ↦ rw s refl
        ])

  same_step :
      (d : ℕ) (part : List ℕ)
      → enter_dir g d part (files_of g d) ≡ enter_dir fs d part (files_of fs d)
  same_step d part = elim (Bool-cases (d == parent)) [
    | inl s ↦
        let s' : d ≡ parent = ground arith in
        let new : (g.files fs.file_count).kind ≢ fs_type_directory =
          λ k. file (sym (ap (λ (x : Entry). x.kind) (new_entry fs parent e)) ∙ k) in
        ap (λ l. enter_dir g d part l) (ap (λ x. files_of g x) s' ∙ longer_list fs parent e)
        ∙ enter_dir-snoc g d part (files_of fs parent) fs.file_count new
        ∙ ap (λ x. enter_dir g d part (files_of fs x)) (sym s')
        ∙ enter_dir-Same fs g d part (files_of fs d) (listed-Same d) (same_directory part d)
    | inr s ↦
        ap (λ l. enter_dir g d part l) (other_list fs parent e d (ground arith))
        ∙ enter_dir-Same fs g d part (files_of fs d) (listed-Same d) (same_directory part d)
  ]

  pub grow-parent : (path : List ℕ) → fs_find_parent_dir g path ≡ fs_find_parent_dir fs path
  grow-parent path = parent-cong fs g path same_step

  pub grow-find :
      (path : List ℕ)
      → is_root path ≡ false
      → IsFree fs path parent
      → e.name ≡ fs_get_filename path
      → fs_find g path ≡ found fs.file_count
  unfolding fs_find
  grow-find path nr f name =
      let n = fs_get_filename path in
      let old = files_of fs parent in
      let gone : exists (find_entry fs n old) ≡ false = rw (nr, f.home) at f.gone in
      let gone' : exists (find_entry g n old) ≡ false =
        ap exists (find_entry-Same fs g n old (listed-Same parent)) ∙ gone in
      let new : (g.files fs.file_count).name ≡ n =
        ap (λ (x : Entry). x.name) (new_entry fs parent e) ∙ name in
      rw (nr, grow-parent path, f.home)
        (ap (find_entry g n) (longer_list fs parent e)
          ∙ find_entry-snoc g n old fs.file_count gone' new)

abbrev file_entry : Filesystem → ℕ → List ℕ → ℕ → ℕ → Entry
file_entry fs parent name size data_ptr = record (fs.files fs.file_count) {
  name = name;
  kind = fs_type_file;
  size = size;
  data_pointer = data_ptr;
  parent_dir = parent;
  creation_time = 0;
}

added :
    (fs : Filesystem) (parent : ℕ) (name : List ℕ) (size p : ℕ)
    → (add_file fs parent name size p).files fs.file_count ≡ file_entry fs parent name size p
unfolding add_file
added fs parent name size p = new_entry fs parent (file_entry fs parent name size p)

add_file-find :
    (fs : Filesystem) (parent : ℕ) (path : List ℕ) (size p : ℕ)
    → IsListed fs
    → is_root path ≡ false
    → IsFree fs path parent
    → fs_find (add_file fs parent (fs_get_filename path) size p) path ≡ found fs.file_count
unfolding add_file
add_file-find fs parent path size p v nr f =
    grow-find fs parent (file_entry fs parent (fs_get_filename path) size p) v
      (λ k. omega (arith, k)) path nr f refl

-- When `fs_create` returns 0 for a path other than the root, `fs_find` finds the new entry under the
-- path: a file of the given size with the path's name. When it returns -1, the file system is as
-- before.
pub create-find :
    {A : Allocator} (w : World A) (path : List ℕ) (size : ℕ)
    → IsValid w.fs
    → is_root path ≡ false
    → let (done, w') = fs_create w path size in
      ((done ≡ false) × (w'.fs ≡ w.fs))
      ⊎ ((done ≡ true)
          × (fs_find w'.fs path ≡ found w.fs.file_count)
          × ((w'.fs.files w.fs.file_count).kind ≡ fs_type_file)
          × ((w'.fs.files w.fs.file_count).size ≡ size)
          × ((w'.fs.files w.fs.file_count).name ≡ fs_get_filename path))
create-find w path size v nr = elim (create_outcome w path size) [
  | inl same ↦ inl same
  | inr (parent, p, f, few, done, e) ↦ inr (
    done,
    rw e (add_file-find w.fs parent path size p v.lists nr f),
    rw e (ap (λ (x : Entry). x.kind) (added w.fs parent (fs_get_filename path) size p)),
    rw e (ap (λ (x : Entry). x.size) (added w.fs parent (fs_get_filename path) size p)),
    rw e (ap (λ (x : Entry). x.name) (added w.fs parent (fs_get_filename path) size p)),
  )
]
