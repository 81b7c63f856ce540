-- ===== src/Fs/Delete.antt =====
-- `fs_delete` of drivers/fs.c makes the path of a file missing.
use ace_os.Base.{
  ℕ, ◌≡◌, ◌≢◌, inl, inr, refl, sym, ap, ◌∙◌, subst, true, false, not, ◌||◌, List, [], ◌∷◌,
  Bool-cases, Option-cases, ◌==◌, arith,
}
use ace_os.Libc.Compare.{IsString, strcmp_lem}
use ace_os.Fs.Blocks.{Allocator}
use ace_os.Fs.Tokens.{fs_get_filename}
use ace_os.Fs.Tokens.Names.{fs_get_filename-IsString}
use ace_os.Fs.{
  Filesystem, World, missing, found, is_root, is_name, fs_delete, fs_find, fs_find_parent_dir,
  find_entry, find_directory, enter_dir, remove_entry, unlist, fs_type_directory,
}
use ace_os.Fs.Search.{
  All, Absent, is_name_refl, find_directory-cong, parent-cong, Absent-find_entry,
}
use ace_os.Fs.Names.{DistinctNames, Absent-Kept, All-every, Kept}
use ace_os.Fs.Invariant.{files_of, IsValid}
use ace_os.Fs.Removal.{remove-IsValid, kept}

find_entry-found :
    (fs : Filesystem) (P : ℕ → Type 0) (name l : List ℕ) (i : ℕ)
    → find_entry fs name l ≡ found i
    → All P l
    → P i × (is_name (fs.files i).name name ≡ true)
unfolding find_entry
find_entry-found fs P name [] i h p = absurd (cc h)
find_entry-found fs P name (j ∷ l) i h (p, ps) =
    elim (Bool-cases (is_name (fs.files j).name name)) [
      | inl m ↦
          let e : j ≡ i = cc (rw m at h) in
          (subst P e p, subst (λ k. is_name (fs.files k).name name ≡ true) e m)
      | inr m ↦ find_entry-found fs P name l i (rw m at h) ps
    ]

-- What is found has the only entry of the name.
found-Absent :
    (fs : Filesystem) (name l : List ℕ) (i : ℕ)
    → find_entry fs name l ≡ found i
    → DistinctNames fs l
    → name ≢ []
    → (fs.files i).name ≡ name
    → Absent fs name (unlist i l)
unfolding find_entry unlist
found-Absent fs name [] i h d ne e = absurd (cc h)
found-Absent fs name (j ∷ l) i h (d, ds) ne e = elim (Bool-cases (is_name (fs.files j).name name)) [
  | inl m ↦
      let same : j ≡ i = cc (rw m at h) in
      let self : (j == i) ≡ true = ground arith in
      let named : (fs.files j).name ≡ name = ap (λ k. (fs.files k).name) same ∙ e in
      rw self (subst (λ n. Absent fs n l) named (d (λ z. ne (sym named ∙ z))))
  | inr m ↦
      let other : (fs.files j).name ≢ name =
        λ q. absurd (ground (arith, rw q at m, is_name_refl name)) in
      let apart : (j == i) ≡ false = ground (arith, other, ap (λ k. (fs.files k).name)) in
      rw apart (other, found-Absent fs name l i (rw m at h) ds ne e)
]

-- A file that is taken out of a list is not missed on the way.
enter_dir-unlist :
    (fs : Filesystem) (d : ℕ) (part l : List ℕ) (i : ℕ)
    → (fs.files i).kind ≢ fs_type_directory
    → enter_dir fs d part (unlist i l) ≡ enter_dir fs d part l
unfolding enter_dir unlist
enter_dir-unlist fs d part [] i k = refl
enter_dir-unlist fs d part (j ∷ l) i k =
    let rest = enter_dir-unlist fs d part l i k in
    elim (Bool-cases (j == i)) [
      | inl s ↦
          let s' : j ≡ i = ground arith in
          let not_dir : ((fs.files i).kind == fs_type_directory) ≡ false = ground arith in
          rw (s, s', not_dir) refl
      | inr s ↦ rw (s, rest) refl
    ]

module _ (fs : Filesystem) (i : ℕ) (v : IsValid fs)
    (file : (fs.files i).kind ≢ fs_type_directory) where
  abbrev r : Filesystem
  r = remove_entry fs i

  abbrev parent : ℕ
  parent = (fs.files i).parent_dir

  cleared : (r.files i).kind ≡ (fs.files i).kind
  unfolding remove_entry
  cleared = let self : (i == i) ≡ true = ground arith in rw self refl

  pub others : (j : ℕ) → j ≢ i → r.files j ≡ fs.files j
  unfolding remove_entry
  others j ne = let s : (j == i) ≡ false = ground arith in rw s refl

  removed_list : files_of r parent ≡ unlist i (files_of fs parent)
  unfolding remove_entry
  removed_list = let s : (parent == parent) ≡ true = ground arith in rw (s, files_of) refl

  other_lists : (d : ℕ) → d ≢ parent → files_of r d ≡ files_of fs d
  unfolding remove_entry
  other_lists d ne = let s : (d == parent) ≡ false = ground arith in rw (s, files_of) refl

  same_directory :
      (part : List ℕ) (d : ℕ)
      → find_directory r part d 0 r.dir_count ≡ find_directory fs part d 0 fs.dir_count
  unfolding remove_entry
  same_directory part d =
      find_directory-cong fs r part d 0 fs.dir_count
        (λ k. elim (Bool-cases (k == parent)) [
          | inl s ↦
              let s' : parent ≡ k = ground arith in rw s (ap (λ x. (fs.directories x).name) s')
          | inr s ↦ rw s refl
        ])
        (λ k. elim (Bool-cases (k == parent)) [
          | inl s ↦
              let s' : parent ≡ k = ground arith in
              rw s (ap (λ x. (fs.directories x).parent_dir) s')
          | inr s ↦ rw s refl
        ])

  same_enter : (d : ℕ) (part l : List ℕ) → enter_dir r d part l ≡ enter_dir fs d part l
  unfolding enter_dir
  same_enter d part [] = refl
  same_enter d part (j ∷ l) =
      let rest = same_enter d part l in
      elim (Bool-cases (j == i)) [
        | inl s ↦
            let s' : j ≡ i = ground arith in
            let a : ((fs.files i).kind == fs_type_directory) ≡ false = ground arith in
            let b : ((r.files i).kind == fs_type_directory) ≡ false = rw cleared a in
            rw (s', a, b) rest
        | inr s ↦ rw (others j (ground arith), same_directory part d, rest) refl
      ]

  same_step :
      (d : ℕ) (part : List ℕ)
      → enter_dir r d part (files_of r d) ≡ enter_dir fs d part (files_of fs d)
  same_step d part = elim (Bool-cases (d == parent)) [
    | inl s ↦
        let s' : d ≡ parent = ground arith in
        rw s' (
          ap (enter_dir r parent part) removed_list
          ∙ same_enter parent part (unlist i (files_of fs parent))
          ∙ enter_dir-unlist fs parent part (files_of fs parent) i file)
    | inr s ↦
        ap (enter_dir r d part) (other_lists d (ground arith)) ∙ same_enter d part (files_of fs d)
  ]

  pub remove-find :
      (path : List ℕ)
      → IsString path
      → fs_get_filename path ≢ []
      → fs_find fs path ≡ found i
      → fs_find r path ≡ missing
  unfolding fs_find
  remove-find path s ne f = elim (Bool-cases (is_root path)) [
    | inl e ↦ absurd (cc (rw e at f))
    | inr e ↦ elim (Option-cases (fs_find_parent_dir fs path)) [
      | inl p ↦ absurd (cc (rw (e, p) at f))
      | inr (d, p) ↦
          let n = fs_get_filename path in
          let string = (fs_get_filename-IsString path s).0 in
          let f' : find_entry fs n (files_of fs d) ≡ found i = rw (e, p) at f in
          let hit = find_entry-found fs _ n (files_of fs d) i f' (v.lists.listed d) in
          let home : parent ≡ d = hit.0.1 in
          let named = (strcmp_lem (fs.files i).name n (v.lists.strings i) string).0 hit.1 in
          let gone = found-Absent fs n (files_of fs d) i f' (v.lists.distinct d) ne named in
          let list =
            ap (files_of r) (sym home) ∙ removed_list ∙ ap (λ x. unlist i (files_of fs x)) home in
          let all_kept = All-every (Kept fs r) (unlist i (files_of fs d)) (kept fs i v) in
          let valid : IsValid r = remove-IsValid fs i v in
          rw (e, parent-cong fs r path same_step, p)
            (ap (find_entry r n) list
              ∙ Absent-find_entry r n (unlist i (files_of fs d)) valid.lists.strings string
                  (Absent-Kept fs r n (unlist i (files_of fs d)) ne all_kept gone))
    ]
  ]

found-is_root :
    (fs : Filesystem) (path : List ℕ) (i : ℕ) → fs_find fs path ≡ found i → is_root path ≡ false
unfolding fs_find
found-is_root fs path i f = elim (Bool-cases (is_root path)) [
  | inl e ↦ absurd (cc (rw e at f))
  | inr e ↦ e
]

-- Deleting a file that is found, by a path with a name, returns 0; then nothing is found under the
-- path, and every other entry is as before.
pub delete-find :
    {A : Allocator} (w : World A) (path : List ℕ) (i : ℕ)
    → IsValid w.fs
    → w.fs.initialized ≡ true
    → IsString path
    → fs_get_filename path ≢ []
    → fs_find w.fs path ≡ found i
    → (w.fs.files i).kind ≢ fs_type_directory
    → let (done, w') = fs_delete w path in
      (done ≡ true)
      × (fs_find w'.fs path ≡ missing)
      × ((j : ℕ) → j ≢ i → w'.fs.files j ≡ w.fs.files j)
unfolding fs_delete
delete-find w path i v up s ne f file =
    let not_dir : ((w.fs.files i).kind == fs_type_directory) ≡ false = ground arith in
    let not_root : is_root path ≡ false = found-is_root w.fs path i f in
    let tests : (not w.fs.initialized || is_root path) ≡ false = ground arith in
    rw (tests, f, not_dir) (refl, remove-find w.fs i v file path s ne f, others w.fs i v file)
