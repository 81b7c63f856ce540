-- ===== src/Fs/Invariant.antt =====
-- The invariant of the file system of drivers/fs.c, and the steps that keep it.
use ace_os.Base.{
  ℕ, ◌+◌, ◌≤◌, ◌<◌, ◌≡◌, ◌≢◌, inl, inr, refl, sym, ap, subst, ◌∙◌, true, false, List, [], ◌∷◌, ◌++◌,
  Bool-cases, ◌==◌, length, length-append, arith,
}
use ace_os.Libc.Compare.{IsString}
use ace_os.Fs.{Filesystem, Entry, set_entry, list_entry}
use ace_os.Fs.Search.{All, Absent}
use ace_os.Fs.Names.{
  All-mono, All-snoc, DistinctNames, Kept, DistinctNames-Kept, DistinctNames-snoc, Absent-Kept,
}

abbrev pub files_of : Filesystem → ℕ → List ℕ
files_of fs d = (fs.directories d).files

-- What holds of the list of every directory: its entries exist and have it for their parent, there
-- is room for them, and no two of them have one name.
pub record IsListed (fs : Filesystem) : Type 0 where
  pub listed :
      (d : ℕ) → All (λ i. (i < fs.file_count) × ((fs.files i).parent_dir ≡ d)) (files_of fs d)
  pub room : (d : ℕ) → length (files_of fs d) ≤ 64
  pub distinct : (d : ℕ) → DistinctNames fs (files_of fs d)
  pub strings : (i : ℕ) → IsString (fs.files i).name

-- With the counters: `fs_mkdir` does not test `FS_MAX_FILES`, so entries are bounded by both.
pub record IsValid (fs : Filesystem) : Type 0 where
  pub lists : IsListed fs
  pub some_dir : 0 < fs.dir_count
  pub dirs_in : fs.dir_count ≤ 32
  pub entries_in : fs.file_count < 128 + fs.dir_count
  pub parents_in : (d : ℕ) → (fs.directories d).parent_dir < fs.dir_count
  pub unused : (d : ℕ) → fs.dir_count ≤ d → files_of fs d ≡ []

-- A new entry `e`, listed in `parent`.
abbrev pub grow : Filesystem → ℕ → Entry → Filesystem
grow fs parent e =
    list_entry (set_entry (record fs { file_count = fs.file_count + 1 }) fs.file_count e) parent
      fs.file_count

module _ (fs : Filesystem) (parent : ℕ) (e : Entry) where
  pub new_entry : (grow fs parent e).files fs.file_count ≡ e
  new_entry = let s : (fs.file_count == fs.file_count) ≡ true = ground arith in rw s refl

  pub old_entry : (i : ℕ) → i ≢ fs.file_count → (grow fs parent e).files i ≡ fs.files i
  old_entry i ne = let s : (i == fs.file_count) ≡ false = ground arith in rw s refl

  pub longer_list : files_of (grow fs parent e) parent ≡ files_of fs parent ++ (fs.file_count ∷ [])
  longer_list = let s : (parent == parent) ≡ true = ground arith in rw (s, files_of) refl

  pub other_list : (d : ℕ) → d ≢ parent → files_of (grow fs parent e) d ≡ files_of fs d
  other_list d ne = let s : (d == parent) ≡ false = ground arith in rw (s, files_of) refl

module _ (fs : Filesystem) (parent : ℕ) (e : Entry) (v : IsListed fs) (home : e.parent_dir ≡ parent)
    (name : IsString e.name) (small : length (files_of fs parent) < 64)
    (absent : e.name ≢ [] → Absent fs e.name (files_of fs parent)) where
  abbrev g : Filesystem
  g = grow fs parent e

  kept : (d : ℕ) → All (Kept fs g) (files_of fs d)
  kept d =
      All-mono _ _ (files_of fs d)
        (λ i h. inr (ap (λ (x : Entry). x.name) (old_entry fs parent e i (omega (arith, h.0)))))
        (v.listed d)

  listed_kept :
      (d : ℕ) → All (λ i. (i < g.file_count) × ((g.files i).parent_dir ≡ d)) (files_of fs d)
  listed_kept d =
      All-mono _ _ (files_of fs d)
        (λ i h. (
          omega (arith, h.0),
          ap (λ (x : Entry). x.parent_dir) (old_entry fs parent e i (omega (arith, h.0))) ∙ h.1,
        ))
        (v.listed d)

  -- The lists of `g`, by a case on the directory.
  by_list :
      (P : ℕ → List ℕ → Type 0)
      → ((d : ℕ) → P d (files_of fs d))
      → P parent (files_of fs parent ++ (fs.file_count ∷ []))
      → (d : ℕ) → P d (files_of g d)
  by_list P old new d = elim (Bool-cases (d == parent)) [
    | inl s ↦ let s' : d ≡ parent = ground arith in rw (s', longer_list fs parent e) new
    | inr s ↦ rw (other_list fs parent e d (ground arith)) (old d)
  ]

  new_name : (g.files fs.file_count).name ≡ e.name
  new_name = ap (λ (x : Entry). x.name) (new_entry fs parent e)

  new-Absent :
      (g.files fs.file_count).name ≢ [] → Absent g (g.files fs.file_count).name (files_of fs parent)
  new-Absent ne =
      let named : e.name ≢ [] = λ z. ne (new_name ∙ z) in
      subst (λ n. Absent g n (files_of fs parent)) (sym new_name)
        (Absent-Kept fs g e.name (files_of fs parent) named (kept parent) (absent named))

  old_distinct : (d : ℕ) → DistinctNames g (files_of fs d)
  old_distinct d = DistinctNames-Kept fs g (files_of fs d) (kept d) (v.distinct d)

  pub grow-IsListed : IsListed g
  grow-IsListed = record {
    listed =
        by_list (λ d l. All (λ i. (i < g.file_count) × ((g.files i).parent_dir ≡ d)) l) listed_kept
          (All-snoc _ (files_of fs parent) fs.file_count (listed_kept parent)
            (omega arith, ap (λ (x : Entry). x.parent_dir) (new_entry fs parent e) ∙ home));
    room =
        by_list (λ d l. length l ≤ 64) v.room
          (omega (arith, length-append (files_of fs parent) (fs.file_count ∷ [])));
    distinct =
        by_list (λ d l. DistinctNames g l) old_distinct
          (DistinctNames-snoc g (files_of fs parent) fs.file_count (old_distinct parent)
            new-Absent);
    strings = λ i. elim (Bool-cases (i == fs.file_count)) [
      | inl s ↦
          let s' : i ≡ fs.file_count = ground arith in rw s' (subst IsString (sym new_name) name)
      | inr s ↦
          subst (λ (x : Entry). IsString x.name) (sym (old_entry fs parent e i (ground arith)))
            (v.strings i)
    ];
  }
