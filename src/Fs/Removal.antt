-- ===== src/Fs/Removal.antt =====
-- Taking an entry out of its directory in drivers/fs.c keeps the invariant.
use ace_os.Base.{
  ℕ, ◌≤◌, ◌<◌, ◌≡◌, inl, inr, refl, sym, subst, ◌∙◌, true, List, [], ◌∷◌, Bool-cases, ◌==◌, length,
  arith,
}
use ace_os.Libc.Compare.{IsString}
use ace_os.Fs.{Filesystem, remove_entry, unlist}
use ace_os.Fs.Search.{All}
use ace_os.Fs.Names.{
  All-mono, All-every, All-unlist, DistinctNames, Kept, DistinctNames-Kept, DistinctNames-unlist,
}
use ace_os.Fs.Invariant.{files_of, IsListed, IsValid}

length-unlist : (i : ℕ) (l : List ℕ) → length (unlist i l) ≤ length l
unfolding unlist
length-unlist i [] = omega arith
length-unlist i (j ∷ l) = ground (arith, length-unlist i l)

unlist-nil : (i : ℕ) {l : List ℕ} → l ≡ [] → unlist i l ≡ []
unfolding unlist
unlist-nil i e = rw e refl

module _ (fs : Filesystem) (i : ℕ) (v : IsValid fs) where
  abbrev parent : ℕ
  parent = (fs.files i).parent_dir

  abbrev r : Filesystem
  r = remove_entry fs i

  -- The lists of `r`, by a case on the directory.
  by_list :
      (P : ℕ → List ℕ → Type 0)
      → ((d : ℕ) → P d (files_of fs d))
      → P parent (unlist i (files_of fs parent))
      → (d : ℕ) → P d (files_of r d)
  unfolding remove_entry
  by_list P old new d = elim (Bool-cases (d == parent)) [
    | inl s ↦
        let s' : d ≡ parent = ground arith in
        let self : (parent == parent) ≡ true = ground arith in rw (s', files_of, self) new
    | inr s ↦ rw (files_of, s) (old d)
  ]

  same_count : r.file_count ≡ fs.file_count
  unfolding remove_entry
  same_count = refl

  pub kept : (j : ℕ) → Kept fs r j
  unfolding remove_entry
  kept j = elim (Bool-cases (j == i)) [ inl s ↦ rw s (inl refl) | inr s ↦ rw s (inr refl) ]

  same_parent : (j : ℕ) → (r.files j).parent_dir ≡ (fs.files j).parent_dir
  unfolding remove_entry
  same_parent j = elim (Bool-cases (j == i)) [
    | inl s ↦ let s' : j ≡ i = ground arith in rw (s, s') refl
    | inr s ↦ rw s refl
  ]

  lists-Kept : (d : ℕ) → All (Kept fs r) (files_of fs d)
  lists-Kept d = All-every (Kept fs r) (files_of fs d) kept

  still_listed :
      (d : ℕ) → All (λ j. (j < fs.file_count) × ((r.files j).parent_dir ≡ d)) (files_of fs d)
  still_listed d =
      All-mono (λ j. (j < fs.file_count) × ((fs.files j).parent_dir ≡ d))
        (λ j. (j < fs.file_count) × ((r.files j).parent_dir ≡ d)) (files_of fs d)
        (λ j h. (h.0, same_parent j ∙ h.1)) (v.lists.listed d)

  still_distinct : (d : ℕ) → DistinctNames r (files_of fs d)
  still_distinct d = DistinctNames-Kept fs r (files_of fs d) (lists-Kept d) (v.lists.distinct d)

  still-IsString : (j : ℕ) → IsString (r.files j).name
  still-IsString j = elim (kept j) [
    | inl z ↦ subst IsString (sym z) tt
    | inr s ↦ subst IsString (sym s) (v.lists.strings j)
  ]

  remove-IsListed : IsListed r
  remove-IsListed = record {
    listed =
        by_list (λ d l. All (λ j. (j < r.file_count) × ((r.files j).parent_dir ≡ d)) l)
          (λ d.
            subst (λ n. All (λ j. (j < n) × ((r.files j).parent_dir ≡ d)) (files_of fs d))
              (sym same_count) (still_listed d))
          (subst
            (λ n.
              All (λ j. (j < n) × ((r.files j).parent_dir ≡ parent))
                (unlist i (files_of fs parent)))
            (sym same_count) (All-unlist _ (files_of fs parent) i (still_listed parent)));
    room =
        by_list (λ d l. length l ≤ 64) v.lists.room
          (omega (arith, length-unlist i (files_of fs parent), v.lists.room parent));
    distinct =
        by_list (λ d l. DistinctNames r l) still_distinct
          (DistinctNames-unlist r (files_of fs parent) i (still_distinct parent));
    strings = still-IsString;
  }

  -- Taking an entry out of its directory and clearing its name keeps the invariant.
  pub remove-IsValid : IsValid r
  unfolding remove_entry
  remove-IsValid = record {
    lists = remove-IsListed;
    some_dir = v.some_dir;
    dirs_in = v.dirs_in;
    entries_in = v.entries_in;
    parents_in = λ d. elim (Bool-cases (d == parent)) [
      | inl s ↦ rw s (v.parents_in parent)
      | inr s ↦ rw s (v.parents_in d)
    ];
    unused =
        by_list (λ d l. fs.dir_count ≤ d → l ≡ []) v.unused (λ h. unlist-nil i (v.unused parent h));
  }
