-- ===== src/Fs/Preserve.antt =====
-- Making and deleting entries in drivers/fs.c keeps the invariant.
use ace_os.Base.{
  ℕ, ◌≤◌, ◌<◌, ◌≡◌, ◌≢◌, inl, inr, refl, sym, subst, ◌∙◌, true, List, [], Bool-cases, ◌==◌, length,
  arith,
}
use ace_os.Libc.Compare.{IsString}
use ace_os.Fs.{
  Filesystem, Entry, set_directory, add_directory, add_file, fs_type_directory, fs_type_file,
}
use ace_os.Fs.Search.{All, Absent}
use ace_os.Fs.Names.{DistinctNames}
use ace_os.Fs.Invariant.{files_of, IsListed, IsValid, grow, other_list, grow-IsListed}

pub add_file-IsValid :
    (fs : Filesystem) (parent : ℕ) (name : List ℕ) (size data_ptr : ℕ)
    → IsValid fs
    → IsString name
    → fs.file_count < 128
    → length (files_of fs parent) < 64
    → parent < fs.dir_count
    → (name ≢ [] → Absent fs name (files_of fs parent))
    → IsValid (add_file fs parent name size data_ptr)
unfolding add_file
add_file-IsValid fs parent name size p v n few small lt absent =
    let e : Entry = record (fs.files fs.file_count) {
      name = name;
      kind = fs_type_file;
      size = size;
      data_pointer = p;
      parent_dir = parent;
      creation_time = 0;
    } in
    record {
      lists = grow-IsListed fs parent e v.lists refl n small absent;
      some_dir = v.some_dir;
      dirs_in = v.dirs_in;
      entries_in = omega (arith, v.some_dir);
      parents_in = λ d. elim (Bool-cases (d == parent)) [
        | inl s ↦ rw s (v.parents_in parent)
        | inr s ↦ rw s (v.parents_in d)
      ];
      unused = λ d h. other_list fs parent e d (omega arith) ∙ v.unused d h;
    }

abbrev directory_entry : Filesystem → ℕ → List ℕ → Entry
directory_entry fs parent name = record (fs.files fs.file_count) {
  name = name;
  kind = fs_type_directory;
  size = 0;
  parent_dir = parent;
  creation_time = 0;
}

module _ (fs : Filesystem) (parent : ℕ) (name : List ℕ) where
  abbrev g : Filesystem
  g = grow fs parent (directory_entry fs parent name)

  -- Making the directory's own record changes no list.
  pub add_directory-list : (d : ℕ) → files_of (add_directory fs parent name) d ≡ files_of g d
  unfolding add_directory
  add_directory-list d = elim (Bool-cases (d == fs.dir_count)) [
    | inl s ↦
        let s' : d ≡ fs.dir_count = ground arith in
        let self : (fs.dir_count == fs.dir_count) ≡ true = ground arith in
        rw (s', files_of, self) refl
    | inr s ↦ rw (files_of, s) refl
  ]

  add_directory-IsListed : IsListed g → IsListed (add_directory fs parent name)
  unfolding add_directory
  add_directory-IsListed v = record {
    listed = λ d.
        subst (λ l. All (λ i. (i < g.file_count) × ((g.files i).parent_dir ≡ d)) l)
          (sym (add_directory-list d)) (v.listed d);
    room = λ d. subst (λ l. length l ≤ 64) (sym (add_directory-list d)) (v.room d);
    distinct = λ d. subst (λ l. DistinctNames g l) (sym (add_directory-list d)) (v.distinct d);
    strings = v.strings;
  }

  pub add_directory-IsValid :
      IsValid fs
      → IsString name
      → fs.dir_count < 32
      → length (files_of fs parent) < 64
      → parent < fs.dir_count
      → (name ≢ [] → Absent fs name (files_of fs parent))
      → IsValid (add_directory fs parent name)
  unfolding add_directory
  add_directory-IsValid v n few small lt absent = record {
    lists =
        add_directory-IsListed
          (grow-IsListed fs parent (directory_entry fs parent name) v.lists refl n small absent);
    some_dir = omega arith;
    dirs_in = omega arith;
    entries_in = omega (arith, v.entries_in);
    parents_in = λ d. elim (Bool-cases (d == fs.dir_count)) [
      | inl s ↦ rw s (omega arith)
      | inr s ↦ elim (Bool-cases (d == parent)) [
        | inl t ↦ rw (s, t) (omega (arith, v.parents_in parent))
        | inr t ↦ rw (s, t) (omega (arith, v.parents_in d))
      ]
    ];
    unused = λ d h.
        add_directory-list d
        ∙ other_list fs parent (directory_entry fs parent name) d (omega arith)
        ∙ v.unused d (omega arith);
  }

rename-list :
    (fs : Filesystem) (d : ℕ) (name : List ℕ) (e : ℕ)
    → files_of (set_directory fs d (record (fs.directories d) { name = name })) e ≡ files_of fs e
rename-list fs d name e = elim (Bool-cases (e == d)) [
  | inl s ↦
      let s' : e ≡ d = ground arith in
      let self : (d == d) ≡ true = ground arith in rw (s', files_of, self) refl
  | inr s ↦ rw (files_of, s) refl
]

-- Directory `d` gets another name: the state that `fs_delete` goes through.
pub rename-IsValid :
    (fs : Filesystem) (d : ℕ) (name : List ℕ)
    → IsValid fs
    → IsValid (set_directory fs d (record (fs.directories d) { name = name }))
rename-IsValid fs d name v =
    let fs' = set_directory fs d (record (fs.directories d) { name = name }) in
    let same : (e : ℕ) → files_of fs' e ≡ files_of fs e = rename-list fs d name in
    record {
      lists = record {
        listed = λ e.
            subst (λ l. All (λ i. (i < fs.file_count) × ((fs.files i).parent_dir ≡ e)) l)
              (sym (same e)) (v.lists.listed e);
        room = λ e. subst (λ l. length l ≤ 64) (sym (same e)) (v.lists.room e);
        distinct = λ e. subst (λ l. DistinctNames fs l) (sym (same e)) (v.lists.distinct e);
        strings = v.lists.strings;
      };
      some_dir = v.some_dir;
      dirs_in = v.dirs_in;
      entries_in = v.entries_in;
      parents_in = λ e. elim (Bool-cases (e == d)) [
        | inl s ↦ rw s (v.parents_in d)
        | inr s ↦ rw s (v.parents_in e)
      ];
      unused = λ e h. same e ∙ v.unused e h;
    }
