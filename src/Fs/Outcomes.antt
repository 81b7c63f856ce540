-- ===== src/Fs/Outcomes.antt =====
-- How the calls of drivers/fs.c that make and delete entries can end.
use ace_os.Base.{
  ℕ, ◌<◌, ◌≡◌, ◌≢◌, ◌⊎◌, inl, inr, refl, Bool, true, false, not, ◌||◌, some, List, [], ◌∷◌,
  Bool-cases, Option-cases, ◌==◌, ltb, leb, length, arith,
}
use ace_os.Fs.Blocks.{Allocator}
use ace_os.Fs.Tokens.{fs_get_filename}
use ace_os.Fs.{
  Filesystem, World, Found, root, missing, found, exists, is_root, fs_mkdir, fs_create, fs_delete,
  fs_find, fs_find_parent_dir, find_directory, add_directory, add_file, remove_entry, set_directory,
  fs_type_directory,
}
use ace_os.Fs.Invariant.{files_of}

pub Found-cases : (r : Found) → (r ≡ root) ⊎ (r ≡ missing) ⊎ ((i : ℕ) × (r ≡ found i))
Found-cases root = inl refl
Found-cases missing = inr (inl refl)
Found-cases (found i) = inr (inr (i, refl))

or_right : (a b : Bool) → (a || b) ≡ false → b ≡ false
or_right true b h = absurd (cc h)
or_right false b h = h

none_listed : (l : List ℕ) → ltb 0 (length l) ≡ false → l ≡ []
none_listed [] h = refl
none_listed (i ∷ l) h = absurd (ground arith)

-- The path has a directory for its parent with room for a new entry, and is not there yet.
pub record IsFree (fs : Filesystem) (path : List ℕ) (parent : ℕ) : Type 0 where
  pub gone : exists (fs_find fs path) ≡ false
  pub home : fs_find_parent_dir fs path ≡ some parent
  pub small : length (files_of fs parent) < 64

pub mkdir_outcome :
    (fs : Filesystem) (path : List ℕ)
    → (fs_mkdir fs path ≡ (false, fs))
      ⊎ ((parent : ℕ) × IsFree fs path parent
          × (fs.dir_count < 32)
          × (fs_mkdir fs path ≡ (true, add_directory fs parent (fs_get_filename path))))
unfolding fs_mkdir
mkdir_outcome fs path = elim (Bool-cases (not fs.initialized || exists (fs_find fs path))) [
  | inl e ↦ inl (rw e refl)
  | inr e ↦ elim (Option-cases (fs_find_parent_dir fs path)) [
    | inl p ↦ inl (rw (e, p) refl)
    | inr (parent, p) ↦ elim (Bool-cases (leb 32 fs.dir_count)) [
      | inl a ↦ inl (rw (e, p, a) refl)
      | inr a ↦ elim (Bool-cases (leb 64 (length (files_of fs parent)))) [
        | inl b ↦ inl (rw (e, p, a, b) refl)
        | inr b ↦ inr (
          parent,
          record { gone = or_right _ _ e; home = p; small = ground arith },
          ground arith,
          rw (e, p, a, b) refl,
        )
      ]
    ]
  ]
]

module _ {A : Allocator} (w : World A) (path : List ℕ) where
  pub create_outcome :
      (size : ℕ)
      → ((fs_create w path size).0 ≡ false) × ((fs_create w path size).1.fs ≡ w.fs)
        ⊎ ((parent data_ptr : ℕ) × IsFree w.fs path parent
            × (w.fs.file_count < 128)
            × ((fs_create w path size).0 ≡ true)
            × ((fs_create w path size).1.fs
                ≡ add_file w.fs parent (fs_get_filename path) size data_ptr))
  unfolding fs_create
  create_outcome size = elim (Bool-cases (not w.fs.initialized || exists (fs_find w.fs path))) [
    | inl e ↦ inl (rw e (refl, refl))
    | inr e ↦ elim (Option-cases (fs_find_parent_dir w.fs path)) [
      | inl p ↦ inl (rw (e, p) (refl, refl))
      | inr (parent, p) ↦ elim (Bool-cases (leb 128 w.fs.file_count)) [
        | inl a ↦ inl (rw (e, p, a) (refl, refl))
        | inr a ↦ elim (Bool-cases (leb 64 (length (files_of w.fs parent)))) [
          | inl b ↦ inl (rw (e, p, a, b) (refl, refl))
          | inr b ↦
              let free : IsFree w.fs path parent = record {
                gone = or_right _ _ e;
                home = p;
                small = ground arith;
              } in
              let few : w.fs.file_count < 128 = ground arith in
              elim (Bool-cases (size == 0)) [
                | inl z ↦
                    inr (parent, 0, free, few, rw (e, p, a, b, z) refl, rw (e, p, a, b, z) refl)
                | inr z ↦ elim (Bool-cases ((A.malloc w.heap size).0 == 0)) [
                  | inl n ↦ inl (rw (e, p, a, b, z, n) (refl, refl))
                  | inr n ↦ inr (
                    parent,
                    (A.malloc w.heap size).0,
                    free,
                    few,
                    rw (e, p, a, b, z, n) refl,
                    rw (e, p, a, b, z, n) refl,
                  )
                ]
              ]
        ]
      ]
    ]
  ]

  -- The state after the entry of a file, or of an empty directory `d`, is taken out.
  pub delete_outcome :
      ((fs_delete w path).0 ≡ false) × ((fs_delete w path).1 ≡ w)
      ⊎ ((i : ℕ) × (fs_find w.fs path ≡ found i)
          × ((fs_delete w path).0 ≡ true)
          × ((((w.fs.files i).kind ≢ fs_type_directory)
                × ((fs_delete w path).1.fs ≡ remove_entry w.fs i))
              ⊎ ((d : ℕ) × (files_of w.fs d ≡ [])
                  × ((fs_delete w path).1.fs
                      ≡ remove_entry
                          (set_directory w.fs d (record (w.fs.directories d) { name = [] }))
                          i))))
  unfolding fs_delete
  delete_outcome = elim (Bool-cases (not w.fs.initialized || is_root path)) [
    | inl e ↦ inl (rw e (refl, refl))
    | inr e ↦ elim (Found-cases (fs_find w.fs path)) [
      | inl f ↦ inl (rw (e, f) (refl, refl))
      | inr (inl f) ↦ inl (rw (e, f) (refl, refl))
      | inr (inr (i, f)) ↦ elim (Bool-cases ((w.fs.files i).kind == fs_type_directory)) [
        | inr k ↦ inr (i, f, rw (e, f, k) refl, inl (ground arith, rw (e, f, k) refl))
        | inl k ↦
            elim (Option-cases (
              find_directory w.fs (w.fs.files i).name (w.fs.files i).parent_dir 0 w.fs.dir_count)) [
                | inl n ↦ inl (rw (e, f, k, n) (refl, refl))
                | inr (d, n) ↦ elim (Bool-cases (ltb 0 (length (files_of w.fs d)))) [
                  | inl l ↦ inl (rw (e, f, k, n, l) (refl, refl))
                  | inr l ↦ inr (
                    i,
                    f,
                    rw (e, f, k, n, l) refl,
                    inr (d, none_listed _ l, rw (e, f, k, n, l) refl),
                  )
                ]
              ]
      ]
    ]
  ]
