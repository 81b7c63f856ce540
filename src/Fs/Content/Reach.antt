-- ===== src/Fs/Content/Reach.antt =====
-- Every state of the file system that calls to drivers/fs.c can reach.
use ace_os.Base.{
  ℕ, ◌<◌, ◌≡◌, inl, inr, refl, sym, ap, ◌∙◌, subst, Bool, true, false, not, ◌&&◌, ◌||◌, List,
  Bool-cases, if◌then◌else◌, ◌==◌, arith,
}
use ace_os.Libc.{Memory, memcpy}
use ace_os.Libc.Compare.{IsString}
use ace_os.Fs.Blocks.{Allocator}
use ace_os.Fs.{
  World, Entry, Filesystem, set_entry, fs_init, fs_find, fs_mkdir, fs_create, fs_delete,
  fs_type_file, exists,
}
use ace_os.Fs.Names.{All-mono, All-every, Kept, DistinctNames-Kept}
use ace_os.Fs.Invariant.{files_of, IsValid}
use ace_os.Fs.Outcomes.{Found-cases}
use ace_os.Fs.Calls.{init-IsValid, mkdir-IsValid, create-IsValid, delete-IsValid}
use ace_os.Fs.Content.{
  fill_file, set_data, drop_data, fill_data, fs_write, copy_data, fs_copy, fs_move,
}

-- Another size or block for an entry keeps the invariant.
module _ (fs : Filesystem) (i : ℕ) (e : Entry) (v : IsValid fs) (name : e.name ≡ (fs.files i).name)
    (parent : e.parent_dir ≡ (fs.files i).parent_dir) where
  same_name : (j : ℕ) → ((set_entry fs i e).files j).name ≡ (fs.files j).name
  same_name j = elim (Bool-cases (j == i)) [
    | inl s ↦ let s' : j ≡ i = ground arith in rw s (name ∙ ap (λ k. (fs.files k).name) (sym s'))
    | inr s ↦ rw s refl
  ]

  same_parent : (j : ℕ) → ((set_entry fs i e).files j).parent_dir ≡ (fs.files j).parent_dir
  same_parent j = elim (Bool-cases (j == i)) [
    | inl s ↦
        let s' : j ≡ i = ground arith in rw s (parent ∙ ap (λ k. (fs.files k).parent_dir) (sym s'))
    | inr s ↦ rw s refl
  ]

  set_entry-IsValid : IsValid (set_entry fs i e)
  set_entry-IsValid = record {
    lists = record {
      listed = λ d.
          All-mono (λ j. (j < fs.file_count) × ((fs.files j).parent_dir ≡ d))
            (λ j. (j < fs.file_count) × (((set_entry fs i e).files j).parent_dir ≡ d))
            (files_of fs d) (λ j h. (h.0, same_parent j ∙ h.1)) (v.lists.listed d);
      room = v.lists.room;
      distinct = λ d.
          DistinctNames-Kept fs (set_entry fs i e) (files_of fs d)
            (All-every (Kept fs (set_entry fs i e)) (files_of fs d) (λ j. inr (same_name j)))
            (v.lists.distinct d);
      strings = λ j. subst IsString (sym (same_name j)) (v.lists.strings j);
    };
    some_dir = v.some_dir;
    dirs_in = v.dirs_in;
    entries_in = v.entries_in;
    parents_in = v.parents_in;
    unused = v.unused;
  }

module _ {A : Allocator} where
  set_data-IsValid : (w : World A) (i p : ℕ) → IsValid w.fs → IsValid (set_data w i p).fs
  set_data-IsValid w i p v = set_entry-IsValid w.fs i _ v refl refl

  fill_file-IsValid :
      (w : World A) (i from size : ℕ) → IsValid w.fs → IsValid (fill_file w i from size).fs
  fill_file-IsValid w i from size v = set_entry-IsValid w.fs i _ v refl refl

  drop_data-IsValid : (w : World A) (i size : ℕ) → IsValid w.fs → IsValid (drop_data w i size).fs
  unfolding drop_data
  drop_data-IsValid w i size v =
      elim (Bool-cases
        (not ((w.fs.files i).data_pointer == 0) && not ((w.fs.files i).size == size))) [
          | inl e ↦ rw e (set_data-IsValid w i 0 v)
          | inr e ↦ rw e v
        ]

  fill_data-IsValid :
      (w : World A) (i from size : ℕ) → IsValid w.fs → IsValid (fill_data w i from size).1.fs
  unfolding fill_data
  fill_data-IsValid w i from size v = elim (Bool-cases ((w.fs.files i).data_pointer == 0)) [
    | inl e ↦ elim (Bool-cases ((A.malloc w.heap size).0 == 0)) [
      | inl n ↦ rw (e, n) v
      | inr n ↦
          rw (e, n)
            (fill_file-IsValid
              (record (set_data w i (A.malloc w.heap size).0) { heap = (A.malloc w.heap size).1 }) i
              from size (set_data-IsValid w i (A.malloc w.heap size).0 v))
    ]
    | inr e ↦ rw e (fill_file-IsValid w i from size v)
  ]

  write-IsValid :
      (w : World A) (path : List ℕ) (from size : ℕ)
      → IsValid w.fs
      → IsValid (fs_write w path from size).1.fs
  unfolding fs_write
  write-IsValid w path from size v = elim (Bool-cases (not w.fs.initialized)) [
    | inl e ↦ rw e v
    | inr e ↦ elim (Found-cases (fs_find w.fs path)) [
      | inl f ↦ rw (e, f) v
      | inr (inl f) ↦ rw (e, f) v
      | inr (inr (i, f)) ↦ elim (Bool-cases ((w.fs.files i).kind == fs_type_file)) [
        | inl k ↦
            rw (e, f, k)
              (fill_data-IsValid (drop_data w i size) i from size (drop_data-IsValid w i size v))
        | inr k ↦ rw (e, f, k) v
      ]
    ]
  ]

  record Keeps (r : Bool × World A) : Type 0 where
    valid : IsValid r.1.fs

  both : (b : Bool) {x y : Bool × World A} → Keeps x → Keeps y → Keeps (if b then x else y)
  both true h k = h
  both false h k = k

  keeps : (b : Bool) (w : World A) → IsValid w.fs → Keeps (b, w)
  keeps b w v = record { valid = v }

  copy_data-Keeps :
      (w : World A) (i : ℕ) (dest_path : List ℕ) → IsValid w.fs → Keeps (copy_data w i dest_path)
  unfolding copy_data
  copy_data-Keeps w i dest_path v =
      let e = w.fs.files i in
      let (block, heap') = A.malloc w.heap e.size in
      let w1 : World A = record w { heap = heap' } in
      let w2 : World A = record w1 { memory = memcpy block e.data_pointer e.size w1.memory } in
      let w3 = (fs_write w2 dest_path block e.size).1 in
      let w4 : World A = record w3 { heap = A.free w3.heap block } in
      let written : IsValid w4.fs = write-IsValid w2 dest_path block e.size v in
      both _
        (both _ (keeps false _ (delete-IsValid w1 dest_path v))
          (both _ (keeps true w4 written) (keeps false _ (delete-IsValid w4 dest_path written))))
        (keeps true w v)

  pub copy-IsValid :
      (w : World A) (src_path dest_path : List ℕ)
      → IsValid w.fs
      → IsString dest_path
      → IsValid (fs_copy w src_path dest_path).1.fs
  unfolding fs_copy
  copy-IsValid w src dest v s = elim (Bool-cases (not w.fs.initialized)) [
    | inl e ↦ rw e v
    | inr e ↦ elim (Found-cases (fs_find w.fs src)) [
      | inl f ↦ rw (e, f) v
      | inr (inl f) ↦ rw (e, f) v
      | inr (inr (i, f)) ↦
          let created = create-IsValid w dest v (w.fs.files i).size s in
          rw (e, f)
            ((both (not ((w.fs.files i).kind == fs_type_file) || exists (fs_find w.fs dest))
              (keeps false w v)
              (both (fs_create w dest (w.fs.files i).size).0
                (copy_data-Keeps (fs_create w dest (w.fs.files i).size).1 i dest created)
                (keeps false _ created))).valid)
    ]
  ]

  move-Keeps :
      (w : World A) (src_path dest_path : List ℕ)
      → IsValid w.fs
      → IsString dest_path
      → Keeps (fs_move w src_path dest_path)
  unfolding fs_move
  move-Keeps w src dest v s =
      let w1 = (fs_copy w src dest).1 in
      let copied : IsValid w1.fs = copy-IsValid w src dest v s in
      let w2 = (fs_delete w1 src).1 in
      let deleted : IsValid w2.fs = delete-IsValid w1 src copied in
      both _ (keeps false w v) (
        both _ (keeps false w1 copied)
          (both _ (keeps true w2 deleted) (keeps false _ (delete-IsValid w2 dest deleted))))

-- The states after `fs_init` and any calls of the public functions, with NUL-terminated paths.
pub data Reach {A : Allocator} : World A → Type 0 where
  init : (h : A.State) (m : Memory) → Reach (record { fs = fs_init.0; heap = h; memory = m })
  mkdir :
      {w : World A} (path : List ℕ)
      → IsString path
      → Reach w
      → Reach (record w { fs = (fs_mkdir w.fs path).1 })
  create :
      {w : World A} (path : List ℕ) (size : ℕ)
      → IsString path
      → Reach w
      → Reach (fs_create w path size).1
  delete : {w : World A} (path : List ℕ) → Reach w → Reach (fs_delete w path).1
  write :
      {w : World A} (path : List ℕ) (from size : ℕ) → Reach w → Reach (fs_write w path from size).1
  copy :
      {w : World A} (src_path dest_path : List ℕ)
      → IsString dest_path
      → Reach w
      → Reach (fs_copy w src_path dest_path).1
  move :
      {w : World A} (src_path dest_path : List ℕ)
      → IsString dest_path
      → Reach w
      → Reach (fs_move w src_path dest_path).1

-- In every state that calls can reach from `fs_init`, the invariant holds: each directory lists at
-- most 64 entries, which exist, have it for their parent and have no name twice; there are at most
-- 32 directories and fewer than 128 entries more than directories; an unused directory is empty.
pub Reach-IsValid : {A : Allocator} {w : World A} → Reach w → IsValid w.fs
Reach-IsValid (init h m) = init-IsValid
Reach-IsValid (mkdir {w} path s r) = mkdir-IsValid w.fs path (Reach-IsValid r) s
Reach-IsValid (create {w} path size s r) = create-IsValid w path (Reach-IsValid r) size s
Reach-IsValid (delete {w} path r) = delete-IsValid w path (Reach-IsValid r)
Reach-IsValid (write {w} path from size r) = write-IsValid w path from size (Reach-IsValid r)
Reach-IsValid (copy {w} src dest s r) = copy-IsValid w src dest (Reach-IsValid r) s
Reach-IsValid (move {w} src dest s r) = (move-Keeps w src dest (Reach-IsValid r) s).valid
