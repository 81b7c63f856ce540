-- ===== src/Fs/Content.antt =====
-- drivers/fs.c: the contents of files. A buffer is its address in the memory that file data lies
-- in as well.
pub mod Alike
pub mod RoundTrip
pub mod Errors
mod Tests
pub mod Reach
use ace_os.Base.{
  ℕ, ◌+◌, Bool, true, false, not, ◌&&◌, ◌||◌, Option, none, some, List, [], ◌∷◌, if◌then◌else◌,
  ◌==◌, ltb,
}
use ace_os.Libc.{Memory, memcpy}
use ace_os.Fs.Blocks.{Allocator}
use ace_os.Fs.Tokens.{slash}
use ace_os.Fs.{
  World, Entry, Filesystem, Found, root, missing, found, set_entry, fs_find, fs_create, fs_delete,
  fs_type_file, fs_type_directory, is_root, exists,
}

-- The bytes of entry `i`: `memcpy` from `from`, and the new size.
abbrev pub fill_file : {A : Allocator} → World A → ℕ → ℕ → ℕ → World A
fill_file w i from size = record w {
  memory = memcpy (w.fs.files i).data_pointer from size w.memory;
  fs = set_entry w.fs i (record (w.fs.files i) { size = size });
}

abbrev pub set_data : {A : Allocator} → World A → ℕ → ℕ → World A
set_data w i p = record w { fs = set_entry w.fs i (record (w.fs.files i) { data_pointer = p }) }

module _ {A : Allocator} where
  -- Old data of another size is freed.
  pub drop_data : World A → ℕ → ℕ → World A
  drop_data w i size =
      let e = w.fs.files i in
      if not (e.data_pointer == 0) && not (e.size == size)
      then record (set_data w i 0) { heap = A.free w.heap e.data_pointer }
      else w

  -- The part of `fs_write` behind that.
  pub fill_data : World A → ℕ → ℕ → ℕ → Bool × World A
  fill_data w i from size =
      let (data_ptr, heap') = A.malloc w.heap size in
      if (w.fs.files i).data_pointer == 0
      then if data_ptr == 0
        then (false, record w { heap = heap' })
        else (true, fill_file (record (set_data w i data_ptr) { heap = heap' }) i from size)
      else (true, fill_file w i from size)

  pub fs_write : World A → List ℕ → ℕ → ℕ → Bool × World A
  fs_write w path from size =
      if not w.fs.initialized then (false, w) else elim (fs_find w.fs path) [
        | root ↦ (false, w)
        | missing ↦ (false, w)
        | found i ↦
            if (w.fs.files i).kind == fs_type_file
            then fill_data (drop_data w i size) i from size
            else (false, w)
      ]

  -- The number of bytes, `none` for -1.
  pub fs_read : World A → List ℕ → ℕ → ℕ → Option ℕ × World A
  fs_read w path buffer size =
      if not w.fs.initialized then (none, w) else elim (fs_find w.fs path) [
        | root ↦ (none, w)
        | missing ↦ (none, w)
        | found i ↦
            let e = w.fs.files i in
            let bytes_to_read = if ltb e.size size then e.size else size in
            if not (e.kind == fs_type_file)
            then (none, w)
            else if e.data_pointer == 0
            then (some 0, w)
            else (
              some bytes_to_read,
              record w { memory = memcpy buffer e.data_pointer bytes_to_read w.memory },
            )
      ]

  -- The part of `fs_copy` behind the creation of the destination: `i` is the source.
  pub copy_data : World A → ℕ → List ℕ → Bool × World A
  copy_data w i dest_path =
      let e = w.fs.files i in
      let (block, heap') = A.malloc w.heap e.size in
      let w1 : World A = record w { heap = heap' } in
      let w2 : World A = record w1 { memory = memcpy block e.data_pointer e.size w1.memory } in
      let (written, w3) = fs_write w2 dest_path block e.size in
      let w4 : World A = record w3 { heap = A.free w3.heap block } in
      if not (e.data_pointer == 0) && ltb 0 e.size
      then (if block == 0
          then (false, (fs_delete w1 dest_path).1)
          else if written
          then (true, w4)
          else (false, (fs_delete w4 dest_path).1))
      else (true, w)

  pub fs_copy : World A → List ℕ → List ℕ → Bool × World A
  fs_copy w src_path dest_path =
      if not w.fs.initialized then (false, w) else elim (fs_find w.fs src_path) [
        | root ↦ (false, w)
        | missing ↦ (false, w)
        | found i ↦
            let (created, w') = fs_create w dest_path (w.fs.files i).size in
            if not ((w.fs.files i).kind == fs_type_file) || exists (fs_find w.fs dest_path)
            then (false, w)
            else if created
            then copy_data w' i dest_path
            else (false, w')
      ]

  pub fs_move : World A → List ℕ → List ℕ → Bool × World A
  fs_move w src_path dest_path =
      let (copied, w1) = fs_copy w src_path dest_path in
      let (deleted, w2) = fs_delete w1 src_path in
      if not w.fs.initialized
      then (false, w)
      else if not copied
      then (false, w1)
      else if deleted
      then (true, w2)
      else (false, (fs_delete w2 dest_path).1)

-- The entry `info` of the caller, and whether the result is 0.
pub fs_stat : Filesystem → List ℕ → Entry → Bool × Entry
fs_stat fs path info =
    if not fs.initialized
    then (false, info)
    else if is_root path
    then (
      true,
      record info {
        name = slash ∷ [];
        kind = fs_type_directory;
        size = 0;
        data_pointer = 0;
        parent_dir = 0;
        creation_time = 0;
      },
    )
    else elim (fs_find fs path) [
      | root ↦ (false, info)
      | missing ↦ (false, info)
      | found i ↦ (true, fs.files i)
    ]
