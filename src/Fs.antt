-- ===== src/Fs.antt =====
-- drivers/fs.c: the file system in memory. Here: its state, the search by path, and making and
-- deleting entries. Its children are the splitting of paths, file contents and the current
-- directory.
-- The static arrays are functions from their index. `files` of a directory is the list of its first
-- `file_count` elements, which are the only ones read. An empty path stands for NULL too.
pub mod Tokens
pub mod Blocks
pub mod Search
pub mod Names
pub mod Invariant
pub mod Preserve
pub mod Removal
pub mod Outcomes
pub mod Create
pub mod Delete
pub mod Calls
pub mod Content
mod Tests
pub mod Cwd
pub mod Listing
use ace_os.Base.{
  ℕ, zero, suc, ◌+◌, ◌-◌, ◌%◌, ◌^◌, Bool, true, false, not, ◌&&◌, ◌||◌, Option, none, some, List,
  [], ◌∷◌, ◌++◌, if◌then◌else◌, ◌==◌, ltb, leb, length, take,
}
use ace_os.Libc.{is_same, strcmp, Memory}
use ace_os.Fs.Blocks.{Allocator}
use ace_os.Fs.Tokens.{slash, fs_max_path_len, fs_parse_path, fs_get_filename}

abbrev pub fs_max_files_per_dir : ℕ
fs_max_files_per_dir = 64

abbrev pub fs_max_directories : ℕ
fs_max_directories = 32

abbrev pub fs_max_files : ℕ
fs_max_files = 128

abbrev pub fs_type_file : ℕ
fs_type_file = 0

abbrev pub fs_type_directory : ℕ
fs_type_directory = 1

-- `fs_entry_t`. `type` is written `kind`.
pub record Entry : Type 0 where
  pub name : List ℕ
  pub kind : ℕ
  pub attributes : ℕ
  pub size : ℕ
  pub data_pointer : ℕ
  pub parent_dir : ℕ
  pub creation_time : ℕ

-- `fs_directory_t`.
pub record Directory : Type 0 where
  pub name : List ℕ
  pub parent_dir : ℕ
  pub files : List ℕ

-- `filesystem_t`.
pub record Filesystem : Type 0 where
  pub initialized : Bool
  pub dir_count : ℕ
  pub file_count : ℕ
  pub directories : ℕ → Directory
  pub files : ℕ → Entry

abbrev pub set_directory : Filesystem → ℕ → Directory → Filesystem
set_directory fs d v = record fs { directories = λ e. if e == d then v else fs.directories e }

abbrev pub set_entry : Filesystem → ℕ → Entry → Filesystem
set_entry fs i v = record fs { files = λ j. if j == i then v else fs.files j }

-- `memset(&fs, 0, sizeof(filesystem_t))`.
abbrev pub zero_filesystem : Filesystem
zero_filesystem = record {
  initialized = false;
  dir_count = 0;
  file_count = 0;
  directories = λ d. record { name = []; parent_dir = 0; files = [] };
  files = λ i. record {
    name = [];
    kind = 0;
    attributes = 0;
    size = 0;
    data_pointer = 0;
    parent_dir = 0;
    creation_time = 0;
  };
}

-- The file system, and the current directory that `fs_init_current_dir` sets.
pub fs_init : Filesystem × List ℕ
fs_init = (
  record zero_filesystem {
    initialized = true;
    dir_count = 1;
    directories =
        λ d. record { name = if d == 0 then slash ∷ [] else []; parent_dir = 0; files = [] };
  },
  slash ∷ [],
)

-- `strcmp(a, b) == 0`.
abbrev pub is_name : List ℕ → List ℕ → Bool
is_name a b = is_same (strcmp a b)

abbrev pub is_root : List ℕ → Bool
is_root [] = true
is_root (c ∷ []) = c == slash
is_root (c ∷ d ∷ rest) = false

-- `for (k = 0; k < fs.dir_count; k++)` for a directory of that name and parent: `n` rounds from
-- `k` on.
pub find_directory : Filesystem → List ℕ → ℕ → ℕ → ℕ → Option ℕ
find_directory fs name parent k zero = none
find_directory fs name parent k (suc n) =
    let later = find_directory fs name parent (k + 1) n in
    let d = fs.directories k in
    if is_name d.name name && d.parent_dir == parent then some k else later

abbrev pub or_else : Option ℕ → Option ℕ → Option ℕ
or_else none later = later
or_else (some k) later = some k

-- The loop over the files of `current_dir` for the directory `part`.
pub enter_dir : Filesystem → ℕ → List ℕ → List ℕ → Option ℕ
enter_dir fs current_dir part [] = none
enter_dir fs current_dir part (i ∷ files) =
    let later = enter_dir fs current_dir part files in
    if (fs.files i).kind == fs_type_directory && is_name (fs.files i).name part
    then or_else (find_directory fs part current_dir 0 fs.dir_count) later
    else later

-- The loop of `fs_find_parent_dir` over all parts but the last.
pub walk : Filesystem → ℕ → List (List ℕ) → Option ℕ
walk fs current_dir [] = some current_dir
walk fs current_dir (part ∷ []) = some current_dir
walk fs current_dir (part ∷ next ∷ parts) =
    elim (enter_dir fs current_dir part (fs.directories current_dir).files) [
      | none ↦ none
      | some k ↦ walk fs k (next ∷ parts)
    ]

-- -1 is `none`.
pub fs_find_parent_dir : Filesystem → List ℕ → Option ℕ
fs_find_parent_dir fs path =
    if is_root path then some 0 else walk fs 0 (fs_parse_path (take 255 path))

-- The result of `fs_find`: -2, -1, or an index.
pub data Found : Type 0 where
  root : Found
  missing : Found
  found : ℕ → Found

-- The loop of `fs_find`.
pub find_entry : Filesystem → List ℕ → List ℕ → Found
find_entry fs name [] = missing
find_entry fs name (i ∷ files) =
    let later = find_entry fs name files in
    if is_name (fs.files i).name name then found i else later

pub fs_find : Filesystem → List ℕ → Found
fs_find fs path = if is_root path then root else elim (fs_find_parent_dir fs path) [
  | none ↦ missing
  | some parent ↦ find_entry fs (fs_get_filename path) (fs.directories parent).files
]

-- `fs.directories[parent].files[fs.directories[parent].file_count++] = i`.
abbrev pub list_entry : Filesystem → ℕ → ℕ → Filesystem
list_entry fs parent i =
    set_directory fs parent
      (record (fs.directories parent) { files = (fs.directories parent).files ++ (i ∷ []) })

-- `existing >= 0`.
abbrev pub exists : Found → Bool
exists root = false
exists missing = false
exists (found i) = true

-- The part of `fs_mkdir` behind its tests.
pub add_directory : Filesystem → ℕ → List ℕ → Filesystem
add_directory fs parent name =
    let i = fs.file_count in
    let fs1 =
      set_entry (record fs { file_count = i + 1 }) i
        (record (fs.files i) {
          name = name;
          kind = fs_type_directory;
          size = 0;
          parent_dir = parent;
          creation_time = 0;
        }) in
    let fs2 = list_entry fs1 parent i in
    let d = fs2.dir_count in
    set_directory (record fs2 { dir_count = d + 1 }) d
      (record (fs2.directories d) { name = name; parent_dir = parent })

-- `true` for the result 0, `false` for -1.
pub fs_mkdir : Filesystem → List ℕ → Bool × Filesystem
fs_mkdir fs path =
    if not fs.initialized || exists (fs_find fs path)
    then (false, fs)
    else elim (fs_find_parent_dir fs path) [
      | none ↦ (false, fs)
      | some parent ↦
          if leb fs_max_directories fs.dir_count
          then (false, fs)
          else if leb fs_max_files_per_dir (length (fs.directories parent).files)
          then (false, fs)
          else (true, add_directory fs parent (fs_get_filename path))
    ]

-- The part of `fs_create` behind the allocation.
pub add_file : Filesystem → ℕ → List ℕ → ℕ → ℕ → Filesystem
add_file fs parent name size data_ptr =
    let i = fs.file_count in
    let fs1 =
      set_entry (record fs { file_count = i + 1 }) i
        (record (fs.files i) {
          name = name;
          kind = fs_type_file;
          size = size;
          data_pointer = data_ptr;
          parent_dir = parent;
          creation_time = 0;
        }) in
    list_entry fs1 parent i

-- The loop that finds the file in its directory's list and shifts the later ones down.
pub unlist : ℕ → List ℕ → List ℕ
unlist i [] = []
unlist i (j ∷ files) = let rest = unlist i files in if j == i then files else j ∷ rest

-- The part of `fs_delete` behind its tests.
pub remove_entry : Filesystem → ℕ → Filesystem
remove_entry fs i =
    let parent = (fs.files i).parent_dir in
    let d = fs.directories parent in
    let fs1 = set_directory fs parent (record d { files = unlist i d.files }) in
    set_entry fs1 i (record (fs1.files i) { name = [] })

-- The file system with the heap of `malloc` and the memory that its blocks lie in.
pub record World (A : Allocator) : Type 0 where
  pub fs : Filesystem
  pub heap : A.State
  pub memory : Memory

module _ {A : Allocator} where
  pub fs_create : World A → List ℕ → ℕ → Bool × World A
  fs_create w path size =
      let fs = w.fs in
      if not fs.initialized || exists (fs_find fs path)
      then (false, w)
      else elim (fs_find_parent_dir fs path) [
        | none ↦ (false, w)
        | some parent ↦
            let name = fs_get_filename path in
            let (data_ptr, heap') = A.malloc w.heap size in
            if leb fs_max_files fs.file_count
            then (false, w)
            else if leb fs_max_files_per_dir (length (fs.directories parent).files)
            then (false, w)
            else if size == 0
            then (true, record w { fs = add_file fs parent name size 0 })
            else if data_ptr == 0
            then (false, record w { heap = heap' })
            else (true, record w { fs = add_file fs parent name size data_ptr; heap = heap' })
      ]

  pub fs_delete : World A → List ℕ → Bool × World A
  fs_delete w path =
      let fs = w.fs in
      if not fs.initialized || is_root path then (false, w) else elim (fs_find fs path) [
        | root ↦ (false, w)
        | missing ↦ (false, w)
        | found i ↦
            let e = fs.files i in
            let freed = if e.data_pointer == 0 then w.heap else A.free w.heap e.data_pointer in
            if e.kind == fs_type_directory
            then elim (find_directory fs e.name e.parent_dir 0 fs.dir_count) [
              | none ↦ (false, w)
              | some d ↦ if ltb 0 (length (fs.directories d).files) then (false, w) else (
                true,
                record w {
                  fs =
                      remove_entry (set_directory fs d (record (fs.directories d) { name = [] })) i;
                },
              )
            ]
            else (true, record w { fs = remove_entry fs i; heap = freed })
      ]
