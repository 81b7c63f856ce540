-- ===== src/Fs/Listing/Room.antt =====
-- The buffer of `fs_list_dir` in drivers/fs.c: what is written fits, and is a start of the lines.
use ace_os.Base.{ℕ, ◌<◌, ◌≡◌, Bool, true, List, [], ◌∷◌, ◌++◌, length}
use ace_os.Fs.{Filesystem}
use ace_os.Fs.Listing.{line_parts}

pub joined : List (List ℕ) → List ℕ
joined [] = []
joined (part ∷ parts) = part ++ joined parts

-- The lines of the entries, in full.
pub lines : Filesystem → List ℕ → List ℕ
lines fs [] = []
lines fs (i ∷ files) = joined (line_parts (fs.files i)) ++ lines fs files

pub AreShort : List (List ℕ) → Type 0
AreShort [] = Unit
AreShort (part ∷ parts) = (length part < 32) × AreShort parts

-- `text` fits in the buffer with a NUL behind it and is a start of `full`, all of it when `done`.
pub record IsStart (buffer_size : ℕ) (done : Bool) (text full : List ℕ) : Type 0 where
  pub fits : length text < buffer_size
  pub rest : List ℕ
  pub start : text ++ rest ≡ full
  pub complete : done ≡ true → rest ≡ []
