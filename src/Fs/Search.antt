-- ===== src/Fs/Search.antt =====
-- The searches by path in drivers/fs.c: what they return, and what they depend on.
use ace_os.Base.{
  ℕ, zero, suc, ◌+◌, ◌<◌, ◌≡◌, ◌≢◌, inl, inr, refl, ap, true, false, some, List, [], ◌∷◌, take,
  arith, Bool-cases, Option-cases,
}
use ace_os.Libc.{is_same}
use ace_os.Libc.Compare.{IsString, strcmp_lem, strcmp_self}
use ace_os.Fs.{
  Filesystem, missing, is_name, find_directory, enter_dir, walk, find_entry, fs_find_parent_dir,
  exists,
}
use ace_os.Fs.Tokens.{fs_parse_path}

-- Every element has the property.
abbrev pub All : (ℕ → Type 0) → List ℕ → Type 0
All P [] = Unit {0}
All P (i ∷ l) = P i × All P l

-- No entry of the list has the name.
abbrev pub Absent : Filesystem → List ℕ → List ℕ → Type 0
Absent fs name l = All (λ i. (fs.files i).name ≢ name) l

pub is_name_refl : (name : List ℕ) → is_name name name ≡ true
is_name_refl name = ap is_same (strcmp_self name)

pub find_directory-lt :
    (fs : Filesystem) (name : List ℕ) (parent k n r : ℕ)
    → find_directory fs name parent k n ≡ some r
    → r < k + n
unfolding find_directory
find_directory-lt fs name parent k zero r h = absurd (cc h)
find_directory-lt fs name parent k (suc n) r h =
    ground (arith, find_directory-lt fs name parent (k + 1) n r)

pub enter_dir-lt :
    (fs : Filesystem) (d : ℕ) (part : List ℕ) (l : List ℕ) (r : ℕ)
    → enter_dir fs d part l ≡ some r
    → r < fs.dir_count
unfolding enter_dir
enter_dir-lt fs d part [] r h = absurd (cc h)
enter_dir-lt fs d part (i ∷ l) r h =
    ground (arith, enter_dir-lt fs d part l r, find_directory-lt fs part d 0 fs.dir_count r)

-- A walk from a directory ends at a directory.
pub walk-lt :
    (fs : Filesystem) (d : ℕ) (parts : List (List ℕ)) (r : ℕ)
    → d < fs.dir_count
    → walk fs d parts ≡ some r
    → r < fs.dir_count
unfolding walk
walk-lt fs d [] r lt h = ground arith
walk-lt fs d (p ∷ []) r lt h = ground arith
walk-lt fs d (p ∷ q ∷ parts) r lt h =
    elim (Option-cases (enter_dir fs d p (fs.directories d).files)) [
      | inl e ↦ absurd (cc (rw (e, walk) at h))
      | inr (k, e) ↦ walk-lt fs k (q ∷ parts) r (enter_dir-lt fs d p _ k e) (rw (e, walk) at h)
    ]

pub parent-lt :
    (fs : Filesystem) (path : List ℕ) (r : ℕ)
    → 0 < fs.dir_count
    → fs_find_parent_dir fs path ≡ some r
    → r < fs.dir_count
unfolding fs_find_parent_dir
parent-lt fs path r lt h = ground (arith, walk-lt fs 0 (fs_parse_path (take 255 path)) r)

-- A walk depends on the single steps alone.
pub walk-cong :
    (fs fs' : Filesystem) (d : ℕ) (parts : List (List ℕ))
    → ((e : ℕ) (part : List ℕ)
        → enter_dir fs' e part (fs'.directories e).files
          ≡ enter_dir fs e part (fs.directories e).files)
    → walk fs' d parts ≡ walk fs d parts
unfolding walk
walk-cong fs fs' d [] h = refl
walk-cong fs fs' d (p ∷ []) h = refl
walk-cong fs fs' d (p ∷ q ∷ parts) h =
    elim (Option-cases (enter_dir fs d p (fs.directories d).files)) [
      | inl e ↦ rw (h d p, e, walk) refl
      | inr (k, e) ↦ rw (h d p, e, walk) (walk-cong fs fs' k (q ∷ parts) h)
    ]

pub parent-cong :
    (fs fs' : Filesystem) (path : List ℕ)
    → ((e : ℕ) (part : List ℕ)
        → enter_dir fs' e part (fs'.directories e).files
          ≡ enter_dir fs e part (fs.directories e).files)
    → fs_find_parent_dir fs' path ≡ fs_find_parent_dir fs path
unfolding fs_find_parent_dir
parent-cong fs fs' path h = rw (walk-cong fs fs' 0 (fs_parse_path (take 255 path)) h) refl

-- The names and parents of the directories decide which directory a name stands for.
pub find_directory-cong :
    (fs fs' : Filesystem) (name : List ℕ) (parent k n : ℕ)
    → ((d : ℕ) → (fs'.directories d).name ≡ (fs.directories d).name)
    → ((d : ℕ) → (fs'.directories d).parent_dir ≡ (fs.directories d).parent_dir)
    → find_directory fs' name parent k n ≡ find_directory fs name parent k n
unfolding find_directory
find_directory-cong fs fs' name parent k zero a b = refl
find_directory-cong fs fs' name parent k (suc n) a b =
    rw (a k, b k, find_directory-cong fs fs' name parent (k + 1) n a b) refl

pub find_entry-missing :
    (fs : Filesystem) (name : List ℕ) (l : List ℕ)
    → exists (find_entry fs name l) ≡ false
    → Absent fs name l
unfolding find_entry
find_entry-missing fs name [] h = tt
find_entry-missing fs name (i ∷ l) h =
    let later = find_entry-missing fs name l in
    elim (Bool-cases (is_name (fs.files i).name name)) [
      | inl e ↦ absurd (cc (rw e at h))
      | inr e ↦ ((λ q. absurd (ground (arith, rw q at e, is_name_refl name))), later (rw e at h))
    ]

pub Absent-find_entry :
    (fs : Filesystem) (name : List ℕ) (l : List ℕ)
    → ((i : ℕ) → IsString (fs.files i).name)
    → IsString name
    → Absent fs name l
    → find_entry fs name l ≡ missing
unfolding find_entry
Absent-find_entry fs name [] s n h = refl
Absent-find_entry fs name (i ∷ l) s n (ne, h) = elim (Bool-cases (is_name (fs.files i).name name)) [
  | inl e ↦ absurd (ne ((strcmp_lem (fs.files i).name name (s i) n).0 e))
  | inr e ↦ rw e (Absent-find_entry fs name l s n h)
]
