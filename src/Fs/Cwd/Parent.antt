-- ===== src/Fs/Cwd/Parent.antt =====
-- Going into a directory and back, in drivers/fs.c.
use ace_os.Base.{
  ℕ, zero, suc, ◌+◌, ◌-◌, ◌≤◌, ◌<◌, ◌≡◌, ◌≢◌, inl, inr, refl, sym, ap, ◌∙◌, true, false, not, List,
  [], ◌∷◌, ◌++◌, Bool-cases, if◌then◌else◌, ◌==◌, ltb, length, length-append, take, arith,
}
use ace_os.Libc.{strlen, first_char}
use ace_os.Libc.Compare.{IsString, strcmp_lem}
use ace_os.Libc.Last.{Lacks, strrchr-append}
use ace_os.Fs.Tokens.{slash}
use ace_os.Fs.Tokens.Split.{IsPlain}
use ace_os.Fs.{Filesystem, fs_find, is_name, fs_type_directory}
use ace_os.Fs.Search.{is_name_refl}
use ace_os.Fs.Outcomes.{Found-cases}
use ace_os.Fs.Cwd.{dot, target_path, parent_path, fs_change_dir}

abbrev pub root_path : List ℕ
root_path = slash ∷ []

-- A current directory: a string that starts with a slash.
abbrev pub IsDirectoryPath : List ℕ → Type 0
IsDirectoryPath [] = ⊥
IsDirectoryPath (c ∷ s) = (c ≡ slash) × IsString s

-- A name of one part that is neither "." nor "..".
pub record IsStep (name : List ℕ) : Type 0 where
  pub plain : IsPlain name
  pub named : name ≢ []
  pub not_here : name ≢ dot ∷ []
  pub not_up : name ≢ dot ∷ dot ∷ []

is_name_no : (s t : List ℕ) → IsString s → IsString t → s ≢ t → is_name s t ≡ false
is_name_no s t hs ht ne = elim (Bool-cases (is_name s t)) [
  | inl e ↦ absurd (ne ((strcmp_lem s t hs ht).0 e))
  | inr e ↦ e
]

IsPlain-IsString : (s : List ℕ) → IsPlain s → IsString s
IsPlain-IsString [] h = tt
IsPlain-IsString (c ∷ s) (_, nz, h) = (nz, IsPlain-IsString s h)

IsPlain-Lacks : (s : List ℕ) → IsPlain s → Lacks slash s
IsPlain-Lacks [] h = tt
IsPlain-Lacks (c ∷ s) (ns, _, h) = (ns, IsPlain-Lacks s h)

IsString-append : (s t : List ℕ) → IsString s → IsString t → IsString (s ++ t)
IsString-append [] t h k = k
IsString-append (c ∷ s) t (nz, h) k = (nz, IsString-append s t h k)

IsDirectoryPath-IsString : (s : List ℕ) → IsDirectoryPath s → IsString s
IsDirectoryPath-IsString [] h = absurd h
IsDirectoryPath-IsString (c ∷ s) (e, h) = (omega (arith, e), h)

strlen-length : (s : List ℕ) → strlen s ≡ length s
unfolding strlen
strlen-length [] = refl
strlen-length (c ∷ s) = ap suc (strlen-length s)

take_all : (n : ℕ) (s : List ℕ) → length s ≤ n → take n s ≡ s
take_all zero [] h = refl
take_all zero (c ∷ s) h = absurd (omega arith)
take_all (suc n) [] h = refl
take_all (suc n) (c ∷ s) h = ap (λ t. c ∷ t) (take_all n s (omega arith))

take-append : (s t : List ℕ) → take (length s) (s ++ t) ≡ s
take-append [] t = refl
take-append (c ∷ s) t = ap (λ r. c ∷ r) (take-append s t)

-- The path of `name` in `cur`.
abbrev pub below : List ℕ → List ℕ → List ℕ
below cur name = if is_name cur root_path then slash ∷ name else cur ++ (slash ∷ name)

first_char-IsPlain : (s : List ℕ) → IsPlain s → (first_char s == slash) ≡ false
first_char-IsPlain [] h = refl
first_char-IsPlain (c ∷ s) (ns, _, _) = ground arith

none_left : (s : List ℕ) → length s ≡ 0 → s ≡ []
none_left [] h = refl
none_left (c ∷ s) h = absurd (omega arith)

target-below :
    (cur name : List ℕ)
    → IsStep name
    → length cur + length name < 255
    → target_path cur name ≡ below cur name
unfolding target_path
target-below cur name step small =
    let relative = first_char-IsPlain name step.plain in
    elim (Bool-cases (is_name cur root_path)) [
      | inl e ↦ rw (relative, e) (ap (λ t. slash ∷ t) (take_all 254 name (omega arith)))
      | inr e ↦
          let short : ltb (strlen cur) 255 ≡ true = rw (strlen-length cur) (ground arith) in
          rw (relative, e, short, strlen-length cur)
            (ap (λ t. cur ++ (slash ∷ t)) (take_all (254 - length cur) name (omega arith)))
    ]

longer : (p name : List ℕ) → name ≢ [] → p ++ (slash ∷ name) ≢ root_path
longer p name ne q =
    ne (none_left name (omega (arith, ap (length {A = ℕ}) q, length-append p (slash ∷ name))))

up_from :
    (p name : List ℕ)
    → IsString p
    → IsStep name
    → parent_path (p ++ (slash ∷ name)) ≡ (if length p == 0 then root_path else p)
unfolding parent_path
up_from p name h step =
    let string =
      IsString-append p (slash ∷ name) h (omega arith, IsPlain-IsString name step.plain) in
    let deep =
      is_name_no (p ++ (slash ∷ name)) root_path string (omega arith) (longer p name step.named) in
    let last =
      strrchr-append slash p name (omega arith) (omega arith) (IsPlain-Lacks name step.plain) in
    rw (deep, last, take-append p (slash ∷ name)) refl

IsDirectoryPath-length : (s : List ℕ) → IsDirectoryPath s → (length s == 0) ≡ false
IsDirectoryPath-length [] h = absurd h
IsDirectoryPath-length (c ∷ s) h = ground arith

up_below :
    (cur name : List ℕ) → IsDirectoryPath cur → IsStep name → parent_path (below cur name) ≡ cur
up_below cur name h step = elim (Bool-cases (is_name cur root_path)) [
  | inl e ↦
      let at_root : cur ≡ root_path =
        (strcmp_lem cur root_path (IsDirectoryPath-IsString cur h) (omega arith)).0 e in
      rw e (up_from [] name tt step ∙ sym at_root)
  | inr e ↦
      let some_char : (length cur == 0) ≡ false = IsDirectoryPath-length cur h in
      rw e (up_from cur name (IsDirectoryPath-IsString cur h) step ∙ rw some_char refl)
]

below-deep :
    (cur name : List ℕ)
    → IsDirectoryPath cur
    → IsStep name
    → is_name (below cur name) root_path ≡ false
below-deep cur name h step =
    let string = IsPlain-IsString name step.plain in
    elim (Bool-cases (is_name cur root_path)) [
      | inl e ↦ rw e (
          is_name_no (slash ∷ name) root_path (omega arith, string) (omega arith)
            (longer [] name step.named))
      | inr e ↦ rw e (
          is_name_no (cur ++ (slash ∷ name)) root_path
            (IsString-append cur (slash ∷ name) (IsDirectoryPath-IsString cur h)
              (omega arith, string))
            (omega arith) (longer cur name step.named))
    ]

go_up :
    (fs : Filesystem) (cur : List ℕ)
    → fs.initialized ≡ true
    → fs_change_dir fs cur (dot ∷ dot ∷ []) ≡ (true, parent_path cur)
unfolding fs_change_dir
go_up fs cur up =
    let ready : not fs.initialized ≡ false = ground arith in
    let a =
      is_name_no (dot ∷ dot ∷ []) (dot ∷ []) (omega arith) (omega arith)
        (λ q. cc (ap (length {A = ℕ}) q)) in
    let b = is_name_refl (dot ∷ dot ∷ []) in rw (ready, a, b) refl

went_there :
    (fs : Filesystem) (cur name : List ℕ)
    → IsDirectoryPath cur
    → IsStep name
    → length cur + length name < 255
    → (fs_change_dir fs cur name).0 ≡ true
    → (fs_change_dir fs cur name).1 ≡ below cur name
unfolding fs_change_dir
went_there fs cur name h step small went =
    let string = IsPlain-IsString name step.plain in
    let a = is_name_no name (dot ∷ []) string (omega arith) step.not_here in
    let b = is_name_no name (dot ∷ dot ∷ []) string (omega arith) step.not_up in
    let to = target-below cur name step small in
    let c : is_name (target_path cur name) root_path ≡ false = rw to (below-deep cur name h step) in
    elim (Bool-cases (not fs.initialized)) [
      | inl off ↦ absurd (cc (rw off at went))
      | inr on ↦ elim (Found-cases (fs_find fs (target_path cur name))) [
        | inl f ↦ absurd (cc (rw (on, a, b, c, f) at went))
        | inr (inl f) ↦ absurd (cc (rw (on, a, b, c, f) at went))
        | inr (inr (i, f)) ↦ elim (Bool-cases ((fs.files i).kind == fs_type_directory)) [
          | inl k ↦ rw (on, a, b, c, f, k) to
          | inr k ↦ absurd (cc (rw (on, a, b, c, f, k) at went))
        ]
      ]
    ]

-- In a file system that is set up, after a successful `cd` from a directory's path into a directory by
-- its name, where the two have fewer than 255 characters together, `cd ..` leads back: it returns 0, and
-- the current directory is what it was.
pub cd_back :
    (fs : Filesystem) (cur name : List ℕ)
    → fs.initialized ≡ true
    → IsDirectoryPath cur
    → IsStep name
    → length cur + length name < 255
    → (fs_change_dir fs cur name).0 ≡ true
    → fs_change_dir fs (fs_change_dir fs cur name).1 (dot ∷ dot ∷ []) ≡ (true, cur)
cd_back fs cur name up h step small went =
    rw (went_there fs cur name h step small went) (go_up fs (below cur name) up)
    ∙ ap (λ d. (true, d)) (up_below cur name h step)
