-- ===== src/Fs/Names.antt =====
-- The names in a directory of drivers/fs.c.
use ace_os.Base.{ℕ, ◌≡◌, ◌≢◌, ◌⊎◌, inl, inr, sym, ◌∙◌, List, [], ◌∷◌, ◌++◌, Bool-cases, ◌==◌}
use ace_os.Fs.{Filesystem, unlist}
use ace_os.Fs.Search.{All, Absent}

pub All-mono : (P Q : ℕ → Type 0) (l : List ℕ) → ((i : ℕ) → P i → Q i) → All P l → All Q l
All-mono P Q [] f h = tt
All-mono P Q (i ∷ l) f (p, h) = (f i p, All-mono P Q l f h)

pub All-every : (P : ℕ → Type 0) (l : List ℕ) → ((i : ℕ) → P i) → All P l
All-every P [] f = tt
All-every P (i ∷ l) f = (f i, All-every P l f)

pub All-snoc : (P : ℕ → Type 0) (l : List ℕ) (i : ℕ) → All P l → P i → All P (l ++ (i ∷ []))
All-snoc P [] i h p = (p, tt)
All-snoc P (j ∷ l) i (q, h) p = (q, All-snoc P l i h p)

pub All-unlist : (P : ℕ → Type 0) (l : List ℕ) (i : ℕ) → All P l → All P (unlist i l)
unfolding unlist
All-unlist P [] i h = tt
All-unlist P (j ∷ l) i (p, h) =
    let rest = All-unlist P l i h in
    elim (Bool-cases (j == i)) [ inl e ↦ rw e h | inr e ↦ rw e (p, rest) ]

-- Two entries of the list with a name do not have the same.
abbrev pub DistinctNames : Filesystem → List ℕ → Type 0
DistinctNames fs [] = Unit {0}
DistinctNames fs (i ∷ l) =
    ((fs.files i).name ≢ [] → Absent fs (fs.files i).name l) × DistinctNames fs l

-- The name of the entry is what it was, or it has none any more.
abbrev pub Kept : Filesystem → Filesystem → ℕ → Type 0
Kept fs fs' i = ((fs'.files i).name ≡ []) ⊎ ((fs'.files i).name ≡ (fs.files i).name)

pub Absent-Kept :
    (fs fs' : Filesystem) (name : List ℕ) (l : List ℕ)
    → name ≢ []
    → All (Kept fs fs') l
    → Absent fs name l
    → Absent fs' name l
Absent-Kept fs fs' name [] ne k h = tt
Absent-Kept fs fs' name (i ∷ l) ne (k, ks) (h, hs) = (
  λ e. elim k [ inl z ↦ ne (sym e ∙ z) | inr s ↦ h (sym s ∙ e) ],
  Absent-Kept fs fs' name l ne ks hs,
)

pub DistinctNames-Kept :
    (fs fs' : Filesystem) (l : List ℕ)
    → All (Kept fs fs') l
    → DistinctNames fs l
    → DistinctNames fs' l
DistinctNames-Kept fs fs' [] k h = tt
DistinctNames-Kept fs fs' (i ∷ l) (k, ks) (h, hs) = (
  λ ne. elim k [
    | inl z ↦ absurd (ne z)
    | inr s ↦ Absent-Kept fs fs' (fs'.files i).name l ne ks (rw s (h (λ z. ne (s ∙ z))))
  ],
  DistinctNames-Kept fs fs' l ks hs,
)

pub DistinctNames-snoc :
    (fs : Filesystem) (l : List ℕ) (i : ℕ)
    → DistinctNames fs l
    → ((fs.files i).name ≢ [] → Absent fs (fs.files i).name l)
    → DistinctNames fs (l ++ (i ∷ []))
DistinctNames-snoc fs [] i h a = ((λ ne. tt), tt)
DistinctNames-snoc fs (j ∷ l) i (h, hs) a = (
  λ ne.
      All-snoc (λ k. (fs.files k).name ≢ (fs.files j).name) l i (h ne)
        (λ e. (a (λ z. ne (sym e ∙ z))).0 (sym e)),
  DistinctNames-snoc fs l i hs (λ ne. (a ne).1),
)

pub DistinctNames-unlist :
    (fs : Filesystem) (l : List ℕ) (i : ℕ) → DistinctNames fs l → DistinctNames fs (unlist i l)
unfolding unlist
DistinctNames-unlist fs [] i h = tt
DistinctNames-unlist fs (j ∷ l) i (h, hs) =
    let rest = DistinctNames-unlist fs l i hs in
    elim (Bool-cases (j == i)) [
      | inl e ↦ rw e hs
      | inr e ↦
          rw e ((λ ne. All-unlist (λ k. (fs.files k).name ≢ (fs.files j).name) l i (h ne)), rest)
    ]
