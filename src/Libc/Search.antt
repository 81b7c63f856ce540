-- ===== src/Libc/Search.antt =====
-- The search for a string in src/libc/string.c.
use ace_os.Base.{
  ℕ, zero, suc, ◌+◌, ◌<◌, ◌≡◌, refl, ap, ◌∙◌, true, false, ◌&&◌, List, [], ◌∷◌, Option, none, some,
  inl, inr, Bool-cases, arith, ◌==◌, take, drop,
}
use ace_os.Libc.{is_same, strlen, strncmp, strstr_loop, strstr}
use ace_os.Libc.Compare.{IsString}

-- The string starts with the needle.
abbrev pub Starts : List ℕ → List ℕ → Type 0
Starts s needle = take (strlen needle) s ≡ needle

Starts-sound :
    (s t : List ℕ) → IsString s → IsString t → is_same (strncmp s t (strlen t)) ≡ true → Starts s t
unfolding strncmp strlen
Starts-sound s [] hs ht h = refl
Starts-sound [] (b ∷ t) hs (nb, ht) h = absurd (ground arith)
Starts-sound (a ∷ s) (b ∷ t) (na, hs) (nb, ht) h = elim (Bool-cases (a == b)) [
  | inl e ↦
      let e' : a ≡ b = ground arith in
      let rest = Starts-sound s t hs ht (ground arith) in
      ap (λ c. c ∷ take (strlen t) s) e' ∙ ap (λ k. b ∷ k) rest
  | inr ne ↦ absurd (ground arith)
]

Starts-complete : (s t : List ℕ) → Starts s t → is_same (strncmp s t (strlen t)) ≡ true
unfolding strncmp strlen
Starts-complete s [] h = refl
Starts-complete [] (b ∷ t) h = absurd (cc h)
Starts-complete (a ∷ s) (b ∷ t) h =
    let e : a ≡ b = cc h in let rest = Starts-complete s t (cc h) in ground arith

Starts-head : (c b : ℕ) (s t : List ℕ) → Starts (c ∷ s) (b ∷ t) → c ≡ b
unfolding strlen
Starts-head c b s t h = cc h

-- The needle stands at no offset of the string.
abbrev pub Missing : List ℕ → List ℕ → Type 0
Missing s needle = (j : ℕ) → Starts (drop j s) needle → ⊥

-- The needle stands at no offset below `k`.
abbrev pub MissingBelow : ℕ → List ℕ → List ℕ → Type 0
MissingBelow k s needle = (j : ℕ) → j < k → Starts (drop j s) needle → ⊥

-- The result of a search from offset `i` on: the first offset where the needle stands, or NULL.
abbrev pub First : List ℕ → List ℕ → ℕ → Option ℕ → Type 0
First s needle i none = Missing s needle
First s needle i (some p) =
    (k : ℕ) × (p ≡ i + k) × Starts (drop k s) needle × MissingBelow k s needle

Missing-nil : (b : ℕ) (t : List ℕ) → Missing [] (b ∷ t)
unfolding strlen
Missing-nil b t zero h = cc h
Missing-nil b t (suc j) h = cc h

Missing-cons :
    (c : ℕ) (s needle : List ℕ)
    → (Starts (c ∷ s) needle → ⊥)
    → Missing s needle
    → Missing (c ∷ s) needle
Missing-cons c s needle away f zero h = away h
Missing-cons c s needle away f (suc j) h = f j h

MissingBelow-cons :
    (c k : ℕ) (s needle : List ℕ)
    → (Starts (c ∷ s) needle → ⊥)
    → MissingBelow k s needle
    → MissingBelow (suc k) (c ∷ s) needle
MissingBelow-cons c k s needle away f zero lt h = away h
MissingBelow-cons c k s needle away f (suc j) lt h = f j (omega arith) h

First-next :
    (c : ℕ) (s needle : List ℕ) (i : ℕ) (r : Option ℕ)
    → (Starts (c ∷ s) needle → ⊥)
    → First s needle (i + 1) r
    → First (c ∷ s) needle i r
First-next c s needle i none away f = Missing-cons c s needle away f
First-next c s needle i (some p) away (k, e, at, least) =
    (suc k, omega arith, at, MissingBelow-cons c k s needle away least)

strstr_loop-First :
    (s : List ℕ) (b : ℕ) (t : List ℕ) (i : ℕ)
    → IsString s
    → IsString (b ∷ t)
    → First s (b ∷ t) i (strstr_loop s (b ∷ t) i)
unfolding strstr_loop
strstr_loop-First [] b t i hs ht = Missing-nil b t
strstr_loop-First (c ∷ s) b t i (nc, hs) ht =
    let hit = c == b && is_same (strncmp (c ∷ s) (b ∷ t) (strlen (b ∷ t))) in
    elim (Bool-cases hit) [
      | inl here ↦
          let at = Starts-sound (c ∷ s) (b ∷ t) (nc, hs) ht (ground arith) in
          rw here (0, omega arith, at, λ j lt h. omega arith)
      | inr other ↦
          let away : Starts (c ∷ s) (b ∷ t) → ⊥ = λ h.
            let e = Starts-head c b s t h in
            let m = Starts-complete (c ∷ s) (b ∷ t) h in absurd (ground arith) in
          rw other (
            First-next c s (b ∷ t) i (strstr_loop s (b ∷ t) (i + 1)) away
              (strstr_loop-First s b t (i + 1) hs ht))
    ]

-- `strstr` returns the first offset where the needle stands in the string, and NULL exactly when it
-- stands at none.
pub strstr_lem :
    (s needle : List ℕ) → IsString s → IsString needle → First s needle 0 (strstr s needle)
unfolding strstr strlen
strstr_lem s [] hs ht = (0, refl, refl, λ j lt h. omega arith)
strstr_lem s (b ∷ t) hs ht =
    let some_needle : (suc (strlen t) == 0) ≡ false = ground arith in
    rw some_needle (strstr_loop-First s b t 0 hs ht)
