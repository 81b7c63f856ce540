-- ===== src/Libc/Last.antt =====
-- `strrchr` of src/libc/string.c.
use ace_os.Base.{
  ℕ, suc, ◌+◌, ◌%◌, ◌<◌, ◌≡◌, ◌≢◌, refl, ap, ◌∙◌, List, [], ◌∷◌, ◌++◌, Option, none, some, true,
  false, if◌then◌else◌, ◌==◌, length, arith,
}
use ace_os.Libc.{strrchr, strrchr_loop}

-- The character does not occur.
abbrev pub Lacks : ℕ → List ℕ → Type 0
Lacks c [] = Unit {0}
Lacks c (a ∷ s) = (a ≢ c) × Lacks c s

loop-Lacks :
    (c : ℕ) (s : List ℕ) (i : ℕ) (last : Option ℕ)
    → c ≢ 0
    → Lacks c s
    → strrchr_loop s c i last ≡ last
unfolding strrchr_loop
loop-Lacks c [] i last nz h = let end : (0 == c) ≡ false = ground arith in rw end refl
loop-Lacks c (a ∷ s) i last nz (ne, h) =
    let other : (a == c) ≡ false = ground arith in rw other (loop-Lacks c s (i + 1) last nz h)

loop-append :
    (c : ℕ) (s t : List ℕ) (i : ℕ) (last : Option ℕ)
    → c ≢ 0
    → Lacks c t
    → strrchr_loop (s ++ (c ∷ t)) c i last ≡ some (i + length s)
unfolding strrchr_loop
loop-append c [] t i last nz h =
    let here : (c == c) ≡ true = ground arith in
    let first : (if c == c then some i else last) ≡ some (i + 0) =
      rw here (ap (λ n. some n) (omega arith)) in
    loop-Lacks c t (i + 1) (if c == c then some i else last) nz h ∙ first
loop-append c (a ∷ s) t i last nz h =
    let sum : i + suc (length s) ≡ i + 1 + length s = omega arith in
    rw sum (loop-append c s t (i + 1) (if a == c then some i else last) nz h)

-- The last occurrence is found, in front of a rest that has none.
pub strrchr-append :
    (c : ℕ) (s t : List ℕ)
    → c ≢ 0
    → c < 256
    → Lacks c t
    → strrchr (s ++ (c ∷ t)) c ≡ some (length s)
unfolding strrchr
strrchr-append c s t nz small h =
    let byte : c % 256 ≡ c = omega arith in
    let sum : 0 + length s ≡ length s = omega arith in
    rw byte (loop-append c s t 0 none nz h ∙ ap (λ n. some n) sum)
