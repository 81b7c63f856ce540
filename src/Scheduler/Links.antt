-- ===== src/Scheduler/Links.antt =====
-- Chains of distinct slots: the shape of the ready queue of kernel/scheduler.c.
use ace_os.Base.{ℕ, ◌≡◌, refl, sym, ◌∙◌, ◌≢◌, Option, none, some, List, [], ◌∷◌, ◌++◌}
use ace_os.Pcb.{Table}

abbrev pub links : Table → ℕ → Option ℕ
links t i = (t i).next

-- The links lead from `h` through exactly these slots.
abbrev pub Chain : (ℕ → Option ℕ) → Option ℕ → List ℕ → Type 0
Chain m h [] = h ≡ none
Chain m h (i ∷ q) = (h ≡ some i) × Chain m (m i) q

abbrev pub NotIn : ℕ → List ℕ → Type 0
NotIn i [] = Unit {0}
NotIn i (j ∷ q) = (i ≢ j) × NotIn i q

abbrev pub Distinct : List ℕ → Type 0
Distinct [] = Unit {0}
Distinct (i ∷ q) = NotIn i q × Distinct q

abbrev pub last : List ℕ → Option ℕ
last [] = none
last (i ∷ []) = some i
last (i ∷ j ∷ q) = last (j ∷ q)

pub Chain-cong :
    (m n : ℕ → Option ℕ) (h : Option ℕ) (q : List ℕ)
    → ((j : ℕ) → n j ≡ m j)
    → Chain m h q
    → Chain n h q
Chain-cong m n h [] e c = c
Chain-cong m n h (i ∷ q) e (a, c) = (a, rw (e i) (Chain-cong m n (m i) q e c))

-- A link outside the chain does not matter.
pub Chain-outside :
    (m n : ℕ → Option ℕ) (i : ℕ) (h : Option ℕ) (q : List ℕ)
    → ((j : ℕ) → j ≢ i → n j ≡ m j)
    → NotIn i q
    → Chain m h q
    → Chain n h q
Chain-outside m n i h [] e o c = c
Chain-outside m n i h (j ∷ q) e (ne, o) (a, c) =
    (a, rw (e j (λ k. ne (sym k))) (Chain-outside m n i (m j) q e o c))

pub NotIn-append : (i : ℕ) (p q : List ℕ) → NotIn i p → NotIn i q → NotIn i (p ++ q)
NotIn-append i [] q a b = b
NotIn-append i (j ∷ p) q (n, a) b = (n, NotIn-append i p q a b)

pub Distinct-snoc : (q : List ℕ) (i : ℕ) → Distinct q → NotIn i q → Distinct (q ++ (i ∷ []))
Distinct-snoc [] i d n = (tt, tt)
Distinct-snoc (j ∷ q) i (a, d) (ne, n) =
    (NotIn-append j q (i ∷ []) a ((λ e. ne (sym e)), tt), Distinct-snoc q i d n)

pub last_snoc : (q : List ℕ) (i : ℕ) → last (q ++ (i ∷ [])) ≡ some i
last_snoc [] i = refl
last_snoc (j ∷ []) i = refl
last_snoc (j ∷ k ∷ q) i = last_snoc (k ∷ q) i

pub some_eq : (i j : ℕ) → some i ≡ some j → i ≡ j
some_eq i j e = cc

NotIn-last : (i l : ℕ) (q : List ℕ) → NotIn i q → last q ≡ some l → i ≢ l
NotIn-last i l [] n e = absurd (cc)
NotIn-last i l (j ∷ []) (ne, n) e = λ k. ne (k ∙ sym (some_eq j l e))
NotIn-last i l (j ∷ k ∷ q) (ne, n) e = NotIn-last i l (k ∷ q) n e

-- Linking the last slot to a fresh one, whose own link is NULL, appends it.
pub Chain-snoc :
    (m n : ℕ → Option ℕ) (h : Option ℕ) (q : List ℕ) (l i : ℕ)
    → n l ≡ some i
    → n i ≡ none
    → ((j : ℕ) → j ≢ l → j ≢ i → n j ≡ m j)
    → Distinct q
    → NotIn i q
    → last q ≡ some l
    → Chain m h q
    → Chain n h (q ++ (i ∷ []))
Chain-snoc m n h [] l i a b e d o z c = absurd (cc)
Chain-snoc m n h (j ∷ []) l i a b e d o z (p, c) = (p, (rw (some_eq j l z) a, b))
Chain-snoc m n h (j ∷ k ∷ q) l i a b e (d, ds) (ne, o) z (p, c) = (
  p,
  rw (e j (NotIn-last j l (k ∷ q) d z) (λ s. ne (sym s)))
      (Chain-snoc m n (m j) (k ∷ q) l i a b e ds o z c),
)

pub last_ne : (q : List ℕ) (l i : ℕ) → NotIn i q → last q ≡ some l → i ≢ l
last_ne q l i n e = NotIn-last i l q n e

pub last_cons : (j : ℕ) (q : List ℕ) → last (j ∷ q) ≢ none
last_cons j [] e = cc
last_cons j (k ∷ q) e = last_cons k q e
