-- ===== src/Keyboard/Fifo.antt =====
-- The ring of drivers/keyboard.c as a first-in first-out queue of at most 255 characters.
use ace_os.Base.{
  ℕ, zero, suc, ◌+◌, ◌-◌, ◌%◌, ◌≤◌, ◌<◌, ◌≡◌, refl, ◌∙◌, ap, false, List, [], ◌∷◌, ◌++◌, arith,
  if◌then◌else◌, ◌==◌, length, get_or, set, length-set, get_or-set_self, get_or-set_ne, Bool-cases,
  inl, inr,
}
use mathlib.Core.Path.{ap₂}
use ace_os.Keyboard.{
  Keyboard, keyboard_buffer_size, keyboard_buffer_push, keyboard_buffer_pop, keyboard_buffer_empty,
}

pub record IsValid (k : Keyboard) : Type 0 where
  pub storage : length k.buffer ≡ keyboard_buffer_size
  pub head_in : k.buffer_head < keyboard_buffer_size
  pub tail_in : k.buffer_tail < keyboard_buffer_size

-- `n` characters from index `i` on, round the end.
unfoldable pub slots : List ℕ → ℕ → ℕ → List ℕ
slots buf i zero = []
slots buf i (suc n) = get_or buf i 0 ∷ slots buf ((i + 1) % 256) n

abbrev pub waiting : Keyboard → ℕ
waiting k = (k.buffer_head + 256 - k.buffer_tail) % 256

-- The characters that wait, the oldest first.
abbrev pub contents : Keyboard → List ℕ
contents k = slots k.buffer k.buffer_tail (waiting k)

pub length-slots : (buf : List ℕ) (i n : ℕ) → length (slots buf i n) ≡ n
unfolding slots
length-slots buf i zero = refl
length-slots buf i (suc n) = ap suc (length-slots buf ((i + 1) % 256) n)

slots_snoc :
    (buf : List ℕ) (i n : ℕ)
    → i < 256
    → slots buf i (suc n) ≡ slots buf i n ++ (get_or buf ((i + n) % 256) 0 ∷ [])
unfolding slots
slots_snoc buf i zero h = ap (λ j. get_or buf j 0 ∷ []) (omega arith)
slots_snoc buf i (suc n) h =
    ap (λ l. get_or buf i 0 ∷ l)
      (slots_snoc buf ((i + 1) % 256) n (omega arith)
        ∙ ap (λ j. slots buf ((i + 1) % 256) n ++ (get_or buf j 0 ∷ [])) (omega arith))

-- A write outside the window does not show.
slots-set :
    (buf : List ℕ) (i n j v : ℕ)
    → i < 256
    → j < 256
    → n ≤ (j + 256 - i) % 256
    → slots (set buf j v) i n ≡ slots buf i n
unfolding slots
slots-set buf i zero j v hi hj h = refl
slots-set buf i (suc n) j v hi hj h =
    ap₂ (λ x l. x ∷ l) (get_or-set_ne buf j i v 0 (λ e. omega arith))
      (slots-set buf ((i + 1) % 256) n j v (omega arith) hj (omega arith))

-- The queue that the ring stands for.
abbrev pub enqueue : List ℕ → ℕ → List ℕ
enqueue q c = if length q == 255 then q else q ++ (c ∷ [])

abbrev pub front : List ℕ → ℕ
front [] = 0
front (c ∷ q) = c

abbrev pub rest : List ℕ → List ℕ
rest [] = []
rest (c ∷ q) = q

full_iff :
    (k : Keyboard) → IsValid k → ((k.buffer_head + 1) % 256 == k.buffer_tail) ≡ (waiting k == 255)
full_iff k v = ground arith

waiting_push :
    (k : Keyboard)
    → IsValid k
    → (waiting k == 255) ≡ false
    → ((k.buffer_head + 1) % 256 + 256 - k.buffer_tail) % 256 ≡ suc (waiting k)
waiting_push k v h = ground arith

push_room :
    (k : Keyboard) (c : ℕ)
    → IsValid k
    → (waiting k == 255) ≡ false
    → slots (set k.buffer k.buffer_head c) k.buffer_tail (suc (waiting k)) ≡ contents k ++ (c ∷ [])
push_room k c v h =
    slots_snoc (set k.buffer k.buffer_head c) k.buffer_tail (waiting k) v.tail_in
    ∙ ap₂ (λ l x. l ++ (x ∷ []))
        (slots-set k.buffer k.buffer_tail (waiting k) k.buffer_head c v.tail_in v.head_in
          (omega arith))
        (ap (λ j. get_or (set k.buffer k.buffer_head c) j 0) wraps
          ∙ get_or-set_self k.buffer k.buffer_head c 0 (omega (arith, v.storage, v.head_in)))
  where
    wraps : (k.buffer_tail + waiting k) % 256 ≡ k.buffer_head
    wraps = omega (arith, v.head_in, v.tail_in)

pub push_refines :
    (k : Keyboard) (c : ℕ)
    → IsValid k
    → contents (keyboard_buffer_push k c) ≡ enqueue (contents k) c
unfolding keyboard_buffer_push
push_refines k c v = elim (Bool-cases (waiting k == 255)) [
  | inl full ↦ rw (full_iff k v, length-slots, full) refl
  | inr room ↦
      rw (full_iff k v, length-slots, room) (rw (waiting_push k v room) (push_room k c v room))
]

pub push-IsValid : (k : Keyboard) (c : ℕ) → IsValid k → IsValid (keyboard_buffer_push k c)
unfolding keyboard_buffer_push
push-IsValid k c v = ground (arith, length-set k.buffer k.buffer_head c)

pub pop_refines :
    (k : Keyboard)
    → IsValid k
    → let (c, k') = keyboard_buffer_pop k in
      (c ≡ front (contents k)) × (contents k' ≡ rest (contents k))
unfolding keyboard_buffer_pop slots
pop_refines k v = elim (Bool-cases (k.buffer_head == k.buffer_tail)) [
  | inl empty ↦ let e : waiting k ≡ 0 = ground arith in rw (empty, e) (refl, refl)
  | inr full ↦
      let e : waiting k ≡ suc ((k.buffer_head + 256 - (k.buffer_tail + 1) % 256) % 256) =
        (ground arith) in
      rw (full, e) (refl, refl)
]

pub pop-IsValid : (k : Keyboard) → IsValid k → IsValid (keyboard_buffer_pop k).1
unfolding keyboard_buffer_pop
pop-IsValid k v = ground arith

-- The test that readers wait on.
pub empty-length : (k : Keyboard) → IsValid k → keyboard_buffer_empty k ≡ (length (contents k) == 0)
unfolding keyboard_buffer_empty
empty-length k v = rw length-slots (ground arith)
