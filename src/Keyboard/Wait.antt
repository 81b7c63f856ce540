-- ===== src/Keyboard/Wait.antt =====
-- The busy wait of `keyboard_getchar` in drivers/keyboard.c, against the scancodes that arrive.
use mathlib.Core.Option
use ace_os.Base.{
  ℕ, ◌<◌, ◌≡◌, ◌∙◌, ap, Bool, true, false, Option, none, some, List, [], ◌∷◌, if◌then◌else◌, ◌==◌,
  Bool-cases, inl, inr,
}
use ace_os.Keyboard.{
  Keyboard, keyboard_getchar, keyboard_handler, keyboard_buffer_empty, keyboard_buffer_pop,
}
use ace_os.Keyboard.Fifo.{IsValid, contents, front, pop_refines, empty-length}
use ace_os.Keyboard.Translate.{typed, shift_after, caps_after, handler_refines}

abbrev pub AllBytes : List ℕ → Type 0
AllBytes [] = Unit {0}
AllBytes (s ∷ ss) = (s < 256) × AllBytes ss

-- The first character that a run of scancodes types, and what follows it.
pub first_typed : Bool → Bool → List ℕ → Option (ℕ × List ℕ)
first_typed shift caps [] = none
first_typed shift caps (s ∷ ss) =
    let later = first_typed (shift_after shift s) (caps_after caps s) ss in
    let c = typed shift caps s in if c == 0 then later else some (c, ss)

abbrev pub outcome : ℕ × Keyboard × List ℕ → ℕ × List ℕ
outcome (c, k, ss) = (c, ss)

pop_outcome :
    (k : Keyboard) (ss : List ℕ)
    → IsValid k
    → Option.map outcome (let (c, k') = keyboard_buffer_pop k in some (c, k', ss))
      ≡ some (front (contents k), ss)
pop_outcome k ss v = ap (λ c. some (c, ss)) (pop_refines k v).0

-- A character that waits is returned at once, and no interrupt is awaited.
getchar_ready :
    (k : Keyboard) (ss : List ℕ)
    → IsValid k
    → keyboard_buffer_empty k ≡ false
    → Option.map outcome (keyboard_getchar k ss) ≡ some (front (contents k), ss)
unfolding keyboard_getchar
getchar_ready k [] v e = rw e (pop_outcome k [] v)
getchar_ready k (s ∷ ss) v e = rw (e, keyboard_getchar) (pop_outcome k (s ∷ ss) v)

-- With no character waiting, `keyboard_getchar` returns the first one that the arriving scancodes
-- type, having consumed exactly the scancodes up to it, and waits on if none of them types one.
pub keyboard_getchar-first_typed :
    (k : Keyboard) (ss : List ℕ)
    → IsValid k
    → contents k ≡ []
    → AllBytes ss
    → Option.map outcome (keyboard_getchar k ss) ≡ first_typed k.shift_pressed k.caps_lock_on ss
unfolding keyboard_getchar first_typed
keyboard_getchar-first_typed k [] v e h = rw (empty-length k v, e)
keyboard_getchar-first_typed k (s ∷ ss) v e h =
    let (v', queue, shift, caps) = handler_refines k s v h.0 in
    let k' = keyboard_handler k s in
    let none_yet : keyboard_buffer_empty k ≡ true = empty-length k v ∙ rw e in
    rw (none_yet, keyboard_getchar)
      (elim (Bool-cases (typed k.shift_pressed k.caps_lock_on s == 0)) [
        | inl quiet ↦
            rw quiet (
              rw (← shift, ← caps) (keyboard_getchar-first_typed k' ss v' (queue ∙ rw quiet e) h.1))
        | inr hit ↦ rw hit (
            let full : contents k' ≡ typed k.shift_pressed k.caps_lock_on s ∷ [] =
              (queue ∙ rw (hit, e)) in
            (getchar_ready k' ss v' (empty-length k' v' ∙ rw full)) ∙ rw full)
      ])
