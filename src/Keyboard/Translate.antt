-- ===== src/Keyboard/Translate.antt =====
-- What `keyboard_handler` of drivers/keyboard.c makes of each scancode.
use ace_os.Base.{
  ℕ, ◌-◌, ◌<◌, ◌≡◌, refl, Bool, true, false, not, ◌&&◌, ◌||◌, arith, if◌then◌else◌, ◌==◌, ==_iff,
  leb, ltb, get_or, bit_and, Bool-cases, inl, inr, ltb→lt, holds_below, holds_below-lt,
}
use mathlib.Core.Bool.{xor}
use ace_os.Keyboard.{
  Keyboard, character_of, scancode_ascii_map, scancode_ascii_map_shift, keyboard_handler,
  keyboard_buffer_push,
}
use ace_os.Keyboard.Fifo.{IsValid, push-IsValid, contents, enqueue, push_refines}

abbrev pub is_lower : ℕ → Bool
is_lower c = leb b'a' c && leb c b'z'

-- The layout that the tables stand for: a letter's case is the exclusive or of the modifiers,
-- any other key takes its upper symbol when either is on.
unfoldable pub layout : Bool → Bool → ℕ → ℕ
layout shift caps scancode =
    let plain = get_or scancode_ascii_map scancode 0 in
    if is_lower plain
    then (if xor shift caps then plain - 32 else plain)
    else if shift || caps
    then get_or scancode_ascii_map_shift scancode 0
    else plain

agrees : Bool → Bool → Bool
agrees shift caps =
    holds_below 128 (λ scancode. character_of shift caps scancode == layout shift caps scancode)

agrees_all : (shift caps : Bool) → agrees shift caps ≡ true
unfolding agrees character_of layout holds_below xor
agrees_all true true = refl
agrees_all true false = refl
agrees_all false true = refl
agrees_all false false = refl

-- For every key, `keyboard_handler` picks the character of the layout: a letter is upper case
-- exactly when one of shift and caps lock is on, and any other key gives its upper symbol when
-- at least one of the two is on.
pub character_of-layout :
    (shift caps : Bool) (scancode : ℕ)
    → scancode < 128
    → character_of shift caps scancode ≡ layout shift caps scancode
unfolding agrees
character_of-layout shift caps scancode h =
    (==_iff _ _).0 (holds_below-lt 128 _ scancode (agrees_all shift caps) h)

release_table :
    holds_below 256 (λ s.
      (if bit_and s 0x80 == 0 then ltb s 128 else leb 128 s)
      && (bit_and s 0x7f == (if ltb s 128 then s else s - 128)))
    ≡ true
unfolding holds_below
release_table = refl

bit_and_0x80 : (s : ℕ) → s < 256 → (bit_and s 0x80 == 0) ≡ ltb s 128
bit_and_0x80 s h = ground (arith, holds_below-lt 256 _ s release_table h)

bit_and_0x7f : (s : ℕ) → s < 256 → bit_and s 0x7f ≡ (if ltb s 128 then s else s - 128)
bit_and_0x7f s h = ground (arith, holds_below-lt 256 _ s release_table h)

-- What a scancode types: nothing for a release or a modifier.
abbrev pub typed : Bool → Bool → ℕ → ℕ
typed shift caps s =
    if leb 128 s || (s == 0x2a || (s == 0x36 || s == 0x3a)) then 0 else layout shift caps s

abbrev pub shift_after : Bool → ℕ → Bool
shift_after shift s =
    if s == 0x2a || s == 0x36 then true else if s == 0xaa || s == 0xb6 then false else shift

abbrev pub caps_after : Bool → ℕ → Bool
caps_after caps s = if s == 0x3a then not caps else caps

push_modifiers :
    (k : Keyboard) (c : ℕ)
    → ((keyboard_buffer_push k c).shift_pressed ≡ k.shift_pressed)
      × ((keyboard_buffer_push k c).caps_lock_on ≡ k.caps_lock_on)
unfolding keyboard_buffer_push
push_modifiers k c = ground arith

-- `keyboard_handler` tracks both shift keys and caps lock, and puts what the scancode types at the
-- back of the waiting characters, at most 255 of them; a scancode that types nothing leaves them.
pub handler_refines :
    (k : Keyboard) (s : ℕ)
    → IsValid k
    → s < 256
    → let k' = keyboard_handler k s in
      let c = typed k.shift_pressed k.caps_lock_on s in
      IsValid k'
      × (contents k' ≡ (if c == 0 then contents k else enqueue (contents k) c))
      × (k'.shift_pressed ≡ shift_after k.shift_pressed s)
      × (k'.caps_lock_on ≡ caps_after k.caps_lock_on s)
unfolding keyboard_handler
handler_refines k s v h =
    let c = character_of k.shift_pressed k.caps_lock_on s in
    elim (Bool-cases (ltb s 128)) [
      | inl press ↦
          rw (bit_and_0x80 s h, press)
            (ground (
              arith,
              character_of-layout k.shift_pressed k.caps_lock_on s (ltb→lt s 128 press),
              push_refines k c v,
              push-IsValid k c v,
              push_modifiers k c,
            ))
      | inr release ↦ rw (bit_and_0x80 s h, bit_and_0x7f s h, release) (ground arith)
    ]
