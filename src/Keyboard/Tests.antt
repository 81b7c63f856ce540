-- ===== src/Keyboard/Tests.antt =====
-- Runs of drivers/keyboard.c on small inputs.
use ace_os.Base.{◌≡◌, refl, true, false, [], ◌∷◌, arith, replicate, if◌then◌else◌, ◌==◌}
use mathlib.Core.Option
use ace_os.Keyboard.{Keyboard, character_of, keyboard_handler, keyboard_getchar}
use ace_os.Keyboard.Fifo.{IsValid, contents, slots, enqueue}
use ace_os.Keyboard.Translate.{typed, shift_after, caps_after, handler_refines}
use ace_os.Keyboard.Wait.{outcome, first_typed, keyboard_getchar-first_typed}

abbrev idle : Keyboard
idle = record {
  buffer = replicate 256 0;
  buffer_head = 255;
  buffer_tail = 255;
  shift_pressed = false;
  caps_lock_on = false;
}

-- One character waits, at the last index of the ring.
abbrev one_waiting : Keyboard
one_waiting = record idle { buffer_head = 0 }

idle-IsValid : IsValid idle
idle-IsValid = record { storage = refl; head_in = omega arith; tail_in = omega arith }

one_waiting-IsValid : IsValid one_waiting
one_waiting-IsValid = record { storage = refl; head_in = omega arith; tail_in = omega arith }

-- Caps lock alone turns the digit 1 into an exclamation mark.
caps_one : character_of false true 2 ≡ b'!'
unfolding character_of
caps_one = refl

handler_refines_example :
    let k' = keyboard_handler one_waiting 30 in
    let c = typed false false 30 in
    IsValid k'
    × (contents k' ≡ (if c == 0 then contents one_waiting else enqueue (contents one_waiting) c))
    × (k'.shift_pressed ≡ shift_after false 30)
    × (k'.caps_lock_on ≡ caps_after false 30)
handler_refines_example = handler_refines one_waiting 30 one_waiting-IsValid (omega arith)

keyboard_getchar-first_typed_example :
    Option.map outcome (keyboard_getchar idle (0x2a ∷ 30 ∷ 5 ∷ []))
    ≡ first_typed false false (0x2a ∷ 30 ∷ 5 ∷ [])
unfolding slots
keyboard_getchar-first_typed_example =
    keyboard_getchar-first_typed idle (0x2a ∷ 30 ∷ 5 ∷ []) idle-IsValid refl (omega arith)
