-- ===== src/Keyboard.antt =====
-- drivers/keyboard.c: the scancode tables, the interrupt handler with its shift and caps state,
-- and the ring of 256 characters between the handler and its reader.
-- `inb(KEYBOARD_DATA_PORT)` is the handler's argument `scancode`, a byte. The children prove.
pub mod Fifo
pub mod Translate
pub mod Wait
mod Tests
use ace_os.Base.{
  ℕ, ◌+◌, ◌-◌, ◌%◌, Bool, true, false, not, ◌&&◌, ◌||◌, Option, none, some, List, [], ◌∷◌,
  if◌then◌else◌, ◌==◌, leb, get_or, set, bit_and,
}

-- The initialisers give the first entries, the rest of the 128 are zero: read by `get_or _ _ 0`.
abbrev pub scancode_ascii_map : List ℕ
scancode_ascii_map =
    0 ∷ 27 ∷ b'1' ∷ b'2' ∷ b'3' ∷ b'4' ∷ b'5' ∷ b'6' ∷ b'7' ∷ b'8' ∷ b'9' ∷ b'0' ∷ b'-' ∷ b'=' ∷ 8
    ∷ 9 ∷ b'q' ∷ b'w' ∷ b'e' ∷ b'r' ∷ b't' ∷ b'y' ∷ b'u' ∷ b'i' ∷ b'o' ∷ b'p' ∷ b'[' ∷ b']' ∷ 10 ∷ 0
    ∷ b'a' ∷ b's' ∷ b'd' ∷ b'f' ∷ b'g' ∷ b'h' ∷ b'j' ∷ b'k' ∷ b'l' ∷ b';' ∷ 39 ∷ 96 ∷ 0 ∷ 92 ∷ b'z'
    ∷ b'x' ∷ b'c' ∷ b'v' ∷ b'b' ∷ b'n' ∷ b'm' ∷ b',' ∷ b'.' ∷ b'/' ∷ 0 ∷ b'*' ∷ 0 ∷ b' ' ∷ 0 ∷ 0 ∷ 0
    ∷ 0 ∷ 0 ∷ 0 ∷ 0 ∷ 0 ∷ 0 ∷ 0 ∷ 0 ∷ 0 ∷ 0 ∷ 0 ∷ 0 ∷ 0 ∷ b'-' ∷ 0 ∷ 0 ∷ 0 ∷ b'+' ∷ []

abbrev pub scancode_ascii_map_shift : List ℕ
scancode_ascii_map_shift =
    0 ∷ 27 ∷ b'!' ∷ b'@' ∷ b'#' ∷ b'$' ∷ b'%' ∷ b'^' ∷ b'&' ∷ b'*' ∷ b'(' ∷ b')' ∷ b'_' ∷ b'+' ∷ 8
    ∷ 9 ∷ b'Q' ∷ b'W' ∷ b'E' ∷ b'R' ∷ b'T' ∷ b'Y' ∷ b'U' ∷ b'I' ∷ b'O' ∷ b'P' ∷ b'{' ∷ b'}' ∷ 10 ∷ 0
    ∷ b'A' ∷ b'S' ∷ b'D' ∷ b'F' ∷ b'G' ∷ b'H' ∷ b'J' ∷ b'K' ∷ b'L' ∷ b':' ∷ 34 ∷ b'~' ∷ 0 ∷ b'|'
    ∷ b'Z' ∷ b'X' ∷ b'C' ∷ b'V' ∷ b'B' ∷ b'N' ∷ b'M' ∷ b'<' ∷ b'>' ∷ b'?' ∷ 0 ∷ b'*' ∷ 0 ∷ b' ' ∷ 0
    ∷ 0 ∷ 0 ∷ 0 ∷ 0 ∷ 0 ∷ 0 ∷ 0 ∷ 0 ∷ 0 ∷ 0 ∷ 0 ∷ 0 ∷ 0 ∷ 0 ∷ 0 ∷ b'-' ∷ 0 ∷ 0 ∷ 0 ∷ b'+' ∷ []

abbrev pub key_lshift : ℕ
key_lshift = 0x2a

abbrev pub key_rshift : ℕ
key_rshift = 0x36

abbrev pub key_capslock : ℕ
key_capslock = 0x3a

abbrev pub keyboard_buffer_size : ℕ
keyboard_buffer_size = 256

-- The static variables of the file.
pub record Keyboard : Type 0 where
  pub buffer : List ℕ
  pub buffer_head : ℕ
  pub buffer_tail : ℕ
  pub shift_pressed : Bool
  pub caps_lock_on : Bool

pub keyboard_buffer_init : Keyboard → Keyboard
keyboard_buffer_init k = record k { buffer_head = 0; buffer_tail = 0 }

-- A full buffer drops the character.
pub keyboard_buffer_push : Keyboard → ℕ → Keyboard
keyboard_buffer_push k c =
    let next_head = (k.buffer_head + 1) % keyboard_buffer_size in
    if next_head == k.buffer_tail
    then k
    else record k { buffer = set k.buffer k.buffer_head c; buffer_head = next_head }

pub keyboard_buffer_pop : Keyboard → ℕ × Keyboard
keyboard_buffer_pop k = if k.buffer_head == k.buffer_tail then (0, k) else (
  get_or k.buffer k.buffer_tail 0,
  record k { buffer_tail = (k.buffer_tail + 1) % keyboard_buffer_size },
)

pub keyboard_buffer_empty : Keyboard → Bool
keyboard_buffer_empty k = k.buffer_head == k.buffer_tail

-- The character of a key press, 0 for none, from the shift and caps states.
pub character_of : Bool → Bool → ℕ → ℕ
character_of shift caps scancode =
    let plain = get_or scancode_ascii_map scancode 0 in
    let shifted = get_or scancode_ascii_map_shift scancode 0 in
    if (shift && not caps) || (not shift && caps)
    then (if leb b'a' plain && leb plain b'z' then plain - 32 else shifted)
    else if shift && caps
    then (if leb b'A' shifted && leb shifted b'Z' then shifted + 32 else shifted)
    else plain

pub keyboard_handler : Keyboard → ℕ → Keyboard
keyboard_handler k scancode =
    if bit_and scancode 0x80 == 0
    then (if scancode == key_lshift || scancode == key_rshift
        then record k { shift_pressed = true }
        else if scancode == key_capslock
        then record k { caps_lock_on = not k.caps_lock_on }
        else let character = character_of k.shift_pressed k.caps_lock_on scancode in
          if character == 0 then k else keyboard_buffer_push k character)
    else let key = bit_and scancode 0x7f in
      if key == key_lshift || key == key_rshift then record k { shift_pressed = false } else k

-- The busy wait of `keyboard_getchar`: while the buffer is empty only interrupts happen, and
-- `arrivals` are their scancodes. `none` is a wait that has not ended.
pub keyboard_getchar : Keyboard → List ℕ → Option (ℕ × Keyboard × List ℕ)
keyboard_getchar k [] =
    if keyboard_buffer_empty k
    then none
    else (let (c, k') = keyboard_buffer_pop k in some (c, k', []))
keyboard_getchar k (scancode ∷ rest) = elim (keyboard_buffer_empty k) [
  | true ↦ keyboard_getchar (keyboard_handler k scancode) rest
  | false ↦ let (c, k') = keyboard_buffer_pop k in some (c, k', scancode ∷ rest)
]
