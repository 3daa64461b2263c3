-- ===== src/Keyboard.antt =====
-- keyboard/keyboard.c and keyboard/classic.c: the key buffer of a process, the list of keyboards, and
-- the scan codes.
pub mod Queue
mod Scancodes
mod Tests
use liebe_os.Prelude.{
  ℕ, zero, suc, ◌+◌, ◌-◌, ◌%◌, ◌^◌, Bool, true, false, not, ◌&&◌, Option, none, some, List, [], ◌∷◌,
  ◌++◌, ltb, leb, ◌==◌, if◌then◌else◌, update, get_elem?, bit_and, Status, Result, ok, err,
}
use liebe_os.Keyboard.Scancodes.{scan_set_one, scan_set_size}

-- LIEBE_OS_KEYBOARD_BUFFER_SIZE
abbrev pub buffer_size : ℕ
buffer_size = 1024

-- `struct keyboard_buffer`. The `int`s `head` and `tail` are given by their bit patterns, since the
-- remainder by `sizeof` is taken of an unsigned number.
pub record KeyBuffer : Type 0 where
  pub buffer : ℕ → ℕ
  pub head : ℕ
  pub tail : ℕ

pub get_tail_index : KeyBuffer → ℕ
get_tail_index kb = kb.tail % 2 ^ 32 % buffer_size

-- `keyboard_push`: `none` is the null pointer that `process_current` may return.
pub push : Option KeyBuffer → ℕ → Option KeyBuffer
unfolding get_tail_index
push none c = none
push (some kb) c =
    if c == 0
    then some kb
    else some (record kb {
      buffer = update kb.buffer (get_tail_index kb) c;
      tail = (kb.tail + 1) % 2 ^ 32;
    })

pub backspace : KeyBuffer → KeyBuffer
unfolding get_tail_index
backspace kb =
    let moved = record kb { tail = (kb.tail + 2 ^ 32 - 1) % 2 ^ 32 } in
    record moved { buffer = update moved.buffer (get_tail_index moved) 0 }

-- `keyboard_pop`, with the buffer of the current task's process, if there is a current task.
pub pop : Option KeyBuffer → ℕ × Option KeyBuffer
pop none = (0, none)
pop (some kb) =
    let real_index = kb.head % 2 ^ 32 % buffer_size in
    let c = kb.buffer real_index in
    if c == 0 then (0, some kb) else (
      c,
      some (record kb { buffer = update kb.buffer real_index 0; head = (kb.head + 1) % 2 ^ 32 }),
    )

-- `struct keyboard`: the result of its `init` function, if it has one.
pub record Layer : Type 0 where
  pub init : Option (Result (Unit {0}))
  pub capslock : Bool

-- The list from `keyboard_list_head` along `next`.
unfoldable pub insert : List Layer → Layer → Result (Unit {0}) × List Layer
insert layers keyboard = elim keyboard.init [
  | none ↦ (err Status.einvarg, layers)
  | some res ↦ (res, layers ++ (keyboard ∷ []))
]

-- `none`: a read past the end of the array.
pub scancode_to_char : (capslock : Bool) → (scancode : ℕ) → Option ℕ
unfolding scan_set_one
scancode_to_char capslock scancode =
    if ltb scan_set_size scancode then some 0 else elim (get_elem? scan_set_one scancode) [
      | none ↦ none
      | some c ↦ some (if not capslock then if leb b'A' c && leb c b'Z' then c + 32 else c else c)
    ]

-- CLASSIC_KEYBOARD_KEY_RELEASED, CLASSIC_KEYBOARD_CAPSLOCK
abbrev pub key_released : ℕ
key_released = 0x80

abbrev pub capslock_key : ℕ
capslock_key = 0x3A

-- `classic_keyboard_handle_interrupt`, with the byte that the port gives: the new state of the caps
-- lock and of the buffer of the current process. `none` as above.
pub handle_interrupt :
    (scancode : ℕ) → (capslock : Bool) → Option KeyBuffer → Option (Bool × Option KeyBuffer)
unfolding push scancode_to_char
handle_interrupt scancode capslock kb =
    if not (bit_and scancode key_released == 0)
    then some (capslock, kb)
    else if scancode == capslock_key
    then some (not capslock, kb)
    else elim (scancode_to_char capslock scancode) [
      | none ↦ none
      | some c ↦ some (capslock, if c == 0 then kb else push kb c)
    ]
