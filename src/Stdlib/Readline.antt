-- ===== src/Stdlib/Readline.antt =====
-- programs/stdlib/src/liebeos.c: reading a line from the keyboard.
pub mod Edit
pub mod Store
pub mod Read
mod Tests
use liebe_os.Prelude.{
  ℕ, zero, suc, ◌+◌, ◌-◌, ◌&&◌, Bool, true, false, Option, none, some, List, [], ◌∷◌, ltb, leb,
  ◌==◌, if◌then◌else◌, update, length,
}
use liebe_os.Text.{Text}

-- `liebeos_getkey_block`, over the values that the calls of `liebeos_getkey` return, as the `char` that
-- each is put in: `none` where they are used up, and the program still waits.
pub getkey_block : List ℕ → Option (ℕ × List ℕ)
getkey_block [] = none
getkey_block (val ∷ keys) =
    let rest = getkey_block keys in if val == 0 then rest else some (val, keys)

-- The buffer, the index `i`, the characters that are written to the terminal, the last one first, and
-- the values of `liebeos_getkey` that are left.
pub record Line : Type 0 where
  pub out : Text
  pub i : ℕ
  pub shown : List ℕ
  pub keys : List ℕ

-- `if (output_while_typing) liebeos_putchar(key)`
pub show_key : Bool → ℕ → List ℕ → List ℕ
show_key output_while_typing key shown = if output_while_typing then key ∷ shown else shown

-- The rest of the loop's body for a key that does not end the line, with the `i++` behind it: after
-- a backspace `i -= 2; continue` leaves the index one below.
pub store_key : ℕ → Line → Line
unfolding update
store_key key line =
    if key == 0x08 && leb 1 line.i
    then record line { out = update line.out (line.i - 1) 0x00; i = line.i - 1 }
    else record line { out = update line.out line.i key; i = line.i + 1 }

-- The loop, with fuel; `none` also where the program still waits for a key.
pub readline_loop : (fuel max : ℕ) → Bool → Line → Option Line
unfolding getkey_block show_key store_key
readline_loop zero max output_while_typing line = none
readline_loop (suc fuel) max output_while_typing line = elim (ltb line.i (max - 1)) [
  | false ↦ some line
  | true ↦ elim (getkey_block line.keys) [
    | none ↦ none
    | some (key, keys) ↦
        let shown = show_key output_while_typing key line.shown in
        let more =
          readline_loop fuel max output_while_typing
            (store_key key (record line { keys = keys; shown = shown })) in
        if key == 13 then some (record line { keys = keys }) else more
  ]
]

-- `out[i] = 0x00`
pub end_line : Line → Line
unfolding update
end_line line = record line { out = update line.out line.i 0x00 }

-- The fuel counts the values of `liebeos_getkey`.
pub terminal_readline : Text → (max : ℕ) → Bool → (keys : List ℕ) → Option Line
unfolding readline_loop end_line
terminal_readline out max output_while_typing keys =
    elim (readline_loop (length keys + 1) max output_while_typing
      (record { out = out; i = 0; shown = []; keys = keys })) [
        | none ↦ none
        | some line ↦ some (end_line line)
      ]
