-- ===== src/Programs.antt =====
-- programs/shell and programs/echo: the shell's loop, and the program that prints its arguments.
pub mod Shell
mod Tests
use liebe_os.Prelude.{
  ℕ, zero, suc, ◌+◌, ◌-◌, Option, none, some, List, [], ◌∷◌, ◌++◌, true, ltb, ◌==◌, if◌then◌else◌,
  length, get_elem?,
}
use liebe_os.Text.{Text}
use liebe_os.Stdlib.Readline.{Line, terminal_readline}
use liebe_os.Stdlib.Strtok.{Tokenizer}
use liebe_os.Stdlib.Command.{Allocator, system_run}
use liebe_os.Stdlib.Printf.{Console}

-- What a round of the shell leaves: the arguments that `liebeos_system` gets, or `none` where
-- `liebeos_system_run` returns -1; the tokenizer; the line; and the characters printed, the last first.
pub record Round : Type 0 where
  pub arguments : Option (List Text)
  pub tokenizer : Tokenizer
  pub line : Line
  pub printed : List ℕ

-- A round of `while (1)` in `shell`. `buf` and `copy` are the bytes of its buffer and of that of
-- `liebeos_system_run`; `none` where the line is not ended, or the fuel for the tokens runs out.
pub shell_round :
    (fuel : ℕ) → Allocator → Tokenizer → (buf copy : Text) → (keys : List ℕ) → Option Round
shell_round fuel malloc t buf copy keys = elim (terminal_readline buf 1024 true keys) [
  | none ↦ none
  | some line ↦ elim (system_run fuel malloc t copy line.out) [
    | none ↦ none
    | some (arguments, t') ↦ some (record {
      arguments = arguments;
      tokenizer = t';
      line = line;
      printed = b'\n' ∷ (line.shown ++ (b' ' ∷ b'$' ∷ []));
    })
  ]
]

-- A text of one character.
abbrev pub letter : ℕ → Text
letter c i = if i == 0 then c else 0

module _ {S : Type 0} (console : Console S) where
  -- The loop of echo's `main`, from the index `i` with `left` rounds to go; `none` for a read past the
  -- arguments.
  pub echo_loop : (left i : ℕ) → (argv : List Text) → S → Option S
  echo_loop zero i argv s = some s
  echo_loop (suc left) i argv s = elim (get_elem? argv i) [
    | none ↦ none
    | some argument ↦
        let s' = console.print argument s in
        echo_loop left (i + 1) argv
          (if ltb (i + 1) (length argv) then console.print (letter b' ') s' else s')
  ]

  -- echo's `main`, where `argc` is the count of the arguments, the program's name among them.
  pub echo_main : (argv : List Text) → S → Option S
  unfolding echo_loop
  echo_main argv s = elim (echo_loop (length argv - 1) 1 argv (console.print (letter b'\n') s)) [
    | none ↦ if length argv == 1 then some s else none
    | some s' ↦ some (if length argv == 1 then s else console.print (letter b'\n') s')
  ]
