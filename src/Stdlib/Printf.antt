-- ===== src/Stdlib/Printf.antt =====
-- programs/stdlib/src/stdio.c: putchar and printf.
pub mod Format
mod Tests
use liebe_os.Prelude.{
  ℕ, zero, suc, ◌+◌, not, Option, none, some, List, [], ◌∷◌, ◌==◌, if◌then◌else◌, ℤ,
}
use liebe_os.Text.{Text}
use liebe_os.Stdlib.{itoa}

-- The calls of the kernel `liebeos_putchar` and `print`, on the state that they change.
pub record Console (S : Type 0) : Type 0 where
  pub put : ℕ → S → S
  pub print : Text → S → S

-- An argument behind the format: an `int`, or a pointer to a text.
pub data Argument : Type 0 where
  number : ℤ → Argument
  string : Text → Argument

-- The state of the kernel, and the static buffer of `itoa`.
pub record Output (S : Type 0) : Type 0 where
  pub console : S
  pub buffer : Text

module _ {S : Type 0} (console : Console S) where
  pub putchar : ℕ → Output S → Output S
  putchar c out = record out { console = console.put c out.console }

  -- `print(itoa(ival))`
  pub print_itoa : ℤ → Output S → Output S
  unfolding itoa
  print_itoa ival out =
      let (loc, text) = itoa ival out.buffer in
      record { console = console.print (λ j. text (loc + j)) out.console; buffer = text }

  -- `case 'd'`, with the arguments that are left. A missing argument or one of the other type is not
  -- defined, and gives `none`.
  pub print_decimal : List Argument → Output S → Option (List Argument × Output S)
  unfolding print_itoa
  print_decimal [] out = none
  print_decimal (Argument.number ival ∷ args) out = some (args, print_itoa ival out)
  print_decimal (Argument.string sval ∷ args) out = none

  -- `case 's'`
  pub print_string : List Argument → Output S → Option (List Argument × Output S)
  print_string [] out = none
  print_string (Argument.number ival ∷ args) out = none
  print_string (Argument.string sval ∷ args) out =
      some (args, record out { console = console.print sval out.console })

  -- `switch (*++p)`
  pub print_argument : (c : ℕ) → List Argument → Output S → Option (List Argument × Output S)
  unfolding print_decimal print_string putchar
  print_argument c args out =
      if c == b'd'
      then print_decimal args out
      else if c == b's'
      then print_string args out
      else some (args, putchar c out)

  -- The loop, with fuel for its rounds.
  pub printf_loop :
      (fuel : ℕ) → (fmt : Text) → (p : ℕ) → List Argument → Output S → Option (Output S)
  unfolding print_argument putchar
  printf_loop zero fmt p args out = none
  printf_loop (suc fuel) fmt p args out =
      let plain = printf_loop fuel fmt (p + 1) args (putchar (fmt p) out) in
      let directive : Option (Output S) = elim (print_argument (fmt (p + 1)) args out) [
        | none ↦ none
        | some (args', out') ↦ printf_loop fuel fmt (p + 2) args' out'
      ] in
      if fmt p == 0 then some out else if not (fmt p == b'%') then plain else directive

  pub printf : (fuel : ℕ) → (fmt : Text) → List Argument → Output S → Option (Output S)
  unfolding printf_loop
  printf fuel fmt args out = printf_loop fuel fmt 0 args out
