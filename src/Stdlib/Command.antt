-- ===== src/Stdlib/Command.antt =====
-- programs/stdlib/src/liebeos.c: a command's text as a list of arguments.
pub mod Plain
use liebe_os.Prelude.{
  ℕ, zero, suc, ◌+◌, ◌-◌, Bool, true, false, Option, none, some, List, [], ◌∷◌, leb, ◌==◌,
  if◌then◌else◌,
}
use liebe_os.Text.{Text, strncpy}
use liebe_os.Stdlib.Strtok.{Tokenizer, strtok}

-- `liebeos_malloc`: whether the call of a number succeeds, and what the memory holds that it gives.
pub record Allocator : Type 0 where
  pub succeeds : ℕ → Bool
  pub fresh : ℕ → Text

-- `sizeof(scommand)`, and the size of `argument` in `struct command_argument`
abbrev pub command_size : ℕ
command_size = 1025

abbrev pub argument_size : ℕ
argument_size = 512

-- `" "`
abbrev pub blank : Text
blank i = if i == 0 then b' ' else 0

-- The text from a pointer on, copied to the argument of the `k`th call of `liebeos_malloc`.
pub argument : Allocator → (k p : ℕ) → Text → Text
argument malloc k p text = strncpy (malloc.fresh k) (λ j. text (p + j)) argument_size

-- What is behind `while (token != 0)`, with fuel: the list goes on while there are tokens and memory.
pub parse_arguments : (fuel tokens k : ℕ) → Allocator → Tokenizer → Option (List Text × Tokenizer)
unfolding argument
parse_arguments fuel zero k malloc t = none
parse_arguments fuel (suc tokens) k malloc t = elim (strtok fuel none blank t) [
  | none ↦ none
  | some (none, t') ↦ some ([], t')
  | some (some p, t') ↦ elim (malloc.succeeds k) [
    | false ↦ some ([], t')
    | true ↦ elim (parse_arguments fuel tokens (k + 1) malloc t') [
      | none ↦ none
      | some (rest, t'') ↦ some (argument malloc k p t'.text ∷ rest, t'')
    ]
  ]
]

-- What is behind the first call of `strtok`; the list is `none` for the null pointer.
pub parse_root :
    (fuel : ℕ) → Allocator → Option ℕ → Tokenizer → Option (Option (List Text) × Tokenizer)
unfolding parse_arguments argument
parse_root fuel malloc none t = some (none, t)
parse_root fuel malloc (some p) t = elim (malloc.succeeds 0) [
  | false ↦ some (none, t)
  | true ↦ elim (parse_arguments fuel fuel 1 malloc t) [
    | none ↦ none
    | some (rest, t') ↦ some (some (argument malloc 0 p t.text ∷ rest), t')
  ]
]

-- The tokenizer holds `sp` and the quotes as the calls before left them, and as its text what
-- `scommand` holds before the copy.
pub parse_command :
    (fuel : ℕ)
    → Allocator
    → Tokenizer
    → (command : Text) → (max : ℕ) → Option (Option (List Text) × Tokenizer)
unfolding parse_root
parse_command fuel malloc t command max =
    let copy = record t { text = strncpy t.text command command_size } in
    elim (leb command_size max) [
      | true ↦ some (none, t)
      | false ↦ elim (strtok fuel (some 0) blank copy) [
        | none ↦ none
        | some (token, t') ↦ parse_root fuel malloc token t'
      ]
    ]

-- The arguments that `liebeos_system_run` gives to `liebeos_system`, or `none` where it returns -1.
-- `buf` is what its buffer held before.
unfoldable pub system_run :
    (fuel : ℕ)
    → Allocator
    → Tokenizer
    → (buf command : Text) → Option (Option (List Text) × Tokenizer)
unfolding parse_command
system_run fuel malloc t buf command = parse_command fuel malloc t (strncpy buf command 1024) 1024
