-- ===== src/Programs/Tests.antt =====
-- A round of the shell for the line `ls`, and echo with two arguments.
use liebe_os.Prelude.{ℕ, ◌≡◌, refl, true, some, none, List, [], ◌∷◌, arith}
use liebe_os.Text.{Text}
use liebe_os.Text.Sample.{bytes}
use liebe_os.Stdlib.Readline.Edit.{Holds}
use liebe_os.Stdlib.Strtok.Plain.{closed}
use liebe_os.Stdlib.Command.{Allocator}
use liebe_os.Stdlib.Printf.{Console}
use liebe_os.Programs.{Round, shell_round, echo_loop, echo_main}
use liebe_os.Programs.Shell.{shell_round-plain}

abbrev memory : Allocator
memory = record { succeeds = λ k. true; fresh = λ k j. 0 }

abbrev keys : List ℕ
keys = b'l' ∷ b'a' ∷ 0 ∷ 0x08 ∷ b's' ∷ 13 ∷ []

shell_round-plain_example :
    (round : Round) × (arg : Text) × (shell_round 10 memory
        (record { sp = none; quotes = closed; text = λ j. 7 })
        (λ j. 7)
        (λ j. 7)
        keys
      ≡ some round)
    × (round.arguments ≡ some (arg ∷ []))
    × Holds arg (b's' ∷ b'l' ∷ [])
    × (arg 2 ≡ 0)
    × (round.tokenizer.sp ≡ none)
    × (round.tokenizer.quotes ≡ closed)
shell_round-plain_example =
    shell_round-plain 10 memory (λ j. 7) (λ j. 7) (λ j. 7) keys (b's' ∷ b'l' ∷ []) refl
      (omega arith) (omega arith) (omega arith) (ground arith, (ground arith, tt)) (ground arith)
      refl

-- The first character of each text that is printed, the last one first.
abbrev console : Console (List ℕ)
console = record { put = λ c shown. c ∷ shown; print = λ text shown. text 0 ∷ shown }

echo_two :
    echo_main console (bytes (b'e' ∷ []) ∷ bytes (b'a' ∷ []) ∷ bytes (b'b' ∷ []) ∷ []) []
    ≡ some (b'\n' ∷ b'b' ∷ b' ' ∷ b'a' ∷ b'\n' ∷ [])
unfolding echo_main echo_loop
echo_two = refl
