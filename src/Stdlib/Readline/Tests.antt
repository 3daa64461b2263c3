-- ===== src/Stdlib/Readline/Tests.antt =====
-- A line with a correction, between reads of an empty queue.
use liebe_os.Prelude.{ℕ, List, [], ◌∷◌, true, ◌≡◌, refl, some, arith}
use liebe_os.Stdlib.Readline.{terminal_readline}
use liebe_os.Stdlib.Readline.Edit.{edit, pressed}
use liebe_os.Stdlib.Readline.Read.{IsLine, terminal_readline-IsLine}

abbrev keys : List ℕ
keys = 0 ∷ b'l' ∷ b'a' ∷ 0 ∷ 0x08 ∷ b's' ∷ 13 ∷ b'x' ∷ []

typed : edit 1023 [] (pressed keys) ≡ some (b's' ∷ b'l' ∷ [])
typed = refl

-- A backspace where nothing is typed is a character of the line.
backspace_first : edit 1023 [] (0x08 ∷ 13 ∷ []) ≡ some (0x08 ∷ [])
backspace_first = refl

-- Two characters fill a buffer of three bytes.
full : edit 2 [] (b'a' ∷ b'b' ∷ b'c' ∷ []) ≡ some (b'b' ∷ b'a' ∷ [])
full = refl

terminal_readline-IsLine_example :
    IsLine (λ j. 7) 1024 (some (b's' ∷ b'l' ∷ [])) (terminal_readline (λ j. 7) 1024 true keys)
terminal_readline-IsLine_example = terminal_readline-IsLine (λ j. 7) 1024 true keys (omega arith)
