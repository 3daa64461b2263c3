-- ===== src/Stdlib/Strtok/Tests.antt =====
-- The first token of ` 'ab c`, which ends at the blank behind the quote.
use liebe_os.Prelude.{ℕ, zero, suc, ◌+◌, ◌≡◌, ◌≢◌, ◌<◌, refl, none, some, [], ◌∷◌, arith, inl, inr}
use liebe_os.Text.Sample.{bytes}
use liebe_os.Text.{Text}
use liebe_os.Stdlib.Strtok.{Tokenizer, strtok}
use liebe_os.Stdlib.Strtok.Plain.{closed}
use liebe_os.Stdlib.Strtok.Quoted.{HasLength, IsDelimiter, IsToken, IsLast, left_behind, strtok_lem}

abbrev command : Text
command = bytes (b' ' ∷ b'\'' ∷ b'a' ∷ b'b' ∷ b' ' ∷ b'c' ∷ [])

abbrev blank : Text
blank = bytes (b' ' ∷ [])

abbrev start : Tokenizer
start = record { sp = none; quotes = closed; text = command }

blank-HasLength : HasLength blank 1
blank-HasLength = record { nonzero = first; nul = refl }
  where
    first : (k : ℕ) → k < 1 → blank k ≢ 0
    first zero lt = ground arith
    first (suc k) lt = absurd (omega arith)

no_blank : (c : ℕ) → c ≢ b' ' → ¬ IsDelimiter 1 blank c
no_blank c ne (zero, lt, e) = ne (ground (arith, e))
no_blank c ne (suc k, lt, e) = absurd (omega (arith, lt))

is_token : IsToken 1 blank command 1 closed 3
is_token zero lt = (ground arith, λ (open_, is). no_blank b'\'' (ground arith) is)
is_token (suc zero) lt = (ground arith, λ (open_, is). no_blank b'a' (ground arith) is)
is_token (suc (suc zero)) lt = (ground arith, λ (open_, is). no_blank b'b' (ground arith) is)
is_token (suc (suc (suc j))) lt = absurd (omega arith)

is_last : IsLast 1 blank command 1 closed 3
is_last = inr (ground arith, (inl refl, (0, omega arith, refl)))

skipped : (j : ℕ) → j < 1 → IsDelimiter 1 blank (command (0 + j))
skipped zero lt = (0, omega arith, refl)
skipped (suc j) lt = absurd (omega arith)

strtok_lem_example : strtok 10 (some 0) blank start ≡ some (some 1, left_behind command 1 closed 3)
strtok_lem_example =
    strtok_lem 10 1 0 1 3 blank (some 0) start blank-HasLength (omega arith) (inr (refl, refl))
      (omega arith) skipped (no_blank b'\'' (ground arith)) (omega arith) (omega arith) is_token
      is_last
