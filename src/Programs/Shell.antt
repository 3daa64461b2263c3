-- ===== src/Programs/Shell.antt =====
-- programs/shell: a line without quotes is the name of the program.
use liebe_os.Prelude.{
  ℕ, ◌+◌, ◌<◌, ◌≡◌, ◌≢◌, refl, true, none, some, List, [], ◌∷◌, ltb, arith, length, ◌∙◌, Bool-cases,
  inl, inr, subst, ◌++◌,
}
use liebe_os.Text.{Text, strncpy}
use liebe_os.Stdlib.Readline.{terminal_readline}
use liebe_os.Stdlib.Readline.Edit.{edit, pressed, Holds}
use liebe_os.Stdlib.Readline.Read.{IsLine, terminal_readline-IsLine}
use liebe_os.Stdlib.Strtok.{Tokenizer}
use liebe_os.Stdlib.Strtok.Plain.{IsPlain, closed}
use liebe_os.Stdlib.Command.{Allocator, system_run}
use liebe_os.Stdlib.Command.Plain.{cut, copy-text, parse_command-plain}
use liebe_os.Programs.{Round, shell_round}

-- The characters of a line, the last one first.
abbrev pub ArePlain : List ℕ → Type 0
ArePlain [] = Unit {0}
ArePlain (c ∷ typed) = IsPlain c × ArePlain typed

abbrev pub first_of : List ℕ → ℕ
first_of [] = 0
first_of (c ∷ []) = c
first_of (c ∷ d ∷ typed) = first_of (d ∷ typed)

Holds-first :
    (out : Text) (typed : List ℕ) → 0 < length typed → Holds out typed → out 0 ≡ first_of typed
Holds-first out [] pos holds = absurd (omega arith)
Holds-first out (c ∷ []) pos holds = holds.0
Holds-first out (c ∷ d ∷ typed) pos (last, holds) = Holds-first out (d ∷ typed) (omega arith) holds

Holds-ArePlain :
    (out : Text) (typed : List ℕ)
    → Holds out typed
    → ArePlain typed
    → (k : ℕ) → k < length typed
    → IsPlain (out k)
Holds-ArePlain out [] holds plain k lt = absurd (omega arith)
Holds-ArePlain out (c ∷ typed) (last, holds) (here, plain) k lt =
    elim (Bool-cases (ltb k (length typed))) [
      | inl before ↦ Holds-ArePlain out typed holds plain k (ground arith)
      | inr at_ ↦ let e : k ≡ length typed = ground arith in rw (e, last) here
    ]

Holds-same :
    (out arg : Text) (typed : List ℕ)
    → ((k : ℕ) → k < length typed → arg k ≡ out k)
    → Holds out typed
    → Holds arg typed
Holds-same out arg [] same holds = tt
Holds-same out arg (c ∷ typed) same (last, holds) = (
  same (length typed) (omega arith) ∙ last,
  Holds-same out arg typed (λ k lt. same k (omega arith)) holds,
)

-- What system_run gets of a line: the characters as one argument.
system_run-plain :
    (fuel : ℕ) (malloc : Allocator) (before copy out : Text) (typed : List ℕ)
    → Holds out typed
    → out (length typed) ≡ 0
    → 0 < length typed
    → length typed < 512
    → length typed + 1 < fuel
    → ArePlain typed
    → first_of typed ≢ b' '
    → malloc.succeeds 0 ≡ true
    → (t : Tokenizer) × (arg : Text) × (system_run fuel malloc
          (record { sp = none; quotes = closed; text = before })
          copy
          out
        ≡ some (some (arg ∷ []), t))
      × (t.sp ≡ none)
      × (t.quotes ≡ closed)
      × Holds arg typed
      × (arg (length typed) ≡ 0)
unfolding system_run
system_run-plain fuel malloc before copy out typed holds end pos short enough plain first has =
    let n : ℕ = length typed in
    let command : Text = strncpy copy out 1024 in
    let chars = Holds-ArePlain out typed holds plain in
    let copied_ = copy-text n 1024 copy out (λ k lt. (chars k lt).0) end in
    let same : (k : ℕ) → k < n → command k ≡ out k = λ k lt. copied_ k ∙ ground arith in
    let over : command n ≡ 0 = copied_ n ∙ ground arith in
    let z : 0 + n ≡ n = omega arith in
    let (t, arg, run, sp, quotes, chars', nul) =
      parse_command-plain fuel 0 n 1024 malloc before command (omega arith) (omega arith)
        (omega arith) pos (λ k lt. absurd (omega arith))
        (λ k lt. rw (same k (omega arith)) (chars k (omega arith)))
        (rw (same 0 pos, Holds-first out typed pos holds) first) (rw z over) has in
    let all : (k : ℕ) → k < n → arg k ≡ out k =
      λ k lt. let e : 0 + k ≡ k = omega arith in rw e at (chars' k lt (omega arith)) ∙ same k lt in
    let whole : cut n 511 ≡ n = ground arith in
    (t, arg, run, sp, quotes, Holds-same out arg typed all holds, rw whole at nul)

-- For keys that make a line of at least one and at most 511 characters, none of them a quote and
-- the first not a blank, with fuel above its length, a tokenizer at rest and memory for one
-- argument, a round of the shell hands the kernel the whole line as one argument, with a NUL behind
-- it, and leaves the tokenizer at rest.
pub shell_round-plain :
    (fuel : ℕ) (malloc : Allocator) (before buf copy : Text) (keys typed : List ℕ)
    → edit 1023 [] (pressed keys) ≡ some typed
    → 0 < length typed
    → length typed < 512
    → length typed + 1 < fuel
    → ArePlain typed
    → first_of typed ≢ b' '
    → malloc.succeeds 0 ≡ true
    → (round : Round) × (arg : Text) × (shell_round fuel malloc
          (record { sp = none; quotes = closed; text = before })
          buf
          copy
          keys
        ≡ some round)
      × (round.arguments ≡ some (arg ∷ []))
      × Holds arg typed
      × (arg (length typed) ≡ 0)
      × (round.tokenizer.sp ≡ none)
      × (round.tokenizer.quotes ≡ closed)
unfolding shell_round
shell_round-plain fuel malloc before buf copy keys typed typing pos short enough plain first has =
    let reads : IsLine buf 1024 (edit 1023 [] (pressed keys))
        (terminal_readline buf 1024 true keys) =
      terminal_readline-IsLine buf 1024 true keys (omega arith) in
    let reads' =
      subst (λ o. IsLine buf 1024 o (terminal_readline buf 1024 true keys)) typing reads in
    let (line, found, few, holds, end, kept) = reads' in
    let (t, arg, run, sp, quotes, chars, nul) =
      system_run-plain fuel malloc before copy line.out typed holds end pos short enough plain first
        has in
    (
      record {
        arguments = some (arg ∷ []);
        tokenizer = t;
        line = line;
        printed = b'\n' ∷ (line.shown ++ (b' ' ∷ b'$' ∷ []));
      },
      arg,
      rw (shell_round, found, run) refl,
      refl,
      chars,
      nul,
      sp,
      quotes,
    )
