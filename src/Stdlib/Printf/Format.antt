-- ===== src/Stdlib/Printf/Format.antt =====
-- programs/stdlib/src/stdio.c: printf on the text of a format.
use liebe_os.Prelude.{
  ℕ, zero, suc, ◌+◌, ◌<◌, ◌≡◌, ◌≢◌, refl, true, false, Option, none, some, List, [], ◌∷◌, ◌==◌,
  length, arith, ◌∙◌, ℤ,
}
use liebe_os.Text.{Text}
use liebe_os.Stdlib.Printf.{
  Console, Argument, Output, putchar, print_decimal, print_string, print_argument, printf_loop,
  print_itoa, printf,
}
use liebe_os.Stdlib.{itoa}

-- A format as it is meant: characters as they are, places for an argument, and characters behind `%`.
pub data Piece : Type 0 where
  literal escaped : ℕ → Piece
  decimal string : Piece

abbrev pub IsPiece : Piece → Type 0
IsPiece (Piece.literal c) = (c ≢ 0) × (c ≢ b'%')
IsPiece (Piece.escaped c) = (c ≢ b'd') × (c ≢ b's')
IsPiece Piece.decimal = Unit {0}
IsPiece Piece.string = Unit {0}

-- The text `fmt` holds the pieces from `p` on, with a NUL behind them.
abbrev pub IsFormat : Text → (p : ℕ) → List Piece → Type 0
IsFormat fmt p [] = fmt p ≡ 0
IsFormat fmt p (Piece.literal c ∷ pieces) = (fmt p ≡ c) × IsFormat fmt (p + 1) pieces
IsFormat fmt p (Piece.escaped c ∷ pieces) =
    (fmt p ≡ b'%') × (fmt (p + 1) ≡ c) × IsFormat fmt (p + 2) pieces
IsFormat fmt p (Piece.decimal ∷ pieces) =
    (fmt p ≡ b'%') × (fmt (p + 1) ≡ b'd') × IsFormat fmt (p + 2) pieces
IsFormat fmt p (Piece.string ∷ pieces) =
    (fmt p ≡ b'%') × (fmt (p + 1) ≡ b's') × IsFormat fmt (p + 2) pieces

abbrev pub ArePieces : List Piece → Type 0
ArePieces [] = Unit {0}
ArePieces (piece ∷ pieces) = IsPiece piece × ArePieces pieces

module _ {S : Type 0} (console : Console S) where
  -- What a character and a number print: the number's digits, from the place where they begin in the
  -- buffer on, which is kept for the next number.
  abbrev pub with_character : ℕ → Output S → Output S
  with_character c out = record { console = console.put c out.console; buffer = out.buffer }

  abbrev pub with_number : ℤ → Output S → Output S
  with_number v out = record {
    console = console.print (λ j. (itoa v out.buffer).1 ((itoa v out.buffer).0 + j)) out.console;
    buffer = (itoa v out.buffer).1;
  }

  abbrev pub with_text : Text → Output S → Output S
  with_text text out = record { console = console.print text out.console; buffer = out.buffer }

  -- A place for a number takes the first argument, which is to be one; so does one for a text.
  abbrev pub first_number : List Argument → Output S → Option (List Argument × Output S)
  first_number (Argument.number v ∷ args) out = some (args, with_number v out)
  first_number _ out = none

  abbrev pub first_text : List Argument → Output S → Option (List Argument × Output S)
  first_text (Argument.string text ∷ args) out = some (args, with_text text out)
  first_text _ out = none

  print_decimal_lem :
      (args : List Argument) (out : Output S)
      → print_decimal console args out ≡ first_number args out
  unfolding print_decimal print_itoa
  print_decimal_lem [] out = refl
  print_decimal_lem (Argument.number v ∷ args) out = refl
  print_decimal_lem (Argument.string text ∷ args) out = refl

  print_string_lem :
      (args : List Argument) (out : Output S) → print_string console args out ≡ first_text args out
  unfolding print_string
  print_string_lem [] out = refl
  print_string_lem (Argument.number v ∷ args) out = refl
  print_string_lem (Argument.string text ∷ args) out = refl

  -- What one piece prints.
  abbrev pub print_piece : Piece → List Argument → Output S → Option (List Argument × Output S)
  print_piece (Piece.literal c) args out = some (args, with_character c out)
  print_piece (Piece.escaped c) args out = some (args, with_character c out)
  print_piece Piece.decimal args out = first_number args out
  print_piece Piece.string args out = first_text args out

  -- The pieces one after the other.
  abbrev pub print_pieces : List Piece → List Argument → Output S → Option (Output S)
  print_pieces [] args out = some out
  print_pieces (piece ∷ pieces) args out = elim (print_piece piece args out) [
    | none ↦ none
    | some (args', out') ↦ print_pieces pieces args' out'
  ]

  -- A directive is printed as a round of the loop prints it.
  directive :
      (fuel : ℕ) (fmt : Text) (p : ℕ) (args : List Argument) (out : Output S)
      (r : Option (List Argument × Output S))
      → fmt p ≡ b'%'
      → print_argument console (fmt (p + 1)) args out ≡ r
      → printf_loop console (suc fuel) fmt p args out ≡ elim r [
        | none ↦ none
        | some (args', out') ↦ printf_loop console fuel fmt (p + 2) args' out'
      ]
  unfolding printf_loop
  directive fuel fmt p args out r percent e =
      let z : (fmt p == 0) ≡ false = ground arith in
      let q : (fmt p == b'%') ≡ true = ground arith in rw (printf_loop, z, q, e) refl

  same_rest :
      (r : Option (List Argument × Output S)) (f g : List Argument → Output S → Option (Output S))
      → ((args : List Argument) (out : Output S) → f args out ≡ g args out)
      → (elim r [ none ↦ none | some (args, out) ↦ f args out ])
        ≡ (elim r [ none ↦ none | some (args, out) ↦ g args out ])
  same_rest none f g same = refl
  same_rest (some (args, out)) f g same = same args out

  printf_loop-zero :
      (fuel : ℕ) (fmt : Text) (p : ℕ) (args : List Argument) (out : Output S)
      → fmt p ≡ 0
      → printf_loop console (suc fuel) fmt p args out ≡ some out
  unfolding printf_loop
  printf_loop-zero fuel fmt p args out nul =
      let z : (fmt p == 0) ≡ true = ground arith in rw (printf_loop, z) refl

  printf_loop-literal :
      (fuel : ℕ) (fmt : Text) (p c : ℕ) (args : List Argument) (out : Output S)
      → IsPiece (Piece.literal c)
      → fmt p ≡ c
      → printf_loop console (suc fuel) fmt p args out
        ≡ printf_loop console fuel fmt (p + 1) args (putchar console c out)
  unfolding printf_loop
  printf_loop-literal fuel fmt p c args out (nonzero, other) e =
      let z : (c == 0) ≡ false = ground arith in
      let q : (c == b'%') ≡ false = ground arith in rw (printf_loop, e, z, q) refl

  print_argument-escaped :
      (c : ℕ) (args : List Argument) (out : Output S)
      → IsPiece (Piece.escaped c)
      → print_argument console c args out ≡ some (args, putchar console c out)
  unfolding print_argument
  print_argument-escaped c args out (no_d, no_s) =
      let d : (c == b'd') ≡ false = ground arith in
      let s : (c == b's') ≡ false = ground arith in rw (d, s) refl

  printf_loop_lem :
      (pieces : List Piece) (fuel : ℕ) (fmt : Text) (p : ℕ) (args : List Argument) (out : Output S)
      → length pieces < fuel
      → ArePieces pieces
      → IsFormat fmt p pieces
      → printf_loop console fuel fmt p args out ≡ print_pieces pieces args out
  unfolding print_argument putchar
  printf_loop_lem pieces zero fmt p args out enough are holds = absurd (omega arith)
  printf_loop_lem [] (suc fuel) fmt p args out enough are holds =
      printf_loop-zero fuel fmt p args out holds
  printf_loop_lem (Piece.literal c ∷ pieces) (suc fuel) fmt p args out enough (is, are)
        (here, rest) =
      printf_loop-literal fuel fmt p c args out is here
      ∙ printf_loop_lem pieces fuel fmt (p + 1) args (putchar console c out) (omega arith) are rest
  printf_loop_lem (Piece.escaped c ∷ pieces) (suc fuel) fmt p args out enough (is, are)
        (here, next_, rest) =
      directive fuel fmt p args out (some (args, putchar console c out)) here
        (rw next_ (print_argument-escaped c args out is))
      ∙ printf_loop_lem pieces fuel fmt (p + 2) args (putchar console c out) (omega arith) are rest
  printf_loop_lem (Piece.decimal ∷ pieces) (suc fuel) fmt p args out enough (is, are)
        (here, next_, rest) =
      directive fuel fmt p args out (first_number args out) here
        (rw next_ (print_decimal_lem args out))
      ∙ same_rest (first_number args out) (printf_loop console fuel fmt (p + 2))
          (print_pieces pieces)
          (λ args' out'. printf_loop_lem pieces fuel fmt (p + 2) args' out' (omega arith) are rest)
  printf_loop_lem (Piece.string ∷ pieces) (suc fuel) fmt p args out enough (is, are)
        (here, next_, rest) =
      directive fuel fmt p args out (first_text args out) here
        (rw next_ (print_string_lem args out))
      ∙ same_rest (first_text args out) (printf_loop console fuel fmt (p + 2)) (print_pieces pieces)
          (λ args' out'. printf_loop_lem pieces fuel fmt (p + 2) args' out' (omega arith) are rest)

  -- On the text of a format made of characters, places for a number or a text, and other characters
  -- behind a '%', with fuel above the count of these pieces, printf prints the characters, and the
  -- numbers and the texts of the arguments in their order, a number by its digits from itoa, and is
  -- undefined just where a place has no argument or one of the other type.
  pub printf_lem :
      (pieces : List Piece) (fuel : ℕ) (fmt : Text) (args : List Argument) (out : Output S)
      → length pieces < fuel
      → ArePieces pieces
      → IsFormat fmt 0 pieces
      → printf console fuel fmt args out ≡ print_pieces pieces args out
  unfolding printf
  printf_lem pieces fuel fmt args out enough are holds =
      printf_loop_lem pieces fuel fmt 0 args out enough are holds
