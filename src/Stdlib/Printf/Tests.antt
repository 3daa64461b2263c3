-- ===== src/Stdlib/Printf/Tests.antt =====
-- The format `%d:%s%%`, with what is printed as a list of texts' first characters, the last one first.
use liebe_os.Prelude.{ℕ, ◌≡◌, refl, List, [], ◌∷◌, arith, negsuc}
use liebe_os.Text.Sample.{bytes}
use liebe_os.Stdlib.Printf.{Console, Argument, Output, printf}
use liebe_os.Stdlib.Printf.Format.{Piece, print_pieces, printf_lem}

abbrev console : Console (List ℕ)
console = record { put = λ c shown. c ∷ shown; print = λ text shown. text 0 ∷ shown }

abbrev pieces : List Piece
pieces = Piece.decimal ∷ Piece.literal b':' ∷ Piece.string ∷ Piece.escaped b'%' ∷ []

abbrev arguments : List Argument
arguments = Argument.number (negsuc 41) ∷ Argument.string (bytes (b'x' ∷ [])) ∷ []

abbrev nothing : Output (List ℕ)
nothing = record { console = []; buffer = λ j. 0 }

printf_lem_example :
    printf console 5 (bytes (b'%' ∷ b'd' ∷ b':' ∷ b'%' ∷ b's' ∷ b'%' ∷ b'%' ∷ [])) arguments nothing
    ≡ print_pieces console pieces arguments nothing
printf_lem_example =
    printf_lem console pieces 5 (bytes (b'%' ∷ b'd' ∷ b':' ∷ b'%' ∷ b's' ∷ b'%' ∷ b'%' ∷ []))
      arguments nothing (omega arith)
      (tt, ((ground arith, ground arith), (tt, ((ground arith, ground arith), tt))))
      (refl, refl, (refl, (refl, refl, (refl, refl, refl))))
