-- ===== src/PathParser/Tests.antt =====
-- Paths that are parsed and paths that are not.
use liebe_os.Prelude.{ℕ, ◌≡◌, ◌≢◌, arith, some, false, List, [], ◌∷◌, pos}
use liebe_os.PathParser.{pathparser_parse}
use liebe_os.PathParser.RoundTrip.{IsPart, ArePartsOf, join, pathparser_parse-join}

-- "bin" and "a"
abbrev bin : List ℕ
bin = b'b' ∷ b'i' ∷ b'n' ∷ []

abbrev file : List ℕ
file = b'a' ∷ []

part : (c : ℕ) (rest : List ℕ) → c ≢ b'/' → IsPart rest → IsPart (c ∷ rest)
part c rest ne h = (ne, h)

bin-ArePartsOf : ArePartsOf bin (file ∷ [])
bin-ArePartsOf = (
  part b'b' (b'i' ∷ b'n' ∷ []) (λ e. omega arith)
      (part b'i' (b'n' ∷ []) (λ e. omega arith) (part b'n' [] (λ e. omega arith) tt)),
  (part b'a' [] (λ e. omega arith) tt, λ e. cc),
)

pathparser_parse-join_example :
    pathparser_parse (b'0' ∷ b':' ∷ b'/' ∷ join bin (file ∷ []))
    ≡ some (record { drive_no = pos 0; first = bin ∷ file ∷ []; overrun = false })
pathparser_parse-join_example =
    pathparser_parse-join b'0' bin (file ∷ []) (omega arith) (omega arith) bin-ArePartsOf
      (omega arith)
