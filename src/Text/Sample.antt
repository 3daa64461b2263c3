-- ===== src/Text/Sample.antt =====
-- Texts of given bytes, on which the theorems are tried.
use liebe_os.Prelude.{ℕ, zero, suc, List, [], ◌∷◌}
use liebe_os.Text.{Text}

abbrev pub bytes : List ℕ → Text
bytes [] i = 0
bytes (c ∷ cs) zero = c
bytes (c ∷ cs) (suc i) = bytes cs i
