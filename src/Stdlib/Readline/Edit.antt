-- ===== src/Stdlib/Readline/Edit.antt =====
-- programs/stdlib/src/liebeos.c: a line as it is edited by keys.
use liebe_os.Prelude.{ℕ, ◌≡◌, Option, none, some, List, [], ◌∷◌, leb, ◌==◌, if◌then◌else◌, length}
use liebe_os.Text.{Text}

-- What a key makes of the characters that are typed, the last one first: a backspace takes the last
-- one away, and is a character itself where there is none.
abbrev pub press : ℕ → List ℕ → List ℕ
press key [] = key ∷ []
press key (c ∷ typed) = if key == 0x08 then typed else key ∷ c ∷ typed

-- The keys without the zeros of an empty queue.
abbrev pub pressed : List ℕ → List ℕ
pressed [] = []
pressed (val ∷ keys) = if val == 0 then pressed keys else val ∷ pressed keys

-- The line for the keys: it ends with the enter key, or where `limit` characters are typed, and is
-- `none` while the keys do neither.
abbrev pub edit : (limit : ℕ) → (typed keys : List ℕ) → Option (List ℕ)
edit limit typed [] = if leb limit (length typed) then some typed else none
edit limit typed (key ∷ keys) =
    let rest = edit limit (press key typed) keys in
    if leb limit (length typed) then some typed else if key == 13 then some typed else rest

-- The bytes of the buffer are the characters that are typed, the last one first.
abbrev pub Holds : Text → List ℕ → Type 0
Holds out [] = Unit {0}
Holds out (c ∷ typed) = (out (length typed) ≡ c) × Holds out typed
