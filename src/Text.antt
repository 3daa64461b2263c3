-- ===== src/Text.antt =====
-- string/string.c: NUL-terminated text, as the bytes from a pointer on.
pub mod Compare
pub mod Copy
pub mod Sample
mod Tests
use liebe_os.Prelude.{
  ℕ, zero, suc, ◌+◌, ◌-◌, ◌&&◌, Bool, true, false, not, Option, none, some, ltb, leb, ◌==◌,
  if◌then◌else◌, update, ℤ, pos, sub_ℕ,
}

abbrev pub Text : Type 0
Text = ℕ → ℕ

-- The loop of `strlen` from the byte `i` on, with fuel; `none` means that the fuel ran out.
pub strlen : (fuel : ℕ) → Text → (i len : ℕ) → Option ℕ
strlen zero s i len = none
strlen (suc fuel) s i len =
    let rest = strlen fuel s (i + 1) (len + 1) in if s i == 0 then some len else rest

-- The loop of `strnlen`, from index `i` with `left` rounds to go.
pub strnlen_loop : (left : ℕ) → Text → (i len : ℕ) → ℕ
strnlen_loop zero s i len = len
strnlen_loop (suc left) s i len =
    let rest = strnlen_loop left s (i + 1) (len + 1) in if s i == 0 then len else rest

pub strnlen : Text → ℕ → ℕ
unfolding strnlen_loop
strnlen s max = strnlen_loop max s 0 0

unfoldable pub is_digit : ℕ → Bool
is_digit c = leb 48 c && leb c 57

unfoldable pub atoi : ℕ → ℤ
atoi c = sub_ℕ c 48

-- The loop of `strcpy` from the byte `i` on, with fuel.
pub strcpy_loop : (fuel : ℕ) → (dest src : Text) → (i : ℕ) → Option Text
strcpy_loop zero dest src i = none
strcpy_loop (suc fuel) dest src i =
    let rest = strcpy_loop fuel (update dest i (src i)) src (i + 1) in
    if src i == 0 then some dest else rest

pub strcpy : (fuel : ℕ) → (dest src : Text) → Option Text
unfolding strcpy_loop update
strcpy fuel dest src = strcpy_loop fuel dest src 0

-- The loop of `strncpy`, with the write of the terminator that follows it.
pub strncpy_loop : (left : ℕ) → (dest src : Text) → (i : ℕ) → Text
strncpy_loop zero dest src i = update dest i 0
strncpy_loop (suc left) dest src i =
    let rest = strncpy_loop left (update dest i (src i)) src (i + 1) in
    if src i == 0 then update dest i 0 else rest

-- `count - 1` rounds, and none for a count of 0.
pub strncpy : (dest src : Text) → ℕ → Text
unfolding strncpy_loop update
strncpy dest src count = strncpy_loop (count - 1) dest src 0

-- The loop of `strncmp`, from the byte `i` on.
pub strncmp_loop : (n : ℕ) → (str1 str2 : Text) → (i : ℕ) → ℤ
strncmp_loop zero str1 str2 i = pos 0
strncmp_loop (suc n) str1 str2 i =
    let rest = strncmp_loop n str1 str2 (i + 1) in
    if not (str1 i == str2 i) then sub_ℕ (str1 i) (str2 i) else if str1 i == 0 then pos 0 else rest

pub strncmp : (str1 str2 : Text) → ℕ → ℤ
unfolding strncmp_loop
strncmp str1 str2 n = strncmp_loop n str1 str2 0

pub to_lower : ℕ → ℕ
to_lower c = if leb 65 c && leb c 90 then c + 32 else c

pub istrncmp_loop : (n : ℕ) → (str1 str2 : Text) → (i : ℕ) → ℤ
unfolding to_lower
istrncmp_loop zero str1 str2 i = pos 0
istrncmp_loop (suc n) str1 str2 i =
    let rest = istrncmp_loop n str1 str2 (i + 1) in
    if not (str1 i == str2 i) && not (to_lower (str1 i) == to_lower (str2 i))
    then sub_ℕ (str1 i) (str2 i)
    else if str1 i == 0
    then pos 0
    else rest

pub istrncmp : (str1 str2 : Text) → ℕ → ℤ
unfolding istrncmp_loop
istrncmp str1 str2 n = istrncmp_loop n str1 str2 0

-- `i <= max` gives `max + 1` rounds.
pub strnlen_terminator_loop : (left : ℕ) → Text → (terminator i : ℕ) → ℕ
strnlen_terminator_loop zero str terminator i = i
strnlen_terminator_loop (suc left) str terminator i =
    let rest = strnlen_terminator_loop left str terminator (i + 1) in
    if str i == 0 then i else if str i == terminator then i else rest

pub strnlen_terminator : Text → (max terminator : ℕ) → ℕ
unfolding strnlen_terminator_loop
strnlen_terminator str max terminator = strnlen_terminator_loop (max + 1) str terminator 0
