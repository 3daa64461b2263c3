-- ===== src/PathParser.antt =====
-- fs/pparser.c: a path `d:/part/part` as a drive number and the list of its parts.
pub mod RoundTrip
mod Tests
use liebe_os.Prelude.{
  ℕ, zero, suc, ◌+◌, ◌-◌, ◌&&◌, ◌||◌, Bool, true, false, Option, none, some, List, [], ◌∷◌, ltb,
  leb, ◌==◌, if◌then◌else◌, Status, Result, ok, err, length, min, ℤ,
}
use liebe_os.Text.{is_digit, atoi}

-- `struct path_root` with its chain of `struct path_part`. A path and a part are the bytes before
-- their NUL. `overrun` is kept beside the structure: a part, with its NUL, did not fit its buffer of
-- LIEBE_OS_MAX_PATH_LEN bytes, so that the copy wrote behind the buffer and the text has no NUL in it.
pub record PathRoot : Type 0 where
  pub drive_no : ℤ
  pub first : List (List ℕ)
  pub overrun : Bool

abbrev pub max_path_len : ℕ
max_path_len = 108

-- `memcmp(&filename[1], ":/", 2) == 0` with the digit before it
pub starts_with_drive : List ℕ → Bool
starts_with_drive (c ∷ colon ∷ slash ∷ rest) = is_digit c && (colon == b':' && slash == b'/')
starts_with_drive _ = false

pub is_valid_path : List ℕ → Bool
unfolding starts_with_drive
is_valid_path filename = leb 3 (min (length filename) max_path_len) && starts_with_drive filename

-- `atoi(*path[0])` is given the first byte.
pub get_drive_number : List ℕ → Result ℤ
unfolding is_valid_path
get_drive_number [] = err Status.ebadpath
get_drive_number (c ∷ rest) = if is_valid_path (c ∷ rest) then ok (atoi c) else err Status.ebadpath

-- The loop of `create_path_nodes`: the bytes up to a '/' or the end, and what is left.
pub take_part : List ℕ → List ℕ × List ℕ
take_part [] = ([], [])
take_part (c ∷ path) =
    let (part, rest) = take_part path in if c == b'/' then ([], c ∷ path) else (c ∷ part, rest)

-- `if (*tmp_path == '/') tmp_path++;`
pub skip_slash : List ℕ → List ℕ
skip_slash [] = []
skip_slash (c ∷ path) = if c == b'/' then path else c ∷ path

-- The recursion, with fuel for one call for each part and one for the end; with less than that the
-- chain is cut.
pub create_path_nodes : (fuel : ℕ) → List ℕ → List (List ℕ)
unfolding take_part skip_slash
create_path_nodes zero path = []
create_path_nodes (suc fuel) [] = []
create_path_nodes (suc fuel) (c ∷ path) =
    let (part, rest) = take_part (c ∷ path) in part ∷ create_path_nodes fuel (skip_slash rest)

-- Whether a part fills its buffer of `kzalloc(LIEBE_OS_MAX_PATH_LEN)` and leaves no place for the NUL:
-- the copy is not bounded.
pub overruns : List (List ℕ) → Bool
overruns [] = false
overruns (part ∷ parts) = leb max_path_len (length part) || overruns parts

-- `tmp_path += 3`
pub skip_drive : List ℕ → List ℕ
skip_drive (c ∷ colon ∷ slash ∷ rest) = rest
skip_drive path = []

-- `current_directory_path` is not used by the code. `none` is the null pointer.
pub pathparser_parse : List ℕ → Option PathRoot
unfolding is_valid_path get_drive_number create_path_nodes overruns skip_drive
pathparser_parse path = if is_valid_path path then parsed (get_drive_number path) else none
  where
    parsed : Result ℤ → Option PathRoot
    parsed (ok drive) =
        let parts = create_path_nodes (suc (length path)) (skip_drive path) in
        some (record { drive_no = drive; first = parts; overrun = overruns parts })
    parsed (err e) = none
