-- ===== src/PathParser/RoundTrip.antt =====
-- Paths that are joined from parts are parsed into these parts.
use liebe_os.Prelude.{
  ℕ, zero, suc, ◌+◌, ◌-◌, ◌≤◌, ◌<◌, ◌≡◌, refl, ◌≢◌, true, false, none, some, List, [], ◌∷◌, ◌++◌,
  leb, length, min, pos, arith, ap, Bool-cases, inl, inr, length-append, ◌∙◌,
}
use mathlib.Core.Logic.{◌↔◌}
use liebe_os.Text.{is_digit, atoi}
use liebe_os.PathParser.{
  PathRoot, is_valid_path, starts_with_drive, get_drive_number, take_part, skip_slash,
  create_path_nodes, skip_drive, pathparser_parse, overruns, max_path_len,
}

-- No byte of a part is a '/'.
abbrev pub IsPart : List ℕ → Type 0
IsPart [] = Unit {0}
IsPart (c ∷ part) = (c ≢ b'/') × IsPart part

-- The parts of a path: those before the last may be empty, the last may not.
abbrev pub ArePartsOf : List ℕ → List (List ℕ) → Type 0
ArePartsOf last [] = IsPart last × (last ≢ [])
ArePartsOf part (next ∷ parts) = IsPart part × ArePartsOf next parts

abbrev pub join : List ℕ → List (List ℕ) → List ℕ
join last [] = last
join part (next ∷ parts) = part ++ b'/' ∷ join next parts

take_part-last : (part : List ℕ) → IsPart part → take_part part ≡ (part, [])
unfolding take_part
take_part-last [] h = refl
take_part-last (c ∷ part) h = ground (arith, take_part-last part h.1)

take_part-more :
    (part rest : List ℕ) → IsPart part → take_part (part ++ b'/' ∷ rest) ≡ (part, b'/' ∷ rest)
unfolding take_part
take_part-more [] rest h = refl
take_part-more (c ∷ part) rest h = ground (arith, take_part-more part rest h.1)

create_path_nodes-cons :
    (fuel : ℕ) (path : List ℕ)
    → path ≢ []
    → create_path_nodes (suc fuel) path
      ≡ (take_part path).0 ∷ create_path_nodes fuel (skip_slash (take_part path).1)
unfolding create_path_nodes
create_path_nodes-cons fuel [] h = absurd (h refl)
create_path_nodes-cons fuel (c ∷ path) h = refl

snoc-ne-nil : (part rest : List ℕ) → part ++ b'/' ∷ rest ≢ []
snoc-ne-nil [] rest e = cc
snoc-ne-nil (c ∷ part) rest e = cc

-- The recursion over a joined path finds its parts, given fuel for one call more than these.
pub create_path_nodes-join :
    (fuel : ℕ) (part : List ℕ) (parts : List (List ℕ))
    → ArePartsOf part parts
    → length parts + 1 < fuel
    → create_path_nodes fuel (join part parts) ≡ part ∷ parts
create_path_nodes-join zero part parts h enough = absurd (omega arith)
create_path_nodes-join (suc fuel) part [] h enough =
    rw (create_path_nodes-cons fuel part h.1, take_part-last part h.0)
      (ap (λ r. part ∷ r) (end fuel))
  where
    end : (fuel : ℕ) → create_path_nodes fuel (skip_slash []) ≡ []
    end zero = unfold create_path_nodes in refl
    end (suc fuel) = unfold create_path_nodes skip_slash in refl
create_path_nodes-join (suc fuel) part (next ∷ parts) h enough =
    rw
      (
        create_path_nodes-cons fuel _ (snoc-ne-nil part (join next parts)),
        take_part-more part (join next parts) h.0,
      )
      (ap (λ r. part ∷ r) (rest (create_path_nodes-join fuel next parts h.1 (omega arith))))
  where
    rest :
        create_path_nodes fuel (join next parts) ≡ next ∷ parts
        → create_path_nodes fuel (skip_slash (b'/' ∷ join next parts)) ≡ next ∷ parts
    rest e = unfold skip_slash in e

length-join-ge :
    (part : List ℕ) (parts : List (List ℕ))
    → ArePartsOf part parts
    → length parts + 1 ≤ length (join part parts)
length-join-ge [] [] h = absurd (h.1 refl)
length-join-ge (c ∷ part) [] h = omega arith
length-join-ge part (next ∷ parts) h =
    omega (arith, length-append part (b'/' ∷ join next parts), length-join-ge next parts h.1)

-- Every part leaves a place for its NUL in a buffer.
abbrev pub AreShort : List (List ℕ) → Type 0
AreShort [] = Unit {0}
AreShort (part ∷ parts) = (length part < max_path_len) × AreShort parts

overruns-AreShort : (parts : List (List ℕ)) → AreShort parts → overruns parts ≡ false
unfolding overruns
overruns-AreShort [] h = refl
overruns-AreShort (part ∷ parts) (short, rest) =
    let e : leb max_path_len (length part) ≡ false = ground (arith, short) in
    rw e (overruns-AreShort parts rest)

-- A path of a drive's digit, ':/' and parts joined by '/', each of less than 108 bytes and the last
-- of them not empty, is parsed into the drive's number and these parts, and no part is written
-- behind its buffer.
pub pathparser_parse-join :
    (c : ℕ) (part : List ℕ) (parts : List (List ℕ))
    → 48 ≤ c
    → c ≤ 57
    → ArePartsOf part parts
    → AreShort (part ∷ parts)
    → pathparser_parse (c ∷ b':' ∷ b'/' ∷ join part parts)
      ≡ some (record { drive_no = pos (c - 48); first = part ∷ parts; overrun = false })
unfolding pathparser_parse
pathparser_parse-join c part parts lo hi h short =
    rw (valid, drive)
      (ap (λ p. some (record { drive_no = pos (c - 48); first = p; overrun = overruns p }))
          (create_path_nodes-join (suc (suc (suc (suc (length (join part parts)))))) part parts h
            (omega (arith, length-join-ge part parts h)))
        ∙ ap (λ b. some (record { drive_no = pos (c - 48); first = part ∷ parts; overrun = b }))
            (overruns-AreShort (part ∷ parts) short))
  where
    valid : is_valid_path (c ∷ b':' ∷ b'/' ∷ join part parts) ≡ true
    valid = unfold is_valid_path is_digit in ground (arith)

    drive : atoi c ≡ pos (c - 48)
    drive = unfold atoi in ground arith

is_valid_path-drive : (path : List ℕ) → is_valid_path path ≡ starts_with_drive path
unfolding is_valid_path
is_valid_path-drive [] = refl
is_valid_path-drive (a ∷ []) = refl
is_valid_path-drive (a ∷ b ∷ []) = refl
is_valid_path-drive (a ∷ b ∷ c ∷ path) =
    let room : leb 3 (min (suc (suc (suc (length path)))) 108) ≡ true = ground arith in rw room

parse-valid :
    (path : List ℕ)
    → is_valid_path path ≡ true
    → (root : PathRoot) × (pathparser_parse path ≡ some root)
unfolding pathparser_parse get_drive_number
parse-valid [] e = unfold is_valid_path in cc
parse-valid (c ∷ path) e = (
  record {
    drive_no = atoi c;
    first = create_path_nodes (suc (length (c ∷ path))) (skip_drive (c ∷ path));
    overrun = overruns (create_path_nodes (suc (length (c ∷ path))) (skip_drive (c ∷ path)));
  },
  rw e refl,
)

-- A path is refused exactly where it does not begin with a digit, a colon and a slash.
pub pathparser_parse-none :
    (path : List ℕ) → (pathparser_parse path ≡ none) ↔ (starts_with_drive path ≡ false)
unfolding pathparser_parse
pathparser_parse-none path = elim (Bool-cases (is_valid_path path)) [
  | inl valid ↦
      let (root, e) = parse-valid path valid in
      (λ e'. cc (e, e'), λ off. cc (valid, is_valid_path-drive path, off))
  | inr bad ↦ (λ e. cc (bad, is_valid_path-drive path), λ off. rw bad)
]
