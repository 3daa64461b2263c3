-- ===== src/Paging/Sample.antt =====
-- A small well-formed directory, on which the theorems are tried.
use liebe_os.Prelude.{◌+◌, ◌-◌, ◌*◌, ◌/◌, ◌<◌, ◌≡◌, ℕ, refl, arith, ltb, if◌then◌else◌}
use liebe_os.Paging.{Words, table_entries, slot}
use liebe_os.Paging.Map.{IsDirectory}

-- The directory is at 0x800000, the table of its index `d` is the page `d + 1` behind it, and the
-- entries of the tables are 0.
abbrev pub words : Words
words a =
    if ltb a 0x800000
    then 0
    else if ltb a 0x801000
    then 0x801007 + (a - 0x800000) / 4 * 0x1000
    else 0

table_word : (d : ℕ) → d < table_entries → words (slot 0x800000 d) ≡ 0x801007 + d * 0x1000
table_word d lt = ground arith

pub words-IsDirectory : IsDirectory words 0x800000
words-IsDirectory = record {
  aligned = refl;
  low = omega arith;
  words_low = λ d lt. rw (table_word d lt) (omega arith);
  apart = λ d lt e. absurd (omega (arith, rw (table_word d lt) at e));
  distinct = λ d e ld le same. omega (arith, rw (table_word d ld, table_word e le) at same);
}
