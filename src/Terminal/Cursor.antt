-- ===== src/Terminal/Cursor.antt =====
-- Where the terminal's cursor stands, and which cells change.
use liebe_os.Prelude.{
  ℕ, ◌+◌, ◌-◌, ◌*◌, ◌^◌, ◌≤◌, ◌<◌, ◌≡◌, ◌≢◌, List, [], ◌∷◌, ◌==◌, if◌then◌else◌, update, arith,
}
use liebe_os.Terminal.{
  Terminal, vga_width, vga_height, make_char, putchar, backspace, writechar, print,
}

-- The cursor stands on a column of the screen.
abbrev pub IsPlaced : Terminal → Type 0
IsPlaced t = t.col < vga_width

writechar-IsPlaced : (t : Terminal) (c color : ℕ) → IsPlaced t → IsPlaced (writechar t c color)
unfolding writechar backspace putchar
writechar-IsPlaced t c color h = ground arith

-- However much is printed, a cursor on a column of the screen stays on one.
pub print-IsPlaced : (t : Terminal) (str : List ℕ) → IsPlaced t → IsPlaced (print t str)
unfolding print
print-IsPlaced t [] h = h
print-IsPlaced t (c ∷ str) h = print-IsPlaced (writechar t c 15) str (writechar-IsPlaced t c 15 h)

-- The cell under the cursor.
abbrev pub cursor : Terminal → ℕ
cursor t = t.row * vga_width + t.col

-- With the cursor on a column of the screen and on a row below 2 ^ 16 - 1, a backspace after a
-- character that is no newline and no backspace puts the cursor back, leaves a blank in the
-- character's cell, and every other cell as it was.
pub backspace-writechar :
    (t : Terminal) (c color : ℕ)
    → IsPlaced t
    → t.row < 2 ^ 16 - 1
    → c ≢ 0x0a
    → c ≢ 0x08
    → ((backspace (writechar t c color)).row ≡ t.row)
      × ((backspace (writechar t c color)).col ≡ t.col)
      × ((j : ℕ)
          → (backspace (writechar t c color)).video j
            ≡ (if j == cursor t then make_char b' ' 15 else t.video j))
unfolding writechar backspace putchar update
backspace-writechar t c color h hr n8 na = (ground arith, ground arith, λ j. ground arith)

-- The terminal does not scroll: from the row below the screen on, each character that is no newline
-- and no backspace is written to a cell behind the screen's, and nothing on the screen changes.
pub writechar_beyond :
    (t : Terminal) (c color : ℕ)
    → vga_height ≤ t.row
    → c ≢ 0x0a
    → c ≢ 0x08
    → (vga_height * vga_width ≤ cursor t)
      × ((writechar t c color).video (cursor t) ≡ make_char c color)
      × ((j : ℕ) → j < vga_height * vga_width → (writechar t c color).video j ≡ t.video j)
unfolding writechar putchar update
writechar_beyond t c color h n8 na = (omega arith, ground arith, λ j lt. ground arith)
