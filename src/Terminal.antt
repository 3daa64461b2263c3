-- ===== src/Terminal.antt =====
-- kernel/kernel.c: the text terminal in video memory.
pub mod Cursor
use liebe_os.Prelude.{
  ℕ, zero, suc, ◌+◌, ◌-◌, ◌*◌, ◌%◌, ◌^◌, ◌&&◌, List, [], ◌∷◌, ltb, leb, ◌==◌, if◌then◌else◌, update,
}

-- VGA_WIDTH, VGA_HEIGHT
abbrev pub vga_width : ℕ
vga_width = 80

abbrev pub vga_height : ℕ
vga_height = 20

-- `video_mem`, `terminal_row` and `terminal_col`. The video memory is not bounded by the code.
pub record Terminal : Type 0 where
  pub video : ℕ → ℕ
  pub row : ℕ
  pub col : ℕ

-- `(color << 8) | c` as a `uint16_t`, for a signed `char`: from 128 on its sign fills the high byte.
pub make_char : (c color : ℕ) → ℕ
make_char c color = if ltb c 128 then color * 256 + c else 0xff00 + c

pub putchar : Terminal → (x y c color : ℕ) → Terminal
unfolding make_char
putchar t x y c color = record t { video = update t.video (y * vga_width + x) (make_char c color) }

pub backspace : Terminal → Terminal
unfolding putchar
backspace t =
    if t.row == 0 && t.col == 0
    then t
    else let up =
        if t.col == 0
        then record t { row = t.row - 1; col = vga_width - 1 }
        else record t { col = t.col - 1 } in
      putchar up up.col up.row b' ' 15

-- Rows are `uint16_t`.
pub writechar : Terminal → (c color : ℕ) → Terminal
unfolding backspace putchar
writechar t c color =
    if c == 0x0a
    then record t { row = (t.row + 1) % 2 ^ 16; col = 0 }
    else if c == 0x08
    then backspace t
    else let put = putchar t t.col t.row c color in
      if leb vga_width (t.col + 1)
      then record put { col = 0; row = (t.row + 1) % 2 ^ 16 }
      else record put { col = t.col + 1 }

-- The loops of `terminal_initialize`.
pub clear_row : (left x y : ℕ) → Terminal → Terminal
unfolding putchar
clear_row zero x y t = t
clear_row (suc left) x y t = clear_row left (x + 1) y (putchar t x y b' ' 0)

pub clear_rows : (left y : ℕ) → Terminal → Terminal
unfolding clear_row
clear_rows zero y t = t
clear_rows (suc left) y t = clear_rows left (y + 1) (clear_row vga_width 0 y t)

pub initialize : Terminal → Terminal
unfolding clear_rows
initialize t = clear_rows vga_height 0 (record t { row = 0; col = 0 })

-- `print`, of the bytes before the NUL.
pub print : Terminal → List ℕ → Terminal
unfolding writechar
print t [] = t
print t (c ∷ str) = print (writechar t c 15) str
