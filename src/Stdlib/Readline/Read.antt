-- ===== src/Stdlib/Readline/Read.antt =====
-- programs/stdlib/src/liebeos.c: a line that is read is the line that was typed.
use liebe_os.Prelude.{
  ℕ, zero, suc, ◌+◌, ◌-◌, ◌≤◌, ◌<◌, ◌≡◌, ◌⊎◌, inl, inr, refl, Bool, false, Option, none, some, List,
  [], ◌∷◌, ltb, leb, ◌==◌, update_self, update-ne, length, arith, Bool-cases, ◌∙◌,
}
use liebe_os.Text.{Text}
use liebe_os.Stdlib.Readline.{
  getkey_block, show_key, Line, store_key, readline_loop, end_line, terminal_readline,
}
use liebe_os.Stdlib.Readline.Edit.{press, pressed, edit, Holds}
use liebe_os.Stdlib.Readline.Store.{Holds-update, store_key-press}

-- The next key is the first that is not 0.
getkey_block-pressed :
    (keys : List ℕ)
    → ((getkey_block keys ≡ none) × (pressed keys ≡ []))
      ⊎ ((key : ℕ) × (rest : List ℕ) × (getkey_block keys ≡ some (key, rest))
          × (pressed keys ≡ key ∷ pressed rest)
          × (length rest < length keys))
unfolding getkey_block
getkey_block-pressed [] = inl (refl, refl)
getkey_block-pressed (val ∷ keys) = elim (Bool-cases (val == 0)) [
  | inl empty ↦ elim (getkey_block-pressed keys) [
    | inl (wait, none_) ↦ inl (rw empty wait, rw empty none_)
    | inr (key, rest, got, more, less) ↦ inr (key, rest, rw empty got, rw empty more, omega arith)
  ]
  | inr key ↦ inr (val, keys, rw key refl, rw key refl, omega arith)
]

-- The outcome of the loop for a line that is typed, or for one that is not ended.
abbrev Reads : (line : Line) → (max : ℕ) → Option (List ℕ) → Option Line → Type 0
Reads line max none r = r ≡ none
Reads line max (some typed) r =
    (line' : Line) × (r ≡ some line')
    × (line'.i ≡ length typed)
    × (length typed ≤ max - 1)
    × Holds line'.out typed
    × ((j : ℕ) → max ≤ j → line'.out j ≡ line.out j)

step-Reads :
    (line line' : Line) (max : ℕ) (o : Option (List ℕ)) (r : Option Line)
    → ((j : ℕ) → max ≤ j → line'.out j ≡ line.out j)
    → Reads line' max o r
    → Reads line max o r
step-Reads line line' max none r same reads = reads
step-Reads line line' max (some typed) r same (last, found, at_, few, holds, kept) =
    (last, found, at_, few, holds, λ j le. kept j le ∙ same j le)

Reads-by :
    (line : Line) (max : ℕ) {o : Option (List ℕ)} {r : Option Line} (o' : Option (List ℕ))
    (r' : Option Line)
    → o ≡ o'
    → r ≡ r'
    → Reads line max o' r'
    → Reads line max o r
Reads-by line max o' r' p q reads = rw (p, q) reads

-- A line that is full is ended at once.
edit-full :
    (limit : ℕ) (typed keys : List ℕ) → limit ≤ length typed → edit limit typed keys ≡ some typed
edit-full limit typed [] full = ground arith
edit-full limit typed (key ∷ keys) full = ground arith

length-press :
    (key limit : ℕ) (typed : List ℕ) → length typed < limit → length (press key typed) ≤ limit
length-press key limit [] lt = omega arith
length-press key limit (c ∷ typed) lt = ground arith

readline_loop-Reads :
    (fuel max : ℕ) (echo : Bool) (line : Line) (typed : List ℕ)
    → length line.keys < fuel
    → line.i ≡ length typed
    → length typed ≤ max - 1
    → Holds line.out typed
    → Reads line max (edit (max - 1) typed (pressed line.keys)) (readline_loop fuel max echo line)
unfolding readline_loop
readline_loop-Reads zero max echo line typed enough at_ few holds = absurd (omega arith)
readline_loop-Reads (suc fuel) max echo line typed enough at_ few holds =
    elim (Bool-cases (ltb line.i (max - 1))) [
      | inl room ↦
          let short : leb (max - 1) (length typed) ≡ false = ground arith in
          elim (getkey_block-pressed line.keys) [
            | inl (wait, none_) ↦
                Reads-by line max none none (rw (none_, short) refl)
                  (rw (room, readline_loop, wait) refl) refl
            | inr (key, rest, got, more, less) ↦ elim (Bool-cases (key == 13)) [
              | inl enter ↦
                  Reads-by line max (some typed) (some (record line { keys = rest }))
                    (rw (more, short, enter) refl) (rw (room, readline_loop, got, enter) refl)
                    (record line { keys = rest }, refl, at_, few, holds, λ j le. refl)
              | inr other ↦
                  let line1 : Line = record line {
                    keys = rest;
                    shown = show_key echo key line.shown;
                  } in
                  let (at1, holds1, keys1, same1) =
                    store_key-press key max line1 typed at_ (ground arith) holds in
                  let rec_ =
                    readline_loop-Reads fuel max echo (store_key key line1) (press key typed)
                      (rw keys1 (omega arith)) at1 (length-press key (max - 1) typed (ground arith))
                      holds1 in
                  Reads-by line max (edit (max - 1) (press key typed) (pressed rest))
                    (readline_loop fuel max echo (store_key key line1))
                    (rw (more, short, other) refl) (rw (room, readline_loop, got, other) refl)
                    (step-Reads line (store_key key line1) max
                      (edit (max - 1) (press key typed) (pressed rest))
                      (readline_loop fuel max echo (store_key key line1)) same1 (rw keys1 at rec_))
            ]
          ]
      | inr full ↦
          Reads-by line max (some typed) (some line)
            (edit-full (max - 1) typed (pressed line.keys) (ground arith))
            (rw (full, readline_loop) refl) (line, refl, at_, few, holds, λ j le. refl)
    ]

-- What liebeos_terminal_readline leaves: nothing while the line is not ended, and else the line in
-- the buffer, at most `max - 1` characters, with a NUL behind it and no byte at `max` or behind changed.
abbrev pub IsLine : (out : Text) (max : ℕ) → Option (List ℕ) → Option Line → Type 0
IsLine out max none r = r ≡ none
IsLine out max (some typed) r =
    (line : Line) × (r ≡ some line)
    × (length typed ≤ max - 1)
    × Holds line.out typed
    × (line.out (length typed) ≡ 0)
    × ((j : ℕ) → max ≤ j → line.out j ≡ out j)

end_line-IsLine :
    (max : ℕ) (line : Line) (o : Option (List ℕ)) (r : Option Line)
    → 0 < max
    → Reads line max o r
    → IsLine line.out max o (elim r [ none ↦ none | some line' ↦ some (end_line line') ])
unfolding end_line
end_line-IsLine max line none r pos reads = rw reads refl
end_line-IsLine max line (some typed) r pos (last, found, at_, few, holds, same) = rw found (
  end_line last,
  refl,
  few,
  Holds-update last.out last.i 0x00 typed (omega arith) holds,
  rw (← at_) (update_self last.out last.i 0x00),
  λ j le. update-ne last.out last.i 0x00 j (omega arith) ∙ same j le,
)

-- For a buffer of at least one byte, liebeos_terminal_readline still waits just while the keys,
-- those that are 0 left out, neither end nor fill a line as it is edited, where a backspace takes
-- the last character away if there is one; else the buffer holds the edited line, of at most `max -
-- 1` characters, with a NUL behind it, and no byte at `max` or behind it has changed.
pub terminal_readline-IsLine :
    (out : Text) (max : ℕ) (echo : Bool) (keys : List ℕ)
    → 0 < max
    → IsLine out max (edit (max - 1) [] (pressed keys)) (terminal_readline out max echo keys)
unfolding terminal_readline
terminal_readline-IsLine out max echo keys pos =
    let line : Line = record { out = out; i = 0; shown = []; keys = keys } in
    end_line-IsLine max line (edit (max - 1) [] (pressed keys))
      (readline_loop (length keys + 1) max echo line) pos
      (readline_loop-Reads (length keys + 1) max echo line [] (omega arith) refl (omega arith) tt)
