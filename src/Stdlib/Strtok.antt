-- ===== src/Stdlib/Strtok.antt =====
-- programs/stdlib/src/string.c: strtok. The rest of that file repeats string/string.c.
pub mod Plain
pub mod Quoted
pub mod Token
mod Tests
use liebe_os.Prelude.{
  ℕ, zero, suc, ◌+◌, ◌||◌, Bool, true, false, not, Option, none, some, ltb, ◌==◌, if◌then◌else◌,
  update,
}
use liebe_os.Text.{Text, strlen}

-- `single_quote_started` and `double_quote_started`
pub record Quotes : Type 0 where
  pub single : Bool
  pub double : Bool

-- `sp` and the quotes, with the bytes that it points to: a pointer is the distance from their start.
pub record Tokenizer : Type 0 where
  pub sp : Option ℕ
  pub quotes : Quotes
  pub text : Text

-- `for (i = 0; i < len; i++) if (c == delimiters[i]) break;` from `i` on: the index where it ends.
pub find_delimiter : (left i : ℕ) → Text → (c : ℕ) → ℕ
find_delimiter zero i delimiters c = i
find_delimiter (suc left) i delimiters c =
    let rest = find_delimiter left (i + 1) delimiters c in if c == delimiters i then i else rest

-- `while (1)`, with fuel: the first byte that is no delimiter.
pub skip_delimiters : (fuel len : ℕ) → Text → Text → (p_start : ℕ) → Option ℕ
unfolding find_delimiter
skip_delimiters zero len delimiters text p_start = none
skip_delimiters (suc fuel) len delimiters text p_start =
    let rest = skip_delimiters fuel len delimiters text (p_start + 1) in
    if find_delimiter len 0 delimiters (text p_start) == len then some p_start else rest

-- The quotes after a byte.
pub pass_quote : ℕ → Quotes → Quotes
pass_quote c q = record {
  single = if c == b'\'' then not q.single else q.single;
  double = if c == b'"' then not q.double else q.double;
}

-- `for (...)` under `if (single_quote_started || double_quote_started)`. Where it is not run, `i` is
-- still `len`, as every loop before has left it.
pub find_quoted : (len : ℕ) → Text → Quotes → (c : ℕ) → ℕ
unfolding find_delimiter
find_quoted len delimiters q c =
    if q.single || q.double then find_delimiter len 0 delimiters c else len

-- `while (*sp != '\0')`, with fuel, for `sp` at `p`.
pub end_token : (fuel len : ℕ) → Text → (p : ℕ) → Tokenizer → Option Tokenizer
unfolding find_quoted pass_quote update
end_token zero len delimiters p t = none
end_token (suc fuel) len delimiters p t =
    let quotes = pass_quote (t.text p) t.quotes in
    let found = ltb (find_quoted len delimiters quotes (t.text p)) len in
    let rest =
      end_token fuel len delimiters (p + 1) (record t { sp = some (p + 1); quotes = quotes }) in
    if t.text p == 0
    then some t
    else if found
    then some (record { sp = some (p + 1); quotes = quotes; text = update t.text p 0 })
    else rest

-- `if (str && !sp) sp = str`
unfoldable pub start_of : Option ℕ → Option ℕ → Option ℕ
start_of str (some sp) = some sp
start_of str none = str

-- The token that starts at `p`, or `none` for the null pointer at the text's end.
pub take_token : (fuel len : ℕ) → Text → (p : ℕ) → Tokenizer → Option (Option ℕ × Tokenizer)
unfolding end_token
take_token fuel len delimiters p t =
    if t.text p == 0
    then some (none, record t { sp = none })
    else elim (end_token fuel len delimiters p (record t { sp = some p })) [
      | none ↦ none
      | some t' ↦ some (some p, t')
    ]

-- `strtok`, with fuel for its loops; `len` is the length of the delimiters.
pub strtok_from : (fuel len : ℕ) → Text → Option ℕ → Tokenizer → Option (Option ℕ × Tokenizer)
unfolding skip_delimiters take_token
strtok_from fuel len delimiters none t = some (none, t)
strtok_from fuel len delimiters (some start) t =
    elim (skip_delimiters fuel len delimiters t.text start) [
      | none ↦ none
      | some p ↦ take_token fuel len delimiters p t
    ]

pub strtok : (fuel : ℕ) → (str : Option ℕ) → Text → Tokenizer → Option (Option ℕ × Tokenizer)
unfolding start_of strtok_from
strtok fuel str delimiters t = elim (strlen fuel delimiters 0 0) [
  | none ↦ none
  | some len ↦ strtok_from fuel len delimiters (start_of str t.sp) t
]
