-- ===== src/Stdlib/Command/Plain.antt =====
-- programs/stdlib/src/liebeos.c: a command without quotes.
use native.Mathlib.Nat.{add-zero, zero-add}
use liebe_os.Prelude.{
  ℕ, zero, suc, ◌+◌, ◌-◌, ◌≤◌, ◌<◌, ◌≡◌, ◌≢◌, refl, true, false, none, some, [], ◌∷◌, ltb, leb,
  ◌==◌, if◌then◌else◌, arith, length, ◌∙◌,
}
use liebe_os.Text.{Text, strncpy, strlen}
use liebe_os.Text.Compare.{contents, strlen_lem}
use liebe_os.Text.Copy.{copied, strncpy_lem}
use liebe_os.Stdlib.Strtok.{Tokenizer, find_delimiter, strtok, start_of}
use liebe_os.Stdlib.Strtok.Token.{find_delimiter-one, strtok-end}
use liebe_os.Stdlib.Strtok.Plain.{IsPlain, closed, strtok_plain}
use liebe_os.Stdlib.Command.{
  Allocator, blank, argument, parse_arguments, parse_root, parse_command, command_size,
  argument_size,
}

-- The length of a text of `n` bytes, cut to `m`.
abbrev pub cut : (n m : ℕ) → ℕ
cut n m = if leb n m then n else m

length-contents :
    (n m : ℕ) (s : Text) (i : ℕ)
    → ((k : ℕ) → i ≤ k → k < i + n → s k ≢ 0)
    → s (i + n) ≡ 0
    → length (contents m s i) ≡ cut n m
unfolding contents
length-contents n zero s i more end = ground arith
length-contents zero (suc m) s i more end = let e : s i ≡ 0 = rw (add-zero i) at end in ground arith
length-contents (suc n) (suc m) s i more end =
    let shift : i + 1 + n ≡ i + suc n = omega arith in
    ground (
      arith,
      more i (omega arith) (omega arith),
      length-contents n m s (i + 1) (λ k lo hi. more k (omega arith) (omega arith)) (rw shift end),
    )

-- The copy of a text of `n` bytes.
pub copy-text :
    (n count : ℕ) (dest src : Text)
    → ((k : ℕ) → k < n → src k ≢ 0)
    → src n ≡ 0
    → (j : ℕ)
    → strncpy dest src count j
      ≡ (if ltb j (cut n (count - 1)) then src j else if j == cut n (count - 1) then 0 else dest j)
copy-text n count dest src more end j =
    let e =
      length-contents n (count - 1) src 0 (λ k lo hi. more k (omega arith)) (rw zero-add end) in
    let cut_copy : copied (cut n (count - 1)) dest src 0 j ≡ (
        if ltb j (cut n (count - 1)) then src j else if j == cut n (count - 1) then 0 else dest j) =
      ground arith in
    strncpy_lem dest src count j ∙ rw e cut_copy

blank-length : (fuel : ℕ) → 1 < fuel → strlen fuel blank 0 0 ≡ some 1
blank-length fuel enough = strlen_lem 1 fuel blank 0 0 enough (λ k lt. ground arith) refl

blank-finds : (c : ℕ) → c ≡ b' ' → find_delimiter 1 0 blank c ≢ 1
blank-finds c e = ground (arith, find_delimiter-one blank c)

blank-misses : (c : ℕ) → c ≢ b' ' → find_delimiter 1 0 blank c ≡ 1
blank-misses c ne = ground (arith, find_delimiter-one blank c)

parse_arguments-end :
    (fuel tokens k : ℕ) (malloc : Allocator) (t t' : Tokenizer)
    → 0 < tokens
    → strtok fuel none blank t ≡ some (none, t')
    → parse_arguments fuel tokens k malloc t ≡ some ([], t')
unfolding parse_arguments
parse_arguments-end fuel zero k malloc t t' pos e = absurd (omega arith)
parse_arguments-end fuel (suc tokens) k malloc t t' pos e = rw (parse_arguments, e) refl

parse_root-one :
    (fuel p : ℕ) (malloc : Allocator) (t t' : Tokenizer)
    → 0 < fuel
    → malloc.succeeds 0 ≡ true
    → strtok fuel none blank t ≡ some (none, t')
    → parse_root fuel malloc (some p) t ≡ some (some (argument malloc 0 p t.text ∷ []), t')
unfolding parse_root
parse_root-one fuel p malloc t t' pos has e =
    rw (has, parse_root, parse_arguments-end fuel fuel 1 malloc t t' pos e) refl

-- For a command of at most 1024 characters, none of them a quote, that starts with blanks and then
-- has at least one other character, a bound below 1025, a tokenizer that is at rest, and memory for
-- one argument, liebeos_parse_command returns a single argument: all characters behind the first
-- blanks, with the blanks between them, cut to 511; the tokenizer is at rest again.
pub parse_command-plain :
    (fuel skip n max : ℕ) (malloc : Allocator) (before command : Text)
    → max < command_size
    → skip + n < command_size
    → skip + n + 1 < fuel
    → 0 < n
    → ((k : ℕ) → k < skip → command k ≡ b' ')
    → ((k : ℕ) → k < skip + n → IsPlain (command k))
    → command skip ≢ b' '
    → command (skip + n) ≡ 0
    → malloc.succeeds 0 ≡ true
    → (t : Tokenizer) × (arg : Text) × (parse_command fuel malloc
          (record { sp = none; quotes = closed; text = before })
          command
          max
        ≡ some (some (arg ∷ []), t))
      × (t.sp ≡ none)
      × (t.quotes ≡ closed)
      × ((j : ℕ) → j < n → j + 1 < argument_size → arg j ≡ command (skip + j))
      × (arg (cut n (argument_size - 1)) ≡ 0)
unfolding parse_command argument start_of
parse_command-plain fuel skip n max malloc before command few fits enough pos blanks plain first nul
      has =
    let text : Text = strncpy before command command_size in
    let t : Tokenizer = record { sp = some (skip + n); quotes = closed; text = text } in
    let copy = copy-text (skip + n) command_size before command (λ k lt. (plain k lt).0) nul in
    let same : (j : ℕ) → j < skip + n → text j ≡ command j = λ j lt. copy j ∙ ground arith in
    let end : text (skip + n) ≡ 0 = copy (skip + n) ∙ ground arith in
    let z : 0 + skip ≡ skip = omega arith in
    let token =
      strtok_plain fuel 1 0 skip n blank text (some 0) none (blank-length fuel (omega arith)) refl
        (omega arith)
        (λ j lt. blank-finds (text (0 + j)) (rw zero-add (same j (omega arith) ∙ blanks j lt)))
        (rw z (blank-misses (text skip) (rw (same skip (omega arith)) first))) pos (omega arith)
        (λ k lt. rw (z, same (skip + k) (omega arith)) (plain (skip + k) (omega arith)))
        (rw z end) in
    let over =
      strtok-end fuel 1 (skip + n) 0 blank none t (blank-length fuel (omega arith)) refl
        (omega arith) (λ j lt. absurd (omega arith))
        (rw (add-zero (skip + n), end) (blank-misses 0 (omega arith)))
        (rw (add-zero (skip + n)) end) in
    let small : leb command_size max ≡ false = ground arith in
    let one = parse_root-one fuel skip malloc t (record t { sp = none }) (omega arith) has over in
    let arg =
      copy-text n argument_size (malloc.fresh 0) (λ j. text (skip + j))
        (λ k lt. rw (same (skip + k) (omega arith)) ((plain (skip + k) (omega arith)).0)) end in
    (
      record t { sp = none },
      argument malloc 0 skip text,
      rw (parse_command, small, rw z at token) one,
      refl,
      refl,
      λ j lt short. arg j ∙ rw (same (skip + j) (omega arith)) (ground arith),
      arg (cut n (argument_size - 1)) ∙ ground arith,
    )
