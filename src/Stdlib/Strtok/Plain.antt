-- ===== src/Stdlib/Strtok/Plain.antt =====
-- programs/stdlib/src/string.c: strtok on a text without quotes.
use liebe_os.Prelude.{
  ℕ, zero, suc, ◌+◌, ◌<◌, ◌≡◌, ◌≢◌, refl, true, false, some, ◌==◌, arith, inl, Option, ◌∙◌,
}
use liebe_os.Text.{Text, strlen}
use liebe_os.Stdlib.Strtok.{Quotes, find_delimiter, find_quoted, pass_quote, start_of, strtok}
use liebe_os.Stdlib.Strtok.Token.{quotes_at, Passes, strtok-behind}

-- A byte that opens no quote and ends no text.
abbrev pub IsPlain : ℕ → Type 0
IsPlain c = (c ≢ 0) × (c ≢ b'\'') × (c ≢ b'"')

abbrev pub closed : Quotes
closed = record { single = false; double = false }

quotes_at-closed :
    (n : ℕ) (text : Text) (p : ℕ)
    → ((k : ℕ) → k < n → IsPlain (text (p + k)))
    → quotes_at n text p closed ≡ closed
unfolding quotes_at pass_quote
quotes_at-closed zero text p plain = refl
quotes_at-closed (suc n) text p plain =
    let (nonzero, single, double) = plain 0 (omega arith) in
    let z : p + 0 ≡ p = omega arith in
    let s : (text p == b'\'') ≡ false = ground (arith, rw z at single) in
    let d : (text p == b'"') ≡ false = ground (arith, rw z at double) in
    rw (s, d)
      (quotes_at-closed n text (p + 1)
        (λ k lt. let e : p + 1 + k ≡ p + suc k = omega arith in rw e (plain (suc k) (omega arith))))

Passes-plain :
    (len n : ℕ) (delimiters text : Text) (p : ℕ)
    → ((k : ℕ) → k < n → IsPlain (text (p + k)))
    → Passes len delimiters text p closed n
unfolding find_quoted
Passes-plain len n delimiters text p plain j lt =
    ((plain j lt).0, rw (quotes_at-closed (suc j) text p (λ k lt'. plain k (omega arith))) refl)

-- Such a text is one token up to its end, with all the delimiters in it.
pub strtok_plain :
    (fuel len start skip n : ℕ) (delimiters text : Text) (str sp : Option ℕ)
    → strlen fuel delimiters 0 0 ≡ some len
    → start_of str sp ≡ some start
    → skip < fuel
    → ((j : ℕ) → j < skip → find_delimiter len 0 delimiters (text (start + j)) ≢ len)
    → find_delimiter len 0 delimiters (text (start + skip)) ≡ len
    → 0 < n
    → n < fuel
    → ((k : ℕ) → k < n → IsPlain (text (start + skip + k)))
    → text (start + skip + n) ≡ 0
    → strtok fuel str delimiters (record { sp = sp; quotes = closed; text = text })
      ≡ some (
        some (start + skip),
        record { sp = some (start + skip + n); quotes = closed; text = text },
      )
strtok_plain fuel len start skip n delimiters text str sp length_ from enough skipped stop pos
      enough' plain nul =
    let found =
      strtok-behind fuel len start skip n delimiters str
        (record { sp = sp; quotes = closed; text = text }) length_ from enough skipped stop pos
        enough' (Passes-plain len n delimiters text (start + skip) plain) (inl nul) in
    let z : (text (start + skip + n) == 0) ≡ true = ground arith in
    found ∙ rw (z, quotes_at-closed n text (start + skip) plain) refl
