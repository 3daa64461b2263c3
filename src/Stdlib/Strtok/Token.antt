-- ===== src/Stdlib/Strtok/Token.antt =====
-- programs/stdlib/src/string.c: the token that strtok finds.
use native.Mathlib.Nat.{add-zero}
use liebe_os.Prelude.{
  ℕ, zero, suc, ◌+◌, ◌≤◌, ◌<◌, ◌≡◌, ◌≢◌, refl, true, false, none, some, ltb, ◌==◌, if◌then◌else◌,
  update, arith, inl, inr, subst, Option, ◌∙◌, ◌⊎◌, ◌-◌,
}
use liebe_os.Text.{Text, strlen}
use liebe_os.Stdlib.Strtok.{
  Quotes, Tokenizer, find_delimiter, skip_delimiters, pass_quote, find_quoted, end_token,
  take_token, start_of, strtok_from, strtok,
}

shift : (p k : ℕ) → p + 1 + k ≡ p + suc k
shift p k = omega arith

find_delimiter-le :
    (left i : ℕ) (delimiters : Text) (c : ℕ) → find_delimiter left i delimiters c ≤ i + left
unfolding find_delimiter
find_delimiter-le zero i delimiters c = omega arith
find_delimiter-le (suc left) i delimiters c =
    ground (arith, find_delimiter-le left (i + 1) delimiters c)

pub find_delimiter-one :
    (delimiters : Text) (c : ℕ)
    → find_delimiter 1 0 delimiters c ≡ (if c == delimiters 0 then 0 else 1)
unfolding find_delimiter
find_delimiter-one delimiters c = refl

skip_delimiters_lem :
    (count fuel len : ℕ) (delimiters text : Text) (p : ℕ)
    → count < fuel
    → ((j : ℕ) → j < count → find_delimiter len 0 delimiters (text (p + j)) ≢ len)
    → find_delimiter len 0 delimiters (text (p + count)) ≡ len
    → skip_delimiters fuel len delimiters text p ≡ some (p + count)
unfolding skip_delimiters
skip_delimiters_lem count zero len delimiters text p h skipped stop = absurd (omega arith)
skip_delimiters_lem zero (suc fuel) len delimiters text p h skipped stop =
    ground (arith, rw (add-zero p) at stop)
skip_delimiters_lem (suc count) (suc fuel) len delimiters text p h skipped stop =
    let first = rw (add-zero p) at (skipped 0 (omega arith)) in
    ground (
      arith,
      first,
      skip_delimiters_lem count fuel len delimiters text (p + 1) (omega arith)
          (λ j lt. rw (shift p j) (skipped (suc j) (omega arith))) (rw (shift p count) stop),
    )

-- The quotes behind `n` bytes from `p` on.
unfoldable pub quotes_at : (n : ℕ) → Text → (p : ℕ) → Quotes → Quotes
quotes_at zero text p q = q
quotes_at (suc n) text p q = quotes_at n text (p + 1) (pass_quote (text p) q)

-- A byte that does not end a token: no NUL, and no delimiter where a quote is open behind it.
abbrev pub Passes : (len : ℕ) → (delimiters text : Text) → (p : ℕ) → Quotes → (n : ℕ) → Type 0
Passes len delimiters text p q n =
    (j : ℕ)
    → j < n
    → (text (p + j) ≢ 0)
      × (find_quoted len delimiters (quotes_at (suc j) text p q) (text (p + j)) ≡ len)

Passes-tail :
    (len : ℕ) (delimiters text : Text) (p : ℕ) (q : Quotes) (n : ℕ)
    → Passes len delimiters text p q (suc n)
    → Passes len delimiters text (p + 1) (pass_quote (text p) q) n
unfolding quotes_at
Passes-tail len delimiters text p q n pass j lt = rw (shift p j) (pass (suc j) (omega arith))

end_token-pass :
    (n fuel len : ℕ) (delimiters text : Text) (p : ℕ) (q : Quotes)
    → Passes len delimiters text p q n
    → end_token (n + fuel) len delimiters p (record { sp = some p; quotes = q; text = text })
      ≡ end_token fuel len delimiters
          (p + n)
          (record { sp = some (p + n); quotes = quotes_at n text p q; text = text })
unfolding end_token quotes_at
end_token-pass zero fuel len delimiters text p q pass =
    let a : 0 + fuel ≡ fuel = omega arith in rw (a, add-zero p) refl
end_token-pass (suc n) fuel len delimiters text p q pass =
    let a : suc n + fuel ≡ suc (n + fuel) = omega arith in
    let (more, out) = pass 0 (omega arith) in
    let nonzero : (text p == 0) ≡ false = ground (arith, rw (add-zero p) at more) in
    let unquoted : ltb (find_quoted len delimiters (pass_quote (text p) q) (text p)) len ≡ false =
      ground (arith, rw (add-zero p) at out) in
    rw (a, end_token, nonzero, unquoted, ← shift p n)
      (end_token-pass n fuel len delimiters text (p + 1) (pass_quote (text p) q)
        (Passes-tail len delimiters text p q n pass))

-- What ends a token: the NUL, or a delimiter where a quote is open behind it.
abbrev pub Ends : (len : ℕ) → (delimiters text : Text) → (p : ℕ) → Quotes → (n : ℕ) → Type 0
Ends len delimiters text p q n =
    (text (p + n) ≡ 0)
    ⊎ ((text (p + n) ≢ 0)
        × (find_quoted len delimiters (quotes_at (suc n) text p q) (text (p + n)) < len))

-- The tokenizer behind a token of `n` bytes: at the NUL, or behind the delimiter, of which a NUL is
-- made.
abbrev pub behind : (text : Text) → (p : ℕ) → Quotes → (n : ℕ) → Tokenizer
behind text p q n =
    if text (p + n) == 0
    then record { sp = some (p + n); quotes = quotes_at n text p q; text = text }
    else record {
      sp = some (p + n + 1);
      quotes = quotes_at (suc n) text p q;
      text = update text (p + n) 0;
    }

pub quotes_at-suc :
    (n : ℕ) (text : Text) (p : ℕ) (q : Quotes)
    → quotes_at (suc n) text p q ≡ pass_quote (text (p + n)) (quotes_at n text p q)
unfolding quotes_at
quotes_at-suc zero text p q = rw (add-zero p) refl
quotes_at-suc (suc n) text p q =
    quotes_at-suc n text (p + 1) (pass_quote (text p) q) ∙ rw (shift p n) refl

end_token-end :
    (n fuel len : ℕ) (delimiters text : Text) (p : ℕ) (q : Quotes)
    → Ends len delimiters text p q n
    → end_token
        (suc fuel)
        len
        delimiters
        (p + n)
        (record { sp = some (p + n); quotes = quotes_at n text p q; text = text })
      ≡ some (behind text p q n)
unfolding end_token
end_token-end n fuel len delimiters text p q (inl nul) =
    let z : (text (p + n) == 0) ≡ true = ground arith in rw z refl
end_token-end n fuel len delimiters text p q (inr (more, quoted)) =
    let z : (text (p + n) == 0) ≡ false = ground arith in
    let e = quotes_at-suc n text p q in
    let found : ltb
          (find_quoted len delimiters (pass_quote (text (p + n)) (quotes_at n text p q))
            (text (p + n)))
          len
        ≡ true =
      subst (λ q'. ltb (find_quoted len delimiters q' (text (p + n))) len ≡ true) e
        (ground (arith, quoted)) in
    rw (z, found, e) refl

take_token_lem :
    (n fuel len : ℕ) (delimiters text : Text) (p : ℕ) (q : Quotes) (sp : Option ℕ)
    → 0 < n
    → n < fuel
    → Passes len delimiters text p q n
    → Ends len delimiters text p q n
    → take_token fuel len delimiters p (record { sp = sp; quotes = q; text = text })
      ≡ some (some p, behind text p q n)
unfolding take_token
take_token_lem n fuel len delimiters text p q sp pos enough pass ends =
    let nonzero : (text p == 0) ≡ false = ground (arith, rw (add-zero p) at ((pass 0 pos).0)) in
    let split : n + suc (fuel - n - 1) ≡ fuel = omega arith in
    let found =
      end_token-pass n (suc (fuel - n - 1)) len delimiters text p q pass
      ∙ end_token-end n (fuel - n - 1) len delimiters text p q ends in
    rw (nonzero, rw split at found) refl

-- The loops of strtok one after the other, by what they find.
pub strtok-behind :
    (fuel len start skip n : ℕ) (delimiters : Text) (str : Option ℕ) (t : Tokenizer)
    → strlen fuel delimiters 0 0 ≡ some len
    → start_of str t.sp ≡ some start
    → skip < fuel
    → ((j : ℕ) → j < skip → find_delimiter len 0 delimiters (t.text (start + j)) ≢ len)
    → find_delimiter len 0 delimiters (t.text (start + skip)) ≡ len
    → 0 < n
    → n < fuel
    → Passes len delimiters t.text (start + skip) t.quotes n
    → Ends len delimiters t.text (start + skip) t.quotes n
    → strtok fuel str delimiters t
      ≡ some (some (start + skip), behind t.text (start + skip) t.quotes n)
unfolding strtok strtok_from
strtok-behind fuel len start skip n delimiters str t length_ from enough skipped stop pos enough'
      pass ends =
    rw
      (
        strtok,
        length_,
        from,
        strtok_from,
        skip_delimiters_lem skip fuel len delimiters t.text start enough skipped stop,
      )
      (take_token_lem n fuel len delimiters t.text (start + skip) t.quotes t.sp pos enough' pass
        ends)

-- At the end of the text there is no token, and the tokenizer takes a new text at the next call.
pub strtok-end :
    (fuel len start skip : ℕ) (delimiters : Text) (str : Option ℕ) (t : Tokenizer)
    → strlen fuel delimiters 0 0 ≡ some len
    → start_of str t.sp ≡ some start
    → skip < fuel
    → ((j : ℕ) → j < skip → find_delimiter len 0 delimiters (t.text (start + j)) ≢ len)
    → find_delimiter len 0 delimiters (t.text (start + skip)) ≡ len
    → t.text (start + skip) ≡ 0
    → strtok fuel str delimiters t ≡ some (none, record t { sp = none })
unfolding strtok strtok_from take_token
strtok-end fuel len start skip delimiters str t length_ from enough skipped stop nul =
    let z : (t.text (start + skip) == 0) ≡ true = ground arith in
    rw
      (
        strtok,
        length_,
        from,
        strtok_from,
        skip_delimiters_lem skip fuel len delimiters t.text start enough skipped stop,
        take_token,
        z,
      )
      refl
