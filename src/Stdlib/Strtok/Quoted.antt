-- ===== src/Stdlib/Strtok/Quoted.antt =====
-- programs/stdlib/src/string.c: the token of strtok by the bytes of the text and by its quotes.
use liebe_os.Prelude.{
  ℕ, zero, suc, ◌+◌, ◌%◌, ◌≤◌, ◌<◌, ◌≡◌, ◌≢◌, refl, Bool, true, false, not, none, some, ◌==◌,
  if◌then◌else◌, update, arith, inl, inr, Option, ◌∙◌, ◌⊎◌, ap, ap₂, Bool-cases,
}
use liebe_os.Text.{Text, strlen}
use liebe_os.Text.Compare.{strlen_lem}
use liebe_os.Stdlib.Strtok.{
  Quotes, Tokenizer, find_delimiter, pass_quote, find_quoted, start_of, strtok,
}
use liebe_os.Stdlib.Strtok.Token.{quotes_at, quotes_at-suc, Passes, Ends, behind, strtok-behind}

-- The bytes before the NUL.
pub record HasLength (text : Text) (len : ℕ) : Type 0 where
  pub nonzero : (k : ℕ) → k < len → text k ≢ 0
  pub nul : text len ≡ 0

HasLength-strlen :
    (len fuel : ℕ) (text : Text) → len < fuel → HasLength text len → strlen fuel text 0 0 ≡ some len
HasLength-strlen len fuel text room has =
    let z = λ (k : ℕ). let e : 0 + k ≡ k = omega arith in e in
    strlen_lem len fuel text 0 0 room (λ k lt. rw (z k) (has.nonzero k lt)) (rw (z len) has.nul)
    ∙ ap (λ n. some n) (z len)

abbrev pub IsDelimiter : (len : ℕ) → (delimiters : Text) → (c : ℕ) → Type 0
IsDelimiter len delimiters c = (k : ℕ) × (k < len) × (delimiters k ≡ c)

-- How often a byte stands among the `n` bytes from `p` on.
abbrev pub count_of : (n : ℕ) → Text → (p c : ℕ) → ℕ
count_of zero text p c = 0
count_of (suc n) text p c = count_of n text p c + (if text (p + n) == c then 1 else 0)

-- A quote is open where it was and its mark has come an even number of times since, or where it was
-- not and the number is odd.
abbrev pub flipped : Bool → ℕ → Bool
flipped b n = if n % 2 == 0 then b else not b

abbrev pub quotes_behind : (n : ℕ) → Text → (p : ℕ) → Quotes → Quotes
quotes_behind n text p q = record {
  single = flipped q.single (count_of n text p b'\'');
  double = flipped q.double (count_of n text p b'"');
}

-- A byte that ends a token: a delimiter, where a single or a double quote is open.
abbrev pub IsEnd : (len : ℕ) → (delimiters : Text) → Quotes → (c : ℕ) → Type 0
IsEnd len delimiters q c = ((q.single ≡ true) ⊎ (q.double ≡ true)) × IsDelimiter len delimiters c

flipped-add :
    (b t : Bool) (n : ℕ)
    → (if t then not (flipped b n) else flipped b n) ≡ flipped b (n + (if t then 1 else 0))
flipped-add true true n = ground arith
flipped-add false true n = ground arith
flipped-add b false n = let e : n + 0 ≡ n = omega arith in rw e refl

quotes_at-behind :
    (n : ℕ) (text : Text) (p : ℕ) (q : Quotes) → quotes_at n text p q ≡ quotes_behind n text p q
unfolding quotes_at pass_quote
quotes_at-behind zero text p q = refl
quotes_at-behind (suc n) text p q =
    quotes_at-suc n text p q
    ∙ ap (pass_quote (text (p + n))) (quotes_at-behind n text p q)
    ∙ ap₂
        (λ (single double : Bool).
          let r : Quotes = record { single = single; double = double } in r)
        (flipped-add q.single (text (p + n) == b'\'') (count_of n text p b'\''))
        (flipped-add q.double (text (p + n) == b'"') (count_of n text p b'"'))

find_delimiter-found :
    (left i k : ℕ) (delimiters : Text) (c : ℕ)
    → i ≤ k
    → k < i + left
    → delimiters k ≡ c
    → find_delimiter left i delimiters c < i + left
unfolding find_delimiter
find_delimiter-found zero i k delimiters c le lt e = absurd (omega (arith, le, lt))
find_delimiter-found (suc left) i k delimiters c le lt e = elim (Bool-cases (c == delimiters i)) [
  | inl here ↦ rw here (omega arith)
  | inr other ↦
      let ne : i ≢ k = λ same. absurd (ground (arith, other, e, ap delimiters same)) in
      let rest =
        find_delimiter-found left (i + 1) k delimiters c (omega (arith, le, ne)) (omega (arith, lt))
          e in
      rw other (omega (arith, rest))
]

find_delimiter-absent :
    (left i : ℕ) (delimiters : Text) (c : ℕ)
    → ((k : ℕ) → i ≤ k → k < i + left → delimiters k ≢ c)
    → find_delimiter left i delimiters c ≡ i + left
unfolding find_delimiter
find_delimiter-absent zero i delimiters c absent = omega arith
find_delimiter-absent (suc left) i delimiters c absent =
    let first = absent i (omega arith) (omega arith) in
    let other : (c == delimiters i) ≡ false = ground (arith, first) in
    let rest =
      find_delimiter-absent left (i + 1) delimiters c
        (λ k le lt. absent k (omega (arith, le)) (omega (arith, lt))) in
    rw other (omega (arith, rest))

module _ (len : ℕ) (delimiters : Text) where
  delimiter : (c : ℕ) → IsDelimiter len delimiters c → find_delimiter len 0 delimiters c < len
  delimiter c (k, lt, e) =
      let z : 0 + len ≡ len = omega arith in
      let found = find_delimiter-found len 0 k delimiters c (omega arith) (omega (arith, lt)) e in
      omega (arith, found)

  no_delimiter : (c : ℕ) → ¬ IsDelimiter len delimiters c → find_delimiter len 0 delimiters c ≡ len
  no_delimiter c absent =
      let none_found =
        find_delimiter-absent len 0 delimiters c (λ k le lt e. absent (k, omega (arith, lt), e)) in
      omega (arith, none_found)

  ends : (q : Quotes) (c : ℕ) → IsEnd len delimiters q c → find_quoted len delimiters q c < len
  unfolding find_quoted
  ends q c (inl single, is) = rw single (delimiter c is)
  ends q c (inr double, is) = elim (Bool-cases q.single) [
    | inl single ↦ rw single (delimiter c is)
    | inr off ↦ rw (off, double) (delimiter c is)
  ]

  passes : (q : Quotes) (c : ℕ) → ¬ IsEnd len delimiters q c → find_quoted len delimiters q c ≡ len
  unfolding find_quoted
  passes q c is_not = elim (Bool-cases q.single) [
    | inl single ↦ rw single (no_delimiter c (λ is. is_not (inl single, is)))
    | inr off ↦ elim (Bool-cases q.double) [
      | inl double ↦ rw (off, double) (no_delimiter c (λ is. is_not (inr double, is)))
      | inr off' ↦ rw (off, off') refl
    ]
  ]

  -- The `n` bytes from `p` on hold no NUL and do not end a token.
  abbrev pub IsToken : Text → (p : ℕ) → Quotes → (n : ℕ) → Type 0
  IsToken text p q n =
      (j : ℕ)
      → j < n
      → (text (p + j) ≢ 0)
        × (¬ IsEnd len delimiters (quotes_behind (suc j) text p q) (text (p + j)))

  -- What stands behind them: the NUL, or a byte that ends a token.
  abbrev pub IsLast : Text → (p : ℕ) → Quotes → (n : ℕ) → Type 0
  IsLast text p q n =
      (text (p + n) ≡ 0)
      ⊎ ((text (p + n) ≢ 0) × IsEnd len delimiters (quotes_behind (suc n) text p q) (text (p + n)))

  IsToken-Passes :
      (text : Text) (p : ℕ) (q : Quotes) (n : ℕ)
      → IsToken text p q n
      → Passes len delimiters text p q n
  IsToken-Passes text p q n is j lt =
      ((is j lt).0, rw (quotes_at-behind (suc j) text p q) (passes _ _ ((is j lt).1)))

  IsLast-Ends :
      (text : Text) (p : ℕ) (q : Quotes) (n : ℕ)
      → IsLast text p q n
      → Ends len delimiters text p q n
  IsLast-Ends text p q n (inl nul) = inl nul
  IsLast-Ends text p q n (inr (more, is)) =
      inr (more, rw (quotes_at-behind (suc n) text p q) (ends _ _ is))

-- The tokenizer behind a token: at the NUL, or behind the byte that ended it, of which a NUL is made.
abbrev pub left_behind : (text : Text) → (p : ℕ) → Quotes → (n : ℕ) → Tokenizer
left_behind text p q n =
    if text (p + n) == 0
    then record { sp = some (p + n); quotes = quotes_behind n text p q; text = text }
    else record {
      sp = some (p + n + 1);
      quotes = quotes_behind (suc n) text p q;
      text = update text (p + n) 0;
    }

behind-left_behind :
    (text : Text) (p : ℕ) (q : Quotes) (n : ℕ) → behind text p q n ≡ left_behind text p q n
behind-left_behind text p q n =
    ap₂
      (λ (now next_ : Quotes).
        let t : Tokenizer =
          if text (p + n) == 0
          then record { sp = some (p + n); quotes = now; text = text }
          else record { sp = some (p + n + 1); quotes = next_; text = update text (p + n) 0 } in
        t)
      (quotes_at-behind n text p q) (quotes_at-behind (suc n) text p q)

-- Where a call starts: where the last one ended, or else at the new text.
abbrev pub StartsAt : Option ℕ → Option ℕ → (start : ℕ) → Type 0
StartsAt str sp start = (sp ≡ some start) ⊎ ((sp ≡ none) × (str ≡ some start))

StartsAt-start_of :
    (str sp : Option ℕ) (start : ℕ) → StartsAt str sp start → start_of str sp ≡ some start
unfolding start_of
StartsAt-start_of str sp start (inl old) = rw old refl
StartsAt-start_of str sp start (inr (empty, new)) = rw (empty, new) refl

-- Where strtok starts at `skip` delimiters and then `n` bytes, at least one, the first of them no
-- delimiter, which hold no NUL and no delimiter while a single or a double quote is open, a quote
-- being open by the number of its marks so far, and then comes a NUL or a delimiter while a quote is
-- open, and with fuel above both counts and the number of delimiters, it returns the place behind the
-- skipped delimiters and is left at the NUL, or behind the delimiter, which it overwrites with a NUL,
-- with the quotes open by the number of their marks.
pub strtok_lem :
    (fuel len start skip n : ℕ) (delimiters : Text) (str : Option ℕ) (t : Tokenizer)
    → HasLength delimiters len
    → len < fuel
    → StartsAt str t.sp start
    → skip < fuel
    → ((j : ℕ) → j < skip → IsDelimiter len delimiters (t.text (start + j)))
    → ¬ IsDelimiter len delimiters (t.text (start + skip))
    → 0 < n
    → n < fuel
    → IsToken len delimiters t.text (start + skip) t.quotes n
    → IsLast len delimiters t.text (start + skip) t.quotes n
    → strtok fuel str delimiters t
      ≡ some (some (start + skip), left_behind t.text (start + skip) t.quotes n)
strtok_lem fuel len start skip n delimiters str t has room from enough skipped stop pos enough' is
      last =
    strtok-behind fuel len start skip n delimiters str t
      (HasLength-strlen len fuel delimiters room has) (StartsAt-start_of str t.sp start from) enough
      (λ j lt same.
        let lt' = delimiter len delimiters _ (skipped j lt) in absurd (omega (arith, lt', same)))
      (no_delimiter len delimiters _ stop) pos enough'
      (IsToken-Passes len delimiters t.text (start + skip) t.quotes n is)
      (IsLast-Ends len delimiters t.text (start + skip) t.quotes n last)
    ∙ ap (λ t'. some (some (start + skip), t'))
        (behind-left_behind t.text (start + skip) t.quotes n)
