-- ===== src/Stdlib/Decimal.antt =====
-- The text of a number read back.
use liebe_os.Prelude.{
  ℕ, zero, suc, ◌+◌, ◌-◌, ◌*◌, ◌/◌, ◌%◌, ◌^◌, ◌≤◌, ◌<◌, ◌≡◌, refl, sym, ap, ◌∙◌, inl, inr, arith,
  ◌==◌, Bool-cases, update, update_self, update-ne, ℤ, pos, negsuc, subst,
}
use liebe_os.Text.{Text}
use liebe_os.Stdlib.{digits_loop, zero_digit, itoa_digits, itoa}

-- The number that `count` digits from `loc` on stand for.
abbrev pub value : (count : ℕ) → Text → (loc : ℕ) → ℕ
value zero text loc = 0
value (suc count) text loc = value count text loc * 10 + (text (loc + count) - b'0')

-- `count` digits, which are all digits, from `loc` to before the NUL at 11, standing for `m`.
pub record Writes (m : ℕ) (loc : ℕ) (text : Text) : Type 0 where
  pub count : ℕ
  pub short : count ≤ 10
  pub some_digit : 0 < count
  pub ends : loc + count ≡ 11
  pub stands : value count text loc ≡ m
  pub digits : (j : ℕ) → loc ≤ j → j < 11 → (b'0' ≤ text j) × (text j ≤ b'9')
  pub terminated : text 11 ≡ 0

-- A number of at most `fuel` digits.
abbrev Fits : (fuel m : ℕ) → Type 0
Fits zero m = m ≡ 0
Fits (suc fuel) m = Fits fuel (m / 10)

-- What the loop writes before `loc`.
record Written (fuel m loc : ℕ) (text : Text) (loc' : ℕ) (text' : Text) : Type 0 where
  count : ℕ
  short : count ≤ fuel
  ends : loc' + count ≡ loc
  stands : value count text' loc' ≡ m
  digits : (j : ℕ) → loc' ≤ j → j < loc → (b'0' ≤ text' j) × (text' j ≤ b'9')
  same : (j : ℕ) → loc ≤ j → text' j ≡ text j
  empty : count ≡ 0 → m ≡ 0

digits_loop-Written :
    (fuel m loc : ℕ) (text : Text)
    → Fits fuel m
    → fuel ≤ loc
    → Written fuel m loc text (digits_loop fuel m loc text).0 (digits_loop fuel m loc text).1
unfolding digits_loop
digits_loop-Written zero m loc text fits le = record {
  count = 0;
  short = omega arith;
  ends = omega arith;
  stands = sym fits;
  digits = λ j lo hi. absurd (omega (arith, lo, hi));
  same = λ j lo. refl;
  empty = λ e. fits;
}
digits_loop-Written (suc fuel) m loc text fits le = elim (Bool-cases (m == 0)) [
  | inl null ↦ rw null (record {
    count = 0;
    short = omega arith;
    ends = omega arith;
    stands = ground (arith, null);
    digits = λ j lo hi. absurd (omega (arith, lo, hi));
    same = λ j lo. refl;
    empty = λ e. ground (arith, null);
  })
  | inr more ↦
      rw more
        (one_more (digits_loop-Written fuel (m / 10) (loc - 1) text1 fits (omega (arith, le))))
]
  where
    text1 : Text
    text1 = update text (loc - 1) (b'0' + m % 10)

    one_more :
        {loc' : ℕ} {text' : Text}
        → Written fuel (m / 10) (loc - 1) text1 loc' text'
        → Written (suc fuel) m loc text loc' text'
    one_more {loc'} {text'} w =
        let last : text' (loc - 1) ≡ b'0' + m % 10 =
          w.same (loc - 1) (omega arith) ∙ update_self text (loc - 1) (b'0' + m % 10) in
        let at_last : text' (loc' + w.count) ≡ b'0' + m % 10 = ap text' w.ends ∙ last in
        record {
          count = suc w.count;
          short = omega (arith, w.short);
          ends = omega (arith, w.ends, le);
          stands = omega (arith, w.stands, at_last);
          digits = λ j lo hi. elim (Bool-cases (j == loc - 1)) [
            | inl same ↦
                let e : j ≡ loc - 1 = ground (arith, same) in
                let here : text' j ≡ b'0' + m % 10 = ap text' e ∙ last in
                (omega (arith, here), omega (arith, here))
            | inr other ↦ w.digits j lo (ground (arith, other, hi, le))
          ];
          same = λ j lo.
              w.same j (omega (arith, lo))
              ∙ update-ne text (loc - 1) (b'0' + m % 10) j (λ e. omega (arith, lo, e, le));
          empty = λ e. absurd (omega (arith, e));
        }

Fits-int : (m : ℕ) → m ≤ 2 ^ 31 → Fits 10 m
Fits-int m le = omega (arith, le)

zero_digit-Writes :
    (m loc : ℕ) (text text0 : Text)
    → text0 11 ≡ 0
    → Written 10 m 11 text0 loc text
    → Writes m (zero_digit (loc, text)).0 (zero_digit (loc, text)).1
unfolding zero_digit
zero_digit-Writes m loc text text0 end w = elim (Bool-cases (loc == 11)) [
  | inl none_ ↦
      let at_end : loc ≡ 11 = ground (arith, none_) in
      let null : m ≡ 0 = w.empty (omega (arith, w.ends, at_end)) in
      rw none_ (record {
        count = 1;
        short = omega arith;
        some_digit = omega arith;
        ends = omega (arith, at_end);
        stands =
            ap (λ c. 0 * 10 + (c - b'0'))
              (ap (update text (loc - 1) b'0') (omega arith) ∙ update_self text (loc - 1) b'0')
            ∙ sym null;
        digits = λ j lo hi.
            let e : j ≡ loc - 1 = omega (arith, lo, hi, at_end) in
            let here : update text (loc - 1) b'0' j ≡ b'0' =
              ap (update text (loc - 1) b'0') e ∙ update_self text (loc - 1) b'0' in
            (omega (arith, here), omega (arith, here));
        terminated =
            update-ne text (loc - 1) b'0' 11 (λ e. omega (arith, e, at_end))
            ∙ w.same 11 (omega arith)
            ∙ end;
      })
  | inr some_ ↦ rw some_ (record {
    count = w.count;
    short = w.short;
    some_digit = ground (arith, some_, w.ends);
    ends = w.ends;
    stands = w.stands;
    digits = w.digits;
    terminated = w.same 11 (omega arith) ∙ end;
  })
]

itoa_digits-Writes :
    (m : ℕ) (text : Text) → m ≤ 2 ^ 31 → Writes m (itoa_digits m text).0 (itoa_digits m text).1
unfolding itoa_digits
itoa_digits-Writes m text le =
    zero_digit-Writes m (digits_loop 10 m 11 (update text 11 0)).0
      (digits_loop 10 m 11 (update text 11 0)).1 (update text 11 0) (update_self text 11 0)
      (digits_loop-Written 10 m 11 (update text 11 0) (Fits-int m le) (omega arith))

value-same :
    (count : ℕ) (text text' : Text) (loc : ℕ)
    → ((j : ℕ) → loc ≤ j → text' j ≡ text j)
    → value count text' loc ≡ value count text loc
value-same zero text text' loc same = refl
value-same (suc count) text text' loc same =
    rw (value-same count text text' loc same, same (loc + count) (omega arith)) refl

-- A sign before the digits leaves them.
sign-Writes :
    (m loc : ℕ) (text : Text)
    → Writes m loc text
    → Writes m (loc - 1 + 1) (update text (loc - 1) b'-')
sign-Writes m loc text w =
    let back : loc - 1 + 1 ≡ loc = omega (arith, w.ends, w.short) in
    let same : (j : ℕ) → loc ≤ j → update text (loc - 1) b'-' j ≡ text j =
      λ j le. update-ne text (loc - 1) b'-' j (λ e. omega (arith, le, e, back)) in
    subst (λ l. Writes m l (update text (loc - 1) b'-')) (sym back)
      (record {
        count = w.count;
        short = w.short;
        some_digit = w.some_digit;
        ends = w.ends;
        stands = value-same w.count text (update text (loc - 1) b'-') loc same ∙ w.stands;
        digits = λ j lo hi. rw (same j lo) (w.digits j lo hi);
        terminated = same 11 (omega (arith, w.ends)) ∙ w.terminated;
      })

-- What `itoa` returns for a number: its digits, behind a sign if it is negative.
abbrev pub IsNumeral : ℤ → ℕ → Text → Type 0
IsNumeral (pos n) loc text = Writes n loc text
IsNumeral (negsuc n) loc text = (text loc ≡ b'-') × Writes (n + 1) (loc + 1) text

-- An `int`.
abbrev pub IsInt : ℤ → Type 0
IsInt (pos n) = n < 2 ^ 31
IsInt (negsuc n) = n < 2 ^ 31

-- For every int, itoa returns the place of a text that ends with a NUL in its buffer: at least one
-- and at most ten decimal digits, which read back give the number, behind a '-' and for its
-- absolute value where the number is negative.
pub itoa-IsNumeral : (i : ℤ) (text : Text) → IsInt i → IsNumeral i (itoa i text).0 (itoa i text).1
unfolding itoa
itoa-IsNumeral (pos n) text lt = itoa_digits-Writes n text (omega (arith, lt))
itoa-IsNumeral (negsuc n) text lt = signed (itoa_digits-Writes (n + 1) text (omega (arith, lt)))
  where
    loc : ℕ
    loc = (itoa_digits (n + 1) text).0

    bytes : Text
    bytes = (itoa_digits (n + 1) text).1

    signed :
        Writes (n + 1) loc bytes
        → (update bytes (loc - 1) b'-' (loc - 1) ≡ b'-')
          × Writes (n + 1) (loc - 1 + 1) (update bytes (loc - 1) b'-')
    signed w = (update_self bytes (loc - 1) b'-', sign-Writes (n + 1) loc bytes w)
