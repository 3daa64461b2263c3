-- ===== src/Stdlib.antt =====
-- programs/stdlib/src/stdlib.c: itoa of the programs' library.
pub mod Command
pub mod Decimal
pub mod Printf
pub mod Readline
pub mod Strtok
mod Tests
use liebe_os.Prelude.{ℕ, zero, suc, ◌+◌, ◌-◌, ◌/◌, ◌%◌, ◌==◌, if◌then◌else◌, update, ℤ, pos, negsuc}
use liebe_os.Text.{Text}

-- The loop of `itoa` on the number -m, with fuel: each round writes the last digit before `loc`.
pub digits_loop : (fuel m loc : ℕ) → Text → ℕ × Text
digits_loop zero m loc text = (loc, text)
digits_loop (suc fuel) m loc text =
    let rest = digits_loop fuel (m / 10) (loc - 1) (update text (loc - 1) (b'0' + m % 10)) in
    if m == 0 then (loc, text) else rest

-- `if (loc == 11) text[--loc] = '0'`
pub zero_digit : ℕ × Text → ℕ × Text
zero_digit (loc, text) = if loc == 11 then (loc - 1, update text (loc - 1) b'0') else (loc, text)

-- The digits of -m before the NUL at 11.
pub itoa_digits : (m : ℕ) → Text → ℕ × Text
unfolding digits_loop zero_digit
itoa_digits m text = zero_digit (digits_loop 10 m 11 (update text 11 0))

-- The index of the first character, and the static buffer.
pub itoa : ℤ → Text → ℕ × Text
unfolding itoa_digits
itoa (pos n) text = itoa_digits n text
itoa (negsuc n) text =
    let (loc, digits) = itoa_digits (n + 1) text in (loc - 1, update digits (loc - 1) b'-')
