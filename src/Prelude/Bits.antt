-- ===== src/Prelude/Bits.antt =====
-- `|` of a number whose low bits are clear and one that fits in these bits is their sum.
use Prim.Native.Nat.{
  ℕ, zero, suc, ◌+◌, ◌*◌, ◌/◌, ◌%◌, ◌^◌, ◌≤◌, ◌<◌, max, bit_or, digits, bit_or-bitwise,
}
use mathlib.Core.Path.{◌≡◌, refl, ◌∙◌}
use mathlib.Core.Bool.{Bool, true, ◌&&◌}
use native.Mathlib.Omega.{arith}
use native.Mathlib.Nat.{pow-suc}

abbrev or_upto : ℕ → ℕ → ℕ → ℕ
or_upto n a b = digits (λ y. y) max n a b

-- The count of digits to go does not matter once it reaches the first number.
or_upto_enough : (n m a b : ℕ) → a ≤ n → a ≤ m → or_upto n a b ≡ or_upto m a b
or_upto_enough zero zero a b p q = refl
or_upto_enough zero (suc m) zero b p q = refl
or_upto_enough zero (suc m) (suc a) b p q = absurd (omega arith)
or_upto_enough (suc n) zero zero b p q = refl
or_upto_enough (suc n) zero (suc a) b p q = absurd (omega arith)
or_upto_enough (suc n) (suc m) zero b p q = refl
or_upto_enough (suc n) (suc m) (suc a) b p q =
    omega (arith, or_upto_enough n m (suc a / 2) (b / 2) (omega arith) (omega arith))

pub bit_or-zero_left : (b : ℕ) → bit_or 0 b ≡ b
bit_or-zero_left b = bit_or-bitwise 0 b

bit_or_halves : (a b : ℕ) → bit_or a b ≡ bit_or (a / 2) (b / 2) * 2 + max (a % 2) (b % 2)
bit_or_halves zero b = omega (arith, bit_or-zero_left b, bit_or-zero_left (b / 2))
bit_or_halves (suc a) b = omega (
  arith,
  bit_or-bitwise (suc a) b,
  bit_or-bitwise (suc a / 2) (b / 2),
  or_upto_enough a (suc a / 2) (suc a / 2) (b / 2) (omega arith) (omega arith),
)

bit_or-zero_upto : (n a : ℕ) → a ≤ n → bit_or a 0 ≡ a
bit_or-zero_upto n zero h = refl
bit_or-zero_upto zero (suc a) h = absurd (omega arith)
bit_or-zero_upto (suc n) (suc a) h =
    omega (arith, bit_or_halves (suc a) 0, bit_or-zero_upto n (suc a / 2) (omega arith))

pub bit_or_disjoint : (k q r : ℕ) → r < 2 ^ k → bit_or (q * 2 ^ k) r ≡ q * 2 ^ k + r
bit_or_disjoint zero q r h =
    let z : r ≡ 0 = omega arith in
    let one : q * 2 ^ 0 ≡ q = omega arith in
    rw (z, one) (bit_or-zero_upto q q (omega arith) ∙ omega arith)
bit_or_disjoint (suc k) q r h =
    let p : 2 ^ suc k ≡ 2 * 2 ^ k = omega (arith, pow-suc 2 k) in
    let half : q * 2 ^ suc k / 2 ≡ q * 2 ^ k = rw p (omega arith) in
    let even : q * 2 ^ suc k % 2 ≡ 0 = rw p (omega arith) in
    let ih = bit_or_disjoint k q (r / 2) (omega arith) in
    let digits : bit_or (q * 2 ^ suc k) r ≡ bit_or (q * 2 ^ k) (r / 2) * 2 + max 0 (r % 2) =
      bit_or_halves (q * 2 ^ suc k) r ∙ rw (half, even) in
    digits ∙ rw (ih, p) (omega arith)

-- `|` on the low bits leaves the upper ones.
pub bit_or_low :
    (k q r s : ℕ)
    → r < 2 ^ k
    → s < 2 ^ k
    → (bit_or (q * 2 ^ k + r) s ≡ q * 2 ^ k + bit_or r s) × (bit_or r s < 2 ^ k)
bit_or_low zero q r s hr hs =
    let zr : r ≡ 0 = omega arith in
    let zs : s ≡ 0 = omega arith in
    rw (zr, zs)
      (bit_or-zero_upto (q * 2 ^ 0 + 0) (q * 2 ^ 0 + 0) (omega arith) ∙ omega arith, omega arith)
bit_or_low (suc k) q r s hr hs =
    let p : 2 ^ suc k ≡ 2 * 2 ^ k = omega (arith, pow-suc 2 k) in
    let half : (q * 2 ^ suc k + r) / 2 ≡ q * 2 ^ k + r / 2 = rw p (omega arith) in
    let even : (q * 2 ^ suc k + r) % 2 ≡ r % 2 = rw p (omega arith) in
    let (upper, lower) = bit_or_low k q (r / 2) (s / 2) (omega arith) (omega arith) in
    let whole = bit_or_halves (q * 2 ^ suc k + r) s in
    let part = bit_or_halves r s in
    let bit : max (r % 2) (s % 2) < 2 = ground arith in
    (whole ∙ rw (half, even, upper, part, p) (omega arith), rw (part, p) (omega arith))

-- A test of every number below a bound, by evaluation.
abbrev pub all_below : ℕ → (ℕ → Bool) → Bool
all_below zero p = true
all_below (suc n) p = p n && all_below n p

pub all_below_sound : (n : ℕ) (p : ℕ → Bool) (x : ℕ) → all_below n p ≡ true → x < n → p x ≡ true
all_below_sound zero p x h lt = absurd (omega arith)
all_below_sound (suc n) p x h lt = ground (arith, all_below_sound n p x)
