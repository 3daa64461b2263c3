-- ===== src/Text/Compare.antt =====
-- The lengths and comparisons of string.c against the text that they read: the bytes up to the first
-- NUL, or up to a bound.
use mathlib.Core.Logic.{◌↔◌}
use native.Mathlib.Nat.{add-zero}
use liebe_os.Prelude.{
  ℕ, zero, suc, ◌+◌, ◌<◌, ◌≡◌, refl, arith, ◌==◌, if◌then◌else◌, pos, List, [], ◌∷◌, map, length,
  some, ◌≢◌,
}
use liebe_os.Text.{
  Text, strlen, strnlen_loop, strnlen, strncmp_loop, strncmp, istrncmp_loop, istrncmp, to_lower,
}

-- The bytes of `s` from index `i` on, up to the first NUL, and `n` at most.
unfoldable pub contents : (n : ℕ) → Text → (i : ℕ) → List ℕ
contents zero s i = []
contents (suc n) s i = if s i == 0 then [] else s i ∷ contents n s (i + 1)

strnlen_loop_lem :
    (left : ℕ) (s : Text) (i len : ℕ) → strnlen_loop left s i len ≡ len + length (contents left s i)
unfolding strnlen_loop contents
strnlen_loop_lem zero s i len = omega arith
strnlen_loop_lem (suc left) s i len = ground (arith, strnlen_loop_lem left s (i + 1) (len + 1))

-- strnlen is the length of the text, or the bound where the text is longer.
pub strnlen_lem : (s : Text) (max : ℕ) → strnlen s max ≡ length (contents max s 0)
unfolding strnlen
strnlen_lem s max = omega (arith, strnlen_loop_lem max s 0 0)

-- With a NUL at `i + n` and none before, strlen ends after that many bytes.
pub strlen_lem :
    (n fuel : ℕ) (s : Text) (i len : ℕ)
    → n < fuel
    → ((k : ℕ) → k < n → s (i + k) ≢ 0)
    → s (i + n) ≡ 0
    → strlen fuel s i len ≡ some (len + n)
unfolding strlen
strlen_lem n zero s i len h more end = absurd (omega arith)
strlen_lem zero (suc fuel) s i len h more end =
    let e : i + 0 ≡ i = omega arith in let z : s i ≡ 0 = rw e at end in ground (arith)
strlen_lem (suc n) (suc fuel) s i len h more end =
    ground (arith, first, strlen_lem n fuel s (i + 1) (len + 1) (omega arith) later end')
  where
    shift : (k : ℕ) → i + 1 + k ≡ i + suc k
    shift k = omega arith

    first : s i ≢ 0
    first = rw (add-zero i) at (more 0 (omega arith))

    later : (k : ℕ) → k < n → s (i + 1 + k) ≢ 0
    later k lt = rw (shift k) (more (suc k) (omega arith))

    end' : s (i + 1 + n) ≡ 0
    end' = rw (shift n) end

strncmp_loop_lem :
    (n : ℕ) (str1 str2 : Text) (i : ℕ)
    → (strncmp_loop n str1 str2 i ≡ pos 0) ↔ (contents n str1 i ≡ contents n str2 i)
unfolding strncmp_loop contents
strncmp_loop_lem zero str1 str2 i = (λ e. refl, λ e. refl)
strncmp_loop_lem (suc n) str1 str2 i =
    let ih = strncmp_loop_lem n str1 str2 (i + 1) in
    (λ e. ground (arith, ih), λ e. ground (arith, ih))

-- strncmp returns 0 exactly for equal texts, read up to the bound.
pub strncmp-zero :
    (str1 str2 : Text) (n : ℕ)
    → (strncmp str1 str2 n ≡ pos 0) ↔ (contents n str1 0 ≡ contents n str2 0)
unfolding strncmp
strncmp-zero str1 str2 n = strncmp_loop_lem n str1 str2 0

istrncmp_loop_lem :
    (n : ℕ) (str1 str2 : Text) (i : ℕ)
    → (istrncmp_loop n str1 str2 i ≡ pos 0)
      ↔ (map to_lower (contents n str1 i) ≡ map to_lower (contents n str2 i))
unfolding istrncmp_loop contents to_lower
istrncmp_loop_lem zero str1 str2 i = (λ e. refl, λ e. refl)
istrncmp_loop_lem (suc n) str1 str2 i =
    let ih = istrncmp_loop_lem n str1 str2 (i + 1) in
    (λ e. ground (arith, ih), λ e. ground (arith, ih))

-- istrncmp returns 0 exactly for texts, read up to the bound, that are equal in lower case.
pub istrncmp-zero :
    (str1 str2 : Text) (n : ℕ)
    → (istrncmp str1 str2 n ≡ pos 0)
      ↔ (map to_lower (contents n str1 0) ≡ map to_lower (contents n str2 0))
unfolding istrncmp
istrncmp-zero str1 str2 n = istrncmp_loop_lem n str1 str2 0
