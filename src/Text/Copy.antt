-- ===== src/Text/Copy.antt =====
-- What strncpy and strcpy leave in their target.
use liebe_os.Prelude.{
  ℕ, zero, suc, ◌+◌, ◌-◌, ◌≤◌, ◌<◌, ◌≡◌, arith, ltb, ◌==◌, if◌then◌else◌, length, some, ◌≢◌, update,
}
use native.Mathlib.Nat.{add-zero, zero-add}
use liebe_os.Text.{Text, strcpy_loop, strcpy, strncpy_loop, strncpy}
use liebe_os.Text.Compare.{contents}

-- The target of a copy of `n` bytes from index `i` on and of a NUL behind them.
abbrev pub copied : (n : ℕ) → (dest src : Text) → (i j : ℕ) → ℕ
copied n dest src i j =
    if ltb j i then dest j else if ltb j (i + n) then src j else if j == i + n then 0 else dest j

strncpy_loop_lem :
    (left : ℕ) (dest src : Text) (i j : ℕ)
    → strncpy_loop left dest src i j ≡ copied (length (contents left src i)) dest src i j
unfolding strncpy_loop contents update
strncpy_loop_lem zero dest src i j = ground arith
strncpy_loop_lem (suc left) dest src i j =
    ground (arith, strncpy_loop_lem left (update dest i (src i)) src (i + 1) j)

-- strncpy copies the text, cut to count - 1 bytes, ends it by a NUL, and writes nothing else; count
-- - 1 is 0 for a count of 0.
pub strncpy_lem :
    (dest src : Text) (count j : ℕ)
    → strncpy dest src count j ≡ copied (length (contents (count - 1) src 0)) dest src 0 j
unfolding strncpy
strncpy_lem dest src count j = strncpy_loop_lem (count - 1) dest src 0 j

strcpy_loop_lem :
    (n fuel : ℕ) (dest src : Text) (i : ℕ)
    → n < fuel
    → ((k : ℕ) → i ≤ k → k < i + n → src k ≢ 0)
    → src (i + n) ≡ 0
    → (out : Text) × (strcpy_loop fuel dest src i ≡ some out)
      × ((j : ℕ) → out j ≡ (if ltb j i then dest j else if ltb j (i + n) then src j else dest j))
unfolding strcpy_loop update
strcpy_loop_lem n zero dest src i h more end = absurd (omega arith)
strcpy_loop_lem zero (suc fuel) dest src i h more end =
    let e : src i ≡ 0 = rw (add-zero i) at end in (dest, ground (arith, e), λ j. ground arith)
strcpy_loop_lem (suc n) (suc fuel) dest src i h more end =
    let shift : i + 1 + n ≡ i + suc n = omega arith in
    let (out, e, after) =
      strcpy_loop_lem n fuel (update dest i (src i)) src (i + 1) (omega arith)
        (λ k lo hi. more k (omega arith) (omega arith)) (rw shift end) in
    (out, ground (arith, e, more i (omega arith) (omega arith)), λ j. ground (arith, after j))

-- On a NUL-terminated text, with fuel above its length, strcpy ends and copies the text's bytes,
-- but not the NUL that ends them: what stood behind them in the target stays there.
pub strcpy_lem :
    (n fuel : ℕ) (dest src : Text)
    → n < fuel
    → ((k : ℕ) → k < n → src k ≢ 0)
    → src n ≡ 0
    → (out : Text) × (strcpy fuel dest src ≡ some out)
      × ((j : ℕ) → out j ≡ (if ltb j n then src j else dest j))
unfolding strcpy
strcpy_lem n fuel dest src h more end =
    let (out, e, after) =
      strcpy_loop_lem n fuel dest src 0 h (λ k lo hi. more k (omega arith)) (rw zero-add end) in
    (out, e, λ j. ground (arith, after j))
