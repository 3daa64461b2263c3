-- ===== src/Process/Counting.antt =====
-- The count of a list of arguments.
use liebe_os.Prelude.{
  ℕ, zero, suc, ◌+◌, ◌<◌, ◌≡◌, ◌≢◌, ap, ◌∙◌, true, false, arith, some, List, [], ◌∷◌, length, ◌==◌,
}
use liebe_os.Paging.{Words}
use liebe_os.Process.Arguments.{next_of, count_loop, process_count_commnad_arguments}

-- The arguments at these addresses, each leading to the next, and the last one to NULL.
abbrev pub Leads : Words → (root : ℕ) → List ℕ → Type 0
Leads words root [] = root ≡ 0
Leads words root (x ∷ xs) = (root ≡ x) × (x ≢ 0) × Leads words (next_of words x) xs

count_loop-length :
    (fuel : ℕ) (words : Words) (root count : ℕ) (xs : List ℕ)
    → Leads words root xs
    → length xs < fuel
    → count_loop fuel words root count ≡ some (count + length xs)
unfolding count_loop
count_loop-length zero words root count xs leads enough = absurd (omega (arith, enough))
count_loop-length (suc fuel) words root count [] leads enough =
    let null : (root == 0) ≡ true = ground (arith, leads) in rw null (ap some (omega arith))
count_loop-length (suc fuel) words root count (x ∷ xs) leads enough =
    let other : (root == 0) ≡ false = ground (arith, leads.0, leads.1) in
    rw (other, leads.0)
      (count_loop-length fuel words (next_of words x) (count + 1) xs leads.2 (omega (arith, enough))
        ∙ ap some (omega arith))

-- On a list of arguments that ends with NULL, with fuel above its length,
-- process_count_commnad_arguments ends and returns its length.
pub process_count_commnad_arguments-length :
    (fuel : ℕ) (words : Words) (root : ℕ) (xs : List ℕ)
    → Leads words root xs
    → length xs < fuel
    → process_count_commnad_arguments fuel words root ≡ some (length xs)
unfolding process_count_commnad_arguments
process_count_commnad_arguments-length fuel words root xs leads enough =
    count_loop-length fuel words root 0 xs leads enough ∙ ap some (omega arith)
