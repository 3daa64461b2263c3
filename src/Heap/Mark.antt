-- ===== src/Heap/Mark.antt =====
-- `heap_mark_blocks_taken` and `heap_mark_blocks_free`: the entries that they leave.
use liebe_os.Prelude.{
  ℕ, zero, suc, ◌+◌, ◌≤◌, ◌<◌, ◌≡◌, refl, true, false, inl, inr, arith, ltb, ◌==◌, if◌then◌else◌,
  update, Bool-cases, bit_or,
}
use liebe_os.Heap.{
  entry_taken, block_has_next, is_taken, has_next, first_entry, mark_taken_loop, mark_free_loop,
}

-- The entry at `j` of an allocation of the blocks `start ≤ j < stop` whose first entry is `first`.
abbrev pub chain_entry : (start stop first j : ℕ) → ℕ
chain_entry start stop first j =
    if j == start
    then first
    else if j + 1 == stop
    then entry_taken
    else bit_or entry_taken block_has_next

abbrev pub within : (start stop j : ℕ) → (inside outside : ℕ) → ℕ
within start stop j inside outside =
    if ltb j start then outside else if ltb j stop then inside else outside

-- The loop writes the chain of the blocks from `i` up to `stop`, and nothing else.
pub mark_taken_loop_lem :
    (left i stop entry : ℕ) (entries : ℕ → ℕ) (j : ℕ)
    → i + left ≡ stop
    → mark_taken_loop left i stop entry entries j
      ≡ within i stop j (chain_entry i stop entry j) (entries j)
unfolding mark_taken_loop update
mark_taken_loop_lem zero i stop entry entries j e = ground arith
mark_taken_loop_lem (suc left) i stop entry entries j e = ground (
  arith,
  mark_taken_loop_lem left (i + 1) stop
      (if i + 2 == stop then entry_taken else bit_or entry_taken block_has_next)
      (update entries i entry) j,
)

-- A chain whose entries all lead on to the last one is cleared up to that, and nothing else is.
pub mark_free_loop_lem :
    (left i stop : ℕ) (entries : ℕ → ℕ) (j : ℕ)
    → i < stop
    → stop ≤ i + left
    → ((k : ℕ) → i ≤ k → k + 1 < stop → has_next (entries k) ≡ true)
    → ((k : ℕ) → k + 1 ≡ stop → has_next (entries k) ≡ false)
    → mark_free_loop left i entries j ≡ within i stop j 0 (entries j)
unfolding mark_free_loop update
mark_free_loop_lem zero i stop entries j lt le on end = absurd (omega arith)
mark_free_loop_lem (suc left) i stop entries j lt le on end = elim (Bool-cases (i + 1 == stop)) [
  | inl last ↦ ground (arith, end i)
  | inr more ↦
      let rest : mark_free_loop left (i + 1) (update entries i 0) j
          ≡ within (i + 1) stop j 0 (update entries i 0 j) =
        mark_free_loop_lem left (i + 1) stop (update entries i 0) j (ground arith) (ground arith)
          (λ k lo hi. ground (arith, on k)) (λ k hi. ground (arith, end k)) in
      ground (arith, on i, rest)
]

-- The first entry of an allocation is taken, and leads on just where there are more blocks.
pub first_entry_lem :
    (n : ℕ) → (is_taken (first_entry n) ≡ true) × (has_next (first_entry n) ≡ ltb 1 n)
unfolding first_entry is_taken has_next
first_entry_lem n = elim (Bool-cases (ltb 1 n)) [
  | inl more ↦ rw more (refl, refl)
  | inr one ↦ rw one (refl, refl)
]
