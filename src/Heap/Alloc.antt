-- ===== src/Heap/Alloc.antt =====
-- `heap_malloc` and `heap_free` together.
use liebe_os.Prelude.{
  ℕ, ◌+◌, ◌-◌, ◌*◌, ◌/◌, ◌%◌, ◌^◌, ◌≤◌, ◌<◌, ◌≡◌, refl, true, false, inl, inr, arith, ltb,
  Bool-cases, fun_ext, ap, ap₂, lt→ltb, some, Result, ok, err, ◌⊎◌, ◌∙◌,
}
use liebe_os.Heap.{
  Heap, block_size, is_taken, has_next, align_value_to_upper, get_start_block, block,
  block_to_address, first_entry, mark_blocks_taken, mark_blocks_free, malloc_blocks, malloc, free,
}
use liebe_os.Heap.Scan.{IsFree, Blocked, Located, get_start_block-Located}
use liebe_os.Heap.Mark.{
  chain_entry, within, mark_taken_loop_lem, mark_free_loop_lem, first_entry_lem,
}

-- heap_align_value_to_upper gives the least multiple of the block size that is not below the size,
-- for every size of at most 2 ^ 32 - 4096.
pub align_value_to_upper_lem :
    (val : ℕ)
    → val ≤ 2 ^ 32 - block_size
    → (align_value_to_upper val % block_size ≡ 0)
      × (val ≤ align_value_to_upper val)
      × (align_value_to_upper val < val + block_size)
unfolding align_value_to_upper
align_value_to_upper_lem val h = ground arith

-- The number of blocks that `heap_malloc` asks for.
unfoldable pub blocks_of : ℕ → ℕ
blocks_of size = align_value_to_upper size / block_size

pub blocks_of-pos : (size : ℕ) → 0 < size → size ≤ 2 ^ 32 - block_size → 0 < blocks_of size
unfolding blocks_of
blocks_of-pos size pos h = omega (arith, align_value_to_upper_lem size h)

-- The addresses of the pool and its table do not wrap, and a free entry is 0.
pub record IsSound (heap : Heap) : Type 0 where
  pub starts : 0 < heap.saddr
  pub fits : heap.saddr + heap.total * block_size ≤ 2 ^ 32
  pub small : heap.total * block_size ≤ 2 ^ 31
  pub clean : (j : ℕ) → j < heap.total → is_taken (heap.entries j) ≡ false → heap.entries j ≡ 0

-- The table after an allocation, entry by entry.
pub entries-mark_blocks_taken :
    (heap : Heap) (s n j : ℕ)
    → (mark_blocks_taken heap s n).entries j
      ≡ within s (s + n) j (chain_entry s (s + n) (first_entry n) j) (heap.entries j)
unfolding mark_blocks_taken
entries-mark_blocks_taken heap s n j =
    mark_taken_loop_lem n s (s + n) (first_entry n) heap.entries j refl

-- Every block of an allocation is marked as taken.
pub mark_blocks_taken-IsTaken :
    (heap : Heap) (s n j : ℕ)
    → s ≤ j
    → j < s + n
    → is_taken ((mark_blocks_taken heap s n).entries j) ≡ true
unfolding is_taken
mark_blocks_taken-IsTaken heap s n j lo hi =
    rw (entries-mark_blocks_taken heap s n j) (ground (arith, first_entry_lem n))

-- Where a free window exists, the search returns the first one.
pub window-found :
    (heap : Heap) (n t : ℕ)
    → 0 < n
    → t + n ≤ heap.total
    → IsFree heap.entries t (t + n)
    → (s : ℕ) × (get_start_block heap n ≡ ok s)
      × (s ≤ t)
      × (s + n ≤ heap.total)
      × IsFree heap.entries s (s + n)
window-found heap n t pos fits open_ =
    go (get_start_block heap n) refl (get_start_block-Located heap n pos)
  where
    clash : Blocked heap.entries n heap.total t → ⊥
    clash (j, lo, hi, inside, taken) = cc (open_ j lo hi, taken)

    go :
        (r : Result ℕ)
        → get_start_block heap n ≡ r
        → Located heap n r
        → (s : ℕ) × (get_start_block heap n ≡ ok s)
          × (s ≤ t)
          × (s + n ≤ heap.total)
          × IsFree heap.entries s (s + n)
    go (err c) e found = absurd (clash (found.1 t (omega arith)))
    go (ok s) e (lt, old, inl (room, run)) = elim (Bool-cases (ltb t s)) [
      | inl before ↦ absurd (clash (old t (ground arith)))
      | inr after ↦ (s, e, ground arith, room, run)
    ]
    go (ok s) e (lt, old, inr (room, run)) = absurd (clash (old t (omega arith)))

pub size-le-blocks_of : (size : ℕ) → size ≤ 2 ^ 32 - block_size → size ≤ blocks_of size * block_size
unfolding blocks_of
size-le-blocks_of size h = omega (arith, align_value_to_upper_lem size h)

pub malloc-found :
    (heap : Heap) (size s : ℕ)
    → IsSound heap
    → s < heap.total
    → get_start_block heap (blocks_of size) ≡ ok s
    → malloc heap size ≡ (heap.saddr + s * block_size, mark_blocks_taken heap s (blocks_of size))
unfolding malloc malloc_blocks blocks_of
malloc-found heap size s sound lt found =
    rw (found, malloc_blocks) (ap₂ (λ p h. (p, h)) (unfold block_to_address in omega arith) refl)

-- In a sound heap, for a positive size of at most 2 ^ 32 - 4096 bytes with a free window of the
-- blocks that it needs, heap_malloc returns the address of the first such window, which lies in the
-- pool with all the bytes asked for, marks its blocks as taken and changes no other entry.
pub malloc_lem :
    (heap : Heap) (size t : ℕ)
    → IsSound heap
    → 0 < size
    → size ≤ 2 ^ 32 - block_size
    → t + blocks_of size ≤ heap.total
    → IsFree heap.entries t (t + blocks_of size)
    → (s : ℕ) × (s ≤ t)
      × (malloc heap size
          ≡ (heap.saddr + s * block_size, mark_blocks_taken heap s (blocks_of size)))
      × (s + blocks_of size ≤ heap.total)
      × (heap.saddr + s * block_size + size ≤ heap.saddr + heap.total * block_size)
      × IsFree heap.entries s (s + blocks_of size)
      × ((j : ℕ)
          → s ≤ j
          → j < s + blocks_of size
          → is_taken ((malloc heap size).1.entries j) ≡ true)
      × ((j : ℕ)
          → (j < s) ⊎ (s + blocks_of size ≤ j)
          → (malloc heap size).1.entries j ≡ heap.entries j)
malloc_lem heap size t sound pos small fits open_ =
    let (s, found, le, room, run) =
      window-found heap (blocks_of size) t (blocks_of-pos size pos small) fits open_ in
    let eq = malloc-found heap size s sound (omega (arith, blocks_of-pos size pos small)) found in
    (
      s,
      le,
      eq,
      room,
      omega (arith, size-le-blocks_of size small),
      run,
      λ j lo hi. rw eq (mark_blocks_taken-IsTaken heap s (blocks_of size) j lo hi),
      λ j out. rw (eq, entries-mark_blocks_taken heap s (blocks_of size) j) (ground arith),
    )

-- The entries of an allocation lead on up to its last one, and stop there.
chain_leads_on :
    (heap : Heap) (s n k : ℕ)
    → s ≤ k
    → k + 1 < s + n
    → has_next ((mark_blocks_taken heap s n).entries k) ≡ true
unfolding has_next
chain_leads_on heap s n k lo hi =
    rw (entries-mark_blocks_taken heap s n k) (ground (arith, first_entry_lem n))

chain_stops :
    (heap : Heap) (s n k : ℕ)
    → 0 < n
    → k + 1 ≡ s + n
    → has_next ((mark_blocks_taken heap s n).entries k) ≡ false
unfolding has_next
chain_stops heap s n k pos e =
    rw (entries-mark_blocks_taken heap s n k) (ground (arith, first_entry_lem n))

-- Freeing the first block of an allocation of clean blocks restores the heap.
mark_blocks_free-mark_blocks_taken :
    (heap : Heap) (s n : ℕ)
    → 0 < n
    → s + n ≤ heap.total
    → ((j : ℕ) → s ≤ j → j < s + n → heap.entries j ≡ 0)
    → mark_blocks_free (mark_blocks_taken heap s n) (block s) ≡ some heap
unfolding mark_blocks_free mark_blocks_taken
mark_blocks_free-mark_blocks_taken heap s n pos fits clean =
    ap (λ e. some (record heap { entries = e }))
      (fun_ext λ j.
        mark_free_loop_lem (heap.total - s) s (s + n) (mark_blocks_taken heap s n).entries j
          (omega arith) (omega arith) (chain_leads_on heap s n)
          (λ k e. chain_stops heap s n k pos e)
        ∙ ground (arith, entries-mark_blocks_taken heap s n j, clean j))

free-at :
    (heap : Heap) (s n : ℕ)
    → IsSound heap
    → s < heap.total
    → free (mark_blocks_taken heap s n) (heap.saddr + s * block_size)
      ≡ mark_blocks_free (mark_blocks_taken heap s n) (block s)
unfolding free mark_blocks_taken
free-at heap s n sound lt =
    let d : (heap.saddr + s * block_size + 2 ^ 32 - heap.saddr) % 2 ^ 32 ≡ s * block_size =
      omega arith in
    let low : ltb (s * block_size) (2 ^ 31) ≡ true = lt→ltb _ _ (omega arith) in
    let q : s * block_size / block_size ≡ s = omega arith in rw (d, low, q)

-- In a sound heap, for a positive size of at most 2 ^ 32 - 4096 bytes with a free run of the blocks
-- that it needs, heap_free on what heap_malloc returned gives the heap back as it was, table and
-- all.
pub free-malloc :
    (heap : Heap) (size t : ℕ)
    → IsSound heap
    → 0 < size
    → size ≤ 2 ^ 32 - block_size
    → t + blocks_of size ≤ heap.total
    → IsFree heap.entries t (t + blocks_of size)
    → free (malloc heap size).1 (malloc heap size).0 ≡ some heap
free-malloc heap size t sound pos small fits open_ =
    let (s, le, eq, room, inside, run, taken, same) =
      malloc_lem heap size t sound pos small fits open_ in
    let pos' = blocks_of-pos size pos small in
    rw eq (
      free-at heap s (blocks_of size) sound (omega arith)
      ∙ mark_blocks_free-mark_blocks_taken heap s (blocks_of size) pos' room
          (λ j lo hi. sound.clean j (omega arith) (run j lo hi)))
