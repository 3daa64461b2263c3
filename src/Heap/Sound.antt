-- ===== src/Heap/Sound.antt =====
-- The invariant of the heap's table under `heap_malloc` and `heap_free`, and what `heap_malloc` does
-- where no run of free blocks is long enough.
use liebe_os.Prelude.{
  ℕ, ◌+◌, ◌-◌, ◌*◌, ◌^◌, ◌≤◌, ◌<◌, ◌≡◌, refl, true, false, inl, inr, arith, ltb, leb, Bool-cases,
  some, Result, ok, err, ◌∙◌, update, ◌&&◌, zero, suc, subst,
}
use liebe_os.Heap.{
  Heap, block_size, is_taken, has_next, get_start_block, Block, block, before, address_to_block,
  mark_blocks_taken, mark_blocks_free, mark_free_loop, clear_below, malloc_blocks, malloc, free,
}
use liebe_os.Heap.Scan.{Blocked, Located, get_start_block-Located}
use liebe_os.Heap.Alloc.{
  IsSound, blocks_of, blocks_of-pos, entries-mark_blocks_taken, mark_blocks_taken-IsTaken,
  malloc-found,
}

-- An allocation leaves no entry of another kind than taken or 0.
pub mark_blocks_taken-IsSound :
    (heap : Heap) (s n : ℕ) → IsSound heap → IsSound (mark_blocks_taken heap s n)
mark_blocks_taken-IsSound heap s n sound = record {
  starts = unfold mark_blocks_taken in sound.starts;
  fits = unfold mark_blocks_taken in sound.fits;
  small = unfold mark_blocks_taken in sound.small;
  clean = λ j lt open_. elim (Bool-cases (leb s j && ltb j (s + n))) [
    | inl inside ↦ cc (mark_blocks_taken-IsTaken heap s n j (ground arith) (ground arith), open_)
    | inr outside ↦
        let same : (mark_blocks_taken heap s n).entries j ≡ heap.entries j =
          entries-mark_blocks_taken heap s n j ∙ ground arith in
        same ∙ sound.clean j (unfold mark_blocks_taken in lt) (rw same at open_)
  ];
}

malloc_blocks-IsSound : (heap : Heap) (n : ℕ) → IsSound heap → IsSound (malloc_blocks heap n).1
unfolding malloc_blocks
malloc_blocks-IsSound heap n sound = go (get_start_block heap n) refl
  where
    go : (r : Result ℕ) → get_start_block heap n ≡ r → IsSound (malloc_blocks heap n).1
    go (ok s) e = rw (e, malloc_blocks) (mark_blocks_taken-IsSound heap s n sound)
    go (err c) e = rw (e, malloc_blocks) sound

-- heap_malloc keeps the soundness of a heap, for every size and on every outcome.
pub malloc-IsSound : (heap : Heap) (size : ℕ) → IsSound heap → IsSound (malloc heap size).1
unfolding malloc
malloc-IsSound heap size sound = malloc_blocks-IsSound heap _ sound

mark_free_loop-clean :
    (left i : ℕ) (entries : ℕ → ℕ) (j : ℕ)
    → (is_taken (entries j) ≡ false → entries j ≡ 0)
    → is_taken (mark_free_loop left i entries j) ≡ false
    → mark_free_loop left i entries j ≡ 0
unfolding mark_free_loop update
mark_free_loop-clean zero i entries j clean = clean
mark_free_loop-clean (suc left) i entries j clean =
    let freed : is_taken (update entries i 0 j) ≡ false → update entries i 0 j ≡ 0 =
      λ open_. ground (arith, clean) in
    elim (Bool-cases (has_next (entries i))) [
      | inl more ↦ rw more (mark_free_loop-clean left (i + 1) (update entries i 0) j freed)
      | inr last ↦ rw last freed
    ]

mark_blocks_free-IsSound :
    (heap heap' : Heap) (b : Block)
    → IsSound heap
    → mark_blocks_free heap b ≡ some heap'
    → IsSound heap'
unfolding mark_blocks_free
mark_blocks_free-IsSound heap heap' (block b) sound e =
    let same : record heap { entries = mark_free_loop (heap.total - b) b heap.entries } ≡ heap' =
      cc in
    subst IsSound same (record {
      starts = sound.starts;
      fits = sound.fits;
      small = sound.small;
      clean = λ j lt. mark_free_loop-clean (heap.total - b) b heap.entries j (sound.clean j lt);
    })
mark_blocks_free-IsSound heap heap' (before b) sound e =
    elim (Bool-cases (clear_below b heap.below).1) [
      | inl on ↦
          let same : record heap {
            below = (clear_below b heap.below).0;
            entries = mark_free_loop heap.total 0 heap.entries;
          }
              ≡ heap' =
            cc (rw on at e) in
          subst IsSound same (record {
            starts = sound.starts;
            fits = sound.fits;
            small = sound.small;
            clean = λ j lt. mark_free_loop-clean heap.total 0 heap.entries j (sound.clean j lt);
          })
      | inr stopped ↦
          let same : record heap { below = (clear_below b heap.below).0 } ≡ heap' =
            cc (rw stopped at e) in
          subst IsSound same (record {
            starts = sound.starts;
            fits = sound.fits;
            small = sound.small;
            clean = sound.clean;
          })
    ]

-- heap_free keeps the soundness of a heap, whatever pointer it is given, one below the pool included.
pub free-IsSound :
    (heap heap' : Heap) (ptr : ℕ) → IsSound heap → free heap ptr ≡ some heap' → IsSound heap'
unfolding free
free-IsSound heap heap' ptr sound e =
    mark_blocks_free-IsSound heap heap' (address_to_block heap ptr) sound e

-- heap_free comes to its end, whatever pointer it is given.
pub free-ends : (heap : Heap) (ptr : ℕ) → (heap' : Heap) × (free heap ptr ≡ some heap')
unfolding free
free-ends heap ptr = ended (address_to_block heap ptr)
  where
    ended : (b : Block) → (heap' : Heap) × (mark_blocks_free heap b ≡ some heap')
    ended (block b) = unfold mark_blocks_free in (_, refl)
    ended (before b) = unfold mark_blocks_free in (_, refl)

-- In a sound heap, for a positive size of at most 2 ^ 32 - 4096 bytes, where every window of the
-- blocks that it needs holds a taken block and the last block of the table is free, heap_malloc
-- does not fail: it returns an address that is not NULL, marks as taken the entry just past the
-- table's end, and the blocks asked for do not fit in the pool.
pub malloc_overrun :
    (heap : Heap) (size : ℕ)
    → IsSound heap
    → 0 < size
    → size ≤ 2 ^ 32 - block_size
    → ((t : ℕ)
        → t + blocks_of size ≤ heap.total
        → Blocked heap.entries (blocks_of size) heap.total t)
    → 0 < heap.total
    → is_taken (heap.entries (heap.total - 1)) ≡ false
    → (0 < (malloc heap size).0)
      × (is_taken ((malloc heap size).1.entries heap.total) ≡ true)
      × (heap.saddr + heap.total * block_size < (malloc heap size).0 + blocks_of size * block_size)
malloc_overrun heap size sound pos small blocked some_ last =
    go (get_start_block heap (blocks_of size)) refl
      (get_start_block-Located heap (blocks_of size) (blocks_of-pos size pos small))
  where
    go :
        (r : Result ℕ)
        → get_start_block heap (blocks_of size) ≡ r
        → Located heap (blocks_of size) r
        → (0 < (malloc heap size).0)
          × (is_taken ((malloc heap size).1.entries heap.total) ≡ true)
          × (heap.saddr + heap.total * block_size
              < (malloc heap size).0 + blocks_of size * block_size)
    go (err c) e found =
        let (j, lo, hi, inside, taken) = found.1 (heap.total - 1) (omega arith) in
        let same : j ≡ heap.total - 1 = omega arith in cc (rw same at taken, last)
    go (ok s) e (lt, old, inl (room, run)) =
        let (j, lo, hi, inside, taken) = blocked s room in cc (run j lo hi, taken)
    go (ok s) e (lt, old, inr (room, run)) = rw (malloc-found heap size s sound lt e) (
      omega (arith, sound.starts),
      mark_blocks_taken-IsTaken heap s (blocks_of size) heap.total (omega arith) room,
      omega arith,
    )
