-- ===== src/Heap/Single.antt =====
-- Allocations of one block after another.
use liebe_os.Prelude.{
  ℕ, ◌+◌, ◌*◌, ◌≤◌, ◌<◌, ◌≡◌, ◌≢◌, refl, true, arith, ◌∙◌, ap, update, update-ne,
}
use liebe_os.Heap.{
  Heap, block_size, is_taken, malloc, mark_blocks_taken, first_entry, align_value_to_upper,
}
use liebe_os.Heap.Scan.{IsFree}
use liebe_os.Heap.Alloc.{
  IsSound, blocks_of, malloc_lem, entries-mark_blocks_taken, mark_blocks_taken-IsTaken,
}
use liebe_os.Heap.Mark.{within, chain_entry}
use liebe_os.Heap.Sound.{mark_blocks_taken-IsSound}

-- The address of a block that is taken.
abbrev pub Held : Heap → ℕ → Type 0
Held heap p =
    (k : ℕ) × (p ≡ heap.saddr + k * block_size)
    × (k < heap.total)
    × (is_taken (heap.entries k) ≡ true)

-- A run of free blocks.
abbrev pub Room : Heap → ℕ → Type 0
Room heap n = (t : ℕ) × (t + n ≤ heap.total) × IsFree heap.entries t (t + n)

-- What an allocation of one block does, where there is room for one and for `left` more: the block is
-- none of those that were taken, and these stay taken.
pub record Takes (heap heap' : Heap) (p left : ℕ) : Type 0 where
  pub sound : IsSound heap'
  pub saddr : heap'.saddr ≡ heap.saddr
  pub room : Room heap' left
  pub held : Held heap' p
  pub as_block :
      (k : ℕ) × (p ≡ heap.saddr + k * block_size)
      × (k < heap.total)
      × (heap.entries k ≡ 0)
      × (heap' ≡ record heap { entries = update heap.entries k 129 })
  pub kept : (q : ℕ) → Held heap q → Held heap' q
  pub other : (q : ℕ) → Held heap q → q ≢ p

-- The run that is left: the one that was there, or its tail.
rest_of :
    (heap : Heap) (s t left : ℕ)
    → t + (left + 1) ≤ heap.total
    → IsFree heap.entries t (t + (left + 1))
    → s ≤ t
    → Room (mark_blocks_taken heap s 1) left
unfolding mark_blocks_taken
rest_of heap s t left fits open_ le = (
  t + 1,
  omega arith,
  λ j lo hi.
      rw (entries-mark_blocks_taken heap s 1 j ∙ outside j (omega arith))
        (open_ j (omega arith) (omega arith)),
)
  where
    outside :
        (j : ℕ)
        → s + 1 ≤ j
        → within s (s + 1) j (chain_entry s (s + 1) (first_entry 1) j) (heap.entries j)
          ≡ heap.entries j
    outside j lo = ground arith

mark_blocks_taken-Takes :
    (heap : Heap) (s t left : ℕ)
    → IsSound heap
    → s + 1 ≤ heap.total
    → IsFree heap.entries s (s + 1)
    → t + (left + 1) ≤ heap.total
    → IsFree heap.entries t (t + (left + 1))
    → s ≤ t
    → Takes heap (mark_blocks_taken heap s 1) (heap.saddr + s * block_size) left
unfolding mark_blocks_taken
mark_blocks_taken-Takes heap s t left sound inside run fits open_ le = record {
  sound = mark_blocks_taken-IsSound heap s 1 sound;
  saddr = refl;
  room = rest_of heap s t left fits open_ le;
  held = (s, refl, omega arith, mark_blocks_taken-IsTaken heap s 1 s (omega arith) (omega arith));
  as_block =
      (s, refl, omega arith, sound.clean s (omega arith) (run s (omega arith) (omega arith)), refl);
  kept = λ q held. keep q held;
  other = λ q held e. apart q held e;
}
  where
    apart : (q : ℕ) → Held heap q → q ≡ heap.saddr + s * block_size → ⊥
    apart q (k, at_, low, taken) e =
        let same : k ≡ s = omega arith in cc (rw same at taken, run s (omega arith) (omega arith))

    keep : (q : ℕ) → Held heap q → Held (mark_blocks_taken heap s 1) q
    keep q (k, at_, low, taken) =
        let ne : k ≢ s = λ e. cc (rw e at taken, run s (omega arith) (omega arith)) in
        (k, at_, low, ap is_taken (update-ne heap.entries s 129 k ne) ∙ taken)

one_block : (size : ℕ) → 0 < size → size ≤ block_size → blocks_of size ≡ 1
unfolding blocks_of align_value_to_upper
one_block size pos small = ground arith

pub malloc-Takes :
    (heap : Heap) (size left : ℕ)
    → IsSound heap
    → 0 < size
    → size ≤ block_size
    → Room heap (left + 1)
    → Takes heap (malloc heap size).1 (malloc heap size).0 left
malloc-Takes heap size left sound pos small (t, fits, open_) =
    let one = one_block size pos small in
    let (s, le, eq, room, inside, run, taken, same) =
      malloc_lem heap size t sound pos (omega arith) (omega arith)
        (λ j lo hi. open_ j lo (omega arith)) in
    rw (eq, one)
      (mark_blocks_taken-Takes heap s t left sound (rw one at room)
        (λ j lo hi. run j lo (omega arith)) fits open_ le)
