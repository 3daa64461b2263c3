-- ===== src/Heap/Tests.antt =====
-- The heap's theorems on small tables.
use liebe_os.Prelude.{
  ℕ, ◌+◌, ◌*◌, ◌%◌, ◌≤◌, ◌<◌, ◌≡◌, refl, true, arith, some, ◌==◌, if◌then◌else◌, ◌⊎◌,
}
use liebe_os.Memory.{Memory}
use liebe_os.Heap.{
  Heap, block_size, is_taken, align_value_to_upper, malloc, free, mark_blocks_taken,
}
use liebe_os.Heap.Scan.{IsFree, Blocked}
use liebe_os.Heap.Alloc.{IsSound, blocks_of, malloc_lem, free-malloc}
use liebe_os.Heap.Sound.{malloc-IsSound, free-IsSound, malloc_overrun}

-- Two allocations: the blocks 0 and 1, and the block 3.
abbrev entries : ℕ → ℕ
entries j = if j == 0 then 0xc1 else if j == 1 then 1 else if j == 3 then 0x81 else 0

abbrev heap : Heap
heap = record { saddr = 0x100000; total = 8; entries = entries; below = λ n. 0 }

heap-IsSound : IsSound heap
unfolding is_taken
heap-IsSound = record {
  starts = omega arith;
  fits = omega arith;
  small = omega arith;
  clean = λ j lt open_. ground arith;
}

IsFree-run : IsFree entries 4 6
unfolding is_taken
IsFree-run j lo hi = ground arith

blocks_5000 : blocks_of 5000 ≡ 2
unfolding blocks_of align_value_to_upper
blocks_5000 = refl

IsFree-room : IsFree entries 4 (4 + blocks_of 5000)
IsFree-room = rw blocks_5000 IsFree-run

room_5000 : 4 + blocks_of 5000 ≤ 8
room_5000 = rw blocks_5000 (omega arith)

free-malloc_example : free (malloc heap 5000).1 (malloc heap 5000).0 ≡ some heap
free-malloc_example =
    free-malloc heap 5000 4 heap-IsSound (omega arith) (omega arith) room_5000 IsFree-room

malloc_example :
    (s : ℕ) × (s ≤ 4)
    × (malloc heap 5000 ≡ (0x100000 + s * block_size, mark_blocks_taken heap s (blocks_of 5000)))
    × (s + blocks_of 5000 ≤ 8)
    × (0x100000 + s * block_size + 5000 ≤ 0x100000 + 8 * block_size)
    × IsFree entries s (s + blocks_of 5000)
    × ((j : ℕ) → s ≤ j → j < s + blocks_of 5000 → is_taken ((malloc heap 5000).1.entries j) ≡ true)
    × ((j : ℕ) → (j < s) ⊎ (s + blocks_of 5000 ≤ j) → (malloc heap 5000).1.entries j ≡ entries j)
malloc_example =
    malloc_lem heap 5000 4 heap-IsSound (omega arith) (omega arith) room_5000 IsFree-room

malloc-IsSound_example : IsSound (malloc heap 5000).1
malloc-IsSound_example = malloc-IsSound heap 5000 heap-IsSound

free-IsSound_example : IsSound heap
free-IsSound_example =
    free-IsSound (malloc heap 5000).1 heap (malloc heap 5000).0 malloc-IsSound_example
      free-malloc_example

-- A pool of two blocks, of which the second is free.
abbrev full : Heap
full = record {
  saddr = 0x100000;
  total = 2;
  entries = λ j. if j == 0 then 0x81 else 0;
  below = λ n. 0;
}

full-IsSound : IsSound full
unfolding is_taken
full-IsSound = record {
  starts = omega arith;
  fits = omega arith;
  small = omega arith;
  clean = λ j lt open_. ground arith;
}

full-Blocked : (t : ℕ) → t + 2 ≤ 2 → Blocked full.entries 2 2 t
unfolding is_taken
full-Blocked t h = (0, omega arith, omega arith, omega arith, refl)

malloc_overrun_example :
    (0 < (malloc full 5000).0)
    × (is_taken ((malloc full 5000).1.entries 2) ≡ true)
    × (0x100000 + 2 * block_size < (malloc full 5000).0 + blocks_of 5000 * block_size)
unfolding is_taken
malloc_overrun_example =
    malloc_overrun full 5000 full-IsSound (omega arith) (omega arith) (rw blocks_5000 full-Blocked)
      (omega arith) refl

abbrev unset : Heap
unset = record { saddr = 0; total = 0; entries = λ j. 0; below = λ n. 0 }

abbrev mem : Memory
mem j = j % 256
