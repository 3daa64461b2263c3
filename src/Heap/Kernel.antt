-- ===== src/Heap/Kernel.antt =====
-- memory/heap/kheap.c: the kernel's heap, with its constants of config.h.
use liebe_os.Prelude.{
  Bool-cases, inl, inr, ℕ, ◌+◌, ◌*◌, ◌/◌, ◌≤◌, ◌<◌, ◌-◌, ◌^◌, ◌≡◌, refl, Option, arith, ltb, ◌==◌,
  if◌then◌else◌, ok, Result, false,
}
use liebe_os.Memory.{Memory, memset}
use liebe_os.Memory.Blocks.{memset_lem}
use liebe_os.Heap.{Heap, create, malloc, free, block_size, is_taken}
use liebe_os.Heap.Scan.{IsFree}
use liebe_os.Heap.Alloc.{IsSound, blocks_of, malloc_lem}

-- LIEBE_OS_HEAP_SIZE_BYTES, LIEBE_OS_HEAP_ADDRESS
abbrev pub heap_size_bytes : ℕ
heap_size_bytes = 104857600

abbrev pub heap_address : ℕ
heap_address = 0x01000000

-- The bytes at LIEBE_OS_HEAP_TABLE_ADDRESS are `entries`; `heap` is what `kernel_heap` held before.
pub kheap_init : Heap → (ℕ → ℕ) → Result (Unit {0}) × Heap
unfolding create
kheap_init heap entries =
    create heap heap_address (heap_address + heap_size_bytes) (heap_size_bytes / block_size) entries

unfoldable pub kmalloc : Heap → ℕ → ℕ × Heap
unfolding malloc
kmalloc heap size = malloc heap size

pub kzalloc : Heap → Memory → ℕ → ℕ × Heap × Memory
unfolding kmalloc
kzalloc heap mem size =
    let (ptr, heap') = kmalloc heap size in
    if ptr == 0 then (0, heap', mem) else (ptr, heap', memset mem ptr 0 size)

unfoldable pub kfree : Heap → ℕ → Option Heap
unfolding free
kfree heap ptr = free heap ptr

-- The kernel's heap is created without error, with 25600 blocks, all of them free, and is sound.
pub kheap_init_lem :
    (heap : Heap) (entries : ℕ → ℕ)
    → ((kheap_init heap entries).0 ≡ ok tt)
      × IsSound (kheap_init heap entries).1
      × ((kheap_init heap entries).1.total ≡ 25600)
      × IsFree (kheap_init heap entries).1.entries 0 25600
unfolding kheap_init is_taken
kheap_init_lem heap entries = (
  refl,
  record {
    starts = omega arith;
    fits = omega arith;
    small = omega arith;
    clean = λ j lt open_. ground arith;
  },
  refl,
  λ j lo hi. cleared j hi,
)
  where
    cleared : (j : ℕ) → j < 25600 → is_taken (if ltb j 25600 then 0 else entries j) ≡ false
    cleared j hi = ground arith

-- In a sound heap, for a positive size of at most 2 ^ 32 - 4096 bytes with a free run of the blocks
-- that it needs, kzalloc returns a block whose bytes are all 0, leaves the heap as heap_malloc
-- does, and changes no byte outside the block's.
pub kzalloc_lem :
    (heap : Heap) (mem : Memory) (size t : ℕ)
    → IsSound heap
    → 0 < size
    → size ≤ 2 ^ 32 - block_size
    → t + blocks_of size ≤ heap.total
    → IsFree heap.entries t (t + blocks_of size)
    → (0 < (kzalloc heap mem size).0)
      × ((kzalloc heap mem size).1 ≡ (malloc heap size).1)
      × ((j : ℕ)
          → (kzalloc heap mem size).2 j ≡ (
              if ltb j (kzalloc heap mem size).0
              then mem j
              else if ltb j ((kzalloc heap mem size).0 + size)
              then 0
              else mem j))
unfolding kzalloc
kzalloc_lem heap mem size t sound pos small fits open_ =
    let (s, le, eq, room, inside, run, taken, same) =
      malloc_lem heap size t sound pos small fits open_ in
    let p : (heap.saddr + s * block_size == 0) ≡ false = ground (arith, sound.starts) in
    rw (eq, p)
      (
        omega (arith, sound.starts),
        refl,
        λ j. memset_lem mem (heap.saddr + s * block_size) 0 size j,
      )

pub kzalloc-malloc :
    (heap : Heap) (mem : Memory) (size : ℕ)
    → ((kzalloc heap mem size).0 ≡ (malloc heap size).0)
      × ((kzalloc heap mem size).1 ≡ (malloc heap size).1)
unfolding kzalloc kmalloc
kzalloc-malloc heap mem size = elim (Bool-cases ((malloc heap size).0 == 0)) [
  | inl null ↦ rw null (ground arith, refl)
  | inr taken ↦ rw taken (refl, refl)
]

pub kheap_init-saddr :
    (heap : Heap) (entries : ℕ → ℕ) → (kheap_init heap entries).1.saddr ≡ heap_address
unfolding kheap_init
kheap_init-saddr heap entries = refl
