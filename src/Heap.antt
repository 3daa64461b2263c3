-- ===== src/Heap.antt =====
-- memory/heap/heap.c: the block allocator over a table of one byte per block of 4096 bytes.
pub mod Alloc
pub mod Single
pub mod Kernel
pub mod Lent
pub mod Mark
pub mod Scan
pub mod Sound
mod Tests
use liebe_os.Prelude.{
  ℕ, zero, suc, ◌+◌, ◌-◌, ◌*◌, ◌/◌, ◌%◌, ◌^◌, Bool, true, false, not, ◌&&◌, Option, none, some,
  bit_and, bit_or, ltb, leb, ◌==◌, if◌then◌else◌, update, Status, Result, ok, err,
}

-- `struct heap` with its `struct heap_table`. The table is a bare array in memory: `entries` goes on
-- past `total`, where other data lies; `below n` is the byte `n` before the array.
pub record Heap : Type 0 where
  pub saddr : ℕ
  pub total : ℕ
  pub entries : ℕ → ℕ
  pub below : ℕ → ℕ

abbrev pub block_size : ℕ
block_size = 4096

-- HEAP_BLOCK_TABLE_ENTRY_TAKEN, HEAP_BLOCK_IS_FIRST, HEAP_BLOCK_HAS_NEXT
abbrev pub entry_taken : ℕ
entry_taken = 0b0000_0001

abbrev pub block_is_first : ℕ
block_is_first = 0b1000_0000

abbrev pub block_has_next : ℕ
block_has_next = 0b0100_0000

-- `entry & HEAP_BLOCK_TABLE_ENTRY_TAKEN`, `entry & HEAP_BLOCK_HAS_NEXT` as conditions
unfoldable pub is_taken : ℕ → Bool
is_taken e = not (bit_and e entry_taken == 0)

pub has_next : ℕ → Bool
has_next e = not (bit_and e block_has_next == 0)

pub validate_alignment : ℕ → Bool
validate_alignment ptr = ptr % block_size == 0

-- `end - ptr` is a `size_t`, which wraps.
pub validate_table : ℕ → ℕ → ℕ → Result (Unit {0})
validate_table ptr end total =
    if total == (end + 2 ^ 32 - ptr) % 2 ^ 32 / block_size then ok tt else err Status.einvarg

-- `memset(table->entries, HEAP_BLOCK_TABLE_ENTRY_FREE, total)`
pub clear_entries : ℕ → (ℕ → ℕ) → ℕ → ℕ
clear_entries total entries j = if ltb j total then 0 else entries j

-- The first argument is `*heap` before the call, the last two are `*table`.
pub create : Heap → ℕ → ℕ → ℕ → (ℕ → ℕ) → Result (Unit {0}) × Heap
unfolding validate_alignment validate_table clear_entries
create heap ptr end total entries =
    if validate_alignment ptr && validate_alignment end
    then elim (validate_table ptr end total) [
      | ok _ ↦
          (ok tt, record heap { saddr = ptr; total = total; entries = clear_entries total entries })
      | err e ↦ (err e, record heap { saddr = ptr; total = total; entries = entries })
    ]
    else (err Status.einvarg, heap)

pub align_value_to_upper : ℕ → ℕ
align_value_to_upper val =
    if val % block_size == 0 then val else (val - val % block_size + block_size) % 2 ^ 32

-- The loop of `heap_get_start_block`, from index `i` with `left` rounds to go; `start` is
-- `block_start`, with `none` for -1. It returns `block_start`.
pub scan : (ℕ → ℕ) → (need left i count : ℕ) → Option ℕ → Option ℕ
scan entries need zero i count start = start
scan entries need (suc left) i count start = elim (is_taken (entries i)) [
  | true ↦ scan entries need left (i + 1) 0 none
  | false ↦
      let start' : Option ℕ = elim start [ none ↦ some i | some s ↦ some s ] in
      let rest = scan entries need left (i + 1) (count + 1) start' in
      if count + 1 == need then start' else rest
]

pub get_start_block : Heap → ℕ → Result ℕ
unfolding scan is_taken
get_start_block heap total_blocks = elim (scan heap.entries total_blocks heap.total 0 0 none) [
  | none ↦ err Status.enomem
  | some s ↦ ok s
]

pub block_to_address : Heap → ℕ → ℕ
block_to_address heap b = (heap.saddr + b * block_size) % 2 ^ 32

-- The block number of an address: an `int`, of which a negative value is given by its absolute value.
pub data Block : Type 0 where
  block : ℕ → Block
  before : ℕ → Block

pub address_to_block : Heap → ℕ → Block
address_to_block heap address =
    let diff = (address + 2 ^ 32 - heap.saddr) % 2 ^ 32 in
    if ltb diff (2 ^ 31)
    then block (diff / block_size)
    else let back = (2 ^ 32 - diff) / block_size in if back == 0 then block 0 else before back

-- The loop of `heap_mark_blocks_taken`; `stop` is `end_block + 1`.
pub mark_taken_loop : (left i stop entry : ℕ) → (ℕ → ℕ) → ℕ → ℕ
mark_taken_loop zero i stop entry entries = entries
mark_taken_loop (suc left) i stop entry entries =
    mark_taken_loop left (i + 1) stop
      (if i + 2 == stop then entry_taken else bit_or entry_taken block_has_next)
      (update entries i entry)

-- `entry` as the loop starts
pub first_entry : ℕ → ℕ
first_entry total_blocks =
    if ltb 1 total_blocks
    then bit_or (bit_or entry_taken block_is_first) block_has_next
    else bit_or entry_taken block_is_first

pub mark_blocks_taken : Heap → ℕ → ℕ → Heap
unfolding mark_taken_loop first_entry update
mark_blocks_taken heap start total_blocks = record heap {
  entries =
      mark_taken_loop total_blocks start (start + total_blocks) (first_entry total_blocks)
        heap.entries;
}

-- The address is 0 where the table has no free block.
pub malloc_blocks : Heap → ℕ → ℕ × Heap
unfolding get_start_block block_to_address mark_blocks_taken
malloc_blocks heap total_blocks = elim (get_start_block heap total_blocks) [
  | err _ ↦ (0, heap)
  | ok s ↦ (block_to_address heap s, mark_blocks_taken heap s total_blocks)
]

-- The loop of `heap_mark_blocks_free`, from index `i` with `left` rounds to go.
pub mark_free_loop : (left i : ℕ) → (ℕ → ℕ) → ℕ → ℕ
mark_free_loop zero i entries = entries
mark_free_loop (suc left) i entries =
    let freed = update entries i 0 in
    let rest = mark_free_loop left (i + 1) freed in if has_next (entries i) then rest else freed

-- The rounds of that loop before the table, from the byte `distance` below it on, and whether the loop
-- goes on to the table.
pub clear_below : (distance : ℕ) → (ℕ → ℕ) → (ℕ → ℕ) × Bool
unfolding has_next update
clear_below zero below = (below, true)
clear_below (suc distance) below =
    let cleared = update below (suc distance) 0 in
    let rest = clear_below distance cleared in
    if has_next (below (suc distance)) then rest else (cleared, false)

-- A start block below 0 is not refused: the bytes below the table are taken for entries. Every block has
-- a result.
pub mark_blocks_free : Heap → Block → Option Heap
unfolding mark_free_loop clear_below has_next update
mark_blocks_free heap (block b) =
    some (record heap { entries = mark_free_loop (heap.total - b) b heap.entries })
mark_blocks_free heap (before b) =
    let (below, on) = clear_below b heap.below in
    some (record heap {
      below = below;
      entries = if on then mark_free_loop heap.total 0 heap.entries else heap.entries;
    })

pub malloc : Heap → ℕ → ℕ × Heap
unfolding malloc_blocks align_value_to_upper
malloc heap size = malloc_blocks heap (align_value_to_upper size / block_size)

pub free : Heap → ℕ → Option Heap
unfolding mark_blocks_free address_to_block
free heap ptr = mark_blocks_free heap (address_to_block heap ptr)
