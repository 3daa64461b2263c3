-- ===== src/Process.antt =====
-- task/process.c: the memory that a process allocates.
pub mod Program
pub mod Mapping
pub mod Image
pub mod Load
pub mod End
pub mod Arguments
pub mod Counting
pub mod Entering
pub mod Slots
pub mod Unlink
pub mod Sample
pub mod Calls
pub mod Ownership
mod Tests
use liebe_os.Prelude.{
  ℕ, zero, suc, ◌+◌, ◌-◌, ◌*◌, ◌/◌, ◌%◌, ◌^◌, Option, none, some, ltb, leb, ◌==◌, if◌then◌else◌,
  update, Result, ok, err, bit_or,
}
use liebe_os.Heap.{Heap}
use liebe_os.Heap.Kernel.{kmalloc, kfree}
use liebe_os.Paging.{
  Words, paging_map_to, paging_align_address, is_present, is_writeable, access_from_all,
}

-- LIEBE_OS_MAX_PROGRAM_ALLOCATIONS
abbrev pub max_allocations : ℕ
max_allocations = 1024

-- `struct process_allocation`
pub record Allocation : Type 0 where
  pub ptr : ℕ
  pub size : ℕ

-- The fields of `struct process` that the allocations use: `task->page_directory->directory_entry` and
-- `allocations`.
pub record Process : Type 0 where
  pub directory : ℕ
  pub allocations : ℕ → Allocation

-- The kernel's heap, and the words of memory.
pub record Machine : Type 0 where
  pub heap : Heap
  pub words : Words

-- `kzalloc`'s `memset` of `size` bytes on the words; the last one may be cleared in part.
pub clear_words : Words → (ptr size : ℕ) → Words
clear_words words ptr size a =
    if ltb a ptr
    then words a
    else if leb (a + 4) (ptr + size)
    then 0
    else if ltb a (ptr + size)
    then words a / 256 ^ (ptr + size - a) * 256 ^ (ptr + size - a)
    else words a

-- `for (i = 0; i < n; i++) if (allocations[i].ptr == ptr) ...`, from index `i` with `left` rounds to go.
pub find_ptr : (left i : ℕ) → (ℕ → Allocation) → (ptr : ℕ) → Option ℕ
find_ptr zero i allocations ptr = none
find_ptr (suc left) i allocations ptr =
    let rest = find_ptr left (i + 1) allocations ptr in
    if (allocations i).ptr == ptr then some i else rest

pub process_find_free_allocation_index : Process → Option ℕ
unfolding find_ptr
process_find_free_allocation_index process = find_ptr max_allocations 0 process.allocations 0

pub is_current_process_ptr : Process → ℕ → Option ℕ
unfolding find_ptr
is_current_process_ptr process ptr = find_ptr max_allocations 0 process.allocations ptr

-- The pages of an allocation, with the flags.
pub map_allocation : Words → (directory ptr size flags : ℕ) → Result (Unit {0}) × Words
map_allocation words directory ptr size flags =
    paging_map_to words directory ptr ptr (paging_align_address ((ptr + size) % 2 ^ 32)) flags

-- `out_err` with a pointer: `none` where `kfree` has no result.
pub give_up : Process → Machine → (ptr : ℕ) → Option (ℕ × Process × Machine)
give_up process machine ptr = elim (kfree machine.heap ptr) [
  | none ↦ none
  | some heap ↦ some (0, process, record machine { heap = heap })
]

-- The part of `process_malloc` behind `paging_map_to`, with its result.
pub keep_allocation :
    Process → (ptr size i : ℕ) → Heap → Result (Unit {0}) × Words → Option (ℕ × Process × Machine)
unfolding give_up
keep_allocation process ptr size i heap (err _, words) =
    give_up process (record { heap = heap; words = words }) ptr
keep_allocation process ptr size i heap (ok _, words) = some (
  ptr,
  record process { allocations = update process.allocations i (record { ptr = ptr; size = size }) },
  record { heap = heap; words = words },
)

-- The part from the search for an index on, with its result.
pub place_allocation :
    Process → (ptr size : ℕ) → Machine → Option ℕ → Option (ℕ × Process × Machine)
unfolding keep_allocation map_allocation give_up
place_allocation process ptr size machine none = give_up process machine ptr
place_allocation process ptr size machine (some i) =
    keep_allocation process ptr size i machine.heap (
      map_allocation machine.words process.directory ptr size
        (bit_or (bit_or is_writeable is_present) access_from_all))

-- The part behind `kzalloc`, with what `kmalloc` gave.
pub receive_block : Process → Words → (size : ℕ) → ℕ × Heap → Option (ℕ × Process × Machine)
unfolding process_find_free_allocation_index place_allocation clear_words
receive_block process words size (ptr, heap) =
    if ptr == 0
    then some (0, process, record { heap = heap; words = words })
    else place_allocation process ptr size
        (record { heap = heap; words = clear_words words ptr size })
        (process_find_free_allocation_index process)

pub process_malloc : Process → Machine → (size : ℕ) → Option (ℕ × Process × Machine)
unfolding receive_block
process_malloc process machine size =
    receive_block process machine.words size (kmalloc machine.heap size)

-- The part of `process_free` behind `paging_map_to`, with its result.
pub drop_allocation :
    Process → Heap → (ptr i : ℕ) → Result (Unit {0}) × Words → Option (Process × Machine)
drop_allocation process heap ptr i (err _, words) =
    some (process, record { heap = heap; words = words })
drop_allocation process heap ptr i (ok _, words) = elim (kfree heap ptr) [
  | none ↦ none
  | some heap' ↦ some (
    record process { allocations = update process.allocations i (record { ptr = 0; size = 0 }) },
    record { heap = heap'; words = words },
  )
]

-- The part behind the search, with its result.
pub unmap_allocation : Process → Machine → (ptr : ℕ) → Option ℕ → Option (Process × Machine)
unfolding drop_allocation map_allocation
unmap_allocation process machine ptr none = some (process, machine)
unmap_allocation process machine ptr (some i) =
    let allocation = process.allocations i in
    drop_allocation process machine.heap ptr i
      (map_allocation machine.words process.directory allocation.ptr allocation.size 0)

pub process_free : Process → Machine → (ptr : ℕ) → Option (Process × Machine)
unfolding is_current_process_ptr unmap_allocation
process_free process machine ptr =
    unmap_allocation process machine ptr (is_current_process_ptr process ptr)

-- The loop of `process_terminate_allocations`, from index `i` with `left` rounds to go.
pub terminate_loop : (left i : ℕ) → (ℕ → Allocation) → Heap → Option Heap
terminate_loop zero i allocations heap = some heap
terminate_loop (suc left) i allocations heap = elim (kfree heap (allocations i).ptr) [
  | none ↦ none
  | some heap' ↦ terminate_loop left (i + 1) allocations heap'
]

pub process_terminate_allocations : Process → Heap → Option Heap
unfolding terminate_loop
process_terminate_allocations process heap =
    terminate_loop max_allocations 0 process.allocations heap
