-- ===== src/Process/Calls.antt =====
-- The two calls of a process's memory, step by step.
use liebe_os.Prelude.{
  ℕ, zero, suc, ◌+◌, ◌%◌, ◌^◌, ◌≤◌, ◌<◌, ◌≡◌, ◌≢◌, refl, true, false, inl, inr, arith, some, ◌==◌,
  if◌then◌else◌, Bool-cases, update, update_self, update-ne, Result, ok, err, ap, ◌∙◌, sym, fun_ext,
  bit_or,
}
use liebe_os.Heap.{Heap, malloc, free}
use liebe_os.Heap.Kernel.{kmalloc, kfree}
use liebe_os.Paging.{
  Words, page_size, paging_align_address, is_present, is_writeable, access_from_all,
}
use liebe_os.Paging.Range.{paging_map_to-ok, paging_align_address_lem}
use liebe_os.Process.{
  Allocation, Process, Machine, clear_words, find_ptr, process_find_free_allocation_index,
  is_current_process_ptr, receive_block, map_allocation, keep_allocation, place_allocation,
  drop_allocation, unmap_allocation, process_malloc, process_free,
}

-- The search stops at the first allocation with the pointer.
pub find_ptr-first :
    (left i k : ℕ) (allocations : ℕ → Allocation) (ptr : ℕ)
    → i ≤ k
    → k < i + left
    → ((j : ℕ) → j < k → (allocations j).ptr ≢ ptr)
    → (allocations k).ptr ≡ ptr
    → find_ptr left i allocations ptr ≡ some k
unfolding find_ptr
find_ptr-first zero i k allocations ptr lo hi other here = absurd (omega arith)
find_ptr-first (suc left) i k allocations ptr lo hi other here = elim (Bool-cases (i == k)) [
  | inl same ↦
      let e : i ≡ k = ground arith in
      let q : ((allocations i).ptr == ptr) ≡ true = rw e (ground arith) in rw q (ap some e)
  | inr later ↦
      let q : ((allocations i).ptr == ptr) ≡ false = ground (arith, other i) in
      rw q (find_ptr-first left (i + 1) k allocations ptr (ground arith) (omega arith) other here)
]

-- The pages of a block that lies on a page boundary and ends below the last page are mapped.
map_allocation-ok :
    (words : Words) (directory ptr size flags : ℕ)
    → ptr % page_size ≡ 0
    → ptr + size + page_size ≤ 2 ^ 32
    → (map_allocation words directory ptr size flags).0 ≡ ok tt
unfolding map_allocation
map_allocation-ok words directory ptr size flags aligned fits =
    let (e, o) = paging_align_address_lem (ptr + size) fits in
    let m : (ptr + size) % 2 ^ 32 ≡ ptr + size = omega arith in
    rw m (
      paging_map_to-ok words directory ptr ptr (paging_align_address (ptr + size)) flags aligned
        aligned e (omega arith))

keep_allocation-ok :
    (process : Process) (ptr size i : ℕ) (heap : Heap) (r : Result (Unit {0}) × Words)
    → r.0 ≡ ok tt
    → keep_allocation process ptr size i heap r
      ≡ some (
        ptr,
        record process {
          allocations = update process.allocations i (record { ptr = ptr; size = size });
        },
        record { heap = heap; words = r.1 },
      )
unfolding keep_allocation
keep_allocation-ok process ptr size i heap (ok _, words) e = refl
keep_allocation-ok process ptr size i heap (err _, words) e = cc

drop_allocation-ok :
    (process : Process) (heap heap' : Heap) (ptr i : ℕ) (r : Result (Unit {0}) × Words)
    → r.0 ≡ ok tt
    → free heap ptr ≡ some heap'
    → drop_allocation process heap ptr i r
      ≡ some (
        record process {
          allocations = update process.allocations i (record { ptr = 0; size = 0 });
        },
        record { heap = heap'; words = r.1 },
      )
unfolding drop_allocation kfree
drop_allocation-ok process heap heap' ptr i (ok _, words) e freed = rw (freed, drop_allocation)
drop_allocation-ok process heap heap' ptr i (err _, words) e freed = cc

receive_block-placed :
    (process : Process) (words : Words) (size ptr : ℕ) (heap : Heap)
    → ptr ≢ 0
    → receive_block process words size (ptr, heap)
      ≡ place_allocation process ptr size
          (record { heap = heap; words = clear_words words ptr size })
          (process_find_free_allocation_index process)
unfolding receive_block
receive_block-placed process words size ptr heap ne =
    ap
      (λ b.
        if b
        then some (0, process, record { heap = heap; words = words })
        else place_allocation process ptr size
            (record { heap = heap; words = clear_words words ptr size })
            (process_find_free_allocation_index process))
      (zero_test ptr ne)
  where
    zero_test : (ptr : ℕ) → ptr ≢ 0 → (ptr == 0) ≡ false
    zero_test ptr ne = ground arith

process_malloc-placed :
    (process : Process) (machine : Machine) (size ptr : ℕ) (heap : Heap)
    → malloc machine.heap size ≡ (ptr, heap)
    → ptr ≢ 0
    → process_malloc process machine size
      ≡ place_allocation process ptr size
          (record { heap = heap; words = clear_words machine.words ptr size })
          (process_find_free_allocation_index process)
unfolding process_malloc kmalloc
process_malloc-placed process machine size ptr heap given ne =
    ap (receive_block process machine.words size) given
    ∙ receive_block-placed process machine.words size ptr heap ne

-- An empty slot that was filled and cleared is as it was.
pub clear-fill :
    (allocations : ℕ → Allocation) (k : ℕ) (a : Allocation)
    → allocations k ≡ record { ptr = 0; size = 0 }
    → update (update allocations k a) k (record { ptr = 0; size = 0 }) ≡ allocations
clear-fill allocations k a empty = fun_ext λ j. elim (Bool-cases (j == k)) [
  | inl same ↦
      let e : j ≡ k = ground arith in
      rw e (update_self (update allocations k a) k (record { ptr = 0; size = 0 }) ∙ sym empty)
  | inr other ↦
      let ne : j ≢ k = ground arith in
      update-ne (update allocations k a) k (record { ptr = 0; size = 0 }) j ne
      ∙ update-ne allocations k a j ne
]

-- A process's new allocation, where the heap gives a block and the table has a slot.
pub process_malloc-kept :
    (process : Process) (machine : Machine) (size ptr k : ℕ) (heap : Heap)
    → malloc machine.heap size ≡ (ptr, heap)
    → ptr ≢ 0
    → process_find_free_allocation_index process ≡ some k
    → ptr % page_size ≡ 0
    → ptr + size + page_size ≤ 2 ^ 32
    → (words : Words) × (process_malloc process machine size
        ≡ some (
          ptr,
          record process {
            allocations = update process.allocations k (record { ptr = ptr; size = size });
          },
          record { heap = heap; words = words },
        ))
unfolding place_allocation
process_malloc-kept process machine size ptr k heap given ne free_slot aligned fits =
    let words = clear_words machine.words ptr size in
    let flags = bit_or (bit_or is_writeable is_present) access_from_all in
    let mapped = map_allocation words process.directory ptr size flags in
    (
      mapped.1,
      process_malloc-placed process machine size ptr heap given ne
          ∙ ap (place_allocation process ptr size (record { heap = heap; words = words })) free_slot
          ∙ keep_allocation-ok process ptr size k heap mapped
              (map_allocation-ok words process.directory ptr size flags aligned fits),
    )

-- Freeing an allocation clears its slot.
pub process_free-dropped :
    (process : Process) (machine : Machine) (ptr size k : ℕ) (heap : Heap)
    → is_current_process_ptr process ptr ≡ some k
    → process.allocations k ≡ record { ptr = ptr; size = size }
    → free machine.heap ptr ≡ some heap
    → ptr % page_size ≡ 0
    → ptr + size + page_size ≤ 2 ^ 32
    → (words : Words) × (process_free process machine ptr
        ≡ some (
          record process {
            allocations = update process.allocations k (record { ptr = 0; size = 0 });
          },
          record { heap = heap; words = words },
        ))
unfolding process_free unmap_allocation
process_free-dropped process machine ptr size k heap found here freed aligned fits =
    let mapped =
      λ (a : Allocation). map_allocation machine.words process.directory a.ptr a.size 0 in
    (
      (mapped (record { ptr = ptr; size = size })).1,
      ap (unmap_allocation process machine ptr) found
          ∙ ap (λ a. drop_allocation process machine.heap ptr k (mapped a)) here
          ∙ drop_allocation-ok process machine.heap heap ptr k
              (mapped (record { ptr = ptr; size = size }))
              (map_allocation-ok machine.words process.directory ptr size 0 aligned fits) freed,
    )
