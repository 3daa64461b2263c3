-- ===== src/Process/Ownership.antt =====
-- What a process allocates it can give back, and what its termination does.
use liebe_os.Prelude.{
  ℕ, ◌+◌, ◌-◌, ◌*◌, ◌%◌, ◌^◌, ◌≤◌, ◌<◌, ◌≡◌, ◌≢◌, refl, arith, some, update, update_self, update-ne,
  ap, ◌∙◌, sym,
}
use liebe_os.Heap.{Heap, block_size, malloc, free}
use liebe_os.Heap.Scan.{IsFree}
use liebe_os.Heap.Alloc.{IsSound, blocks_of, malloc_lem, free-malloc}
use liebe_os.Paging.{Words, page_size}
use liebe_os.Process.{
  Allocation, Process, Machine, max_allocations, process_find_free_allocation_index,
  is_current_process_ptr, process_malloc, process_free,
}
use liebe_os.Process.Calls.{find_ptr-first, process_malloc-kept, process_free-dropped, clear-fill}

-- The two calls, for a block of which the heap is known to take it back.
give_back :
    (process : Process) (machine : Machine) (size k ptr : ℕ) (heap : Heap)
    → malloc machine.heap size ≡ (ptr, heap)
    → free heap ptr ≡ some machine.heap
    → ptr ≢ 0
    → ptr % page_size ≡ 0
    → ptr + size + page_size ≤ 2 ^ 32
    → k < max_allocations
    → process.allocations k ≡ record { ptr = 0; size = 0 }
    → ((j : ℕ) → j < k → (process.allocations j).ptr ≢ 0)
    → ((j : ℕ) → j < k → (process.allocations j).ptr ≢ ptr)
    → (process' : Process) × (machine' : Machine) × (words : Words) × (process_malloc process
          machine size
        ≡ some (ptr, process', machine'))
      × (process_free process' machine' ptr
          ≡ some (process, record { heap = machine.heap; words = words }))
unfolding process_find_free_allocation_index is_current_process_ptr
give_back process machine size k ptr heap given taken_back ne even high in_table empty first new =
    let put = update process.allocations k (record { ptr = ptr; size = size }) in
    let (words, made) =
      process_malloc-kept process machine size ptr k heap given ne
        (find_ptr-first max_allocations 0 k process.allocations 0 (omega arith) in_table first
          (ap (λ (a : Allocation). a.ptr) empty))
        even high in
    let here : put k ≡ record { ptr = ptr; size = size } =
      update_self process.allocations k (record { ptr = ptr; size = size }) in
    let other : (j : ℕ) → j < k → (put j).ptr ≢ ptr = λ j lt e. new j lt (
      ap (λ (a : Allocation). a.ptr)
        (sym (update-ne process.allocations k (record { ptr = ptr; size = size }) j (omega arith)))
      ∙ e) in
    let (words', freed) =
      process_free-dropped (record process { allocations = put })
        (record { heap = heap; words = words }) ptr size k machine.heap
        (find_ptr-first max_allocations 0 k put ptr (omega arith) in_table other
          (ap (λ (a : Allocation). a.ptr) here))
        here taken_back even high in
    (
      record process { allocations = put },
      record { heap = heap; words = words },
      words',
      made,
      freed
          ∙ ap
              (λ t. some (
                record process { allocations = t },
                record { heap = machine.heap; words = words' },
              ))
              (clear-fill process.allocations k (record { ptr = ptr; size = size }) empty),
    )

-- The heap is sound, on page boundaries, ends below the last page, and has a free run at `t`; the table
-- has its first free slot at `k`, and the block that heap_malloc gives is not in it.
pub record HasRoom (process : Process) (machine : Machine) (size t k : ℕ) : Type 0 where
  pub sound : IsSound machine.heap
  pub aligned : machine.heap.saddr % block_size ≡ 0
  pub below : machine.heap.saddr + machine.heap.total * block_size + block_size ≤ 2 ^ 32
  pub positive : 0 < size
  pub small : size ≤ 2 ^ 32 - block_size
  pub inside : t + blocks_of size ≤ machine.heap.total
  pub run : IsFree machine.heap.entries t (t + blocks_of size)
  pub in_table : k < max_allocations
  pub empty : process.allocations k ≡ record { ptr = 0; size = 0 }
  pub first : (j : ℕ) → j < k → (process.allocations j).ptr ≢ 0
  pub new : (j : ℕ) → j < k → (process.allocations j).ptr ≢ (malloc machine.heap size).0

-- For a sound heap on page boundaries that ends below the last page and has a free run for the
-- size, and a process with a free slot in its table of allocations, of which none before that slot
-- is the new block, process_malloc succeeds, and process_free on what it returned gives back the
-- table of allocations and the heap as they were.
pub process_free-process_malloc :
    (process : Process) (machine : Machine) (size t k : ℕ)
    → HasRoom process machine size t k
    → (process' : Process) × (machine' : Machine) × (words : Words) × (process_malloc process
          machine size
        ≡ some ((malloc machine.heap size).0, process', machine'))
      × (process_free process' machine' (malloc machine.heap size).0
          ≡ some (process, record { heap = machine.heap; words = words }))
process_free-process_malloc process machine size t k room =
    let (s, le, eq, fits, inside, run, taken, same) =
      malloc_lem machine.heap size t room.sound room.positive room.small room.inside room.run in
    let at_ptr : (malloc machine.heap size).0 ≡ machine.heap.saddr + s * block_size =
      ap (λ (r : ℕ × Heap). r.0) eq in
    give_back process machine size k (malloc machine.heap size).0 (malloc machine.heap size).1 refl
      (free-malloc machine.heap size t room.sound room.positive room.small room.inside room.run)
      (omega (arith, at_ptr, room.sound.starts)) (omega (arith, at_ptr, room.aligned))
      (omega (arith, at_ptr, inside, room.below)) room.in_table room.empty room.first room.new
