-- ===== src/Process/Tests.antt =====
-- A process without allocations, on a heap of eight free blocks.
use liebe_os.Prelude.{
  ℕ, ◌+◌, ◌≡◌, ◌≤◌, ◌<◌, refl, ap, arith, some, [], ◌∷◌, inl, inr, Bool-cases, ok, ◌==◌,
  if◌then◌else◌, update,
}
use liebe_os.Heap.{Heap, is_taken, malloc}
use liebe_os.Heap.Alloc.{blocks_of, align_value_to_upper_lem, malloc_lem}
use liebe_os.Heap.Kernel.{kzalloc-malloc}
use liebe_os.Paging.{Words, paging_get_physical_address}
use liebe_os.Paging.Sample.{words, words-IsDirectory}
use liebe_os.Task.{program_virtual_address}
use liebe_os.Elf.Load.{take_block}
use liebe_os.Process.{Process, Machine, process_malloc, process_free}
use liebe_os.Process.Ownership.{HasRoom, process_free-process_malloc}
use liebe_os.Process.Program.{process_size, stack_size, process_unlink}
use liebe_os.Process.Sample.{kernel, shell}
use liebe_os.Process.Mapping.{stack_address_end, process_map_memory}
use liebe_os.Process.Load.{process_load}
use liebe_os.Process.Image.{IsPlaced, process_map_memory-binary}
use liebe_os.Process.Arguments.{process_count_commnad_arguments}
use liebe_os.Process.Counting.{Leads, process_count_commnad_arguments-length}
use liebe_os.Process.Entering.{IsSlots, IsNew, KeepsSlots, next_process}
use liebe_os.Process.Slots.{process_load-IsSlots}
use liebe_os.Process.Unlink.{process_unlink-IsSlots}

abbrev heap : Heap
heap = record { saddr = 0x1000000; total = 8; entries = λ j. 0; below = λ n. 0 }

abbrev machine : Machine
machine = record { heap = heap; words = λ a. a }

abbrev process : Process
process = record { directory = 0x800000; allocations = λ j. record { ptr = 0; size = 0 } }

blocks_5000 : blocks_of 5000 ≡ 2
unfolding blocks_of
blocks_5000 = omega (arith, align_value_to_upper_lem 5000 (omega arith))

process-HasRoom : HasRoom process machine 5000 0 0
process-HasRoom = record {
  sound = record {
    starts = omega arith;
    fits = omega arith;
    small = omega arith;
    clean = λ j lt open_. refl;
  };
  aligned = refl;
  below = omega arith;
  positive = omega arith;
  small = omega arith;
  inside = omega (arith, blocks_5000);
  run = λ j lo hi. unfold is_taken in refl;
  in_table = omega arith;
  empty = refl;
  first = λ j lt. absurd (omega arith);
  new = λ j lt. absurd (omega arith);
}

process_free-process_malloc_example :
    (process' : Process) × (machine' : Machine) × (words : Words) × (process_malloc process machine
        5000
      ≡ some ((malloc heap 5000).0, process', machine'))
    × (process_free process' machine' (malloc heap 5000).0
        ≡ some (process, record { heap = heap; words = words }))
process_free-process_malloc_example =
    process_free-process_malloc process machine 5000 0 0 process-HasRoom

kernel-IsSlots : IsSlots kernel
unfolding IsSlots
kernel-IsSlots i lt ne = elim (Bool-cases (i == 3)) [
  | inl same ↦ rw same (ground (arith, same))
  | inr other ↦ absurd (ne (rw other refl))
]

blocks_of-process : blocks_of process_size ≡ 3
unfolding blocks_of
blocks_of-process = omega (arith, align_value_to_upper_lem process_size (omega arith))

next_process-above : 0x1000000 ≤ next_process (λ w. w) (λ w m. m) 0 kernel
unfolding take_block
next_process-above =
    let three = blocks_of-process in
    let (s, le, eq, fits, inside, run, taken, same) =
      malloc_lem heap process_size 0 process-HasRoom.sound (omega arith) (omega arith)
        (omega (arith, three)) (λ j lo hi. unfold is_taken in refl) in
    omega (arith, (kzalloc-malloc heap (λ a. 0) process_size).0, ap (λ (r : ℕ × Heap). r.0) eq)

kernel-IsNew : IsNew kernel (next_process (λ w. w) (λ w m. m) 0 kernel)
kernel-IsNew i lt e = elim (Bool-cases (i == 3)) [
  | inl same ↦ omega (arith, next_process-above, rw same at e)
  | inr other ↦ omega (arith, next_process-above, rw other at e)
]

process_load-IsSlots_example :
    KeepsSlots (process_load (λ w. w) (λ w m. m) 0 kernel (b'0' ∷ b':' ∷ b'/' ∷ b'a' ∷ []) 0)
process_load-IsSlots_example =
    process_load-IsSlots (λ w. w) (λ w m. m) 0 kernel (b'0' ∷ b':' ∷ b'/' ∷ b'a' ∷ []) 0
      kernel-IsSlots kernel-IsNew

unlinked : process_unlink kernel 0x500000 ≡ some (record kernel { slots = update kernel.slots 3 0 })
unfolding process_unlink
unlinked = refl

process_unlink-IsSlots_example :
    IsSlots (record kernel { slots = update kernel.slots 3 0 })
    × ((j : ℕ) → update kernel.slots 3 0 j ≡ (if j == 3 then 0 else kernel.slots j))
process_unlink-IsSlots_example =
    process_unlink-IsSlots kernel (record kernel { slots = update kernel.slots 3 0 }) 0x500000 3
      kernel-IsSlots (omega arith) (λ e. absurd (omega (arith, e))) refl unlinked

shell-IsPlaced : IsPlaced shell
shell-IsPlaced = record {
  binary = refl;
  ptr_aligned = refl;
  stack_aligned = refl;
  fits = omega arith;
  ptr_fits = omega arith;
  stack_fits = omega arith;
}

process_map_memory-binary_example :
    (words' : Words) × (process_map_memory (λ a. 0) words 0x800000 shell ≡ some (ok tt, words'))
    × ((off : ℕ)
        → off < 6000
        → paging_get_physical_address words' 0x800000 (program_virtual_address + off)
          ≡ 0x1001000 + off)
    × ((off : ℕ)
        → off < stack_size
        → paging_get_physical_address words' 0x800000 (stack_address_end + off) ≡ 0x1008000 + off)
process_map_memory-binary_example =
    process_map_memory-binary (λ a. 0) words 0x800000 shell words-IsDirectory shell-IsPlaced

-- Two arguments, at 0x1000 and 0x2000.
abbrev arguments : Words
arguments a = if a == 0x1200 then 0x2000 else 0

process_count_commnad_arguments_example :
    process_count_commnad_arguments 3 arguments 0x1000 ≡ some 2
process_count_commnad_arguments_example =
    process_count_commnad_arguments-length 3 arguments 0x1000 (0x1000 ∷ 0x2000 ∷ []) leads
      (omega arith)
  where
    leads : Leads arguments 0x1000 (0x1000 ∷ 0x2000 ∷ [])
    leads =
        let rest : Leads arguments 0x2000 (0x2000 ∷ []) =
          (refl, λ e. absurd (omega (arith, e)), refl) in
        (refl, λ e. absurd (omega (arith, e)), rest)
