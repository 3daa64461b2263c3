-- ===== src/Process/End.antt =====
-- The end of a process, and its arguments, in task/process.c.
use liebe_os.Prelude.{ℕ, Option, none, some, ◌==◌, if◌then◌else◌, Status, Result, ok, err}
use liebe_os.Heap.{Heap}
use liebe_os.Heap.Kernel.{kfree}
use liebe_os.Task.{task_free}
use liebe_os.Elf.Load.{elf_close}
use liebe_os.Process.{process_terminate_allocations}
use liebe_os.Process.Program.{
  Program, Kernel, filetype_elf, filetype_binary, system_of, with_system, process_of,
  process_unlink,
}

pub process_free_binary_data : Heap → Program → Option Heap
process_free_binary_data heap program = kfree heap program.ptr

pub process_free_elf_data : Heap → Program → Option Heap
process_free_elf_data heap program = elf_close heap program.ptr program.elf_file

-- `none`, here and below: `kfree` has no result, which does not occur (`Heap.Sound.free-ends`).
pub process_free_program_data : Heap → Program → Option (Result (Unit {0}) × Heap)
unfolding process_free_binary_data process_free_elf_data
process_free_program_data heap program =
    if program.filetype == filetype_binary
    then freed (process_free_binary_data heap program)
    else if program.filetype == filetype_elf
    then freed (process_free_elf_data heap program)
    else some (err Status.einvarg, heap)
  where
    freed : Option Heap → Option (Result (Unit {0}) × Heap)
    freed none = none
    freed (some heap) = some (ok tt, heap)

module _ {W : Type 0} where
  abbrev with_heap : Kernel W → Heap → Kernel W
  with_heap k heap = record k { loader = record k.loader { heap = heap } }

  -- From `kfree(process->stack)` on. `none` is a panic, too.
  pub free_stack : Kernel W → (process : ℕ) → Option (Result (Unit {0}) × Kernel W)
  free_stack k process = elim (kfree k.loader.heap (k.program process).stack) [
    | none ↦ none
    | some heap ↦ elim (task_free (system_of (with_heap k heap)) (k.program process).task) [
      | none ↦ none
      | some sys ↦ elim (process_unlink (with_system k sys) process) [
        | none ↦ none
        | some k' ↦ some (ok tt, k')
      ]
    ]
  ]

  unfoldable pub process_terminate :
      Kernel W → (process : ℕ) → Option (Result (Unit {0}) × Kernel W)
  unfolding process_free_program_data free_stack
  process_terminate k process =
      elim (process_terminate_allocations (process_of k process) k.loader.heap) [
        | none ↦ none
        | some heap ↦ elim (process_free_program_data heap (k.program process)) [
          | none ↦ none
          | some (err e, heap') ↦ some (err e, with_heap k heap')
          | some (ok _, heap') ↦ free_stack (with_heap k heap') process
        ]
      ]

  pub process_get_arguments : Kernel W → (process : ℕ) → ℕ × ℕ
  process_get_arguments k process = ((k.program process).argc, (k.program process).argv)
