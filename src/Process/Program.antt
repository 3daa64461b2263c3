-- ===== src/Process/Program.antt =====
-- The processes of task/process.c: what the kernel keeps of each, their slots, and the current one.
use liebe_os.Prelude.{
  ℕ, zero, suc, ◌+◌, ◌-◌, ◌^◌, Option, none, some, List, [], leb, ◌==◌, if◌then◌else◌, update, ℤ,
  pos, negsuc,
}
use liebe_os.Keyboard.{KeyBuffer}
use liebe_os.Paging.{Words}
use liebe_os.Task.{Tasks, System, directory_of}
use liebe_os.Elf.{ElfFile}
use liebe_os.Elf.Load.{Loader, blank_file}
use liebe_os.Process.{Process, Allocation, Machine}

-- LIEBE_OS_MAX_PROCESSES, LIEBE_OS_USER_PROGRAM_STACK_SIZE, sizeof(struct process)
abbrev pub max_processes : ℕ
max_processes = 12

abbrev pub stack_size : ℕ
stack_size = 16384

abbrev pub process_size : ℕ
process_size = 9364

-- PROCESS_FILETYPE_ELF, PROCESS_FILETYPE_BINARY
abbrev pub filetype_elf : ℕ
filetype_elf = 0

abbrev pub filetype_binary : ℕ
filetype_binary = 1

-- `struct process`. `ptr` is the union of the program's data and its `struct elf_file`, and `elf_file` what
-- lies there in the second case.
pub record Program : Type 0 where
  pub id : ℕ
  pub filename : List ℕ
  pub task : ℕ
  pub allocations : ℕ → Allocation
  pub filetype : ℕ
  pub ptr : ℕ
  pub elf_file : ElfFile
  pub stack : ℕ
  pub size : ℕ
  pub keyboard : KeyBuffer
  pub argc : ℕ
  pub argv : ℕ

-- What `process_init` leaves.
abbrev pub process_init : Program
process_init = record {
  id = 0;
  filename = [];
  task = 0;
  allocations = λ i. record { ptr = 0; size = 0 };
  filetype = 0;
  ptr = 0;
  elf_file = blank_file;
  stack = 0;
  size = 0;
  keyboard = record { buffer = λ i. 0; head = 0; tail = 0 };
  argc = 0;
  argv = 0;
}

-- The kernel's heap and files, the words of the page directories and tables, the tasks, what lies at each
-- address, if a process does, the slots of `processes`, and `current_process`.
pub record Kernel (W : Type 0) : Type 0 where
  pub loader : Loader W
  pub words : Words
  pub tasks : Tasks
  pub program : ℕ → Program
  pub slots : ℕ → ℕ
  pub current_process : ℕ

-- A pointer that holds a negative error code.
abbrev pub error_pointer : ℕ → ℕ
error_pointer code = 2 ^ 32 - code

unfoldable pub process_get : (slots : ℕ → ℕ) → ℤ → ℕ
process_get slots (negsuc n) = error_pointer 2
process_get slots (pos n) = if leb max_processes n then error_pointer 2 else slots n

-- `for (i = 0; i < n; i++) if (processes[i] == 0) ...`, from index `i` with `left` rounds to go.
unfoldable pub free_slot_loop : (left i : ℕ) → (slots : ℕ → ℕ) → Option ℕ
free_slot_loop zero i slots = none
free_slot_loop (suc left) i slots =
    let rest = free_slot_loop left (i + 1) slots in if slots i == 0 then some i else rest

unfoldable pub process_get_free_slot : (slots : ℕ → ℕ) → Option ℕ
unfolding free_slot_loop
process_get_free_slot slots = free_slot_loop max_processes 0 slots

-- The first process from index `i` on, with `left` slots to go.
unfoldable pub any_loop : (left i : ℕ) → (slots : ℕ → ℕ) → Option ℕ
any_loop zero i slots = none
any_loop (suc left) i slots =
    let rest = any_loop left (i + 1) slots in if slots i == 0 then rest else some (slots i)

module _ {W : Type 0} where
  abbrev pub system_of : Kernel W → System
  system_of k = record { heap = k.loader.heap; words = k.words; tasks = k.tasks }

  abbrev pub with_system : Kernel W → System → Kernel W
  with_system k sys = record k {
    loader = record k.loader { heap = sys.heap };
    words = sys.words;
    tasks = sys.tasks;
  }

  -- What `process_malloc` and `process_free` use of a process.
  abbrev pub process_of : Kernel W → (process : ℕ) → Process
  process_of k process = record {
    directory = directory_of k.words k.tasks (k.program process).task;
    allocations = (k.program process).allocations;
  }

  abbrev pub machine_of : Kernel W → Machine
  machine_of k = record { heap = k.loader.heap; words = k.words }

  abbrev pub with_process : Kernel W → (process : ℕ) → Process → Machine → Kernel W
  with_process k process contents machine = record k {
    loader = record k.loader { heap = machine.heap };
    words = machine.words;
    program =
        update k.program process
          (record (k.program process) { allocations = contents.allocations });
  }

  unfoldable pub process_switch : Kernel W → (process : ℕ) → Kernel W
  process_switch k process = record k { current_process = process }

  -- `none` for a panic.
  unfoldable pub process_switch_to_any : Kernel W → Option (Kernel W)
  unfolding any_loop process_switch
  process_switch_to_any k = elim (any_loop max_processes 0 k.slots) [
    | none ↦ none
    | some process ↦ some (process_switch k process)
  ]

  unfoldable pub process_unlink : Kernel W → (process : ℕ) → Option (Kernel W)
  unfolding process_switch_to_any
  process_unlink k process =
      let k' : Kernel W = record k { slots = update k.slots (k.program process).id 0 } in
      if k.current_process == process then process_switch_to_any k' else some k'
