-- ===== src/Task.antt =====
-- task/task.c: the tasks, the linked list that they stand in, and the current one.
pub mod Chain
pub mod Copy
pub mod Removal
pub mod Rounds
pub mod Pages
pub mod Texts
mod Tests
use liebe_os.Prelude.{
  ℕ, zero, suc, ◌+◌, ◌*◌, ◌-◌, ◌^◌, ◌%◌, Option, none, some, bit_or, ltb, leb, ◌==◌, if◌then◌else◌,
  update, Status, Result, ok, err,
}
use liebe_os.Memory.{Memory}
use liebe_os.Text.{Text, strncpy}
use liebe_os.Heap.{Heap}
use liebe_os.Heap.Kernel.{kfree, kzalloc}
use liebe_os.Paging.{
  Words, page_size, is_present, is_writeable, access_from_all, kzalloc_words,
  create_new_page_directory, paging_free_4gb, paging_get, paging_map, paging_set,
  paging_get_physical_address,
}

-- `struct registers`
pub record Registers : Type 0 where
  pub edi : ℕ
  pub esi : ℕ
  pub ebp : ℕ
  pub ebx : ℕ
  pub edx : ℕ
  pub ecx : ℕ
  pub eax : ℕ
  pub ip : ℕ
  pub cs : ℕ
  pub flags : ℕ
  pub esp : ℕ
  pub ss : ℕ

-- `struct interrupt_frame`
pub record Frame : Type 0 where
  pub edi : ℕ
  pub esi : ℕ
  pub ebp : ℕ
  pub reserved : ℕ
  pub ebx : ℕ
  pub edx : ℕ
  pub ecx : ℕ
  pub eax : ℕ
  pub ip : ℕ
  pub cs : ℕ
  pub flags : ℕ
  pub esp : ℕ
  pub ss : ℕ

-- `struct task`. A pointer is an address, and 0 is NULL.
pub record Task : Type 0 where
  pub page_directory : ℕ
  pub registers : Registers
  pub process : ℕ
  pub next : ℕ
  pub prev : ℕ

-- What lies at each address, if a task does, and `task_head`, `task_tail` and `current_task`.
-- `loaded` is the directory that `page_switch` gave to the processor last.
pub record Tasks : Type 0 where
  pub task : ℕ → Task
  pub head : ℕ
  pub tail : ℕ
  pub current : ℕ
  pub loaded : ℕ

-- The kernel's memory: the heap, the words of memory, and the tasks.
pub record System : Type 0 where
  pub heap : Heap
  pub words : Words
  pub tasks : Tasks

-- sizeof(struct task)
abbrev pub task_size : ℕ
task_size = 64

-- LIEBE_OS_PROGRAM_VIRTUAL_ADDRESS, LIEBE_OS_PROGRAM_VIRTUAL_STACK_ADDRESS_START, USER_DATA_SEGMENT,
-- USER_CODE_SEGMENT
abbrev pub program_virtual_address : ℕ
program_virtual_address = 0x400000

abbrev pub stack_address_start : ℕ
stack_address_start = 0x3FF000

abbrev pub user_data_segment : ℕ
user_data_segment = 0x23

abbrev pub user_code_segment : ℕ
user_code_segment = 0x1b

-- What `memset(task, 0, ...)` leaves.
abbrev pub no_registers : Registers
no_registers = record {
  edi = 0;
  esi = 0;
  ebp = 0;
  ebx = 0;
  edx = 0;
  ecx = 0;
  eax = 0;
  ip = 0;
  cs = 0;
  flags = 0;
  esp = 0;
  ss = 0;
}

-- `tasks->task = value`
abbrev pub set_task : Tasks → ℕ → Task → Tasks
set_task tasks ptr value = record tasks { task = update tasks.task ptr value }

-- `elf_entry` is the header's `e_entry` for a process of an ELF file.
pub task_init : System → (task process : ℕ) → (elf_entry : Option ℕ) → Result (Unit {0}) × System
task_init sys task process elf_entry =
    let (directory, heap, words) =
      create_new_page_directory sys.heap sys.words (bit_or is_present access_from_all) in
    let blank : Task = record {
      page_directory = directory;
      registers = no_registers;
      process = 0;
      next = 0;
      prev = 0;
    } in
    let ip : ℕ = elim elf_entry [ none ↦ program_virtual_address | some entry ↦ entry ] in
    let ready : Task = record blank {
      registers = record no_registers {
        ip = ip;
        ss = user_data_segment;
        cs = user_code_segment;
        esp = stack_address_start;
      };
      process = process;
    } in
    if directory == 0
    then (
      err Status.eio,
      record { heap = heap; words = words; tasks = set_task sys.tasks task blank },
    )
    else (ok tt, record { heap = heap; words = words; tasks = set_task sys.tasks task ready })

-- The part of `task_new` that puts the task into the list.
pub append : Tasks → (task : ℕ) → Tasks
append tasks task =
    if tasks.head == 0
    then record tasks { head = task; tail = task; current = task }
    else record tasks {
      task =
          update (update tasks.task tasks.tail (record (tasks.task tasks.tail) { next = task }))
            task
            (record (update tasks.task tasks.tail (record (tasks.task tasks.tail) { next = task })
              task) { prev = tasks.tail });
      tail = task;
    }

pub task_get_next : Tasks → ℕ
task_get_next tasks =
    if (tasks.task tasks.current).next == 0 then tasks.head else (tasks.task tasks.current).next

-- The four steps of `task_list_remove`.
pub unlink_from_prev : Tasks → (task : ℕ) → Tasks
unlink_from_prev tasks task =
    if (tasks.task task).prev == 0
    then tasks
    else set_task tasks (tasks.task task).prev
        (record (tasks.task (tasks.task task).prev) { next = (tasks.task task).next })

pub move_head : Tasks → (task : ℕ) → Tasks
move_head tasks task =
    if task == tasks.head then record tasks { head = (tasks.task task).next } else tasks

pub move_tail : Tasks → (task : ℕ) → Tasks
move_tail tasks task =
    if task == tasks.tail then record tasks { tail = (tasks.task task).prev } else tasks

pub move_current : Tasks → (task : ℕ) → Tasks
unfolding task_get_next
move_current tasks task =
    if task == tasks.current then record tasks { current = task_get_next tasks } else tasks

pub task_list_remove : Tasks → (task : ℕ) → Tasks
unfolding unlink_from_prev move_head move_tail move_current
task_list_remove tasks task =
    move_current (move_tail (move_head (unlink_from_prev tasks task) task) task) task

-- `none`: `kfree` has no result, which does not occur (`Heap.Sound.free-ends`).
pub task_free : System → (task : ℕ) → Option System
unfolding task_list_remove
task_free sys task =
    elim (paging_free_4gb sys.heap sys.words (sys.tasks.task task).page_directory) [
      | none ↦ none
      | some heap ↦ elim (kfree heap task) [
        | none ↦ none
        | some heap' ↦ some (record sys { heap = heap'; tasks = task_list_remove sys.tasks task })
      ]
    ]

-- The end of `task_new` with an error.
pub give_up_task : System → (task : ℕ) → Status → Option (Result ℕ × System)
unfolding task_free
give_up_task sys task e = elim (task_free sys task) [ none ↦ none | some sys' ↦ some (err e, sys') ]

-- The part of `task_new` behind `task_init`, with its result.
pub link_task : (task : ℕ) → Result (Unit {0}) × System → Option (Result ℕ × System)
unfolding append give_up_task
link_task task (err e, sys) = give_up_task sys task e
link_task task (ok _, sys) = some (ok task, record sys { tasks = append sys.tasks task })

pub task_new : System → (process : ℕ) → (elf_entry : Option ℕ) → Option (Result ℕ × System)
unfolding link_task task_init
task_new sys process elf_entry =
    let (task, heap, words) = kzalloc_words sys.heap sys.words task_size in
    let sys' : System = record sys { heap = heap; words = words } in
    if task == 0
    then give_up_task sys' 0 Status.enomem
    else link_task task (task_init sys' task process elf_entry)

-- `page_switch` on the directory of a task's `struct page_directory`
abbrev pub directory_of : Words → Tasks → (task : ℕ) → ℕ
directory_of words tasks task = words (tasks.task task).page_directory

pub task_switch : Words → Tasks → (task : ℕ) → Tasks
task_switch words tasks task = record tasks {
  current = task;
  loaded = directory_of words tasks task;
}

-- `user_registers` loads segment registers, which are not modelled.
pub task_page : Words → Tasks → Tasks
unfolding task_switch
task_page words tasks = task_switch words tasks tasks.current

pub task_page_task : Words → Tasks → (task : ℕ) → Tasks
task_page_task words tasks task = record tasks { loaded = directory_of words tasks task }

-- The tasks, and the registers that `task_return` goes on with; `none` for a panic.
pub task_run_first_ever_task : Words → Tasks → Option (Tasks × Registers)
unfolding task_switch
task_run_first_ever_task words tasks =
    if tasks.current == 0
    then none
    else some (task_switch words tasks tasks.head, (tasks.task tasks.head).registers)

pub task_next : Words → Tasks → Option (Tasks × Registers)
unfolding task_switch task_get_next
task_next words tasks =
    let next = task_get_next tasks in
    if next == 0 then none else some (task_switch words tasks next, (tasks.task next).registers)

pub task_save_state : Tasks → (task : ℕ) → Frame → Tasks
task_save_state tasks task frame = set_task tasks task (record (tasks.task task) {
  registers = record {
    edi = frame.edi;
    esi = frame.esi;
    ebp = frame.ebp;
    ebx = frame.ebx;
    edx = frame.edx;
    ecx = frame.ecx;
    eax = frame.eax;
    ip = frame.ip;
    cs = frame.cs;
    flags = frame.flags;
    esp = frame.esp;
    ss = frame.ss;
  };
})

-- `none` for a panic.
pub task_current_save_state : Tasks → Frame → Option Tasks
unfolding task_save_state
task_current_save_state tasks frame =
    if tasks.current == 0 then none else some (task_save_state tasks tasks.current frame)

pub task_virtual_address_to_physical : Words → Tasks → (task virtual : ℕ) → ℕ
task_virtual_address_to_physical words tasks task virtual =
    paging_get_physical_address words (directory_of words tasks task) virtual

-- The word is read through the task's directory, and then the kernel's, `kernel`, is loaded again. The
-- stack is on a multiple of 4.
pub task_get_stack_item : (kernel : ℕ) → Words → Tasks → (task index : ℕ) → ℕ × Tasks
unfolding task_virtual_address_to_physical task_page_task
task_get_stack_item kernel words tasks task index =
    let sp = ((tasks.task task).registers.esp + 4 * index) % 2 ^ 32 in
    (
      words (task_virtual_address_to_physical words tasks task sp),
      record (task_page_task words tasks task) { loaded = kernel },
    )
