-- ===== src/Interrupts/Syscalls.antt =====
-- isr80h/*.c: the commands of the system call, and their registration.
use liebe_os.Prelude.{
  ℕ, zero, suc, ◌+◌, ◌-◌, ◌^◌, ◌%◌, Option, none, some, List, [], ◌∷◌, ltb, ◌==◌, if◌then◌else◌,
  update, pos, Status, code, Result, ok, err,
}
use liebe_os.Memory.{Memory}
use liebe_os.Text.{Text, strcpy}
use liebe_os.Terminal.{writechar, print}
use liebe_os.Keyboard.{pop}
use liebe_os.Task.{task_get_stack_item, task_switch, task_virtual_address_to_physical}
use liebe_os.Task.Copy.{Copying, copy_string_from_task, write_text}
use liebe_os.Process.{process_malloc, process_free}
use liebe_os.Process.Program.{Kernel, error_pointer, process_of, machine_of, with_process}
use liebe_os.Process.Load.{process_load_switch}
use liebe_os.Process.End.{process_terminate, process_get_arguments}
use liebe_os.Process.Arguments.{process_inject_arguments}
use liebe_os.Interrupts.{
  Computer, Outcome, Command, returns, leaves, stops, with_tasks, next_task, or_stop,
  isr80h_register_command,
}

-- The addresses of the buffers on the kernel's stack, and the fuel for reading a text and for the loops over
-- a list of arguments.
pub record Buffers : Type 0 where
  pub buf : ℕ
  pub filename : ℕ
  pub path : ℕ
  pub reach : ℕ

-- The bytes from an address on, before the NUL.
pub bytes_at : (fuel : ℕ) → Memory → (a : ℕ) → List ℕ
bytes_at zero mem a = []
bytes_at (suc fuel) mem a =
    let rest = bytes_at fuel mem (a + 1) in if mem a == 0 then [] else mem a ∷ rest

-- A text that is written at an address.
pub place_text : Memory → (a : ℕ) → Text → Memory
place_text mem a text j = if ltb j a then mem j else text (j - a)

-- `strcpy(path, "0:/")`, which does not write the NUL.
pub drive_prefix : Memory → (path : ℕ) → Memory
drive_prefix mem path = update (update (update mem path b'0') (path + 1) b':') (path + 2) b'/'

-- A `char` as an `uintptr_t`.
pub char_to_word : ℕ → ℕ
char_to_word c = if ltb c 128 then c else 2 ^ 32 - 256 + c

module _ {W : Type 0} (memory : W → Memory) (with_memory : W → Memory → W) (signature directory : ℕ)
    (buffers : Buffers) where
  -- `task_get_stack_item(task_current(), index)`
  unfoldable pub stack_item : Computer W → (index : ℕ) → ℕ × Computer W
  stack_item c index =
      let (item, tasks) =
        task_get_stack_item directory c.kernel.words c.kernel.tasks c.kernel.tasks.current index in
      (item, with_tasks c tasks)

  abbrev pub current_process_of : Computer W → ℕ
  current_process_of c = (c.kernel.tasks.task c.kernel.tasks.current).process

  abbrev pub mem_of : Computer W → Memory
  mem_of c = memory c.kernel.loader.files.world

  abbrev pub with_mem : Computer W → Memory → Computer W
  with_mem c mem = record c {
    kernel = record c.kernel {
      loader = record c.kernel.loader {
        files = record c.kernel.loader.files {
          world = with_memory c.kernel.loader.files.world mem;
        };
      };
    };
  }

  -- `copy_string_from_task(task_current(), ...)`
  unfoldable pub copy_in :
      Computer W → (virtual physical max : ℕ) → Option (Result (Unit {0}) × Computer W)
  copy_in c virtual physical max =
      let copying : Copying = record {
        heap = c.kernel.loader.heap;
        words = c.kernel.words;
        mem = mem_of c;
      } in
      let task_directory =
        c.kernel.words (c.kernel.tasks.task c.kernel.tasks.current).page_directory in
      elim (copy_string_from_task copying task_directory virtual physical max) [
        | none ↦ none
        | some (res, copied) ↦
            let c' = with_mem c copied.mem in
            some (
              res,
              record c' {
                kernel = record c'.kernel {
                  loader = record c'.kernel.loader { heap = copied.heap };
                  words = copied.words;
                };
              },
            )
      ]

  -- `task_switch(process->task)` and `task_return(&process->task->registers)`
  unfoldable pub go_to : {A : Type 0} → Computer W → (process : ℕ) → Outcome W A
  go_to c process =
      let tasks = task_switch c.kernel.words c.kernel.tasks (c.kernel.program process).task in
      leaves (tasks.task tasks.current).registers (with_tasks c tasks)

  unfoldable pub isr80h_command0_sum : Command W
  unfolding stack_item
  isr80h_command0_sum frame c =
      let (v2, c1) = stack_item c 1 in
      let (v1, c2) = stack_item c1 0 in returns ((v1 + v2) % 2 ^ 32) c2

  -- The buffer is printed whatever the copy reports.
  unfoldable pub isr80h_command1_print : Command W
  unfolding stack_item copy_in
  isr80h_command1_print frame c =
      let (msg, c1) = stack_item c 0 in
      or_stop (copy_in c1 msg buffers.buf 1024) (λ r. returns 0 (record r.1 {
        terminal = print r.1.terminal (bytes_at buffers.reach (mem_of r.1) buffers.buf);
      }))

  -- The part of `keyboard_pop` for a task that is not NULL.
  unfoldable pub pop_key : Computer W → ℕ × Computer W
  pop_key c =
      let process = current_process_of c in
      let (key, keyboard) = pop (some (c.kernel.program process).keyboard) in
      elim keyboard [
        | none ↦ (key, c)
        | some keyboard' ↦ (
          key,
          record c {
            kernel = record c.kernel {
              program =
                  update c.kernel.program process
                    (record (c.kernel.program process) { keyboard = keyboard' });
            };
          },
        )
      ]

  unfoldable pub isr80h_command2_getkey : Command W
  unfolding pop_key
  isr80h_command2_getkey frame c =
      if c.kernel.tasks.current == 0
      then returns 0 c
      else let (key, c') = pop_key c in returns (char_to_word key) c'

  unfoldable pub isr80h_commad3_putchar : Command W
  unfolding stack_item
  isr80h_commad3_putchar frame c =
      let (item, c1) = stack_item c 0 in
      returns 0 (record c1 { terminal = writechar c1.terminal (item % 256) 15 })

  unfoldable pub isr80h_command4_malloc : Command W
  unfolding stack_item
  isr80h_command4_malloc frame c =
      let (size, c1) = stack_item c 0 in
      let process = current_process_of c1 in
      or_stop (process_malloc (process_of c1.kernel process) (machine_of c1.kernel) size)
        (λ r. returns r.0 (record c1 { kernel = with_process c1.kernel process r.1 r.2 }))

  unfoldable pub isr80h_command5_free : Command W
  unfolding stack_item
  isr80h_command5_free frame c =
      let (ptr, c1) = stack_item c 0 in
      let process = current_process_of c1 in
      or_stop (process_free (process_of c1.kernel process) (machine_of c1.kernel) ptr)
        (λ r. returns 0 (record c1 { kernel = with_process c1.kernel process r.0 r.1 }))

  -- The part of `isr80h_command6_process_load_start` behind `process_load_switch`, with its result.
  unfoldable pub start_loaded : Computer W → Option (Result ℕ × Kernel W) → Outcome W ℕ
  unfolding go_to
  start_loaded c none = stops
  start_loaded c (some (err _, kernel)) = returns 0 (record c { kernel = kernel })
  start_loaded c (some (ok process, kernel)) = go_to (record c { kernel = kernel }) process

  -- The part from `process_load_switch` on.
  unfoldable pub start_at : Computer W → Outcome W ℕ
  unfolding start_loaded
  start_at c = start_loaded c (
      process_load_switch memory with_memory signature c.kernel
        (bytes_at buffers.reach (mem_of c) buffers.path) 0)

  -- The part from the copies of the path on; the copied name has its NUL within `reach`, or the copy runs on.
  unfoldable pub start_named : Computer W → Outcome W ℕ
  unfolding start_at
  start_named c =
      let mem = drive_prefix (mem_of c) buffers.path in
      or_stop
        (strcpy buffers.reach (λ j. mem (buffers.path + 3 + j)) (λ j. mem (buffers.filename + j)))
        (λ text. start_at (with_mem c (place_text mem (buffers.path + 3) text)))

  -- The part behind `copy_string_from_task`, with its result.
  unfoldable pub start_copied : Result (Unit {0}) × Computer W → Outcome W ℕ
  unfolding start_named
  start_copied (err _, c) = returns 0 c
  start_copied (ok _, c) = start_named c

  unfoldable pub isr80h_command6_process_load_start : Command W
  unfolding stack_item copy_in start_copied
  isr80h_command6_process_load_start frame c =
      let (name, c1) = stack_item c 0 in or_stop (copy_in c1 name buffers.filename 108) start_copied

  -- The part of `isr80h_command7_invoke_system_command` behind `process_inject_arguments`, with its result.
  unfoldable pub invoke_injected :
      Computer W → (process : ℕ) → Option (Result (Unit {0}) × Kernel W) → Outcome W ℕ
  unfolding go_to
  invoke_injected c process none = stops
  invoke_injected c process (some (err e, kernel)) =
      returns (error_pointer (code e)) (record c { kernel = kernel })
  invoke_injected c process (some (ok _, kernel)) = go_to (record c { kernel = kernel }) process

  -- The part behind `process_load_switch`, with its result.
  unfoldable pub invoke_loaded :
      Computer W → (root : ℕ) → Option (Result ℕ × Kernel W) → Outcome W ℕ
  unfolding invoke_injected
  invoke_loaded c root none = stops
  invoke_loaded c root (some (err e, kernel)) =
      returns (error_pointer (code e)) (record c { kernel = kernel })
  invoke_loaded c root (some (ok process, kernel)) =
      invoke_injected c process
        (process_inject_arguments memory with_memory buffers.reach kernel process root)

  -- The part from `process_load_switch` on.
  unfoldable pub invoke_at : Computer W → (root : ℕ) → Outcome W ℕ
  unfolding invoke_loaded
  invoke_at c root = invoke_loaded c root (
      process_load_switch memory with_memory signature c.kernel
        (bytes_at buffers.reach (mem_of c) buffers.path) 0)

  -- The part behind the translation of the argument's address.
  unfoldable pub invoke_root : Computer W → (root : ℕ) → Outcome W ℕ
  unfolding invoke_at
  invoke_root c root =
      let mem = drive_prefix (mem_of c) buffers.path in
      if root == 0
      then returns (error_pointer (code Status.einvarg)) c
      else if mem_of c root == 0
      then returns (error_pointer (code Status.einvarg)) c
      else invoke_at (with_mem c (write_text mem (buffers.path + 3) (λ j. mem (root + j)) 108)) root

  unfoldable pub isr80h_command7_invoke_system_command : Command W
  unfolding stack_item invoke_root
  isr80h_command7_invoke_system_command frame c =
      let (item, c1) = stack_item c 0 in
      invoke_root c1 (
        task_virtual_address_to_physical c1.kernel.words c1.kernel.tasks c1.kernel.tasks.current
          item)

  -- `argc` and `argv` are written to the two words at the address.
  unfoldable pub isr80h_command8_get_program_arguments : Command W
  unfolding stack_item
  isr80h_command8_get_program_arguments frame c =
      let (item, c1) = stack_item c 0 in
      let arguments =
        task_virtual_address_to_physical c1.kernel.words c1.kernel.tasks c1.kernel.tasks.current
          item in
      let (argc, argv) = process_get_arguments c1.kernel (current_process_of c1) in
      returns 0 (record c1 {
        kernel = record c1.kernel {
          words = update (update c1.kernel.words arguments argc) (arguments + 4) argv;
        };
      })

  unfoldable pub isr80h_command9_exit : Command W
  isr80h_command9_exit frame c =
      or_stop (process_terminate c.kernel (current_process_of c))
        (λ r. next_task (record c { kernel = r.1 }))

-- `enum SystemCommands`
pub data SystemCommand : Type 0 where
  system_command0_sum : SystemCommand
  system_command1_print : SystemCommand
  system_command2_getkey : SystemCommand
  system_command3_putchar : SystemCommand
  system_command4_malloc : SystemCommand
  system_command5_free : SystemCommand
  system_command6_process_load_start : SystemCommand
  system_command7_invoke_system_command : SystemCommand
  system_command8_get_program_arguments : SystemCommand
  system_command9_exit : SystemCommand

-- The value of a constant of the enumeration.
abbrev pub number_of : SystemCommand → ℕ
number_of system_command0_sum = 0
number_of system_command1_print = 1
number_of system_command2_getkey = 2
number_of system_command3_putchar = 3
number_of system_command4_malloc = 4
number_of system_command5_free = 5
number_of system_command6_process_load_start = 6
number_of system_command7_invoke_system_command = 7
number_of system_command8_get_program_arguments = 8
number_of system_command9_exit = 9

-- `isr80h_register_command` behind the registrations before it, if none of these panicked.
unfoldable pub registered :
    {W : Type 0}
    → Option (ℕ → Option (Command W))
    → SystemCommand
    → Command W
    → Option (ℕ → Option (Command W))
unfolding isr80h_register_command
registered none number command = none
registered (some commands) number command =
    isr80h_register_command commands (pos (number_of number)) command

unfoldable pub isr80h_register_commands :
    {W : Type 0}
    → (W → Memory)
    → (W → Memory → W)
    → (signature directory : ℕ) → Buffers
    → (ℕ → Option (Command W))
    → Option (ℕ → Option (Command W))
unfolding registered
isr80h_register_commands memory with_memory signature directory buffers commands =
    let done0 =
      registered (some commands) system_command0_sum
        (isr80h_command0_sum memory with_memory signature directory buffers) in
    let done1 =
      registered done0 system_command1_print
        (isr80h_command1_print memory with_memory signature directory buffers) in
    let done2 =
      registered done1 system_command2_getkey
        (isr80h_command2_getkey memory with_memory signature directory buffers) in
    let done3 =
      registered done2 system_command3_putchar
        (isr80h_commad3_putchar memory with_memory signature directory buffers) in
    let done4 =
      registered done3 system_command4_malloc
        (isr80h_command4_malloc memory with_memory signature directory buffers) in
    let done5 =
      registered done4 system_command5_free
        (isr80h_command5_free memory with_memory signature directory buffers) in
    let done6 =
      registered done5 system_command6_process_load_start
        (isr80h_command6_process_load_start memory with_memory signature directory buffers) in
    let done7 =
      registered done6 system_command7_invoke_system_command
        (isr80h_command7_invoke_system_command memory with_memory signature directory buffers) in
    let done8 =
      registered done7 system_command8_get_program_arguments
        (isr80h_command8_get_program_arguments memory with_memory signature directory buffers) in
    registered done8 system_command9_exit
      (isr80h_command9_exit memory with_memory signature directory buffers)
