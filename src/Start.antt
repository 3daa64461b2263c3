-- ===== src/Start.antt =====
-- kernel/kernel.c: kernel_main, from the parts of the kernel to its first program.
pub mod Leaves
pub mod Setup
mod Tests
use liebe_os.Prelude.{
  ℕ, ◌+◌, Option, none, some, List, [], ◌∷◌, Bool, true, false, Result, ok, err, pos,
}
use liebe_os.Memory.{Memory}
use liebe_os.Heap.{Heap}
use liebe_os.Heap.Kernel.{kheap_init}
use liebe_os.Paging.{create_new_page_directory, get_page_directory_entry}
use liebe_os.Terminal.{Terminal, initialize, print}
use liebe_os.Gdt.{Entry, structured_to_gdt}
use liebe_os.Gdt.Kernel.{gdt_structured}
use liebe_os.File.{Filesystem, fs_init}
use liebe_os.File.Mount.{disk_search_and_init}
use liebe_os.Keyboard.{Layer, insert}
use liebe_os.Task.{Tasks, Registers, task_run_first_ever_task}
use liebe_os.Process.Program.{Kernel}
use liebe_os.Process.Load.{process_load_switch}
use liebe_os.Interrupts.{
  Computer, IdtDesc, Callback, Command, Outcome, leaves, stops, idt_init,
  idt_register_interrupt_callback,
}
use liebe_os.Interrupts.Syscalls.{Buffers, isr80h_register_commands}

-- `struct tss`, of which the other fields stay 0.
pub record Tss : Type 0 where
  pub esp0 : ℕ
  pub ss0 : ℕ

-- KERNEL_DATA_SELECTOR
abbrev pub kernel_data_selector : ℕ
kernel_data_selector = 0x10

-- PAGING_IS_WRITEABLE | PAGING_IS_PRESENT | PAGING_ACCESS_FROM_ALL
abbrev pub kernel_flags : ℕ
kernel_flags = 7

-- The variables of the kernel. `page_directory` is the address of its `struct page_directory`.
pub record System (W : Type 0) : Type 0 where
  pub computer : Computer W
  pub gdt : List Entry
  pub tss : Tss
  pub descriptors : ℕ → IdtDesc
  pub callbacks : ℕ → Option (Callback W)
  pub commands : ℕ → Option (Command W)
  pub keyboards : List Layer
  pub page_directory : ℕ
  pub paging_enabled : Bool

-- What the linker and the code outside the model give: the addresses of the task's segment and of the
-- handlers, the bytes of the heap's table, the buffers of the system calls, the FAT16 filesystem, and
-- the keyboard's handler. `resolve_heap` is the kernel's heap behind the filesystem's `resolve`, which
-- takes its private data, its streams and the root directory from it; `none` where `resolve` never comes
-- back, as `Fat16.Files.hang`.
pub record Image (W : Type 0) : Type 0 where
  pub tss_address : ℕ
  pub interrupt_pointer_table : ℕ → ℕ
  pub int_0_handler : ℕ
  pub isr80h_wrapper : ℕ
  pub heap_table : ℕ → ℕ
  pub buffers : Buffers
  pub fat16 : Filesystem W
  pub resolve_heap : Heap → W → Option Heap
  pub keyboard_handler : Callback W

-- `classic_keyboard`, behind `keyboard_set_capslock(..., KEYBOARD_CAPS_LOCK_OFF)` in its `init`.
abbrev pub classic_keyboard : Layer
classic_keyboard = record { init = some (ok tt); capslock = false }

-- ISR_KEYBOARD_INTERRUPT
abbrev pub isr_keyboard_interrupt : ℕ
isr_keyboard_interrupt = 0x21

-- `"0:/shell.elf"`
abbrev pub shell_path : List ℕ
shell_path = b'0' ∷ b':' ∷ b'/' ∷ b's' ∷ b'h' ∷ b'e' ∷ b'l' ∷ b'l' ∷ b'.' ∷ b'e' ∷ b'l' ∷ b'f' ∷ []

module _ {W : Type 0} where
  -- `task_run_first_ever_task()`; without a current task it panics.
  pub run_first : Computer W → Outcome W (Unit {0})
  run_first c = elim (task_run_first_ever_task c.kernel.words c.kernel.tasks) [
    | none ↦ stops
    | some (tasks, registers) ↦
        leaves registers (record c { kernel = record c.kernel { tasks = tasks } })
  ]

  -- What follows `process_load_switch`.
  pub after_load : Computer W → Option (Result ℕ × Kernel W) → Outcome W (Unit {0})
  unfolding run_first
  after_load c none = stops
  after_load c (some (err e, k)) = stops
  after_load c (some (ok process, k)) = run_first (record c { kernel = k })

module _ {W : Type 0} (memory : W → Memory) (with_memory : W → Memory → W) (signature : ℕ)
    (image : Image W) where
  -- From `terminal_initialize()` to `gdt_load`; `none` for the panic of an entry.
  unfoldable pub start_segments : System W → Option (System W)
  start_segments s = elim (structured_to_gdt (gdt_structured image.tss_address)) [
    | none ↦ none
    | some gdt ↦ some (record s {
      computer = record s.computer { terminal = initialize s.computer.terminal };
      gdt = gdt;
    })
  ]

  -- From `kheap_init()` to `disk_search_and_init()`; `none` also where the mount never comes back. The
  -- result of `heap_create` is not used.
  unfoldable pub start_storage : System W → Option (System W)
  start_storage s =
      let k : Kernel W = s.computer.kernel in
      let heap = (kheap_init k.loader.heap image.heap_table).1 in
      elim (fs_init k.loader.files image.fat16) [
        | none ↦ none
        | some files ↦ elim (image.resolve_heap heap files.world) [
          | none ↦ none
          | some heap' ↦ some (record s {
            computer = record s.computer {
              kernel = record k {
                loader = record k.loader { heap = heap'; files = disk_search_and_init files };
              };
            };
          })
        ]
      ]

  -- From `idt_init()` to `tss_load`; `idt_init` clears no callbacks.
  unfoldable pub start_interrupts : System W → System W
  start_interrupts s =
      let (descriptors, callbacks) =
        idt_init image.interrupt_pointer_table image.int_0_handler image.isr80h_wrapper
          s.callbacks in
      record s {
        descriptors = descriptors;
        callbacks = callbacks;
        tss = record { esp0 = 0x600000; ss0 = kernel_data_selector };
      }

  -- From `create_new_page_directory` to `enable_paging()`.
  unfoldable pub start_paging : System W → System W
  start_paging s =
      let k : Kernel W = s.computer.kernel in
      let (chunk, heap, words) = create_new_page_directory k.loader.heap k.words kernel_flags in
      record s {
        computer = record s.computer {
          kernel = record k {
            loader = record k.loader { heap = heap };
            words = words;
            tasks = record k.tasks { loaded = get_page_directory_entry words chunk };
          };
        };
        page_directory = chunk;
        paging_enabled = true;
      }

  -- `keyboard_init()`: `keyboard_insert` calls `classic_keyboard_init`, which registers the handler.
  unfoldable pub keyboard_init : System W → System W
  keyboard_init s = record s {
    callbacks =
        (idt_register_interrupt_callback s.callbacks (pos isr_keyboard_interrupt)
          image.keyboard_handler).1;
    keyboards = (insert s.keyboards classic_keyboard).1;
  }

  -- `isr80h_register_commands()` and `keyboard_init()`, whose result is not used.
  unfoldable pub start_calls : System W → Option (System W)
  unfolding keyboard_init
  start_calls s =
      elim (isr80h_register_commands memory with_memory signature
        (s.computer.kernel.words s.page_directory) image.buffers s.commands) [
          | none ↦ none
          | some commands ↦ some (keyboard_init (record s { commands = commands }))
        ]

  -- `kernel_main` up to the load of the first program; `none` for a panic, or the loop of a full table
  -- of filesystems or of the mount.
  pub set_up : System W → Option (System W)
  unfolding start_segments start_storage start_interrupts start_paging start_calls
  set_up s = elim (start_segments s) [
    | none ↦ none
    | some s1 ↦ elim (start_storage s1) [
      | none ↦ none
      | some s2 ↦ start_calls (start_paging (start_interrupts s2))
    ]
  ]

  pub kernel_main : System W → Outcome W (Unit {0})
  unfolding set_up after_load
  kernel_main s = elim (set_up s) [
    | none ↦ stops
    | some s' ↦
        after_load s'.computer
          (process_load_switch memory with_memory signature s'.computer.kernel shell_path 0)
  ]
