-- ===== src/Interrupts/Tests.antt =====
-- The tables and the handlers on a small kernel.
use liebe_os.Prelude.{ℕ, ◌+◌, ◌*◌, ◌≡◌, arith, Option, none, some, ℤ, ◌==◌, if◌then◌else◌}
use liebe_os.Memory.{Memory}
use liebe_os.Task.{Frame, Task, Tasks, no_registers}
use liebe_os.Process.Sample.{kernel, shell}
use liebe_os.Interrupts.{
  Computer, Command, Callback, kernel_code_selector, idt_init, isr80h_handle_command,
  isr80h_handler, interrupt_handler,
}
use liebe_os.Interrupts.Syscalls.{Buffers, isr80h_register_commands}
use liebe_os.Interrupts.Gates.{address_of, idt_init_lem}
use liebe_os.Interrupts.Dispatch.{system_commands, dispatch, isr80h_register_commands-dispatch}
use liebe_os.Interrupts.Returns.{EndsWell}
use liebe_os.Interrupts.Handlers.{isr80h_handler-registered, interrupt_handler-registered}

abbrev buffers : Buffers
buffers = record { buf = 0x5ff000; filename = 0x5fe000; path = 0x5fd000; reach = 2000 }

-- The handlers lie 16 bytes apart.
abbrev table : ℕ → ℕ
table i = 0x110000 + 16 * i

abbrev callbacks : ℕ → Option (Callback Memory)
callbacks i = none

idt_init_example :
    (address_of ((idt_init table 0x105000 0x106000 callbacks).0 0x80) ≡ 0x106000)
    × (((idt_init table 0x105000 0x106000 callbacks).0 0x80).type_attr ≡ 0xEE)
    × (((idt_init table 0x105000 0x106000 callbacks).0 0x80).selector ≡ kernel_code_selector)
    × ((idt_init table 0x105000 0x106000 callbacks).1 0x80 ≡ none)
idt_init_example = idt_init_lem table 0x105000 0x106000 callbacks 0x80 (omega arith)

isr80h_register_commands-dispatch_example :
    (commands : ℕ → Option (Command Memory)) × (isr80h_register_commands
        (λ w. w)
        (λ w m. m)
        0
        0x800000
        buffers
        (λ j. none)
      ≡ some commands)
    × ((command : ℤ) (frame : Frame) (c : Computer Memory)
        → isr80h_handle_command commands command frame c
          ≡ dispatch (system_commands (λ w. w) (λ w m. m) 0 0x800000 buffers) command frame c)
isr80h_register_commands-dispatch_example =
    isr80h_register_commands-dispatch (λ w. w) (λ w m. m) 0 0x800000 buffers

isr80h_handler-registered_example :
    (commands : ℕ → Option (Command Memory)) × (isr80h_register_commands
        (λ w. w)
        (λ w m. m)
        0
        0x800000
        buffers
        (λ j. none)
      ≡ some commands)
    × ((command : ℤ) (frame : Frame) (c : Computer Memory)
        → EndsWell ℕ (isr80h_handler 0x800000 commands command frame c))
isr80h_handler-registered_example = isr80h_handler-registered (λ w. w) (λ w m. m) 0 0x800000 buffers

abbrev frame : Frame
frame = record {
  edi = 0;
  esi = 0;
  ebp = 0;
  reserved = 0;
  ebx = 0;
  edx = 0;
  ecx = 0;
  eax = 0;
  ip = 0x400000;
  cs = 0x1b;
  flags = 0x202;
  esp = 0x3ff000;
  ss = 0x23;
}

-- Two tasks, 64 and 128, of two processes; the first one is the current one.
abbrev linked_to : ℕ → ℕ → ℕ → Task
linked_to process prev next = record {
  page_directory = 0x800000;
  registers = no_registers;
  process = process;
  next = next;
  prev = prev;
}

abbrev tasks : Tasks
tasks = record {
  task = λ a. if a == 64 then linked_to 0x500000 0 128 else linked_to 0x600000 64 0;
  head = 64;
  tail = 128;
  current = 64;
  loaded = 0;
}

abbrev computer : Computer Memory
computer = record {
  kernel = record kernel {
    tasks = tasks;
    program = λ a.
        if a == 0x500000 then record shell { task = 64 } else record shell { id = 4; task = 128 };
    slots = λ i. if i == 3 then 0x500000 else if i == 4 then 0x600000 else 0;
    current_process = 0x500000;
  };
  terminal = record { video = λ i. 0; row = 0; col = 0 };
}

-- A general protection fault in the first one.
interrupt_handler-registered_example :
    EndsWell (Unit {0}) (
      interrupt_handler 0x800000 (idt_init table 0x105000 0x106000 (λ j. none)).1 13 frame computer)
interrupt_handler-registered_example =
    interrupt_handler-registered table 0x105000 0x106000 0x800000 13 frame computer
