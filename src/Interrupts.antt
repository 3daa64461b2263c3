-- ===== src/Interrupts.antt =====
-- idt/idt.c: the interrupt descriptors, the callbacks of interrupts, and the commands of the system call.
pub mod Syscalls
pub mod Gates
pub mod Dispatch
pub mod Returns
pub mod Handlers
mod Tests
use liebe_os.Prelude.{
  ℕ, zero, suc, ◌+◌, ◌/◌, ◌^◌, ◌%◌, Option, none, some, leb, if◌then◌else◌, update, ℤ, pos, negsuc,
  Status, Result, ok, err,
}
use liebe_os.Terminal.{Terminal}
use liebe_os.Task.{Tasks, Registers, Frame, task_current_save_state, task_page, task_next}
use liebe_os.Process.Program.{Kernel}
use liebe_os.Process.End.{process_terminate}

-- LIEBE_OS_TOTAL_INTERRUPTS, LIEBE_OS_ISR80H_MAX_COMMANDS, KERNEL_CODE_SELECTOR
abbrev pub total_interrupts : ℕ
total_interrupts = 512

abbrev pub max_commands : ℕ
max_commands = 1024

abbrev pub kernel_code_selector : ℕ
kernel_code_selector = 0x08

-- `struct idt_desc`
pub record IdtDesc : Type 0 where
  pub offset_1 : ℕ
  pub selector : ℕ
  pub zero_ : ℕ
  pub type_attr : ℕ
  pub offset_2 : ℕ

-- The kernel and the screen.
pub record Computer (W : Type 0) : Type 0 where
  pub kernel : Kernel W
  pub terminal : Terminal

-- A handler returns a value, or leaves for user mode with registers and does not come back, or stops in a
-- panic.
pub data Outcome (W : Type 0) (A : Type 0) : Type 0 where
  returns : A → Computer W → Outcome W A
  leaves : Registers → Computer W → Outcome W A
  stops : Outcome W A

abbrev pub Callback : Type 0 → Type 0
Callback W = Frame → Computer W → Outcome W (Unit {0})

abbrev pub Command : Type 0 → Type 0
Command W = Frame → Computer W → Outcome W ℕ

-- `idt_set`
pub idt_set : (ℕ → IdtDesc) → (interrupt_no address : ℕ) → ℕ → IdtDesc
idt_set descriptors interrupt_no address = update descriptors interrupt_no (record {
  offset_1 = address % 2 ^ 16;
  selector = kernel_code_selector;
  zero_ = 0;
  type_attr = 0xEE;
  offset_2 = address / 2 ^ 16;
})

-- `for (i = ...) idt_set(i, interrupt_pointer_table[i])`, from index `i` with `left` rounds to go.
pub set_loop : (left i : ℕ) → (table : ℕ → ℕ) → (ℕ → IdtDesc) → ℕ → IdtDesc
unfolding idt_set
set_loop zero i table descriptors = descriptors
set_loop (suc left) i table descriptors =
    set_loop left (i + 1) table (idt_set descriptors i (table i))

-- The two gates that are set behind the loop.
pub set_special : (int_0_handler isr80h_wrapper : ℕ) → (ℕ → IdtDesc) → ℕ → IdtDesc
unfolding idt_set
set_special int_0_handler isr80h_wrapper descriptors =
    idt_set (idt_set descriptors 0 int_0_handler) 0x80 isr80h_wrapper

module _ {W : Type 0} where
  abbrev pub with_tasks : Computer W → Tasks → Computer W
  with_tasks c tasks = record c { kernel = record c.kernel { tasks = tasks } }

  -- `kernel_page`, with the kernel's directory.
  pub kernel_page : (directory : ℕ) → Computer W → Computer W
  kernel_page directory c = with_tasks c (record c.kernel.tasks { loaded = directory })

  pub page_back : Computer W → Computer W
  page_back c = with_tasks c (task_page c.kernel.words c.kernel.tasks)

  unfoldable pub idt_register_interrupt_callback :
      (ℕ → Option (Callback W)) → ℤ → Callback W → Result (Unit {0}) × (ℕ → Option (Callback W))
  idt_register_interrupt_callback callbacks (negsuc n) callback = (err Status.einvarg, callbacks)
  idt_register_interrupt_callback callbacks (pos n) callback =
      if leb total_interrupts n
      then (err Status.einvarg, callbacks)
      else (ok tt, update callbacks n (some callback))

  -- A handler goes on with the result of a call, or stops with it.
  pub or_stop : {A B : Type 0} → Option B → (B → Outcome W A) → Outcome W A
  or_stop none next = stops
  or_stop (some b) next = next b

  -- `task_next` in a handler.
  pub next_task : {A : Type 0} → Computer W → Outcome W A
  next_task c = elim (task_next c.kernel.words c.kernel.tasks) [
    | none ↦ stops
    | some (tasks, registers) ↦ leaves registers (with_tasks c tasks)
  ]

  pub idt_handle_exception : Callback W
  unfolding next_task
  idt_handle_exception frame c =
      elim (process_terminate c.kernel (c.kernel.tasks.task c.kernel.tasks.current).process) [
        | none ↦ stops
        | some (_, kernel) ↦ next_task (record c { kernel = kernel })
      ]

  pub idt_clock : Callback W
  idt_clock frame c = returns tt c

  -- `for (i = ...) idt_register_interrupt_callback(i, idt_handle_exception)`
  pub exception_loop : (left i : ℕ) → (ℕ → Option (Callback W)) → ℕ → Option (Callback W)
  unfolding idt_register_interrupt_callback
  exception_loop zero i callbacks = callbacks
  exception_loop (suc left) i callbacks =
      exception_loop left (i + 1)
        (idt_register_interrupt_callback callbacks (pos i) idt_handle_exception).1

  pub set_clock : (ℕ → Option (Callback W)) → ℕ → Option (Callback W)
  unfolding idt_register_interrupt_callback
  set_clock callbacks = (idt_register_interrupt_callback callbacks (pos 0x20) idt_clock).1

  -- The descriptors and the callbacks that `idt_init` leaves, with the addresses of the handlers in assembly.
  pub idt_init :
      (table : ℕ → ℕ)
      → (int_0_handler isr80h_wrapper : ℕ) → (ℕ → Option (Callback W))
      → (ℕ → IdtDesc) × (ℕ → Option (Callback W))
  idt_init table int_0_handler isr80h_wrapper callbacks =
      let blank : IdtDesc = record {
        offset_1 = 0;
        selector = 0;
        zero_ = 0;
        type_attr = 0;
        offset_2 = 0;
      } in
      (
        set_special int_0_handler isr80h_wrapper (set_loop total_interrupts 0 table (λ i. blank)),
        set_clock (exception_loop 0x20 0 callbacks),
      )

  -- What follows the callback.
  pub after_callback : Outcome W (Unit {0}) → Outcome W (Unit {0})
  unfolding page_back
  after_callback (returns _ c) = returns tt (page_back c)
  after_callback (leaves registers c) = leaves registers c
  after_callback stops = stops

  pub interrupt_handler :
      (directory : ℕ)
      → (ℕ → Option (Callback W))
      → (interrupt : ℕ) → Frame
      → Computer W
      → Outcome W (Unit {0})
  unfolding kernel_page after_callback
  interrupt_handler directory callbacks interrupt frame c =
      let paged = kernel_page directory c in
      elim (callbacks interrupt) [
        | none ↦ returns tt (page_back paged)
        | some callback ↦ elim (task_current_save_state paged.kernel.tasks frame) [
          | none ↦ stops
          | some tasks ↦ after_callback (callback frame (with_tasks paged tasks))
        ]
      ]

  -- `none` for a panic.
  pub isr80h_register_command :
      (ℕ → Option (Command W)) → ℤ → Command W → Option (ℕ → Option (Command W))
  isr80h_register_command commands (negsuc n) command = none
  isr80h_register_command commands (pos n) command =
      if leb max_commands n
      then none
      else elim (commands n) [ none ↦ some (update commands n (some command)) | some _ ↦ none ]

  pub isr80h_handle_command : (ℕ → Option (Command W)) → ℤ → Frame → Computer W → Outcome W ℕ
  isr80h_handle_command commands (negsuc n) frame c = returns 0 c
  isr80h_handle_command commands (pos n) frame c =
      if leb max_commands n
      then returns 0 c
      else elim (commands n) [ none ↦ returns 0 c | some command ↦ command frame c ]

  -- What follows the command.
  pub after_command : Outcome W ℕ → Outcome W ℕ
  unfolding page_back
  after_command (returns res c) = returns res (page_back c)
  after_command (leaves registers c) = leaves registers c
  after_command stops = stops

  pub isr80h_handler :
      (directory : ℕ) → (ℕ → Option (Command W)) → ℤ → Frame → Computer W → Outcome W ℕ
  unfolding kernel_page isr80h_handle_command after_command
  isr80h_handler directory commands command frame c =
      let paged = kernel_page directory c in
      elim (task_current_save_state paged.kernel.tasks frame) [
        | none ↦ stops
        | some tasks ↦
            after_command (isr80h_handle_command commands command frame (with_tasks paged tasks))
      ]
