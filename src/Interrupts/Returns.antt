-- ===== src/Interrupts/Returns.antt =====
-- Which page directory is loaded when a handler is left.
use liebe_os.Prelude.{ℕ, ◌≡◌, refl, Option, none, some, Result, ℤ}
use liebe_os.Task.{Tasks, Registers, Frame, task_next, task_current_save_state}
use liebe_os.Interrupts.{
  Computer, Outcome, Callback, Command, returns, leaves, stops, with_tasks, kernel_page, page_back,
  next_task, idt_handle_exception, after_callback, interrupt_handler, after_command,
  isr80h_handle_command, isr80h_handler,
}
use liebe_os.Task.Pages.{IsPaged, GoesOn, task_page-IsPaged, task_next-GoesOn}
use liebe_os.Process.End.{process_terminate}
use liebe_os.Process.Program.{Kernel}

module _ {W : Type 0} where
  abbrev pub IsUser : Registers → Computer W → Type 0
  IsUser registers c =
      IsPaged c.kernel.words c.kernel.tasks
      × (registers ≡ (c.kernel.tasks.task c.kernel.tasks.current).registers)

  -- A handler that does not come back has loaded the current task's directory, and goes on with its registers.
  abbrev pub LeavesWell : (A : Type 0) → Outcome W A → Type 0
  LeavesWell A (returns a c) = Unit {0}
  LeavesWell A (leaves registers c) = IsUser registers c
  LeavesWell A stops = Unit {0}

  -- One that comes back has loaded it, too.
  abbrev pub EndsWell : (A : Type 0) → Outcome W A → Type 0
  EndsWell A (returns a c) = IsPaged c.kernel.words c.kernel.tasks
  EndsWell A (leaves registers c) = IsUser registers c
  EndsWell A stops = Unit {0}

  pub next_task-LeavesWell : (A : Type 0) (c : Computer W) → LeavesWell A (next_task c)
  unfolding next_task
  next_task-LeavesWell A c =
      gone (task_next c.kernel.words c.kernel.tasks)
        (task_next-GoesOn c.kernel.words c.kernel.tasks)
    where
      gone :
          (r : Option (Tasks × Registers))
          → GoesOn c.kernel.words r
          → LeavesWell A (elim r [
            | none ↦ stops
            | some (tasks, registers) ↦ leaves registers (with_tasks c tasks)
          ])
      gone none h = tt
      gone (some (tasks, registers)) h = h

  pub idt_handle_exception-LeavesWell :
      (frame : Frame) (c : Computer W) → LeavesWell (Unit {0}) (idt_handle_exception frame c)
  unfolding idt_handle_exception
  idt_handle_exception-LeavesWell frame c =
      ended (process_terminate c.kernel (c.kernel.tasks.task c.kernel.tasks.current).process)
    where
      ended :
          (r : Option (Result (Unit {0}) × Kernel W))
          → LeavesWell (Unit {0}) (elim r [
            | none ↦ stops
            | some (_, kernel) ↦ next_task (record c { kernel = kernel })
          ])
      ended none = tt
      ended (some (res, kernel)) = next_task-LeavesWell (Unit {0}) (record c { kernel = kernel })

  after_command-EndsWell : (r : Outcome W ℕ) → LeavesWell ℕ r → EndsWell ℕ (after_command r)
  unfolding after_command page_back
  after_command-EndsWell (returns a c) h = task_page-IsPaged c.kernel.words c.kernel.tasks
  after_command-EndsWell (leaves r c) h = h
  after_command-EndsWell stops h = tt

  after_callback-EndsWell :
      (r : Outcome W (Unit {0})) → LeavesWell (Unit {0}) r → EndsWell (Unit {0}) (after_callback r)
  unfolding after_callback page_back
  after_callback-EndsWell (returns a c) h = task_page-IsPaged c.kernel.words c.kernel.tasks
  after_callback-EndsWell (leaves r c) h = h
  after_callback-EndsWell stops h = tt

  -- The callbacks that are registered.
  abbrev pub AreCallbacks : (ℕ → Option (Callback W)) → Type 0
  AreCallbacks callbacks =
      (n : ℕ) (callback : Callback W) (frame : Frame) (c : Computer W)
      → callbacks n ≡ some callback
      → LeavesWell (Unit {0}) (callback frame c)

  pub isr80h_handler-EndsWell :
      (directory : ℕ) (commands : ℕ → Option (Command W)) (command : ℤ) (frame : Frame)
      (c : Computer W)
      → ((c : Computer W) → LeavesWell ℕ (isr80h_handle_command commands command frame c))
      → EndsWell ℕ (isr80h_handler directory commands command frame c)
  unfolding isr80h_handler
  isr80h_handler-EndsWell directory commands command frame c are =
      saved (task_current_save_state paged.kernel.tasks frame)
    where
      paged : Computer W
      paged = kernel_page directory c

      saved :
          (r : Option Tasks)
          → EndsWell ℕ (elim r [
            | none ↦ stops
            | some tasks ↦
                after_command
                  (isr80h_handle_command commands command frame (with_tasks paged tasks))
          ])
      saved none = tt
      saved (some tasks) =
          after_command-EndsWell
            (isr80h_handle_command commands command frame (with_tasks paged tasks))
            (are (with_tasks paged tasks))

  pub interrupt_handler-EndsWell :
      (directory : ℕ) (callbacks : ℕ → Option (Callback W)) (interrupt : ℕ) (frame : Frame)
      (c : Computer W)
      → AreCallbacks callbacks
      → EndsWell (Unit {0}) (interrupt_handler directory callbacks interrupt frame c)
  unfolding interrupt_handler page_back
  interrupt_handler-EndsWell directory callbacks interrupt frame c are =
      called (callbacks interrupt) refl
    where
      paged : Computer W
      paged = kernel_page directory c

      saved :
          (f : Callback W)
          → callbacks interrupt ≡ some f
          → (r : Option Tasks)
          → EndsWell (Unit {0}) (elim r [
            | none ↦ stops
            | some tasks ↦ after_callback (f frame (with_tasks paged tasks))
          ])
      saved f e none = tt
      saved f e (some tasks) =
          after_callback-EndsWell (f frame (with_tasks paged tasks))
            (are interrupt f frame (with_tasks paged tasks) e)

      called :
          (o : Option (Callback W))
          → callbacks interrupt ≡ o
          → EndsWell (Unit {0}) (elim o [
            | none ↦ returns tt (page_back paged)
            | some f ↦ elim (task_current_save_state paged.kernel.tasks frame) [
              | none ↦ stops
              | some tasks ↦ after_callback (f frame (with_tasks paged tasks))
            ]
          ])
      called none e = task_page-IsPaged paged.kernel.words paged.kernel.tasks
      called (some f) e = saved f e (task_current_save_state paged.kernel.tasks frame)
