-- ===== src/Interrupts/Handlers.antt =====
-- How the handlers end with what the kernel registers.
use liebe_os.Prelude.{
  ℕ, zero, suc, ◌≡◌, refl, sym, ◌∙◌, inl, inr, Bool-cases, Option, none, some, ltb, ◌==◌,
  if◌then◌else◌, ℤ, pos, negsuc, Result, ok, err, subst,
}
use liebe_os.Memory.{Memory}
use liebe_os.Task.{Frame}
use liebe_os.Task.Pages.{task_switch-IsPaged}
use liebe_os.Process.Program.{Kernel}
use liebe_os.Interrupts.{
  Computer, Outcome, Callback, Command, or_stop, idt_init, idt_handle_exception, idt_clock,
  isr80h_handler, interrupt_handler,
}
use liebe_os.Interrupts.Syscalls.{
  Buffers, isr80h_register_commands, go_to, start_loaded, start_named, start_at, start_copied,
  invoke_at, invoke_root, invoke_loaded, invoke_injected, isr80h_command0_sum,
  isr80h_command1_print, isr80h_command2_getkey, isr80h_commad3_putchar, isr80h_command4_malloc,
  isr80h_command5_free, isr80h_command6_process_load_start, isr80h_command7_invoke_system_command,
  isr80h_command8_get_program_arguments, isr80h_command9_exit,
}
use liebe_os.Interrupts.Gates.{idt_init-callbacks}
use liebe_os.Interrupts.Dispatch.{system_commands, dispatch, isr80h_register_commands-dispatch}
use liebe_os.Interrupts.Returns.{
  LeavesWell, EndsWell, AreCallbacks, next_task-LeavesWell, idt_handle_exception-LeavesWell,
  isr80h_handler-EndsWell, interrupt_handler-EndsWell,
}

or_stop-LeavesWell :
    {W B : Type 0} (r : Option B) (next : B → Outcome W ℕ)
    → ((b : B) → LeavesWell ℕ (next b))
    → LeavesWell ℕ (or_stop r next)
unfolding or_stop
or_stop-LeavesWell none next h = tt
or_stop-LeavesWell (some b) next h = h b

module _ {W : Type 0} (memory : W → Memory) (with_memory : W → Memory → W) (signature directory : ℕ)
    (buffers : Buffers) where
  go_to-LeavesWell :
      (c : Computer W) (process : ℕ)
      → LeavesWell ℕ (go_to memory with_memory signature directory buffers c process)
  unfolding go_to
  go_to-LeavesWell c process =
      (task_switch-IsPaged c.kernel.words c.kernel.tasks (c.kernel.program process).task, refl)

  start_loaded-LeavesWell :
      (c : Computer W) (r : Option (Result ℕ × Kernel W))
      → LeavesWell ℕ (start_loaded memory with_memory signature directory buffers c r)
  unfolding start_loaded
  start_loaded-LeavesWell c none = tt
  start_loaded-LeavesWell c (some (err e, kernel)) = tt
  start_loaded-LeavesWell c (some (ok process, kernel)) =
      go_to-LeavesWell (record c { kernel = kernel }) process

  start_at-LeavesWell :
      (c : Computer W) → LeavesWell ℕ (start_at memory with_memory signature directory buffers c)
  unfolding start_at
  start_at-LeavesWell c = start_loaded-LeavesWell c _

  start_named-LeavesWell :
      (c : Computer W) → LeavesWell ℕ (start_named memory with_memory signature directory buffers c)
  unfolding start_named
  start_named-LeavesWell c = or_stop-LeavesWell _ _ (λ text. start_at-LeavesWell _)

  start_copied-LeavesWell :
      (r : Result (Unit {0}) × Computer W)
      → LeavesWell ℕ (start_copied memory with_memory signature directory buffers r)
  unfolding start_copied
  start_copied-LeavesWell (err e, c) = tt
  start_copied-LeavesWell (ok _, c) = start_named-LeavesWell c

  invoke_injected-LeavesWell :
      (c : Computer W) (process : ℕ) (r : Option (Result (Unit {0}) × Kernel W))
      → LeavesWell ℕ (invoke_injected memory with_memory signature directory buffers c process r)
  unfolding invoke_injected
  invoke_injected-LeavesWell c process none = tt
  invoke_injected-LeavesWell c process (some (err e, kernel)) = tt
  invoke_injected-LeavesWell c process (some (ok _, kernel)) =
      go_to-LeavesWell (record c { kernel = kernel }) process

  invoke_loaded-LeavesWell :
      (c : Computer W) (root : ℕ) (r : Option (Result ℕ × Kernel W))
      → LeavesWell ℕ (invoke_loaded memory with_memory signature directory buffers c root r)
  unfolding invoke_loaded
  invoke_loaded-LeavesWell c root none = tt
  invoke_loaded-LeavesWell c root (some (err e, kernel)) = tt
  invoke_loaded-LeavesWell c root (some (ok process, kernel)) =
      invoke_injected-LeavesWell (record c { kernel = kernel }) process _

  invoke_at-LeavesWell :
      (c : Computer W) (root : ℕ)
      → LeavesWell ℕ (invoke_at memory with_memory signature directory buffers c root)
  unfolding invoke_at
  invoke_at-LeavesWell c root = invoke_loaded-LeavesWell c root _

  invoke_root-LeavesWell :
      (c : Computer W) (root : ℕ)
      → LeavesWell ℕ (invoke_root memory with_memory signature directory buffers c root)
  unfolding invoke_root
  invoke_root-LeavesWell c root = elim (Bool-cases (root == 0)) [
    | inl null ↦ rw null tt
    | inr other ↦ elim (Bool-cases (memory c.kernel.loader.files.world root == 0)) [
      | inl empty ↦ rw (other, empty) tt
      | inr named ↦ rw (other, named) (invoke_at-LeavesWell _ root)
    ]
  ]

  print-LeavesWell :
      (frame : Frame) (c : Computer W)
      → LeavesWell ℕ (isr80h_command1_print memory with_memory signature directory buffers frame c)
  unfolding isr80h_command1_print
  print-LeavesWell frame c = or_stop-LeavesWell _ _ (λ r. tt)

  getkey-LeavesWell :
      (frame : Frame) (c : Computer W)
      → LeavesWell ℕ (isr80h_command2_getkey memory with_memory signature directory buffers frame c)
  unfolding isr80h_command2_getkey
  getkey-LeavesWell frame c = elim (Bool-cases (c.kernel.tasks.current == 0)) [
    | inl null ↦ rw null tt
    | inr other ↦ rw other tt
  ]

  malloc-LeavesWell :
      (frame : Frame) (c : Computer W)
      → LeavesWell ℕ (isr80h_command4_malloc memory with_memory signature directory buffers frame c)
  unfolding isr80h_command4_malloc
  malloc-LeavesWell frame c = or_stop-LeavesWell _ _ (λ r. tt)

  free-LeavesWell :
      (frame : Frame) (c : Computer W)
      → LeavesWell ℕ (isr80h_command5_free memory with_memory signature directory buffers frame c)
  unfolding isr80h_command5_free
  free-LeavesWell frame c = or_stop-LeavesWell _ _ (λ r. tt)

  load_start-LeavesWell :
      (frame : Frame) (c : Computer W)
      → LeavesWell ℕ (
          isr80h_command6_process_load_start memory with_memory signature directory buffers frame c)
  unfolding isr80h_command6_process_load_start
  load_start-LeavesWell frame c = or_stop-LeavesWell _ _ start_copied-LeavesWell

  invoke-LeavesWell :
      (frame : Frame) (c : Computer W)
      → LeavesWell ℕ (
          isr80h_command7_invoke_system_command memory with_memory signature directory buffers frame
            c)
  unfolding isr80h_command7_invoke_system_command
  invoke-LeavesWell frame c = invoke_root-LeavesWell _ _

  exit-LeavesWell :
      (frame : Frame) (c : Computer W)
      → LeavesWell ℕ (isr80h_command9_exit memory with_memory signature directory buffers frame c)
  unfolding isr80h_command9_exit
  exit-LeavesWell frame c = or_stop-LeavesWell _ _ (λ r. next_task-LeavesWell ℕ _)

  dispatch-LeavesWell :
      (command : ℤ) (frame : Frame) (c : Computer W)
      → LeavesWell ℕ (
          dispatch (system_commands memory with_memory signature directory buffers) command frame c)
  unfolding isr80h_command0_sum isr80h_commad3_putchar isr80h_command8_get_program_arguments
  dispatch-LeavesWell (negsuc n) frame c = tt
  dispatch-LeavesWell (pos zero) frame c = tt
  dispatch-LeavesWell (pos (suc zero)) frame c = print-LeavesWell frame c
  dispatch-LeavesWell (pos (suc (suc zero))) frame c = getkey-LeavesWell frame c
  dispatch-LeavesWell (pos (suc (suc (suc zero)))) frame c = tt
  dispatch-LeavesWell (pos (suc (suc (suc (suc zero))))) frame c = malloc-LeavesWell frame c
  dispatch-LeavesWell (pos (suc (suc (suc (suc (suc zero)))))) frame c = free-LeavesWell frame c
  dispatch-LeavesWell (pos (suc (suc (suc (suc (suc (suc zero))))))) frame c =
      load_start-LeavesWell frame c
  dispatch-LeavesWell (pos (suc (suc (suc (suc (suc (suc (suc zero)))))))) frame c =
      invoke-LeavesWell frame c
  dispatch-LeavesWell (pos (suc (suc (suc (suc (suc (suc (suc (suc zero))))))))) frame c = tt
  dispatch-LeavesWell (pos (suc (suc (suc (suc (suc (suc (suc (suc (suc zero)))))))))) frame c =
      exit-LeavesWell frame c
  dispatch-LeavesWell (pos (suc (suc (suc (suc (suc (suc (suc (suc (suc (suc n))))))))))) frame c =
      tt

  -- The kernel's commands can all be registered, and then a system call, whatever its number, ends
  -- with the current task's page directory loaded where it returns, and where it leaves for a task,
  -- with that task as the current one, its directory loaded and its registers taken.
  pub isr80h_handler-registered :
      (commands : ℕ → Option (Command W)) × (isr80h_register_commands memory with_memory signature
          directory buffers
          (λ j. none)
        ≡ some commands)
      × ((command : ℤ) (frame : Frame) (c : Computer W)
          → EndsWell ℕ (isr80h_handler directory commands command frame c))
  isr80h_handler-registered =
      let (commands, done, calls) =
        isr80h_register_commands-dispatch memory with_memory signature directory buffers in
      (
        commands,
        done,
        λ command frame c. isr80h_handler-EndsWell directory commands command frame c (λ c'.
            subst (LeavesWell ℕ) (sym (calls command frame c'))
              (dispatch-LeavesWell command frame c')),
      )

module _ {W : Type 0} where
  -- A callback that leaves well, if there is one.
  abbrev CallsWell : Frame → Computer W → Option (Callback W) → Type 0
  CallsWell frame c none = Unit {0}
  CallsWell frame c (some f) = LeavesWell (Unit {0}) (f frame c)

  idt_init-AreCallbacks :
      (table : ℕ → ℕ) (int_0_handler isr80h_wrapper : ℕ)
      → AreCallbacks {W = W} (idt_init table int_0_handler isr80h_wrapper (λ j. none)).1
  unfolding idt_clock
  idt_init-AreCallbacks table int_0_handler isr80h_wrapper n callback frame c e =
      subst (CallsWell frame c)
        (sym (idt_init-callbacks table int_0_handler isr80h_wrapper (λ j. none) n) ∙ e) well
    where
      well : CallsWell frame c (
          if ltb n 0x20
          then some idt_handle_exception
          else if n == 0x20
          then some idt_clock
          else none)
      well = elim (Bool-cases (ltb n 0x20)) [
        | inl exception ↦ rw exception (idt_handle_exception-LeavesWell frame c)
        | inr other ↦ elim (Bool-cases (n == 0x20)) [
          | inl clock ↦ rw (other, clock) tt
          | inr free_ ↦ rw (other, free_) tt
        ]
      ]

  -- With the callbacks that idt_init registers in an empty table, the handler of an interrupt,
  -- whatever its number, ends with the current task's page directory loaded, where it returns and
  -- where it leaves for a task, whose registers it takes.
  pub interrupt_handler-registered :
      (table : ℕ → ℕ) (int_0_handler isr80h_wrapper directory interrupt : ℕ) (frame : Frame)
      (c : Computer W)
      → EndsWell (Unit {0}) (
          interrupt_handler directory
            (idt_init table int_0_handler isr80h_wrapper (λ j. none)).1
            interrupt
            frame
            c)
  interrupt_handler-registered table int_0_handler isr80h_wrapper directory interrupt frame c =
      interrupt_handler-EndsWell directory
        (idt_init table int_0_handler isr80h_wrapper (λ j. none)).1 interrupt frame c
        (idt_init-AreCallbacks table int_0_handler isr80h_wrapper)
