-- ===== src/Start/Leaves.antt =====
-- kernel/kernel.c: how kernel_main ends.
use liebe_os.Prelude.{ℕ, ◌≡◌, Option, none, some, Result, ok, err}
use liebe_os.Memory.{Memory}
use liebe_os.Task.{Tasks, Registers, task_run_first_ever_task}
use liebe_os.Task.Pages.{FirstGoesOn, task_run_first_ever_task-FirstGoesOn}
use liebe_os.Process.Program.{Kernel}
use liebe_os.Process.Load.{process_load_switch}
use liebe_os.Interrupts.{Computer, Outcome, returns, leaves, stops}
use liebe_os.Interrupts.Returns.{IsUser}
use liebe_os.Start.{System, Image, set_up, shell_path, run_first, after_load, kernel_main}

module _ {W : Type 0} where
  -- The kernel goes to user mode with the first task of its list, or stays in a loop; it does not return.
  abbrev pub EndsInUser : Outcome W (Unit {0}) → Type 0
  EndsInUser (returns a c) = ⊥
  EndsInUser (leaves registers c) =
      IsUser registers c × (c.kernel.tasks.current ≡ c.kernel.tasks.head)
  EndsInUser stops = Unit {0}

  run_first-EndsInUser : (c : Computer W) → EndsInUser (run_first c)
  unfolding run_first
  run_first-EndsInUser c =
      gone (task_run_first_ever_task c.kernel.words c.kernel.tasks)
        (task_run_first_ever_task-FirstGoesOn c.kernel.words c.kernel.tasks)
    where
      gone :
          (r : Option (Tasks × Registers))
          → FirstGoesOn c.kernel.words r
          → EndsInUser (elim r [
            | none ↦ stops
            | some (tasks, registers) ↦
                leaves registers (record c { kernel = record c.kernel { tasks = tasks } })
          ])
      gone none h = tt
      gone (some (tasks, registers)) (paged, own, first) = ((paged, own), first)

  after_load-EndsInUser :
      (c : Computer W) (r : Option (Result ℕ × Kernel W)) → EndsInUser (after_load c r)
  unfolding after_load
  after_load-EndsInUser c none = tt
  after_load-EndsInUser c (some (err e, k)) = tt
  after_load-EndsInUser c (some (ok process, k)) = run_first-EndsInUser (record c { kernel = k })

-- kernel_main does not return: it panics or loops, or goes to user mode with the registers of the
-- first task of the list, as the current one and with its page directory loaded.
pub kernel_main-EndsInUser :
    {W : Type 0} (memory : W → Memory) (with_memory : W → Memory → W) (signature : ℕ)
    (image : Image W) (s : System W)
    → EndsInUser (kernel_main memory with_memory signature image s)
unfolding kernel_main
kernel_main-EndsInUser {W = W} memory with_memory signature image s =
    loaded (set_up memory with_memory signature image s)
  where
    loaded :
        (r : Option (System W))
        → EndsInUser (elim r [
          | none ↦ stops
          | some s' ↦
              after_load s'.computer
                (process_load_switch memory with_memory signature s'.computer.kernel shell_path 0)
        ])
    loaded none = tt
    loaded (some s') =
        after_load-EndsInUser s'.computer
          (process_load_switch memory with_memory signature s'.computer.kernel shell_path 0)
