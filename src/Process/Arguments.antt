-- ===== src/Process/Arguments.antt =====
-- The arguments of a process in task/process.c: a list of `struct command_argument` in memory, counted and
-- copied into the process's own memory.
use liebe_os.Prelude.{
  ℕ, zero, suc, ◌+◌, ◌*◌, Option, none, some, ◌==◌, if◌then◌else◌, update, Status, Result, ok, err,
}
use liebe_os.Memory.{Memory}
use liebe_os.Paging.{Words}
use liebe_os.Process.{process_malloc}
use liebe_os.Process.Program.{Kernel, process_of, machine_of, with_process}
use liebe_os.Task.Copy.{write_text}

-- The bytes of `argument`, behind which `next` lies.
abbrev pub argument_size : ℕ
argument_size = 512

abbrev pub next_of : Words → (argument : ℕ) → ℕ
next_of words argument = words (argument + argument_size)

-- The loop of `process_count_commnad_arguments`; `none` where the fuel runs out.
unfoldable pub count_loop : (fuel : ℕ) → Words → (current count : ℕ) → Option ℕ
count_loop zero words current count = none
count_loop (suc fuel) words current count =
    let rest = count_loop fuel words (next_of words current) (count + 1) in
    if current == 0 then some count else rest

unfoldable pub process_count_commnad_arguments : (fuel : ℕ) → Words → (root : ℕ) → Option ℕ
unfolding count_loop
process_count_commnad_arguments fuel words root = count_loop fuel words root 0

module _ {W : Type 0} (memory : W → Memory) (with_memory : W → Memory → W) where
  -- `process_malloc` for a process of the kernel.
  pub malloc_for : Kernel W → (process size : ℕ) → Option (ℕ × Kernel W)
  malloc_for k process size = elim (process_malloc (process_of k process) (machine_of k) size) [
    | none ↦ none
    | some (ptr, contents, machine) ↦ some (ptr, with_process k process contents machine)
  ]

  -- `strncpy(argument_str, current->argument, sizeof(current->argument))` and `argv[i] = argument_str`.
  pub store_argument : Kernel W → (current argv i str : ℕ) → Kernel W
  store_argument k current argv i str =
      let mem = memory k.loader.files.world in
      record k {
        loader = record k.loader {
          files = record k.loader.files {
            world =
                with_memory k.loader.files.world
                  (write_text mem str (λ j. mem (current + j)) argument_size);
          };
        };
        words = update k.words (argv + 4 * i) str;
      }

  -- The loop that copies the arguments; `none` where the fuel runs out, too.
  pub inject_loop :
      (fuel : ℕ) → Kernel W → (process current argv i : ℕ) → Option (Result (Unit {0}) × Kernel W)
  unfolding malloc_for store_argument
  inject_loop zero k process current argv i = none
  inject_loop (suc fuel) k process current argv i = elim (malloc_for k process argument_size) [
    | none ↦ if current == 0 then some (ok tt, k) else none
    | some (str, k') ↦
        let k2 = store_argument k' current argv i str in
        let rest = inject_loop fuel k2 process (next_of k2.words current) argv (i + 1) in
        if current == 0
        then some (ok tt, k)
        else if str == 0
        then some (err Status.enomem, k')
        else rest
  ]

  -- The end of `process_inject_arguments`.
  pub keep_arguments :
      (process argc argv : ℕ) → Result (Unit {0}) × Kernel W → Result (Unit {0}) × Kernel W
  keep_arguments process argc argv (err e, k) = (err e, k)
  keep_arguments process argc argv (ok _, k) = (
    ok tt,
    record k {
      program = update k.program process (record (k.program process) { argc = argc; argv = argv });
    },
  )

  -- The part behind the count.
  pub inject_counted :
      (fuel : ℕ) → Kernel W → (process root argc : ℕ) → Option (Result (Unit {0}) × Kernel W)
  unfolding inject_loop keep_arguments malloc_for
  inject_counted fuel k process root argc = elim (malloc_for k process (4 * argc)) [
    | none ↦ none
    | some (argv, k') ↦
        if argv == 0
        then some (err Status.enomem, k')
        else elim (inject_loop fuel k' process root argv 0) [
          | none ↦ none
          | some r ↦ some (keep_arguments process argc argv r)
        ]
  ]

  pub process_inject_arguments :
      (fuel : ℕ) → Kernel W → (process root : ℕ) → Option (Result (Unit {0}) × Kernel W)
  unfolding inject_counted
  process_inject_arguments fuel k process root =
      elim (process_count_commnad_arguments fuel k.words root) [
        | none ↦ none
        | some argc ↦
            if argc == 0 then some (err Status.eio, k) else inject_counted fuel k process root argc
      ]
