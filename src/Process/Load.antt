-- ===== src/Process/Load.antt =====
-- The loading of a program in task/process.c: its file, its memory, its task, and its slot.
use liebe_os.Prelude.{
  ℕ, zero, suc, Option, none, some, List, [], ◌∷◌, ◌==◌, if◌then◌else◌, update, pos, Status, code,
  Result, ok, err,
}
use liebe_os.Memory.{Memory}
use liebe_os.Paging.{Words}
use liebe_os.Task.{task_new, task_free, directory_of}
use liebe_os.File.{fopen, fread, fstat}
use liebe_os.Elf.{header_at}
use liebe_os.Elf.Load.{Loader, take_block, elf_load, finish, read_only}
use liebe_os.Process.Mapping.{process_map_memory}
use liebe_os.Process.Program.{
  Program, Kernel, process_init, process_size, stack_size, filetype_elf, filetype_binary,
  error_pointer, system_of, with_system, process_get, process_get_free_slot, process_switch,
}

-- `strncpy` of a text to the 108 bytes of `filename`.
unfoldable pub take : ℕ → List ℕ → List ℕ
take zero text = []
take (suc n) [] = []
take (suc n) (c ∷ text) = c ∷ take n text

module _ {W : Type 0} (memory : W → Memory) (with_memory : W → Memory → W) (signature : ℕ) where
  -- The part of `process_load_binary` behind `fread`, with its result.
  pub keep_binary : (ptr size : ℕ) → Program → Result ℕ → Loader W → Result Program × Loader W
  keep_binary ptr size program (err _) loader = (err Status.eio, loader)
  keep_binary ptr size program (ok n) loader =
      if n == 1
      then (ok (record program { filetype = filetype_binary; ptr = ptr; size = size }), loader)
      else (err Status.eio, loader)

  -- The part behind `fopen`.
  pub read_binary : (fd : ℕ) → Program → Loader W → Result Program × Loader W
  unfolding keep_binary
  read_binary fd program loader =
      let (stat, files) = fstat loader.files (pos fd) in
      elim stat [
        | err e ↦ (err e, record loader { files = files })
        | ok stat ↦
            let (ptr, loader') =
              take_block memory with_memory signature (record loader { files = files })
                stat.filesize in
            let (res, files') = fread loader'.files ptr stat.filesize 1 (pos fd) in
            if ptr == 0
            then (err Status.enomem, loader')
            else keep_binary ptr stat.filesize program res (record loader' { files = files' })
      ]

  pub process_load_binary : (filename : List ℕ) → Program → Loader W → Result Program × Loader W
  unfolding read_binary
  process_load_binary filename program loader =
      let (fd, files) = fopen loader.files filename read_only in
      let opened : Loader W = record loader { files = files } in
      if fd == 0
      then finish memory with_memory signature 0 (err Status.eio) opened
      else let (res, loader') = read_binary fd program opened in
        finish memory with_memory signature fd res loader'

  pub process_load_elf : (filename : List ℕ) → Program → Loader W → Result Program × Loader W
  process_load_elf filename program loader =
      let (res, loader') = elf_load memory with_memory signature loader filename in
      elim res [
        | err e ↦ (err e, loader')
        | ok (file, contents) ↦ (
          ok (record program { filetype = filetype_elf; ptr = file; elf_file = contents }),
          loader',
        )
      ]

  -- The second attempt, after the first one's result.
  pub or_binary :
      (filename : List ℕ) → Program → Result Program × Loader W → Result Program × Loader W
  unfolding process_load_binary
  or_binary filename program (err Status.einformat, loader) =
      process_load_binary filename program loader
  or_binary filename program (res, loader) = (res, loader)

  pub process_load_data : (filename : List ℕ) → Program → Loader W → Result Program × Loader W
  unfolding process_load_elf or_binary
  process_load_data filename program loader =
      or_binary filename program (process_load_elf filename program loader)

  -- The entry that `task_init` takes from an ELF file's header.
  unfoldable pub entry_of : Loader W → Program → Option ℕ
  entry_of loader program =
      if program.filetype == filetype_elf
      then some (header_at (memory loader.files.world) program.elf_file.elf_memory).e_entry
      else none

  -- The end of `process_load_for_slot` with an error, for a task that is not NULL. `none`: `kfree`
  -- has no result.
  unfoldable pub drop_task : Kernel W → (task : ℕ) → Status → Option (Result ℕ × Kernel W)
  drop_task k task e = elim (task_free (system_of k) task) [
    | none ↦ none
    | some sys ↦ some (err e, with_system k sys)
  ]

  -- The part behind `process_map_memory`, with its result.
  unfoldable pub enter_slot :
      Kernel W
      → (process slot : ℕ) → Program
      → Result (Unit {0}) × Words
      → Option (Result ℕ × Kernel W)
  unfolding drop_task
  enter_slot k process slot program (err e, words) =
      drop_task (record k { words = words }) program.task e
  enter_slot k process slot program (ok _, words) = some (
    ok process,
    record k {
      words = words;
      program = update k.program process program;
      slots = update k.slots slot process;
    },
  )

  -- The part behind `task_new`, whose pointer is only compared with NULL; `out` is what the caller's pointer
  -- holds.
  unfoldable pub with_task :
      Kernel W → (process slot out : ℕ) → Program → Result ℕ → Option (Result ℕ × Kernel W)
  unfolding enter_slot process_map_memory
  with_task k process slot out program res =
      let task : ℕ = elim res [ ok task ↦ task | err e ↦ error_pointer (code e) ] in
      let program' : Program = record program { task = task } in
      let mapped =
        process_map_memory (memory k.loader.files.world) k.words (directory_of k.words k.tasks task)
          program' in
      if task == 0
      then some (ok out, k)
      else elim mapped [ none ↦ none | some mapped ↦ enter_slot k process slot program' mapped ]

  -- The part behind `process_load_data`, with its result.
  unfoldable pub with_data :
      Kernel W
      → (process slot out : ℕ) → (filename : List ℕ) → Result Program × Loader W
      → Option (Result ℕ × Kernel W)
  unfolding with_task entry_of take
  with_data k process slot out filename (err e, loader) = some (err e, record k { loader = loader })
  with_data k process slot out filename (ok program, loader) =
      let (stack, loader') = take_block memory with_memory signature loader stack_size in
      let k' : Kernel W = record k { loader = loader' } in
      let named : Program = record program {
        filename = take 107 filename;
        stack = stack;
        id = slot;
      } in
      if stack == 0
      then some (err Status.enomem, k')
      else elim (task_new (system_of k') process (entry_of loader' named)) [
        | none ↦ none
        | some (res, sys) ↦ with_task (with_system k' sys) process slot out named res
      ]

  -- A slot is a number below `max_processes`. The structure's memory is not checked to be allocated.
  unfoldable pub process_load_for_slot :
      Kernel W → (filename : List ℕ) → (slot out : ℕ) → Option (Result ℕ × Kernel W)
  unfolding with_data process_load_data
  process_load_for_slot k filename slot out =
      let (process, loader) = take_block memory with_memory signature k.loader process_size in
      if process_get k.slots (pos slot) == 0
      then with_data (record k { loader = loader }) process slot out filename
          (process_load_data filename process_init loader)
      else some (err Status.eistkn, k)

  unfoldable pub process_load :
      Kernel W → (filename : List ℕ) → (out : ℕ) → Option (Result ℕ × Kernel W)
  unfolding process_load_for_slot
  process_load k filename out = elim (process_get_free_slot k.slots) [
    | none ↦ some (err Status.eistkn, k)
    | some slot ↦ process_load_for_slot k filename slot out
  ]

  -- `process_switch` of a process that was loaded.
  pub switch_to : Result ℕ × Kernel W → Result ℕ × Kernel W
  switch_to (err e, k) = (err e, k)
  switch_to (ok process, k) = (ok process, process_switch k process)

  pub process_load_switch :
      Kernel W → (filename : List ℕ) → (out : ℕ) → Option (Result ℕ × Kernel W)
  unfolding process_load switch_to
  process_load_switch k filename out = elim (process_load k filename out) [
    | none ↦ none
    | some r ↦ some (switch_to r)
  ]
