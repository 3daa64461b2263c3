-- ===== src/Process/Entering.antt =====
-- What process_load_for_slot does to the slots and the processes.
use liebe_os.Prelude.{
  ℕ, ◌<◌, ◌≡◌, ◌≢◌, refl, ap, ◌∙◌, ◌⊎◌, inl, inr, Bool-cases, Option-cases, Option, none, some,
  List, ◌==◌, if◌then◌else◌, update, update_self, update-ne, pos, Status, code, Result, ok, err,
}
use liebe_os.Memory.{Memory}
use liebe_os.Paging.{Words}
use liebe_os.Task.{System, task_free, task_new, directory_of}
use liebe_os.Elf.Load.{Loader, take_block}
use liebe_os.Process.Mapping.{process_map_memory}
use liebe_os.Process.Program.{
  Program, Kernel, process_init, process_size, stack_size, max_processes, error_pointer, system_of,
  with_system, process_get,
}
use liebe_os.Process.Load.{
  drop_task, enter_slot, with_task, with_data, process_load_for_slot, process_load_data, entry_of,
  take,
}

module _ {W : Type 0} where
  -- Each process that stands in a slot has the slot's number.
  unfoldable pub IsSlots : Kernel W → Type 0
  IsSlots k = (i : ℕ) → i < max_processes → k.slots i ≢ 0 → (k.program (k.slots i)).id ≡ i

  -- A block that is not that of a process in a slot.
  abbrev pub IsNew : Kernel W → (process : ℕ) → Type 0
  IsNew k process = (i : ℕ) → i < max_processes → k.slots i ≢ process

  -- The slots after a call that gives a kernel back.
  abbrev pub KeepsSlots : Option (Result ℕ × Kernel W) → Type 0
  KeepsSlots none = Unit {0}
  KeepsSlots (some (res, k')) = IsSlots k'

  -- The slots and the processes are the same, or one process was put into a slot.
  pub record Same (k k' : Kernel W) : Type 0 where
    pub slots : k'.slots ≡ k.slots
    pub program : k'.program ≡ k.program

  pub record Entered (k : Kernel W) (process slot : ℕ) (res : Result ℕ) (k' : Kernel W)
      : Type 0 where
    pub result : res ≡ ok process
    pub slots : k'.slots ≡ update k.slots slot process
    pub id : (k'.program process).id ≡ slot
    pub others : (j : ℕ) → j ≢ process → k'.program j ≡ k.program j

  abbrev pub Outcome : Kernel W → (process slot : ℕ) → Option (Result ℕ × Kernel W) → Type 0
  Outcome k process slot none = Unit {0}
  Outcome k process slot (some (res, k')) = Same k k' ⊎ Entered k process slot res k'

  drop_task-Same :
      (memory : W → Memory) (with_memory : W → Memory → W) (signature : ℕ) (k0 k : Kernel W)
      (process slot task : ℕ) (e : Status)
      → Same k0 k
      → Outcome k0 process slot (drop_task memory with_memory signature k task e)
  unfolding drop_task
  drop_task-Same memory with_memory signature k0 k process slot task e same =
      elim (Option-cases (task_free (system_of k) task)) [
        | inl gone ↦ rw (gone, Outcome, drop_task) tt
        | inr (sys, went) ↦
            rw (went, Outcome, drop_task)
              (inl (record { slots = same.slots; program = same.program }))
      ]

  enter_slot-Outcome :
      (memory : W → Memory) (with_memory : W → Memory → W) (signature : ℕ) (k0 k : Kernel W)
      (process slot : ℕ) (program : Program) (mapped : Result (Unit {0}) × Words)
      → Same k0 k
      → program.id ≡ slot
      → Outcome k0 process slot
          (enter_slot memory with_memory signature k process slot program mapped)
  unfolding enter_slot
  enter_slot-Outcome memory with_memory signature k0 k process slot program (err e, words) same id =
      drop_task-Same memory with_memory signature k0 (record k { words = words }) process slot
        program.task e (record { slots = same.slots; program = same.program })
  enter_slot-Outcome memory with_memory signature k0 k process slot program (ok _, words) same id =
      inr (record {
        result = refl;
        slots = ap (λ s. update s slot process) same.slots;
        id = ap (λ (c : Program). c.id) (update_self k.program process program) ∙ id;
        others = λ j ne. update-ne k.program process program j ne ∙ ap (λ p. p j) same.program;
      })

  module _ (memory : W → Memory) (with_memory : W → Memory → W) (signature : ℕ) where
    with_task-Outcome :
        (k0 k : Kernel W) (process slot out : ℕ) (program : Program) (res : Result ℕ)
        → Same k0 k
        → program.id ≡ slot
        → Outcome k0 process slot
            (with_task memory with_memory signature k process slot out program res)
    unfolding with_task
    with_task-Outcome k0 k process slot out program res same id =
        placed (elim res [ ok task ↦ task | err e ↦ error_pointer (code e) ])
      where
        mapped : (task : ℕ) → Option (Result (Unit {0}) × Words)
        mapped task =
            process_map_memory (memory k.loader.files.world) k.words
              (directory_of k.words k.tasks task) (record program { task = task })

        entered :
            (task : ℕ) (m : Option (Result (Unit {0}) × Words))
            → Outcome k0 process slot (elim m [
              | none ↦ none
              | some m ↦
                  enter_slot memory with_memory signature k process slot
                    (record program { task = task })
                    m
            ])
        entered task none = tt
        entered task (some m) =
            enter_slot-Outcome memory with_memory signature k0 k process slot
              (record program { task = task }) m same id

        placed :
            (task : ℕ)
            → Outcome k0 process slot (
                if task == 0 then some (ok out, k) else elim (mapped task) [
                  | none ↦ none
                  | some m ↦
                      enter_slot memory with_memory signature k process slot
                        (record program { task = task })
                        m
                ])
        placed task = elim (Bool-cases (task == 0)) [
          | inl null ↦ rw null (inl same)
          | inr other ↦ rw other (entered task (mapped task))
        ]

    with_data-Outcome :
        (k0 k : Kernel W) (process slot out : ℕ) (filename : List ℕ)
        (data_ : Result Program × Loader W)
        → Same k0 k
        → Outcome k0 process slot
            (with_data memory with_memory signature k process slot out filename data_)
    unfolding with_data
    with_data-Outcome k0 k process slot out filename (err e, loader) same =
        inl (record { slots = same.slots; program = same.program })
    with_data-Outcome k0 k process slot out filename (ok program, loader) same =
        elim (Bool-cases ((take_block memory with_memory signature loader stack_size).0 == 0)) [
          | inl null ↦
              rw (null, Outcome, with_data)
                (inl (record { slots = same.slots; program = same.program }))
          | inr other ↦
              rw (other, Outcome, with_data)
                (started (
                  task_new (system_of (record k { loader = taken.1 })) process
                    (entry_of memory with_memory signature taken.1 named)))
        ]
      where
        taken : ℕ × Loader W
        taken = take_block memory with_memory signature loader stack_size

        named : Program
        named = record program { filename = take 107 filename; stack = taken.0; id = slot }

        started :
            (r : Option (Result ℕ × System))
            → Outcome k0 process slot (elim r [
              | none ↦ none
              | some (res, sys) ↦
                  with_task memory with_memory signature
                    (with_system (record k { loader = taken.1 }) sys)
                    process
                    slot
                    out
                    named
                    res
            ])
        started none = tt
        started (some (res, sys)) =
            with_task-Outcome k0 (with_system (record k { loader = taken.1 }) sys) process slot out
              named res (record { slots = same.slots; program = same.program }) refl

    -- The block that the next process gets.
    abbrev pub next_process : Kernel W → ℕ
    next_process k = (take_block memory with_memory signature k.loader process_size).0

    pub process_load_for_slot-Outcome :
        (k : Kernel W) (filename : List ℕ) (slot out : ℕ)
        → Outcome k
            (next_process k)
            slot
            (process_load_for_slot memory with_memory signature k filename slot out)
    unfolding process_load_for_slot
    process_load_for_slot-Outcome k filename slot out =
        let loader : Loader W = (take_block memory with_memory signature k.loader process_size).1 in
        elim (Bool-cases (process_get k.slots (pos slot) == 0)) [
          | inl empty ↦
              rw (empty, Outcome, process_load_for_slot)
                (with_data-Outcome k (record k { loader = loader }) (next_process k) slot out
                  filename
                  (process_load_data memory with_memory signature filename process_init loader)
                  (record { slots = refl; program = refl }))
          | inr full ↦
              rw (full, Outcome, process_load_for_slot)
                (inl (record { slots = refl; program = refl }))
        ]

    -- What `process_load` does to the slots.
    unfoldable pub Loaded : Kernel W → Option (Result ℕ × Kernel W) → Type 0
    Loaded k none = Unit {0}
    Loaded k (some (res, k')) =
        Same k k'
        ⊎ ((slot : ℕ) × (slot < max_processes)
            × (k.slots slot ≡ 0)
            × Entered k (next_process k) slot res k')
