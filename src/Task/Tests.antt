-- ===== src/Task/Tests.antt =====
-- The list of tasks and the copy of a text, on small inputs.
use liebe_os.Prelude.{
  ℕ, ◌*◌, ◌≤◌, ◌≡◌, refl, [], ◌∷◌, length, inl, inr, arith, ◌==◌, if◌then◌else◌, some, ok, ◌≢◌,
  false,
}
use liebe_os.Heap.{is_taken}
use liebe_os.Paging.Sample.{words, words-IsDirectory}
use liebe_os.Task.{Task, Tasks, no_registers, append, task_list_remove}
use liebe_os.Task.Copy.{Copying, copy_string_from_task}
use liebe_os.Task.Chain.{Linked, NotIn, IsLinked, append-IsLinked}
use liebe_os.Task.Removal.{task_list_remove-stale}
use liebe_os.Task.Rounds.{Turns, task_next-comes}
use liebe_os.Task.Texts.{HasBlock, SameEntries, copy_string_from_task-gives_back}

abbrev linked_to : (prev next : ℕ) → Task
linked_to prev next = record {
  page_directory = 0x800000;
  registers = no_registers;
  process = 7;
  next = next;
  prev = prev;
}

-- The tasks at 64, 128 and 192; the second is the current one.
abbrev tasks : Tasks
tasks = record {
  task = λ j.
      if j == 64
      then linked_to 0 128
      else if j == 128
      then linked_to 64 192
      else if j == 192
      then linked_to 128 0
      else linked_to 0 0;
  head = 64;
  tail = 192;
  current = 128;
  loaded = 0;
}

apart : (a b : ℕ) → (a == b) ≡ false → a ≢ b
apart a b e same = ground (arith, e, same)

out_128 : NotIn 128 (192 ∷ [])
out_128 = (apart 128 192 refl, tt)

out_64 : NotIn 64 (128 ∷ 192 ∷ [])
out_64 = let rest : NotIn 64 (192 ∷ []) = (apart 64 192 refl, tt) in (apart 64 128 refl, rest)

out_256 : NotIn 256 (64 ∷ 128 ∷ 192 ∷ [])
out_256 =
    let rest : NotIn 256 (128 ∷ 192 ∷ []) =
      let last : NotIn 256 (192 ∷ []) = (apart 256 192 refl, tt) in (apart 256 128 refl, last) in
    (apart 256 64 refl, rest)

tasks-IsLinked : IsLinked tasks (64 ∷ 128 ∷ 192 ∷ [])
tasks-IsLinked =
    let third : Linked tasks.task 128 (192 ∷ []) = (apart 192 0 refl, refl, refl, tt, tt) in
    let second : Linked tasks.task 64 (128 ∷ 192 ∷ []) =
      (apart 128 0 refl, refl, refl, out_128, third) in
    record {
      chain = (apart 64 0 refl, refl, refl, out_64, second);
      head_at = refl;
      tail_at = refl;
      current_in = inr (inl refl);
    }

append-IsLinked_example : IsLinked (append tasks 256) (64 ∷ 128 ∷ 192 ∷ 256 ∷ [])
append-IsLinked_example =
    append-IsLinked tasks (64 ∷ 128 ∷ 192 ∷ []) 256 tasks-IsLinked (apart 256 0 refl) out_256 refl
      refl

task_list_remove-stale_example :
    (((task_list_remove tasks 128).task 192).prev ≡ 128)
    × (((task_list_remove (task_list_remove tasks 128) 192).task 64).next ≡ 192)
task_list_remove-stale_example =
    task_list_remove-stale tasks (64 ∷ 128 ∷ 192 ∷ []) 128 tasks-IsLinked (inr (inl refl))
      (apart 192 0 refl) (apart 64 0 refl)

task_next-comes_example :
    (k : ℕ) × (tasks' : Tasks) × (k ≤ 2 * length {A = ℕ} (64 ∷ 128 ∷ 192 ∷ []))
    × Turns (λ a. a) k tasks tasks'
    × (tasks'.current ≡ 64)
task_next-comes_example =
    task_next-comes (λ a. a) tasks 64 (128 ∷ 192 ∷ []) 64 tasks-IsLinked (inl refl)

abbrev copying : Copying
copying = record {
  heap = record {
    saddr = 0x1000000;
    total = 16;
    entries = λ j. if j == 0 then 1 else 0;
    below = λ n. 0;
  };
  words = words;
  mem = λ a. 65;
}

copying-HasBlock : HasBlock copying.heap 1
unfolding is_taken
copying-HasBlock = record {
  sound = record {
    starts = omega arith;
    fits = omega arith;
    small = omega arith;
    clean = λ j lt open_. ground arith;
  };
  aligned = refl;
  below = omega arith;
  inside = omega arith;
  run = λ j lo hi. ground arith;
}

copy_string_from_task_example :
    (c' : Copying) × (copy_string_from_task copying 0x800000 0x400000 0x7000 1024
      ≡ some (ok tt, c'))
    × (c'.heap ≡ copying.heap)
    × SameEntries copying.words c'.words 0x800000
copy_string_from_task_example =
    copy_string_from_task-gives_back copying 0x800000 0x400000 0x7000 1024 1 copying-HasBlock
      (omega arith) (omega arith) words-IsDirectory
