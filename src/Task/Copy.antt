-- ===== src/Task/Copy.antt =====
-- copy_string_from_task of task/task.c: a text of a task's memory, copied through a page of the kernel's.
use liebe_os.Prelude.{
  ℕ, ◌+◌, ◌-◌, ◌^◌, ◌%◌, Option, none, some, bit_or, ltb, leb, ◌==◌, if◌then◌else◌, Status, Result,
  ok, err,
}
use liebe_os.Memory.{Memory}
use liebe_os.Text.{Text, strncpy}
use liebe_os.Heap.{Heap}
use liebe_os.Heap.Kernel.{kfree, kzalloc}
use liebe_os.Paging.{
  Words, page_size, is_present, is_writeable, access_from_all, paging_get, paging_map, paging_set,
  paging_get_physical_address,
}

-- The text at a virtual address, as the task's directory places it.
abbrev pub task_text : Words → (directory : ℕ) → Memory → (virtual : ℕ) → Text
task_text words directory mem virtual i =
    mem (paging_get_physical_address words directory ((virtual + i) % 2 ^ 32))

-- `strncpy(dest, ...)` of a text into memory
abbrev pub write_text : Memory → (dest : ℕ) → Text → (max : ℕ) → Memory
write_text mem dest text max a =
    if ltb a dest then mem a else strncpy (λ i. mem (dest + i)) text max (a - dest)

-- What `copy_string_from_task` works on.
pub record Copying : Type 0 where
  pub heap : Heap
  pub words : Words
  pub mem : Memory

-- The copies of `copy_string_from_task` with the page of `tmp` mapped to itself in the task's directory,
-- and the old entry set again. `tmp` is on one page, so that the task's directory places it where the
-- kernel's does. The words are those of the directories, which the copies do not touch.
unfoldable pub copy_through :
    Copying → (directory tmp virtual physical max : ℕ) → Result (Unit {0}) × Copying
copy_through c directory tmp virtual physical max =
    let old_entry = paging_get c.words directory tmp in
    let (_, words1) =
      paging_map c.words directory tmp tmp
        (bit_or (bit_or is_writeable is_present) access_from_all) in
    let mem1 = write_text c.mem tmp (task_text words1 directory c.mem virtual) max in
    let (res, words2) = paging_set words1 directory tmp old_entry in
    elim res [
      | err _ ↦ (err Status.eio, record c { words = words2; mem = mem1 })
      | ok _ ↦ (
        ok tt,
        record c { words = words2; mem = write_text mem1 physical (λ i. mem1 (tmp + i)) max },
      )
    ]

-- `kfree(tmp)` at the end; `none` where it has no result.
unfoldable pub free_tmp :
    (tmp : ℕ) → Result (Unit {0}) × Copying → Option (Result (Unit {0}) × Copying)
unfolding kfree
free_tmp tmp (res, c) = elim (kfree c.heap tmp) [
  | none ↦ none
  | some heap ↦ some (res, record c { heap = heap })
]

-- The part of `copy_string_from_task` behind `kzalloc`.
unfoldable pub copy_with :
    Copying → (directory tmp virtual physical max : ℕ) → Option (Result (Unit {0}) × Copying)
unfolding copy_through free_tmp
copy_with c directory tmp virtual physical max =
    if tmp == 0
    then some (err Status.enomem, c)
    else free_tmp tmp (copy_through c directory tmp virtual physical max)

unfoldable pub copy_string_from_task :
    Copying → (directory virtual physical max : ℕ) → Option (Result (Unit {0}) × Copying)
unfolding copy_with
copy_string_from_task c directory virtual physical max =
    if leb page_size max
    then some (err Status.einvarg, c)
    else let (tmp, heap, mem) = kzalloc c.heap c.mem max in
      copy_with (record c { heap = heap; mem = mem }) directory tmp virtual physical max
