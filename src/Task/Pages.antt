-- ===== src/Task/Pages.antt =====
-- Which directory the switches between tasks leave loaded.
use liebe_os.Prelude.{ℕ, ◌≡◌, refl, inl, inr, Bool-cases, Option, none, some, ◌==◌}
use liebe_os.Paging.{Words}
use liebe_os.Task.{
  Tasks, Registers, directory_of, task_get_next, task_next, task_page, task_switch,
  task_run_first_ever_task,
}

-- The current task's directory is loaded.
abbrev pub IsPaged : Words → Tasks → Type 0
IsPaged words tasks = tasks.loaded ≡ directory_of words tasks tasks.current

pub task_switch-IsPaged :
    (words : Words) (tasks : Tasks) (task : ℕ) → IsPaged words (task_switch words tasks task)
unfolding task_switch
task_switch-IsPaged words tasks task = refl

pub task_page-IsPaged : (words : Words) (tasks : Tasks) → IsPaged words (task_page words tasks)
unfolding task_page task_switch
task_page-IsPaged words tasks = refl

-- The task that goes on is the current one, with its own directory and registers.
abbrev pub GoesOn : Words → Option (Tasks × Registers) → Type 0
GoesOn words none = Unit {0}
GoesOn words (some (tasks, registers)) =
    IsPaged words tasks × (registers ≡ (tasks.task tasks.current).registers)

pub task_next-GoesOn : (words : Words) (tasks : Tasks) → GoesOn words (task_next words tasks)
unfolding task_next task_switch
task_next-GoesOn words tasks = elim (Bool-cases (task_get_next tasks == 0)) [
  | inl null ↦ rw (null, GoesOn, task_next) tt
  | inr other ↦ rw (other, GoesOn, task_next) (refl, refl)
]

-- The first task is the one that goes on.
abbrev pub FirstGoesOn : Words → Option (Tasks × Registers) → Type 0
FirstGoesOn words none = Unit {0}
FirstGoesOn words (some (tasks, registers)) =
    IsPaged words tasks
    × (registers ≡ (tasks.task tasks.current).registers)
    × (tasks.current ≡ tasks.head)

pub task_run_first_ever_task-FirstGoesOn :
    (words : Words) (tasks : Tasks) → FirstGoesOn words (task_run_first_ever_task words tasks)
unfolding task_run_first_ever_task task_switch
task_run_first_ever_task-FirstGoesOn words tasks = elim (Bool-cases (tasks.current == 0)) [
  | inl null ↦ rw (null, FirstGoesOn, task_run_first_ever_task) tt
  | inr other ↦ rw (other, FirstGoesOn, task_run_first_ever_task) (refl, refl, refl)
]
