-- ===== src/Task/Rounds.antt =====
-- The round of the tasks: task_next comes to every task of the list.
use liebe_os.Prelude.{
  ℕ, zero, suc, ◌+◌, ◌*◌, ◌≤◌, ◌≡◌, ◌≢◌, refl, sym, ap, ◌∙◌, inl, inr, false, List, [], ◌∷◌, arith,
  ◌==◌, some, length, subst,
}
use liebe_os.Paging.{Words}
use liebe_os.Task.{Tasks, Registers, task_get_next, task_switch, task_next}
use liebe_os.Task.Chain.{In, Linked, IsLinked}

-- `k` calls of task_next, none of which panics.
pub data Turns (words : Words) : ℕ → Tasks → Tasks → Type 0 where
  stay : {s : Tasks} → Turns words zero s s
  turn :
      {k : ℕ} {s t u : Tasks} (registers : Registers)
      → task_next words s ≡ some (t, registers)
      → Turns words k t u
      → Turns words (suc k) s u

Turns-trans :
    {words : Words} (j k : ℕ) {s t u : Tasks}
    → Turns words j s t
    → Turns words k t u
    → (n : ℕ) × (n ≤ j + k) × Turns words n s u
Turns-trans zero k stay later = (k, omega arith, later)
Turns-trans (suc j) k (turn r e early) later =
    let (n, le, all) = Turns-trans j k early later in (suc n, omega arith, turn r e all)

-- The same tasks in the same list.
record SameList (s t : Tasks) : Type 0 where
  task : t.task ≡ s.task
  head : t.head ≡ s.head

task_next-on :
    (words : Words) (s : Tasks) (c n : ℕ)
    → s.current ≡ c
    → (s.task c).next ≡ n
    → n ≢ 0
    → task_next words s ≡ some (task_switch words s n, (s.task n).registers)
unfolding task_next task_get_next
task_next-on words s c n at on ne =
    let e : (s.task s.current).next ≡ n = ap (λ z. (s.task z).next) at ∙ on in
    let z : (n == 0) ≡ false = ground arith in rw (e, z, z)

task_next-wrap :
    (words : Words) (s : Tasks) (c n : ℕ)
    → s.current ≡ c
    → (s.task c).next ≡ 0
    → s.head ≡ n
    → n ≢ 0
    → task_next words s ≡ some (task_switch words s n, (s.task n).registers)
unfolding task_next task_get_next
task_next-wrap words s c n at end first_ ne =
    let e : (s.task s.current).next ≡ 0 = ap (λ z. (s.task z).next) at ∙ end in
    let z : (n == 0) ≡ false = ground arith in rw (e, first_, z)

module _ (words : Words) where
  -- From the first task of a part of the list on to any task of the part.
  onwards :
      (s : Tasks) (p c : ℕ) (zs : List ℕ) (y : ℕ)
      → s.current ≡ c
      → Linked s.task p (c ∷ zs)
      → In y (c ∷ zs)
      → (k : ℕ) × (t : Tasks) × (k ≤ length zs) × Turns words k s t × (t.current ≡ y)
  unfolding task_switch
  onwards s p c zs y at h (inl e) = (0, s, omega arith, stay, at ∙ sym e)
  onwards s p c [] y at h (inr i) = elim i [ ]
  onwards s p c (d ∷ zs) y at h (inr i) =
      let (k, t, le, turns, there) = onwards (task_switch words s d) c d zs y refl h.4 i in
      (
        suc k,
        t,
        omega arith,
        turn (s.task d).registers (task_next-on words s c d at h.2 h.4.0) turns,
        there,
      )

  -- To the end of the list, and on to its first task.
  around :
      (s : Tasks) (p c : ℕ) (zs : List ℕ)
      → s.current ≡ c
      → Linked s.task p (c ∷ zs)
      → s.head ≢ 0
      → (t : Tasks) × Turns words (suc (length zs)) s t × (t.current ≡ s.head) × SameList s t
  unfolding task_switch
  around s p c [] at h ne = (
    task_switch words s s.head,
    turn (s.task s.head).registers (task_next-wrap words s c s.head at h.2 refl ne) stay,
    refl,
    record { task = refl; head = refl },
  )
  around s p c (d ∷ zs) at h ne =
      let (t, turns, there, same) = around (task_switch words s d) c d zs refl h.4 ne in
      (
        t,
        turn (s.task d).registers (task_next-on words s c d at h.2 h.4.0) turns,
        there,
        record { task = same.task; head = same.head },
      )

  -- From any task of a part of the list.
  home :
      (s : Tasks) (p : ℕ) (xs : List ℕ)
      → Linked s.task p xs
      → In s.current xs
      → s.head ≢ 0
      → (k : ℕ) × (t : Tasks) × (k ≤ length xs)
        × Turns words k s t
        × (t.current ≡ s.head)
        × SameList s t
  home s p [] h i ne = elim i [ ]
  home s p (x ∷ xs) h (inl e) ne =
      let (t, turns, there, same) = around s p x xs e h ne in
      (suc (length xs), t, omega arith, turns, there, same)
  home s p (x ∷ xs) h (inr i) ne =
      let (k, t, le, turns, there, same) = home s x xs h.4 i ne in
      (k, t, omega arith, turns, there, same)

-- In a linked list of tasks whose current task is in it, every task comes to be the current one
-- after at most two calls of task_next for each task of the list, and none of these calls panics.
pub task_next-comes :
    (words : Words) (tasks : Tasks) (x : ℕ) (xs : List ℕ) (y : ℕ)
    → IsLinked tasks (x ∷ xs)
    → In y (x ∷ xs)
    → (k : ℕ) × (tasks' : Tasks) × (k ≤ 2 * length (x ∷ xs))
      × Turns words k tasks tasks'
      × (tasks'.current ≡ y)
task_next-comes words tasks x xs y is i =
    let ne : tasks.head ≢ 0 = λ e. is.chain.0 (sym is.head_at ∙ e) in
    let (j, t, le, early, at_head, same) = home words tasks 0 (x ∷ xs) is.chain is.current_in ne in
    let (k, u, le', later, there) =
      onwards words t 0 x xs y (at_head ∙ is.head_at)
        (subst (λ t. Linked t 0 (x ∷ xs)) (sym same.task) is.chain) i in
    let (n, le'', all) = Turns-trans j k early later in (n, u, omega arith, all, there)
