-- ===== src/Task/Removal.antt =====
-- Taking a task out of the list.
use liebe_os.Prelude.{
  ℕ, ◌≡◌, ◌≢◌, refl, sym, ap, ◌∙◌, inl, inr, true, false, List, [], ◌∷◌, ◌++◌, arith, ◌==◌,
  Bool-cases, update, update_self, update-ne, subst,
}
use liebe_os.Task.{
  Task, Tasks, task_get_next, unlink_from_prev, move_head, move_tail, move_current,
  task_list_remove,
}
use liebe_os.Task.Chain.{
  first, last_of, In, NotIn, Linked, IsCurrent, IsLinked, NotIn-zero, In-init, Linked-init,
  Linked-end, last-ne-zero, last-apart, last-snoc, NotIn-end,
}

-- The list but for the current task, which may be the removed one, `x`.
record IsRest (tasks : Tasks) (xs : List ℕ) (x : ℕ) : Type 0 where
  chain : Linked tasks.task 0 xs
  head_at : tasks.head ≡ first xs
  tail_at : tasks.tail ≡ last_of 0 xs
  current_in : In tasks.current (xs ++ x ∷ [])
  alone : (tasks.task x).next ≡ 0

first-IsCurrent : (xs : List ℕ) → IsCurrent (first xs) xs
first-IsCurrent [] = refl
first-IsCurrent (x ∷ xs) = inl refl

In-IsCurrent : (c : ℕ) (xs : List ℕ) → In c xs → IsCurrent c xs
In-IsCurrent c [] i = elim i [ ]
In-IsCurrent c (x ∷ xs) i = i

move_current-IsLinked :
    (tasks : Tasks) (xs : List ℕ) (x : ℕ) → IsRest tasks xs x → IsLinked (move_current tasks x) xs
unfolding move_current task_get_next
move_current-IsLinked tasks xs x is = elim (Bool-cases (x == tasks.current)) [
  | inl same ↦
      let e : x ≡ tasks.current = ground arith in
      let none_ : ((tasks.task tasks.current).next == 0) ≡ true =
        ap (λ c. (tasks.task c).next == 0) (sym e) ∙ ground (arith, is.alone) in
      rw (same, none_)
        (record {
          chain = is.chain;
          head_at = is.head_at;
          tail_at = is.tail_at;
          current_in = rw is.head_at (first-IsCurrent xs);
        })
  | inr other ↦ rw other (record {
    chain = is.chain;
    head_at = is.head_at;
    tail_at = is.tail_at;
    current_in =
        In-IsCurrent tasks.current xs (In-init tasks.current x xs is.current_in (ground arith));
  })
]

-- The steps before, on the one task and on the last of several.
only-IsRest :
    (tasks : Tasks) (x : ℕ)
    → IsLinked tasks (x ∷ [])
    → IsRest (move_tail (move_head (unlink_from_prev tasks x) x) x) [] x
unfolding unlink_from_prev move_head move_tail
only-IsRest tasks x is =
    let p : ((tasks.task x).prev == 0) ≡ true = ground (arith, is.chain.1) in
    let h : (x == tasks.head) ≡ true = ground (arith, is.head_at) in
    let t : (x == tasks.tail) ≡ true = ground (arith, is.tail_at) in
    rw (p, h, t)
      (record {
        chain = tt;
        head_at = is.chain.2;
        tail_at = is.chain.1;
        current_in = is.current_in;
        alone = is.chain.2;
      })

last-IsRest :
    (tasks : Tasks) (y : ℕ) (ys : List ℕ) (x l : ℕ)
    → l ≡ last_of 0 (y ∷ ys)
    → IsLinked tasks (y ∷ ys ++ x ∷ [])
    → IsRest (move_tail (move_head (unlink_from_prev tasks x) x) x) (y ∷ ys) x
unfolding unlink_from_prev move_head move_tail
last-IsRest tasks y ys x l at is =
    let (ne, before, after) = Linked-end tasks.task 0 (y ∷ ys) x is.chain in
    let on : (tasks.task x).prev ≡ l = before ∙ sym at in
    let apart : l ≢ x = rw at (last-apart tasks.task 0 y ys x is.chain) in
    let some_ : l ≢ 0 = rw at (last-ne-zero tasks.task 0 y ys x is.chain) in
    let p : ((tasks.task x).prev == 0) ≡ false = ground (arith, on) in
    let h : (x == tasks.head) ≡ false = ground (arith, is.head_at, NotIn-end y x ys is.chain.3) in
    let t : (x == tasks.tail) ≡ true = ground (arith, is.tail_at, last-snoc y x ys) in
    let t' = update tasks.task l (record (tasks.task l) { next = (tasks.task x).next }) in
    let kept : update tasks.task l (record (tasks.task l) { next = (tasks.task x).next }) x
        ≡ tasks.task x =
      update-ne tasks.task l (record (tasks.task l) { next = (tasks.task x).next }) x
        (λ e. apart (sym e)) in
    rw (p, h, t, on)
      (record {
        chain =
            Linked-init tasks.task t' 0 y ys x is.chain
              (λ j ne_last.
                update-ne tasks.task l (record (tasks.task l) { next = (tasks.task x).next }) j
                  (λ e. ne_last (e ∙ at)))
              (subst (λ z. t' z ≡ record (tasks.task z) { next = 0 }) at
                (update_self tasks.task l (record (tasks.task l) { next = (tasks.task x).next })
                  ∙ ap (λ n. record (tasks.task l) { next = n }) after));
        head_at = is.head_at;
        tail_at = ap (λ (k : Task). k.prev) kept ∙ before;
        current_in = is.current_in;
        alone = ap (λ (k : Task). k.next) kept ∙ after;
      })

-- task_list_remove of the last task of a linked list of tasks leaves the others linked, and the
-- current task among them.
pub task_list_remove-last :
    (tasks : Tasks) (xs : List ℕ) (x : ℕ)
    → IsLinked tasks (xs ++ x ∷ [])
    → IsLinked (task_list_remove tasks x) xs
unfolding task_list_remove
task_list_remove-last tasks [] x is = move_current-IsLinked _ [] x (only-IsRest tasks x is)
task_list_remove-last tasks (y ∷ ys) x is =
    move_current-IsLinked _ (y ∷ ys) x (last-IsRest tasks y ys x (last_of 0 (y ∷ ys)) refl is)

-- The task behind another one points back to it.
next-prev :
    (t : ℕ → Task) (p : ℕ) (xs : List ℕ) (x : ℕ)
    → Linked t p xs
    → In x xs
    → (t x).next ≢ 0
    → (t (t x).next).prev ≡ x
next-prev t p [] x h i more = elim i [ ]
next-prev t p (y ∷ []) x h (inl e) more = absurd (more (ap (λ z. (t z).next) e ∙ h.2))
next-prev t p (y ∷ []) x h (inr i) more = elim i [ ]
next-prev t p (y ∷ z ∷ zs) x h (inl e) more =
    ap (λ w. (t w).prev) (ap (λ w. (t w).next) e ∙ h.2) ∙ h.4.1 ∙ sym e
next-prev t p (y ∷ z ∷ zs) x h (inr i) more = next-prev t y (z ∷ zs) x h.4 i more

-- No task stands before itself.
prev-ne :
    (t : ℕ → Task) (p : ℕ) (xs : List ℕ) (x : ℕ)
    → Linked t p xs
    → NotIn p xs
    → In x xs
    → (t x).prev ≢ x
prev-ne t p [] x h out i = elim i [ ]
prev-ne t p (y ∷ ys) x h out (inl e) = λ q. out.0 (sym h.1 ∙ ap (λ z. (t z).prev) (sym e) ∙ q ∙ e)
prev-ne t p (y ∷ ys) x h out (inr i) = prev-ne t y ys x h.4 h.3 i

In-ne-zero : (t : ℕ → Task) (p : ℕ) (xs : List ℕ) (x : ℕ) → Linked t p xs → In x xs → x ≢ 0
In-ne-zero t p [] x h i = elim i [ ]
In-ne-zero t p (y ∷ ys) x h (inl e) = λ z. h.0 (sym e ∙ z)
In-ne-zero t p (y ∷ ys) x h (inr i) = In-ne-zero t y ys x h.4 i

-- Only the first step writes to a task.
remove-task :
    (tasks : Tasks) (x : ℕ) → (task_list_remove tasks x).task ≡ (unlink_from_prev tasks x).task
unfolding task_list_remove move_head move_tail move_current
remove-task tasks x = current _ ∙ tail _ ∙ head _
  where
    current : (s : Tasks) → (move_current s x).task ≡ s.task
    current s = elim (Bool-cases (x == s.current)) [ inl e ↦ rw e | inr e ↦ rw e ]

    tail : (s : Tasks) → (move_tail s x).task ≡ s.task
    tail s = elim (Bool-cases (x == s.tail)) [ inl e ↦ rw e | inr e ↦ rw e ]

    head : (s : Tasks) → (move_head s x).task ≡ s.task
    head s = elim (Bool-cases (x == s.head)) [ inl e ↦ rw e | inr e ↦ rw e ]

unlink-update :
    (tasks : Tasks) (x : ℕ)
    → (tasks.task x).prev ≢ 0
    → (unlink_from_prev tasks x).task
      ≡ update tasks.task
          (tasks.task x).prev
          (record (tasks.task (tasks.task x).prev) { next = (tasks.task x).next })
unfolding unlink_from_prev
unlink-update tasks x some_ = let p : ((tasks.task x).prev == 0) ≡ false = ground arith in rw p

-- No step writes to the pointer backwards.
prev-unlink :
    (tasks : Tasks) (x j : ℕ) → ((unlink_from_prev tasks x).task j).prev ≡ (tasks.task j).prev
unfolding unlink_from_prev update
prev-unlink tasks x j = elim (Bool-cases ((tasks.task x).prev == 0)) [
  | inl e ↦ rw e
  | inr e ↦ rw e (elim (Bool-cases (j == (tasks.task x).prev)) [
    | inl same ↦
        rw same
          (ap (λ z. (tasks.task z).prev) (let q : (tasks.task x).prev ≡ j = ground arith in q))
    | inr other ↦ rw other
  ])
]

-- task_list_remove of a task in the middle of a linked list leaves its successor's prev pointing to
-- it, and when the successor is removed next, the task before both still leads to the successor.
pub task_list_remove-stale :
    (tasks : Tasks) (xs : List ℕ) (x : ℕ)
    → IsLinked tasks xs
    → In x xs
    → (tasks.task x).next ≢ 0
    → (tasks.task x).prev ≢ 0
    → (((task_list_remove tasks x).task (tasks.task x).next).prev ≡ x)
      × (((task_list_remove (task_list_remove tasks x) (tasks.task x).next).task
            (tasks.task x).prev).next
          ≡ (tasks.task x).next)
task_list_remove-stale tasks xs x is i more before =
    let y = (tasks.task x).next in
    let p = (tasks.task x).prev in
    let s = task_list_remove tasks x in
    let back : (s.task y).prev ≡ x =
      ap (λ (t : ℕ → Task). (t y).prev) (remove-task tasks x)
      ∙ prev-unlink tasks x y
      ∙ next-prev tasks.task 0 xs x is.chain i more in
    let apart : p ≢ x =
      prev-ne tasks.task 0 xs x is.chain (NotIn-zero tasks.task 0 xs is.chain) i in
    let some_ : (s.task y).prev ≢ 0 = λ e. In-ne-zero tasks.task 0 xs x is.chain i (sym back ∙ e) in
    let led : (s.task p).next ≡ y =
      ap (λ (t : ℕ → Task). (t p).next) (remove-task tasks x ∙ unlink-update tasks x before)
      ∙ ap (λ (k : Task). k.next) (update_self tasks.task p (record (tasks.task p) { next = y })) in
    (
      back,
      ap (λ (t : ℕ → Task). (t p).next) (remove-task s y ∙ unlink-update s y some_)
          ∙ ap (λ (k : Task). k.next)
              (update-ne s.task (s.task y).prev
                (record (s.task (s.task y).prev) { next = (s.task y).next }) p
                (λ e. apart (e ∙ back)))
          ∙ led,
    )
