-- ===== src/Task/Chain.antt =====
-- The list of tasks: what keeps it linked both ways, and what breaks it.
use liebe_os.Prelude.{
  ℕ, ◌≡◌, ◌≢◌, refl, sym, ap, ◌∙◌, ◌⊎◌, inl, inr, true, false, List, [], ◌∷◌, ◌++◌, arith, ◌==◌,
  update, update_self, update-ne,
}
use liebe_os.Task.{Task, Tasks, append}

-- The first task, with 0 for none, and the last one, with `p` for none.
abbrev pub first : List ℕ → ℕ
first [] = 0
first (x ∷ xs) = x

abbrev pub last_of : ℕ → List ℕ → ℕ
last_of p [] = p
last_of p (x ∷ xs) = last_of x xs

abbrev pub In : ℕ → List ℕ → Type 0
In x [] = ⊥
In x (y ∷ ys) = (x ≡ y) ⊎ In x ys

abbrev pub NotIn : ℕ → List ℕ → Type 0
NotIn x [] = Unit {0}
NotIn x (y ∷ ys) = (x ≢ y) × NotIn x ys

-- The tasks are linked to one another in this order, both ways, and are not NULL; `p` stands before.
abbrev pub Linked : (ℕ → Task) → (p : ℕ) → List ℕ → Type 0
Linked t p [] = Unit {0}
Linked t p (x ∷ xs) =
    (x ≢ 0) × ((t x).prev ≡ p) × ((t x).next ≡ first xs) × NotIn x xs × Linked t x xs

abbrev pub IsCurrent : ℕ → List ℕ → Type 0
IsCurrent c [] = c ≡ 0
IsCurrent c (x ∷ xs) = In c (x ∷ xs)

-- The list of all tasks is `xs`.
pub record IsLinked (tasks : Tasks) (xs : List ℕ) : Type 0 where
  pub chain : Linked tasks.task 0 xs
  pub head_at : tasks.head ≡ first xs
  pub tail_at : tasks.tail ≡ last_of 0 xs
  pub current_in : IsCurrent tasks.current xs

pub NotIn-last : (x w : ℕ) (y : ℕ) (ys : List ℕ) → NotIn x (y ∷ ys) → x ≢ last_of w (y ∷ ys)
NotIn-last x w y [] h = h.0
NotIn-last x w y (z ∷ zs) h = NotIn-last x y z zs h.1

pub NotIn-ne : (x y : ℕ) (xs : List ℕ) → NotIn x xs → In y xs → y ≢ x
NotIn-ne x y [] h i = elim i [ ]
NotIn-ne x y (z ∷ zs) h (inl e) = λ q. h.0 (sym q ∙ e)
NotIn-ne x y (z ∷ zs) h (inr i) = NotIn-ne x y zs h.1 i

pub NotIn-snoc : (x y : ℕ) (xs : List ℕ) → NotIn x xs → x ≢ y → NotIn x (xs ++ y ∷ [])
NotIn-snoc x y [] h ne = (ne, tt)
NotIn-snoc x y (z ∷ zs) h ne = (h.0, NotIn-snoc x y zs h.1 ne)

pub NotIn-init : (x y : ℕ) (xs : List ℕ) → NotIn x (xs ++ y ∷ []) → NotIn x xs
NotIn-init x y [] h = tt
NotIn-init x y (z ∷ zs) h = (h.0, NotIn-init x y zs h.1)

pub NotIn-zero : (t : ℕ → Task) (p : ℕ) (xs : List ℕ) → Linked t p xs → NotIn 0 xs
NotIn-zero t p [] h = tt
NotIn-zero t p (x ∷ xs) h = ((λ e. h.0 (sym e)), NotIn-zero t x xs h.4)

pub In-snoc : (x y : ℕ) (xs : List ℕ) → In x xs → In x (xs ++ y ∷ [])
In-snoc x y [] i = elim i [ ]
In-snoc x y (z ∷ zs) (inl e) = inl e
In-snoc x y (z ∷ zs) (inr i) = inr (In-snoc x y zs i)

-- A store in which the last task leads on to a new one.
pub Linked-snoc :
    (t t' : ℕ → Task) (p y : ℕ) (ys : List ℕ) (x : ℕ)
    → Linked t p (y ∷ ys)
    → x ≢ 0
    → NotIn x (y ∷ ys)
    → ((j : ℕ) → j ≢ last_of p (y ∷ ys) → j ≢ x → t' j ≡ t j)
    → (t' (last_of p (y ∷ ys))).prev ≡ (t (last_of p (y ∷ ys))).prev
    → (t' (last_of p (y ∷ ys))).next ≡ x
    → (t' x).prev ≡ last_of p (y ∷ ys)
    → (t' x).next ≡ 0
    → Linked t' p (y ∷ ys ++ x ∷ [])
Linked-snoc t t' p y [] x h ne out same back on before after =
    let end : Linked t' y (x ∷ []) = (ne, before, after, tt, tt) in
    (h.0, back ∙ h.1, on, ((λ e. out.0 (sym e)), tt), end)
Linked-snoc t t' p y (z ∷ zs) x h ne out same back on before after =
    let kept : t' y ≡ t y = same y (NotIn-last y y z zs h.3) (λ e. out.0 (sym e)) in
    (
      h.0,
      ap (λ (k : Task). k.prev) kept ∙ h.1,
      ap (λ (k : Task). k.next) kept ∙ h.2,
      NotIn-snoc y x (z ∷ zs) h.3 (λ e. out.0 (sym e)),
      Linked-snoc t t' y z zs x h.4 ne out.1 same back on before after,
    )

pub last-snoc : (p x : ℕ) (xs : List ℕ) → last_of p (xs ++ x ∷ []) ≡ x
last-snoc p x [] = refl
last-snoc p x (y ∷ ys) = last-snoc y x ys

-- Where the list of tasks is linked both ways, with its head, its tail and the current task in it,
-- the part of task_new that puts in a task that is not NULL, not in the list, and has no neighbours
-- keeps it so, with the new task at the end.
pub append-IsLinked :
    (tasks : Tasks) (xs : List ℕ) (x : ℕ)
    → IsLinked tasks xs
    → x ≢ 0
    → NotIn x xs
    → (tasks.task x).next ≡ 0
    → (tasks.task x).prev ≡ 0
    → IsLinked (append tasks x) (xs ++ x ∷ [])
unfolding append
append-IsLinked tasks [] x is ne out no_next no_prev =
    let z : (tasks.head == 0) ≡ true = ground (arith, is.head_at) in
    rw z (record {
      chain = (ne, no_prev, no_next, tt, tt);
      head_at = refl;
      tail_at = refl;
      current_in = inl refl;
    })
append-IsLinked tasks (y ∷ ys) x is ne out no_next no_prev =
    let z : (tasks.head == 0) ≡ false = ground (arith, is.head_at, is.chain.0) in
    let l = last_of 0 (y ∷ ys) in
    let apart : x ≢ l = NotIn-last x 0 y ys out in
    let t1 = update tasks.task l (record (tasks.task l) { next = x }) in
    let at_x : t1 x ≡ tasks.task x =
      update-ne tasks.task l (record (tasks.task l) { next = x }) x apart in
    let t2 = update t1 x (record (t1 x) { prev = l }) in
    let at_l : t2 l ≡ record (tasks.task l) { next = x } =
      update-ne t1 x (record (t1 x) { prev = l }) l (λ e. apart (sym e))
      ∙ update_self tasks.task l (record (tasks.task l) { next = x }) in
    let at_x2 : t2 x ≡ record (t1 x) { prev = l } = update_self t1 x (record (t1 x) { prev = l }) in
    rw (z, is.tail_at)
      (record {
        chain =
            Linked-snoc tasks.task t2 0 y ys x is.chain ne out
              (λ j nl nx.
                update-ne t1 x (record (t1 x) { prev = l }) j nx
                ∙ update-ne tasks.task l (record (tasks.task l) { next = x }) j nl)
              (ap (λ (k : Task). k.prev) at_l) (ap (λ (k : Task). k.next) at_l)
              (ap (λ (k : Task). k.prev) at_x2)
              (ap (λ (k : Task). k.next) at_x2 ∙ ap (λ (k : Task). k.next) at_x ∙ no_next);
        head_at = is.head_at;
        tail_at = sym (last-snoc 0 x (y ∷ ys));
        current_in = In-snoc tasks.current x (y ∷ ys) is.current_in;
      })

-- Leaving out the last task.
pub Linked-init :
    (t t' : ℕ → Task) (p y : ℕ) (ys : List ℕ) (x : ℕ)
    → Linked t p (y ∷ ys ++ x ∷ [])
    → ((j : ℕ) → j ≢ last_of p (y ∷ ys) → t' j ≡ t j)
    → t' (last_of p (y ∷ ys)) ≡ record (t (last_of p (y ∷ ys))) { next = 0 }
    → Linked t' p (y ∷ ys)
Linked-init t t' p y [] x h same at_last =
    (h.0, ap (λ (k : Task). k.prev) at_last ∙ h.1, ap (λ (k : Task). k.next) at_last, tt, tt)
Linked-init t t' p y (z ∷ zs) x h same at_last =
    let kept : t' y ≡ t y = same y (NotIn-last y y z zs (NotIn-init y x (z ∷ zs) h.3)) in
    (
      h.0,
      ap (λ (k : Task). k.prev) kept ∙ h.1,
      ap (λ (k : Task). k.next) kept ∙ h.2,
      NotIn-init y x (z ∷ zs) h.3,
      Linked-init t t' y z zs x h.4 same at_last,
    )

-- The last task of a list has no next one, and the one before it is the last of the rest.
pub Linked-end :
    (t : ℕ → Task) (p : ℕ) (xs : List ℕ) (x : ℕ)
    → Linked t p (xs ++ x ∷ [])
    → (x ≢ 0) × ((t x).prev ≡ last_of p xs) × ((t x).next ≡ 0)
Linked-end t p [] x h = (h.0, h.1, h.2)
Linked-end t p (y ∷ ys) x h = Linked-end t y ys x h.4

pub last-ne-zero :
    (t : ℕ → Task) (p y : ℕ) (ys : List ℕ) (x : ℕ)
    → Linked t p (y ∷ ys ++ x ∷ [])
    → last_of p (y ∷ ys) ≢ 0
last-ne-zero t p y [] x h = h.0
last-ne-zero t p y (z ∷ zs) x h = last-ne-zero t y z zs x h.4

pub NotIn-end : (x y : ℕ) (xs : List ℕ) → NotIn x (xs ++ y ∷ []) → x ≢ y
NotIn-end x y [] h = h.0
NotIn-end x y (z ∷ zs) h = NotIn-end x y zs h.1

-- The last of the rest is not the last one.
pub last-apart :
    (t : ℕ → Task) (p y : ℕ) (ys : List ℕ) (x : ℕ)
    → Linked t p (y ∷ ys ++ x ∷ [])
    → last_of p (y ∷ ys) ≢ x
last-apart t p y [] x h = h.3.0
last-apart t p y (z ∷ zs) x h = last-apart t y z zs x h.4

pub In-init : (c x : ℕ) (xs : List ℕ) → In c (xs ++ x ∷ []) → c ≢ x → In c xs
In-init c x [] (inl e) ne = absurd (ne e)
In-init c x [] (inr i) ne = i
In-init c x (y ∷ ys) (inl e) ne = inl e
In-init c x (y ∷ ys) (inr i) ne = inr (In-init c x ys i ne)
