-- ===== src/Process/Slots.antt =====
-- The slots when a process is loaded.
use liebe_os.Prelude.{
  ℕ, zero, suc, ◌+◌, ◌<◌, ◌≡◌, refl, sym, ap, ◌∙◌, inl, inr, arith, Bool-cases, Option, none, some,
  List, ◌==◌, update, update_self, update-ne, Status, Result, err, subst,
}
use liebe_os.Memory.{Memory}
use liebe_os.Process.Program.{Program, Kernel, max_processes, process_get_free_slot, free_slot_loop}
use liebe_os.Process.Load.{process_load_for_slot, process_load}
use liebe_os.Process.Entering.{
  KeepsSlots, IsSlots, IsNew, Outcome, next_process, process_load_for_slot-Outcome, Loaded,
}

free_slot_loop-empty :
    (left i : ℕ) (slots : ℕ → ℕ) (slot : ℕ)
    → free_slot_loop left i slots ≡ some slot
    → (slot < i + left) × (slots slot ≡ 0)
unfolding free_slot_loop
free_slot_loop-empty zero i slots slot e = absurd (ground (arith, e))
free_slot_loop-empty (suc left) i slots slot e = elim (Bool-cases (slots i == 0)) [
  | inl empty ↦
      let same : i ≡ slot = ground (arith, rw (empty, free_slot_loop) at e) in
      (omega (arith, same), subst (λ n. slots n ≡ 0) same (ground (arith, empty)))
  | inr full ↦
      let (lt, null) =
        free_slot_loop-empty left (i + 1) slots slot (rw (full, free_slot_loop) at e) in
      (omega (arith, lt), null)
]

module _ {W : Type 0} (memory : W → Memory) (with_memory : W → Memory → W) (signature : ℕ) where
  process_load-Loaded :
      (k : Kernel W) (filename : List ℕ) (out : ℕ)
      → Loaded memory with_memory signature k
          (process_load memory with_memory signature k filename out)
  unfolding process_load process_get_free_slot Loaded
  process_load-Loaded k filename out = slot_found (free_slot_loop max_processes 0 k.slots) refl
    where
      entered :
          (slot : ℕ) (r : Option (Result ℕ × Kernel W))
          → slot < max_processes
          → k.slots slot ≡ 0
          → Outcome k (next_process memory with_memory signature k) slot r
          → Loaded memory with_memory signature k r
      entered slot none lt null o = tt
      entered slot (some (res, k')) lt null (inl same) = inl same
      entered slot (some (res, k')) lt null (inr new) = inr (slot, lt, null, new)

      slot_found :
          (found : Option ℕ)
          → free_slot_loop max_processes 0 k.slots ≡ found
          → Loaded memory with_memory signature k (elim found [
            | none ↦ some (err Status.eistkn, k)
            | some slot ↦ process_load_for_slot memory with_memory signature k filename slot out
          ])
      slot_found none e = inl (record { slots = refl; program = refl })
      slot_found (some slot) e =
          let (lt, null) = free_slot_loop-empty max_processes 0 k.slots slot e in
          entered slot (process_load_for_slot memory with_memory signature k filename slot out)
            (omega (arith, lt)) null
            (process_load_for_slot-Outcome memory with_memory signature k filename slot out)

  Loaded-IsSlots :
      (k k' : Kernel W) (res : Result ℕ)
      → IsSlots k
      → IsNew k (next_process memory with_memory signature k)
      → Loaded memory with_memory signature k (some (res, k'))
      → IsSlots k'
  unfolding Loaded IsSlots
  Loaded-IsSlots k k' res is new (inl same) =
      λ i lt ne. rw (same.slots, same.program) (is i lt (λ e. ne (ap (λ s. s i) same.slots ∙ e)))
  Loaded-IsSlots k k' res is new (inr (slot, low, null, entered)) = λ i lt ne.
      elim (Bool-cases (i == slot)) [
        | inl same ↦
            let e : i ≡ slot = ground (arith, same) in
            let at_new : k'.slots i ≡ next_process memory with_memory signature k =
              ap (λ s. s i) entered.slots
              ∙ ap (update k.slots slot (next_process memory with_memory signature k)) e
              ∙ update_self k.slots slot (next_process memory with_memory signature k) in
            ap (λ q. (k'.program q).id) at_new ∙ entered.id ∙ sym e
        | inr other ↦
            let kept : k'.slots i ≡ k.slots i =
              ap (λ s. s i) entered.slots
              ∙ update-ne k.slots slot (next_process memory with_memory signature k) i
                  (ground (arith, other)) in
            ap (λ q. (k'.program q).id) kept
            ∙ ap (λ (c : Program). c.id) (entered.others (k.slots i) (new i lt))
            ∙ is i lt (λ z. ne (kept ∙ z))
      ]

  -- Where every process in a slot has the slot's number, and the block of the new process is not
  -- that of one of them, this holds after process_load, too, on every outcome that gives the kernel
  -- back.
  pub process_load-IsSlots :
      (k : Kernel W) (filename : List ℕ) (out : ℕ)
      → IsSlots k
      → IsNew k (next_process memory with_memory signature k)
      → KeepsSlots (process_load memory with_memory signature k filename out)
  process_load-IsSlots k filename out is new =
      kept (process_load memory with_memory signature k filename out)
        (process_load-Loaded k filename out)
    where
      kept :
          (r : Option (Result ℕ × Kernel W))
          → Loaded memory with_memory signature k r
          → KeepsSlots r
      kept none loaded = tt
      kept (some (res, k')) loaded = Loaded-IsSlots k k' res is new loaded
