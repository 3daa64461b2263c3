-- ===== src/Process/Unlink.antt =====
-- The slots when a process ends.
use liebe_os.Prelude.{
  ℕ, ◌<◌, ◌≡◌, ◌≢◌, sym, ap, ◌∙◌, inl, inr, arith, Bool-cases, Option, none, some, ◌==◌,
  if◌then◌else◌, update,
}
use liebe_os.Process.Program.{
  Program, Kernel, max_processes, process_unlink, process_switch_to_any, process_switch, any_loop,
}
use liebe_os.Process.Entering.{IsSlots}

module _ {W : Type 0} where
  -- Only the process's slot is cleared.
  process_unlink-slots :
      (k k' : Kernel W) (process : ℕ)
      → process_unlink k process ≡ some k'
      → (k'.slots ≡ update k.slots (k.program process).id 0) × (k'.program ≡ k.program)
  unfolding process_unlink process_switch_to_any process_switch
  process_unlink-slots k k' process e = elim (Bool-cases (k.current_process == process)) [
    | inl current ↦
        switched (any_loop max_processes 0 (update k.slots (k.program process).id 0))
          (rw (current, process_unlink) at e)
    | inr other ↦
        let same = some-injective (rw (other, process_unlink) at e) in
        (ap (λ (k : Kernel W). k.slots) (sym same), ap (λ (k : Kernel W). k.program) (sym same))
  ]
    where
      k1 : Kernel W
      k1 = record k { slots = update k.slots (k.program process).id 0 }

      some-injective : {a b : Kernel W} → some a ≡ some b → a ≡ b
      some-injective {a} {b} e = ap (λ (o : Option (Kernel W)). elim o [ none ↦ a | some c ↦ c ]) e

      switched :
          (any : Option ℕ)
          → (elim any [ none ↦ none | some p ↦ some (record k1 { current_process = p }) ]) ≡ some k'
          → (k'.slots ≡ update k.slots (k.program process).id 0) × (k'.program ≡ k.program)
      switched none e = absurd (ground (arith, e))
      switched (some p) e =
          let same = some-injective e in
          (ap (λ (k : Kernel W). k.slots) (sym same), ap (λ (k : Kernel W). k.program) (sym same))

  -- Where every process in a slot has the slot's number, process_unlink of a process in a slot, if
  -- it does not panic, clears this slot and no other one, and keeps this so.
  pub process_unlink-IsSlots :
      (k k' : Kernel W) (process i : ℕ)
      → IsSlots k
      → i < max_processes
      → process ≢ 0
      → k.slots i ≡ process
      → process_unlink k process ≡ some k'
      → IsSlots k' × ((j : ℕ) → k'.slots j ≡ (if j == i then 0 else k.slots j))
  unfolding IsSlots update
  process_unlink-IsSlots k k' process i is lt ne at_slot e =
      let (slots, program) = process_unlink-slots k k' process e in
      let id : (k.program process).id ≡ i =
        ap (λ p. (k.program p).id) (sym at_slot) ∙ is i lt (λ z. ne (sym at_slot ∙ z)) in
      let all : (j : ℕ) → k'.slots j ≡ (if j == i then 0 else k.slots j) =
        λ j. ap (λ s. s j) slots ∙ ap (λ n. update k.slots n 0 j) id in
      (
        λ j lt' ne'. elim (Bool-cases (j == i)) [
          | inl same ↦ absurd (ne' (all j ∙ rw same))
          | inr other ↦
              let kept : k'.slots j ≡ k.slots j = all j ∙ rw other in
              ap (λ q. (k'.program q).id) kept
              ∙ ap (λ (f : ℕ → Program). (f (k.slots j)).id) program
              ∙ is j lt' (λ z. ne' (kept ∙ z))
        ],
        all,
      )
