-- ===== src/Interrupts/Dispatch.antt =====
-- Which command a number calls once the commands are registered.
use liebe_os.Prelude.{
  ℕ, zero, suc, ◌+◌, ◌≤◌, ◌<◌, ◌≡◌, refl, ap, ◌∙◌, inl, inr, arith, Bool-cases, Option, none, some,
  List, [], ◌∷◌, length, get_elem?, leb, update, update_self, update-ne, ℤ, pos, negsuc,
}
use liebe_os.Memory.{Memory}
use liebe_os.Task.{Frame}
use liebe_os.Interrupts.{
  Computer, Command, returns, max_commands, isr80h_register_command, isr80h_handle_command,
}
use liebe_os.Interrupts.Syscalls.{
  Buffers, isr80h_command0_sum, isr80h_command1_print, isr80h_command2_getkey,
  isr80h_commad3_putchar, isr80h_command4_malloc, isr80h_command5_free,
  isr80h_command6_process_load_start, isr80h_command7_invoke_system_command,
  isr80h_command8_get_program_arguments, isr80h_command9_exit, registered, isr80h_register_commands,
}

-- What a user program may ask for, in the order of the numbers: the specification that the table of
-- the registered commands is held against.
abbrev pub system_commands :
    {W : Type 0}
    → (W → Memory)
    → (W → Memory → W)
    → (signature directory : ℕ) → Buffers
    → List (Command W)
system_commands memory with_memory signature directory buffers =
    isr80h_command0_sum memory with_memory signature directory buffers
    ∷ isr80h_command1_print memory with_memory signature directory buffers
    ∷ isr80h_command2_getkey memory with_memory signature directory buffers
    ∷ isr80h_commad3_putchar memory with_memory signature directory buffers
    ∷ isr80h_command4_malloc memory with_memory signature directory buffers
    ∷ isr80h_command5_free memory with_memory signature directory buffers
    ∷ isr80h_command6_process_load_start memory with_memory signature directory buffers
    ∷ isr80h_command7_invoke_system_command memory with_memory signature directory buffers
    ∷ isr80h_command8_get_program_arguments memory with_memory signature directory buffers
    ∷ isr80h_command9_exit memory with_memory signature directory buffers
    ∷ []

module _ {W : Type 0} where
  -- The table with a list's commands from the number `i` on.
  abbrev pub in_order :
      (i : ℕ) → List (Command W) → (ℕ → Option (Command W)) → ℕ → Option (Command W)
  in_order i [] commands = commands
  in_order i (f ∷ fs) commands = in_order (i + 1) fs (update commands i (some f))

  in_order-below :
      (i j : ℕ) (fs : List (Command W)) (commands : ℕ → Option (Command W))
      → j < i
      → in_order i fs commands j ≡ commands j
  in_order-below i j [] commands lt = refl
  in_order-below i j (f ∷ fs) commands lt =
      in_order-below (i + 1) j fs (update commands i (some f)) (omega (arith, lt))
      ∙ update-ne commands i (some f) j (omega (arith, lt))

  in_order-from :
      (i k : ℕ) (fs : List (Command W)) (commands : ℕ → Option (Command W))
      → ((j : ℕ) → i ≤ j → commands j ≡ none)
      → in_order i fs commands (i + k) ≡ get_elem? fs k
  in_order-from i k [] commands empty = empty (i + k) (omega arith)
  in_order-from i zero (f ∷ fs) commands empty =
      let e : i + 0 ≡ i = omega arith in
      rw e (
        in_order-below (i + 1) i fs (update commands i (some f)) (omega arith)
        ∙ update_self commands i (some f))
  in_order-from i (suc k) (f ∷ fs) commands empty =
      let e : i + suc k ≡ i + 1 + k = omega arith in
      rw e (
        in_order-from (i + 1) k fs (update commands i (some f)) (λ j le.
          update-ne commands i (some f) j (omega (arith, le)) ∙ empty j (omega (arith, le))))

  in_order_lem : (fs : List (Command W)) (j : ℕ) → in_order 0 fs (λ j. none) j ≡ get_elem? fs j
  in_order_lem fs j =
      let e : j ≡ 0 + j = omega arith in
      ap (in_order 0 fs (λ j. none)) e ∙ in_order-from 0 j fs (λ j. none) (λ j le. refl)

  -- What the system call is to do.
  abbrev pub dispatch : List (Command W) → ℤ → Command W
  dispatch fs (negsuc n) frame c = returns 0 c
  dispatch fs (pos n) frame c = elim (get_elem? fs n) [ none ↦ returns 0 c | some f ↦ f frame c ]

  handle_entry :
      (commands : ℕ → Option (Command W)) (fs : List (Command W)) (command : ℤ) (frame : Frame)
      (c : Computer W)
      → length fs ≤ max_commands
      → ((j : ℕ) → commands j ≡ get_elem? fs j)
      → isr80h_handle_command commands command frame c ≡ dispatch fs command frame c
  unfolding isr80h_handle_command
  handle_entry commands fs (negsuc n) frame c fits entries = refl
  handle_entry commands fs (pos n) frame c fits entries = elim (Bool-cases (leb max_commands n)) [
    | inl beyond ↦ rw (beyond, dispatch, get_elem?-beyond fs n (ground (arith, beyond, fits))) refl
    | inr within ↦ rw (within, dispatch, entries n) refl
  ]
    where
      get_elem?-beyond : (fs : List (Command W)) (n : ℕ) → length fs ≤ n → get_elem? fs n ≡ none
      get_elem?-beyond [] n le = refl
      get_elem?-beyond (f ∷ fs) zero le = absurd (omega (arith, le))
      get_elem?-beyond (f ∷ fs) (suc n) le = get_elem?-beyond fs n (omega (arith, le))

-- Registering the kernel's commands in an empty table does not panic, and isr80h_handle_command
-- then calls the command of the number in the enumeration, and returns 0 without an effect for
-- every other number, negative ones included.
pub isr80h_register_commands-dispatch :
    {W : Type 0} (memory : W → Memory) (with_memory : W → Memory → W) (signature directory : ℕ)
    (buffers : Buffers)
    → (commands : ℕ → Option (Command W)) × (isr80h_register_commands memory with_memory signature
          directory buffers
          (λ j. none)
        ≡ some commands)
      × ((command : ℤ) (frame : Frame) (c : Computer W)
          → isr80h_handle_command commands command frame c
            ≡ dispatch
                (system_commands memory with_memory signature directory buffers)
                command
                frame
                c)
unfolding isr80h_register_commands registered isr80h_register_command update
isr80h_register_commands-dispatch memory with_memory signature directory buffers =
    let fs = system_commands memory with_memory signature directory buffers in
    (
      in_order 0 fs (λ j. none),
      refl,
      λ command frame c.
          handle_entry (in_order 0 fs (λ j. none)) fs command frame c (omega arith)
            (in_order_lem fs),
    )
