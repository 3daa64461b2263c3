-- ===== src/Interrupts/Gates.antt =====
-- What idt_init leaves in the tables.
use liebe_os.Prelude.{
  ℕ, zero, suc, ◌+◌, ◌*◌, ◌/◌, ◌^◌, ◌%◌, ◌<◌, ◌≡◌, refl, sym, ap, ◌∙◌, inl, inr, true, false, arith,
  Bool-cases, Option, some, ltb, leb, ◌==◌, if◌then◌else◌, update,
}
use liebe_os.Interrupts.{
  IdtDesc, Callback, kernel_code_selector, total_interrupts, idt_set, set_loop, set_special,
  set_clock, idt_init, idt_register_interrupt_callback, idt_handle_exception, idt_clock,
  exception_loop,
}

-- The gate for a handler's address, and the address that the processor reads from a gate.
abbrev pub gate : (address : ℕ) → IdtDesc
gate address = record {
  offset_1 = address % 2 ^ 16;
  selector = kernel_code_selector;
  zero_ = 0;
  type_attr = 0xEE;
  offset_2 = address / 2 ^ 16;
}

abbrev pub address_of : IdtDesc → ℕ
address_of descriptor = descriptor.offset_2 * 2 ^ 16 + descriptor.offset_1

-- One round of a loop that fills a table from index `i` on.
fill_step {ℓ} :
    {A : Type ℓ} (f v : ℕ → A) (left i j : ℕ)
    → (if ltb j (i + 1)
        then update f i (v i) j
        else if ltb j (i + 1 + left)
        then v j
        else update f i (v i) j)
      ≡ (if ltb j i then f j else if ltb j (i + suc left) then v j else f j)
unfolding update
fill_step f v left i j = elim (Bool-cases (j == i)) [
  | inl same ↦
      let e : j ≡ i = ground (arith, same) in
      let before : ltb j (i + 1) ≡ true = ground (arith, same) in
      let not_before : ltb j i ≡ false = ground (arith, same) in
      let within : ltb j (i + suc left) ≡ true = ground (arith, same) in
      rw (before, not_before, within, same) (ap v (sym e))
  | inr other ↦ rw other (ground (arith, other))
]

set_loop_lem :
    (left i : ℕ) (table : ℕ → ℕ) (descriptors : ℕ → IdtDesc) (j : ℕ)
    → set_loop left i table descriptors j ≡ (
        if ltb j i
        then descriptors j
        else if ltb j (i + left)
        then gate (table j)
        else descriptors j)
unfolding set_loop idt_set
set_loop_lem zero i table descriptors j = ground arith
set_loop_lem (suc left) i table descriptors j =
    set_loop_lem left (i + 1) table (idt_set descriptors i (table i)) j
    ∙ fill_step descriptors (λ n. gate (table n)) left i j

set_special_lem :
    (int_0_handler isr80h_wrapper : ℕ) (descriptors : ℕ → IdtDesc) (address j : ℕ)
    → descriptors j ≡ gate address
    → set_special int_0_handler isr80h_wrapper descriptors j
      ≡ gate (if j == 0x80 then isr80h_wrapper else if j == 0 then int_0_handler else address)
unfolding set_special idt_set update
set_special_lem int_0_handler isr80h_wrapper descriptors address j e =
    elim (Bool-cases (j == 0x80)) [
      | inl last ↦ rw last refl
      | inr other ↦ elim (Bool-cases (j == 0)) [
        | inl first ↦ rw (other, first) refl
        | inr between ↦ rw (other, between) e
      ]
    ]

gate_at :
    (n : ℕ) (table : ℕ → ℕ) (int_0_handler isr80h_wrapper j : ℕ)
    → j < n
    → set_special int_0_handler isr80h_wrapper
        (set_loop n 0 table
          (λ i. record { offset_1 = 0; selector = 0; zero_ = 0; type_attr = 0; offset_2 = 0 }))
        j
      ≡ gate (if j == 0x80 then isr80h_wrapper else if j == 0 then int_0_handler else table j)
gate_at n table int_0_handler isr80h_wrapper j lt =
    let blank : IdtDesc = record {
      offset_1 = 0;
      selector = 0;
      zero_ = 0;
      type_attr = 0;
      offset_2 = 0;
    } in
    let within : ltb j (0 + n) ≡ true = ground (arith, lt) in
    let before : ltb j 0 ≡ false = ground arith in
    set_special_lem int_0_handler isr80h_wrapper (set_loop n 0 table (λ i. blank)) (table j) j
      (set_loop_lem n 0 table (λ i. blank) j ∙ rw (before, within) refl)

-- A gate is read back.
address_of-gate : (address : ℕ) → address_of (gate address) ≡ address
address_of-gate address = omega arith

module _ {W : Type 0} where
  exception_loop_lem :
      (left i : ℕ) (callbacks : ℕ → Option (Callback W)) (j : ℕ)
      → i + left < total_interrupts
      → exception_loop left i callbacks j ≡ (
          if ltb j i
          then callbacks j
          else if ltb j (i + left)
          then some idt_handle_exception
          else callbacks j)
  unfolding exception_loop idt_register_interrupt_callback
  exception_loop_lem zero i callbacks j lt = ground arith
  exception_loop_lem (suc left) i callbacks j lt =
      let low : leb total_interrupts i ≡ false = ground (arith, lt) in
      rw (exception_loop, low)
        (exception_loop_lem left (i + 1) (update callbacks i (some idt_handle_exception)) j
            (omega arith)
          ∙ fill_step callbacks (λ n. some idt_handle_exception) left i j)

  set_clock_lem :
      (callbacks : ℕ → Option (Callback W)) (j : ℕ)
      → set_clock callbacks j ≡ (if j == 0x20 then some idt_clock else callbacks j)
  unfolding set_clock idt_register_interrupt_callback update
  set_clock_lem callbacks j = refl

  first_exceptions :
      (n : ℕ) (callbacks : ℕ → Option (Callback W)) (j : ℕ)
      → n < total_interrupts
      → exception_loop n 0 callbacks j
        ≡ (if ltb j n then some idt_handle_exception else callbacks j)
  first_exceptions n callbacks j lt =
      exception_loop_lem n 0 callbacks j (omega arith) ∙ ground arith

  pub idt_init-callbacks :
      (table : ℕ → ℕ) (int_0_handler isr80h_wrapper : ℕ) (callbacks : ℕ → Option (Callback W))
      (j : ℕ)
      → (idt_init table int_0_handler isr80h_wrapper callbacks).1 j ≡ (
          if ltb j 0x20
          then some idt_handle_exception
          else if j == 0x20
          then some idt_clock
          else callbacks j)
  unfolding idt_init
  idt_init-callbacks table int_0_handler isr80h_wrapper callbacks j =
      set_clock_lem (exception_loop 0x20 0 callbacks) j ∙ elim (Bool-cases (j == 0x20)) [
        | inl same ↦ let above : ltb j 0x20 ≡ false = ground (arith, same) in rw (same, above) refl
        | inr other ↦ rw other (first_exceptions 0x20 callbacks j (omega arith))
      ]

  -- After idt_init, each interrupt's gate leads to its handler of the table, but for 0 and 0x80,
  -- which have their own, with the kernel's code selector and the attributes of a gate for user
  -- mode; the first 32 interrupts have the callback for exceptions, 0x20 that of the clock, and the
  -- others the one that they had.
  pub idt_init_lem :
      (table : ℕ → ℕ) (int_0_handler isr80h_wrapper : ℕ) (callbacks : ℕ → Option (Callback W))
      (j : ℕ)
      → j < total_interrupts
      → (address_of ((idt_init table int_0_handler isr80h_wrapper callbacks).0 j)
          ≡ (if j == 0x80 then isr80h_wrapper else if j == 0 then int_0_handler else table j))
        × (((idt_init table int_0_handler isr80h_wrapper callbacks).0 j).type_attr ≡ 0xEE)
        × (((idt_init table int_0_handler isr80h_wrapper callbacks).0 j).selector
            ≡ kernel_code_selector)
        × ((idt_init table int_0_handler isr80h_wrapper callbacks).1 j ≡ (
            if ltb j 0x20
            then some idt_handle_exception
            else if j == 0x20
            then some idt_clock
            else callbacks j))
  unfolding idt_init
  idt_init_lem table int_0_handler isr80h_wrapper callbacks j lt =
      let gates = gate_at total_interrupts table int_0_handler isr80h_wrapper j lt in
      (
        ap address_of gates ∙ address_of-gate _,
        ap (λ (d : IdtDesc). d.type_attr) gates,
        ap (λ (d : IdtDesc). d.selector) gates,
        idt_init-callbacks table int_0_handler isr80h_wrapper callbacks j,
      )
