-- ===== src/Start/Setup.antt =====
-- kernel/kernel.c: the state in which kernel_main loads the first program.
use liebe_os.Prelude.{ℕ, ◌≡◌, refl, some, none, true, ℤ, arith, update, ◌%◌, [], ◌∷◌, ◌++◌}
use liebe_os.Memory.{Memory}
use liebe_os.Heap.{Heap}
use liebe_os.Heap.Kernel.{kheap_init, kheap_init_lem, kheap_init-saddr}
use liebe_os.Paging.{create_new_page_directory, page_size}
use liebe_os.Heap.Alloc.{IsSound}
use liebe_os.Heap.Single.{Room}
use liebe_os.Paging.Identity.{IsIdentity, create_new_page_directory-IsIdentity}
use liebe_os.Gdt.Kernel.{gdt_structured, gdt_structured-encodes}
use liebe_os.Gdt.{structured_to_gdt}
use liebe_os.Disk.{default_disk_id}
use liebe_os.File.Mount.{accepted, disk_search_and_init, disk_search_and_init-fs_init}
use liebe_os.Keyboard.{insert}
use liebe_os.Task.{Frame}
use liebe_os.Terminal.{initialize}
use liebe_os.Interrupts.{Computer, isr80h_handle_command, idt_register_interrupt_callback}
use liebe_os.Interrupts.Dispatch.{system_commands, dispatch, isr80h_register_commands-dispatch}
use liebe_os.Start.{
  System, Image, kernel_flags, start_segments, start_storage, start_interrupts, start_paging,
  start_calls, set_up, keyboard_init, classic_keyboard, isr_keyboard_interrupt,
}

-- What the mount leaves for the kernel's page directory: a sound heap whose pool starts at a page, with
-- a run of 1026 free blocks.
pub record HasPages (heap : Heap) : Type 0 where
  pub sound : IsSound heap
  pub even : heap.saddr % page_size ≡ 0
  pub room : Room heap 1026

-- The heap that kheap_init leaves is such a heap.
pub kheap_init-HasPages : (heap : Heap) (entries : ℕ → ℕ) → HasPages (kheap_init heap entries).1
kheap_init-HasPages heap entries =
    let (fine, sound, total, free) = kheap_init_lem heap entries in
    record {
      sound = sound;
      even = rw (kheap_init-saddr heap entries) refl;
      room = (0, omega (arith, total), λ j lo hi. free j lo (omega arith));
    }

module _ {W : Type 0} (memory : W → Memory) (with_memory : W → Memory → W) (signature : ℕ)
    (image : Image W) where
  -- What holds where the first program is loaded: `before` is the state at the entry of kernel_main.
  pub record IsUp (before s : System W) : Type 0 where
    pub segments : structured_to_gdt (gdt_structured image.tss_address) ≡ some s.gdt
    pub memory_mapped :
        IsIdentity s.computer.kernel.loader.heap s.computer.kernel.words s.page_directory
          kernel_flags
    pub directory_loaded : s.computer.kernel.tasks.loaded ≡ s.computer.kernel.words s.page_directory
    pub paging : s.paging_enabled ≡ true
    pub filesystem :
        s.computer.kernel.loader.files.disk_filesystem
        ≡ accepted image.fat16
            (image.fat16.resolve before.computer.kernel.loader.files.world default_disk_id).0
    pub keys : s.callbacks isr_keyboard_interrupt ≡ some image.keyboard_handler
    pub layers : s.keyboards ≡ before.keyboards ++ classic_keyboard ∷ []
    pub calls :
        (command : ℤ) (frame : Frame) (c : Computer W)
        → isr80h_handle_command s.commands command frame c
          ≡ dispatch
              (system_commands memory with_memory signature
                (s.computer.kernel.words s.page_directory)
                image.buffers)
              command
              frame
              c

  set_up-steps :
      (s s1 s2 s' : System W)
      → start_segments memory with_memory signature image s ≡ some s1
      → start_storage memory with_memory signature image s1 ≡ some s2
      → start_calls memory with_memory signature image (
          start_paging memory with_memory signature image
            (start_interrupts memory with_memory signature image s2))
        ≡ some s'
      → set_up memory with_memory signature image s ≡ some s'
  unfolding set_up
  set_up-steps s s1 s2 s' e1 e2 e3 = rw (set_up, e1, e2, e3) refl

  -- From a state without registered commands, where the mount of the disk comes back and leaves a
  -- sound heap with a run of 1026 free blocks, kernel_main comes to the load of the first program,
  -- without a panic: the segments are encoded, the kernel's directory maps every 32-bit address to
  -- itself, with a sound heap behind it, and is loaded with paging enabled, the disk has the FAT16
  -- filesystem just where that accepts it, the keyboard is the last in the list and its handler is
  -- registered, and every number of a system call leads to the command of the enumeration.
  pub set_up-IsUp :
      (s : System W) (mounted : Heap)
      → s.commands ≡ (λ j. none)
      → image.resolve_heap
          (kheap_init s.computer.kernel.loader.heap image.heap_table).1
          s.computer.kernel.loader.files.world
        ≡ some mounted
      → HasPages mounted
      → (s' : System W) × (set_up memory with_memory signature image s ≡ some s') × IsUp s s'
  unfolding set_up start_segments start_storage start_interrupts start_paging start_calls
      keyboard_init idt_register_interrupt_callback update insert
  set_up-IsUp s mounted empty comes pages =
      let (gdt, encoded) = gdt_structured-encodes image.tss_address in
      let (files, started, same_world, accepts, world, closed) =
        disk_search_and_init-fs_init s.computer.kernel.loader.files image.fat16 in
      let made = create_new_page_directory mounted s.computer.kernel.words kernel_flags in
      let (commands, registered, handled) =
        isr80h_register_commands-dispatch memory with_memory signature (made.2 made.0)
          image.buffers in
      let s1 : System W = record s {
        computer = record s.computer { terminal = initialize s.computer.terminal };
        gdt = gdt;
      } in
      let s2 : System W = record s1 {
        computer = record s1.computer {
          kernel = record s1.computer.kernel {
            loader = record s1.computer.kernel.loader {
              heap = mounted;
              files = disk_search_and_init files;
            };
          };
        };
      } in
      let s3 : System W =
        start_paging memory with_memory signature image
          (start_interrupts memory with_memory signature image s2) in
      let s4 : System W =
        keyboard_init memory with_memory signature image (record s3 { commands = commands }) in
      (
        s4,
        set_up-steps s s1 s2 s4 (rw (start_segments, encoded) refl)
            (rw (start_storage, started, same_world, comes) refl)
            (rw (start_calls, empty, registered) refl),
        record {
          segments = encoded;
          memory_mapped =
              create_new_page_directory-IsIdentity mounted s.computer.kernel.words kernel_flags
                pages.sound pages.even (omega arith) pages.room;
          directory_loaded = refl;
          paging = refl;
          filesystem = accepts;
          keys = refl;
          layers = refl;
          calls = handled;
        },
      )
