-- ===== src/Gdt/Kernel.antt =====
-- kernel/kernel.c: the segments of the kernel.
use liebe_os.Prelude.{ℕ, ◌≡◌, refl, some, List, [], ◌∷◌}
use liebe_os.Gdt.{Segment, Entry, structured_to_gdt}

-- `sizeof(tss)`
abbrev pub tss_size : ℕ
tss_size = 104

-- `gdt_structured`, with the address of the task's segment that kernel_main enters.
unfoldable pub gdt_structured : (tss_address : ℕ) → List Segment
gdt_structured tss_address =
    record { base = 0; limit = 0; kind = 0 }
    ∷ record { base = 0; limit = 0xffffffff; kind = 0x9a }
    ∷ record { base = 0; limit = 0xffffffff; kind = 0x92 }
    ∷ record { base = 0; limit = 0xffffffff; kind = 0xf8 }
    ∷ record { base = 0; limit = 0xffffffff; kind = 0xf2 }
    ∷ record { base = tss_address; limit = tss_size; kind = 0xE9 }
    ∷ []

-- None of them is refused.
pub gdt_structured-encodes :
    (tss_address : ℕ)
    → (entries : List Entry) × (structured_to_gdt (gdt_structured tss_address) ≡ some entries)
unfolding structured_to_gdt gdt_structured
gdt_structured-encodes tss_address = (_, refl)
