-- ===== src/Elf/Span.antt =====
-- The span of the loaded segments.
use liebe_os.Prelude.{ℕ, ◌+◌, ◌^◌, ◌%◌, ◌≤◌, ◌<◌, ◌≡◌, ◌≢◌}
use liebe_os.Elf.{Phdr, ElfFile, pt_load}

-- The end of a segment in the program's memory.
abbrev pub end_of : Phdr → ℕ
end_of phdr = (phdr.p_vaddr + phdr.p_filesz) % 2 ^ 32

-- The base is the start of a loaded segment below `n`, and the end is the end of one.
abbrev pub BaseAt : (ℕ → Phdr) → ℕ → ElfFile → Type 0
BaseAt segment n file =
    (i : ℕ) × (i < n)
    × ((segment i).p_type ≡ pt_load)
    × (file.virtual_base ≡ (segment i).p_vaddr)
    × (file.physical_base ≡ (file.elf_memory + (segment i).p_offset) % 2 ^ 32)

abbrev pub EndAt : (ℕ → Phdr) → ℕ → ElfFile → Type 0
EndAt segment n file =
    (i : ℕ) × (i < n)
    × ((segment i).p_type ≡ pt_load)
    × (file.virtual_end ≡ end_of (segment i))
    × (file.physical_end ≡ (file.elf_memory + (segment i).p_offset + (segment i).p_filesz) % 2 ^ 32)

-- The span reaches from the least start to the greatest end of the loaded segments below `n`.
pub record Spans (segment : ℕ → Phdr) (n : ℕ) (file : ElfFile) : Type 0 where
  pub below :
      (i : ℕ) → i < n → (segment i).p_type ≡ pt_load → file.virtual_base ≤ (segment i).p_vaddr
  pub above : (i : ℕ) → i < n → (segment i).p_type ≡ pt_load → end_of (segment i) ≤ file.virtual_end
  pub base_at : BaseAt segment n file
  pub end_at : EndAt segment n file

-- No segment was seen yet that is loaded.
pub record Bare (segment : ℕ → Phdr) (n : ℕ) (file : ElfFile) : Type 0 where
  pub none_yet : (i : ℕ) → i < n → (segment i).p_type ≢ pt_load
  pub no_base : file.virtual_base ≡ 0
  pub no_end : file.virtual_end ≡ 0
