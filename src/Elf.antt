-- ===== src/Elf.antt =====
-- loader/formats/elf.h and elfloader.c: the headers of an ELF file in memory, the checks of them, and the
-- span of the segments that are loaded.
pub mod Span
pub mod Widen
pub mod Segments
pub mod Valid
pub mod Load
pub mod Leak
mod Tests
use liebe_os.Prelude.{
  ℕ, zero, suc, ◌+◌, ◌*◌, ◌^◌, ◌%◌, Bool, true, false, ◌&&◌, ◌||◌, not, ltb, leb, ◌==◌,
  if◌then◌else◌, ℤ, pos, negsuc, Status, Result, ok, err,
}
use liebe_os.Memory.{Memory, memcmp}
use liebe_os.Task.{program_virtual_address}

-- The little-endian numbers of 16 and of 32 bits at an address.
abbrev pub half_at : Memory → ℕ → ℕ
half_at mem a = mem a + 2 ^ 8 * mem (a + 1)

abbrev pub word_at : Memory → ℕ → ℕ
word_at mem a = half_at mem a + 2 ^ 16 * half_at mem (a + 2)

-- `struct elf_header`; of `e_ident`, the two bytes that are read by their index
pub record ElfHeader : Type 0 where
  pub e_class : ℕ
  pub e_data : ℕ
  pub e_type : ℕ
  pub e_machine : ℕ
  pub e_version : ℕ
  pub e_entry : ℕ
  pub e_phoff : ℕ
  pub e_shoff : ℕ
  pub e_flags : ℕ
  pub e_ehsize : ℕ
  pub e_phentsize : ℕ
  pub e_phnum : ℕ
  pub e_shentsize : ℕ
  pub e_shnum : ℕ
  pub e_shstrndx : ℕ

-- `struct elf32_phdr`
pub record Phdr : Type 0 where
  pub p_type : ℕ
  pub p_offset : ℕ
  pub p_vaddr : ℕ
  pub p_paddr : ℕ
  pub p_filesz : ℕ
  pub p_memsz : ℕ
  pub p_flags : ℕ
  pub p_align : ℕ

-- `struct elf_file`, but for the two fields that are never written
pub record ElfFile : Type 0 where
  pub elf_memory : ℕ
  pub virtual_base : ℕ
  pub virtual_end : ℕ
  pub physical_base : ℕ
  pub physical_end : ℕ

-- PT_LOAD, PF_W, ET_EXEC
abbrev pub pt_load : ℕ
pt_load = 1

abbrev pub pf_w : ℕ
pf_w = 2

abbrev pub et_exec : ℕ
et_exec = 2

-- ELFCLASSNONE, ELFCLASS32, ELFDATANONE, ELFDATA2LSB
abbrev pub elfclass_none : ℕ
elfclass_none = 0

abbrev pub elfclass_32 : ℕ
elfclass_32 = 1

abbrev pub elfdata_none : ℕ
elfdata_none = 0

abbrev pub elfdata_2lsb : ℕ
elfdata_2lsb = 1

-- The header that lies at an address.
abbrev pub header_at : Memory → ℕ → ElfHeader
header_at mem header = record {
  e_class = mem (header + 4);
  e_data = mem (header + 5);
  e_type = half_at mem (header + 16);
  e_machine = half_at mem (header + 18);
  e_version = word_at mem (header + 20);
  e_entry = word_at mem (header + 24);
  e_phoff = word_at mem (header + 28);
  e_shoff = word_at mem (header + 32);
  e_flags = word_at mem (header + 36);
  e_ehsize = half_at mem (header + 40);
  e_phentsize = half_at mem (header + 42);
  e_phnum = half_at mem (header + 44);
  e_shentsize = half_at mem (header + 46);
  e_shnum = half_at mem (header + 48);
  e_shstrndx = half_at mem (header + 50);
}

abbrev pub phdr_at : Memory → ℕ → Phdr
phdr_at mem phdr = record {
  p_type = word_at mem phdr;
  p_offset = word_at mem (phdr + 4);
  p_vaddr = word_at mem (phdr + 8);
  p_paddr = word_at mem (phdr + 12);
  p_filesz = word_at mem (phdr + 16);
  p_memsz = word_at mem (phdr + 20);
  p_flags = word_at mem (phdr + 24);
  p_align = word_at mem (phdr + 28);
}

-- `z == 0`
pub is_zero : ℤ → Bool
is_zero (pos n) = n == 0
is_zero (negsuc n) = false

-- `signature` is the address of `elf_signature`.
pub elf_valid_signature : Memory → (signature buffer : ℕ) → Bool
unfolding is_zero
elf_valid_signature mem signature buffer = is_zero (memcmp mem buffer signature 4)

pub elf_valid_class : ElfHeader → Bool
elf_valid_class header = header.e_class == elfclass_none || header.e_class == elfclass_32

pub elf_valid_encoding : ElfHeader → Bool
elf_valid_encoding header = header.e_data == elfdata_none || header.e_data == elfdata_2lsb

pub elf_is_executable : ElfHeader → Bool
elf_is_executable header = header.e_type == et_exec && leb program_virtual_address header.e_entry

pub elf_has_program_header : ElfHeader → Bool
elf_has_program_header header = not (header.e_phoff == 0)

pub elf_get_entry : Memory → (header : ℕ) → ℕ
elf_get_entry mem header = (header_at mem header).e_entry

-- The addresses of the tables of headers, and of their entries; an offset is signed and wraps.
pub elf_sheader : Memory → (header : ℕ) → ℕ
elf_sheader mem header = (header + (header_at mem header).e_shoff) % 2 ^ 32

pub elf_pheader : Memory → (header : ℕ) → ℕ
elf_pheader mem header =
    if (header_at mem header).e_phoff == 0
    then 0
    else (header + (header_at mem header).e_phoff) % 2 ^ 32

pub elf_program_header : Memory → (header index : ℕ) → ℕ
unfolding elf_pheader
elf_program_header mem header index = (elf_pheader mem header + 32 * index) % 2 ^ 32

pub elf_section : Memory → (header index : ℕ) → ℕ
unfolding elf_sheader
elf_section mem header index = (elf_sheader mem header + 40 * index) % 2 ^ 32

-- `sh_offset` is at 16.
pub elf_str_table : Memory → (header : ℕ) → ℕ
unfolding elf_section
elf_str_table mem header =
    (header + word_at mem (elf_section mem header (header_at mem header).e_shstrndx + 16)) % 2 ^ 32

pub elf_phdr_phys_address : ElfFile → Phdr → ℕ
elf_phdr_phys_address file phdr = (file.elf_memory + phdr.p_offset) % 2 ^ 32

pub elf_validate_loaded : Memory → (signature header : ℕ) → Result (Unit {0})
unfolding elf_valid_signature elf_valid_class elf_valid_encoding elf_has_program_header
elf_validate_loaded mem signature header =
    if elf_valid_signature mem signature header
      && (elf_valid_class (header_at mem header)
          && (elf_valid_encoding (header_at mem header)
              && elf_has_program_header (header_at mem header)))
    then ok tt
    else err Status.einformat

-- The two halves of `elf_process_phdr_pt_load`.
pub lower_base : ElfFile → Phdr → ElfFile
lower_base file phdr =
    if leb phdr.p_vaddr file.virtual_base || file.virtual_base == 0
    then record file {
      virtual_base = phdr.p_vaddr;
      physical_base = (file.elf_memory + phdr.p_offset) % 2 ^ 32;
    }
    else file

pub raise_end : ElfFile → Phdr → ElfFile
raise_end file phdr =
    let end_virtual_address = (phdr.p_vaddr + phdr.p_filesz) % 2 ^ 32 in
    if leb file.virtual_end end_virtual_address || file.virtual_end == 0
    then record file {
      virtual_end = end_virtual_address;
      physical_end = (file.elf_memory + phdr.p_offset + phdr.p_filesz) % 2 ^ 32;
    }
    else file

pub elf_process_phdr_pt_load : ElfFile → Phdr → Result (Unit {0}) × ElfFile
unfolding lower_base raise_end
elf_process_phdr_pt_load file phdr = (ok tt, raise_end (lower_base file phdr) phdr)

pub elf_process_pheader : ElfFile → Phdr → Result (Unit {0}) × ElfFile
unfolding elf_process_phdr_pt_load
elf_process_pheader file phdr =
    if phdr.p_type == pt_load then elf_process_phdr_pt_load file phdr else (ok tt, file)

-- The loop of `elf_process_pheaders`, from the index `i` with `left` rounds to go.
pub pheaders_loop : (left i : ℕ) → Memory → (header : ℕ) → ElfFile → Result (Unit {0}) × ElfFile
unfolding elf_process_pheader elf_program_header
pheaders_loop zero i mem header file = (ok tt, file)
pheaders_loop (suc left) i mem header file =
    let (res, file') = elf_process_pheader file (phdr_at mem (elf_program_header mem header i)) in
    elim res [ err e ↦ (err e, file') | ok _ ↦ pheaders_loop left (i + 1) mem header file' ]

pub elf_process_pheaders : Memory → ElfFile → Result (Unit {0}) × ElfFile
unfolding pheaders_loop
elf_process_pheaders mem file =
    pheaders_loop (header_at mem file.elf_memory).e_phnum 0 mem file.elf_memory file

pub elf_process_loaded : Memory → (signature : ℕ) → ElfFile → Result (Unit {0}) × ElfFile
unfolding elf_validate_loaded elf_process_pheaders
elf_process_loaded mem signature file = elim (elf_validate_loaded mem signature file.elf_memory) [
  | err e ↦ (err e, file)
  | ok _ ↦ elf_process_pheaders mem file
]
