-- ===== src/Process/Mapping.antt =====
-- The pages of a program and of its stack in task/process.c.
use liebe_os.Prelude.{
  ℕ, zero, suc, ◌+◌, ◌-◌, ◌^◌, ◌%◌, Option, none, some, ◌==◌, if◌then◌else◌, Result, ok, err,
  bit_and, bit_or,
}
use liebe_os.Memory.{Memory}
use liebe_os.Paging.{
  Words, is_present, is_writeable, access_from_all, paging_map_to, paging_align_address,
  paging_align_to_lower_page,
}
use liebe_os.Task.{program_virtual_address, stack_address_start}
use liebe_os.Elf.{
  ElfFile, Phdr, pf_w, header_at, phdr_at, elf_program_header, elf_phdr_phys_address,
}
use liebe_os.Process.Program.{Program, stack_size, filetype_elf, filetype_binary}

-- LIEBE_OS_PROGRAM_VIRTUAL_STACK_ADDRESS_END
abbrev pub stack_address_end : ℕ
stack_address_end = stack_address_start - stack_size

-- The flags of a program's own pages.
abbrev pub own_flags : ℕ
own_flags = bit_or (bit_or is_present access_from_all) is_writeable

-- `flags` of `process_map_elf`
pub phdr_flags : Phdr → ℕ
phdr_flags phdr =
    if bit_and phdr.p_flags pf_w == 0
    then bit_or is_present access_from_all
    else bit_or (bit_or is_present access_from_all) is_writeable

-- The call of `paging_map_to` for one program header.
pub map_phdr : Words → (directory : ℕ) → ElfFile → Phdr → Result (Unit {0}) × Words
unfolding phdr_flags
map_phdr words directory file phdr =
    let phys = elf_phdr_phys_address file phdr in
    paging_map_to words directory (paging_align_to_lower_page phdr.p_vaddr)
      (paging_align_to_lower_page phys) (paging_align_address ((phys + phdr.p_memsz) % 2 ^ 32))
      (phdr_flags phdr)

-- The loop of `process_map_elf`, from the index `i` with `left` rounds to go.
pub map_elf_loop :
    (left i : ℕ) → Memory → Words → (directory : ℕ) → ElfFile → Result (Unit {0}) × Words
unfolding map_phdr
map_elf_loop zero i mem words directory file = (ok tt, words)
map_elf_loop (suc left) i mem words directory file =
    let (res, words') =
      map_phdr words directory file (phdr_at mem (elf_program_header mem file.elf_memory i)) in
    elim res [
      | err e ↦ (err e, words')
      | ok _ ↦ map_elf_loop left (i + 1) mem words' directory file
    ]

pub process_map_elf : Memory → Words → (directory : ℕ) → Program → Result (Unit {0}) × Words
unfolding map_elf_loop
process_map_elf mem words directory program =
    map_elf_loop (header_at mem program.elf_file.elf_memory).e_phnum 0 mem words directory
      program.elf_file

unfoldable pub process_map_binary : Words → (directory : ℕ) → Program → Result (Unit {0}) × Words
process_map_binary words directory program =
    paging_map_to words directory program_virtual_address program.ptr
      (paging_align_address ((program.ptr + program.size) % 2 ^ 32)) own_flags

-- The stack's pages, with the result of the program's own.
unfoldable pub map_stack :
    (directory : ℕ) → Program → Result (Unit {0}) × Words → Result (Unit {0}) × Words
map_stack directory program (err e, words) = (err e, words)
map_stack directory program (ok _, words) = (
  ok tt,
  (paging_map_to words directory stack_address_end program.stack
      (paging_align_address ((program.stack + stack_size) % 2 ^ 32)) own_flags).1,
)

-- `none` for a panic.
unfoldable pub process_map_memory :
    Memory → Words → (directory : ℕ) → Program → Option (Result (Unit {0}) × Words)
unfolding process_map_elf process_map_binary map_stack
process_map_memory mem words directory program =
    if program.filetype == filetype_elf
    then some (map_stack directory program (process_map_elf mem words directory program))
    else if program.filetype == filetype_binary
    then some (map_stack directory program (process_map_binary words directory program))
    else none
