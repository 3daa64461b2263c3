-- ===== src/Process/Image.antt =====
-- What a program finds in its memory.
use liebe_os.Prelude.{
  ℕ, ◌+◌, ◌-◌, ◌^◌, ◌%◌, ◌≤◌, ◌<◌, ◌≡◌, refl, ap, ◌∙◌, inr, true, false, arith, ◌==◌, some, ok,
  Result,
}
use liebe_os.Memory.{Memory}
use liebe_os.Paging.{
  Words, page_size, paging_map_to, paging_align_address, paging_get_physical_address,
}
use liebe_os.Paging.Map.{IsDirectory}
use liebe_os.Paging.Region.{paging_map_to-Holds, paging_get_physical_address-same}
use liebe_os.Task.{program_virtual_address}
use liebe_os.Process.Program.{Program, filetype_binary, filetype_elf, stack_size}
use liebe_os.Process.Mapping.{
  stack_address_end, own_flags, process_map_binary, map_stack, process_map_memory,
}

-- A program and its stack on page boundaries, which end below the last page.
pub record IsPlaced (program : Program) : Type 0 where
  pub binary : program.filetype ≡ filetype_binary
  pub ptr_aligned : program.ptr % page_size ≡ 0
  pub stack_aligned : program.stack % page_size ≡ 0
  pub fits : program_virtual_address + program.size + page_size ≤ 2 ^ 32
  pub ptr_fits : program.ptr + program.size + page_size ≤ 2 ^ 32
  pub stack_fits : program.stack + stack_size + page_size ≤ 2 ^ 32

map_stack-ok :
    (directory : ℕ) (program : Program) (r : Result (Unit {0}) × Words)
    → r.0 ≡ ok tt
    → map_stack directory program r ≡ (
      ok tt,
      (paging_map_to r.1 directory stack_address_end program.stack
          (paging_align_address ((program.stack + stack_size) % 2 ^ 32))
          own_flags).1,
    )
unfolding map_stack
map_stack-ok directory program (res, words) fine = rw (fine, map_stack) refl

-- For a plain program whose data and stack are on page boundaries and end below the last page, in a
-- well-formed directory, process_map_memory reports no error, and each byte of the program from its
-- virtual address on, and each byte of the stack, is translated to its place in memory.
pub process_map_memory-binary :
    (mem : Memory) (words : Words) (directory : ℕ) (program : Program)
    → IsDirectory words directory
    → IsPlaced program
    → (words' : Words) × (process_map_memory mem words directory program ≡ some (ok tt, words'))
      × ((off : ℕ)
          → off < program.size
          → paging_get_physical_address words' directory (program_virtual_address + off)
            ≡ program.ptr + off)
      × ((off : ℕ)
          → off < stack_size
          → paging_get_physical_address words' directory (stack_address_end + off)
            ≡ program.stack + off)
unfolding process_map_memory process_map_binary
process_map_memory-binary mem words directory program is placed =
    let (fine, own) =
      paging_map_to-Holds words directory program_virtual_address program.ptr program.size own_flags
        is refl placed.ptr_aligned placed.fits placed.ptr_fits (omega arith) in
    let words1 : Words =
      (paging_map_to words directory program_virtual_address program.ptr
        (paging_align_address ((program.ptr + program.size) % 2 ^ 32)) own_flags).1 in
    let (_, below) =
      paging_map_to-Holds words1 directory stack_address_end program.stack stack_size own_flags
        own.directory_kept refl placed.stack_aligned (omega arith) placed.stack_fits
        (omega arith) in
    let words2 : Words =
      (paging_map_to words1 directory stack_address_end program.stack
        (paging_align_address ((program.stack + stack_size) % 2 ^ 32)) own_flags).1 in
    let elf : (program.filetype == filetype_elf) ≡ false = ground (arith, placed.binary) in
    let binary : (program.filetype == filetype_binary) ≡ true = ground (arith, placed.binary) in
    (
      words2,
      rw (elf, binary) (ap some (map_stack-ok directory program _ fine)),
      λ off lt.
          paging_get_physical_address-same words1 words2 directory (program_virtual_address + off) (
            below.others
              (program_virtual_address + off - (program_virtual_address + off) % page_size)
              (omega (arith, lt, placed.fits)) (omega arith) (inr (omega arith)))
          ∙ own.translated off lt,
      below.translated,
    )
