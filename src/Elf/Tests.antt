-- ===== src/Elf/Tests.antt =====
-- The loader on a small file of two segments, and on a full table of descriptors.
use liebe_os.Prelude.{
  ℕ, zero, suc, ◌+◌, ◌*◌, ◌^◌, ◌/◌, ◌%◌, ◌<◌, ◌≡◌, ◌≢◌, inl, inr, refl, false, arith, ◌==◌,
  if◌then◌else◌, ◌∷◌, [], none, some, ok, err, Status,
}
use mathlib.Core.Logic.{◌↔◌}
use liebe_os.Memory.{Memory}
use liebe_os.Heap.{is_taken}
use liebe_os.Heap.Alloc.{IsSound}
use liebe_os.File.{Filesystem, fopen}
use liebe_os.File.Open.{fopen_lem}
use liebe_os.Elf.{ElfFile, pt_load, elf_program_header, elf_process_pheaders, elf_validate_loaded}
use liebe_os.Elf.Span.{Spans}
use liebe_os.Elf.Segments.{segments, elf_process_pheaders-Spans}
use liebe_os.Elf.Valid.{IsElf, elf_validate_loaded-IsElf}
use liebe_os.Elf.Load.{Loader, blank_file, take_block, elf_file_size, read_only}

-- A header at 0x100000, with a table of two program headers at 52 bytes behind it. The first segment is
-- behind the second one.
abbrev words : ℕ → ℕ
words a =
    if a == 0x100000
    then 0x464c457f
    else if a == 0x100004
    then 0x010101
    else if a == 0x10001c
    then 52
    else if a == 0x10002c
    then 2
    else if a == 0x100034
    then 1
    else if a == 0x100038
    then 0x2000
    else if a == 0x10003c
    then 0x401000
    else if a == 0x100044
    then 0x20
    else if a == 0x100054
    then 1
    else if a == 0x100058
    then 0x1000
    else if a == 0x10005c
    then 0x400000
    else if a == 0x100064
    then 0x500
    else if a == 0x1000
    then 0x464c457f
    else 0

abbrev mem : Memory
mem a = words (a / 4 * 4) / 256 ^ (a % 4) % 256

abbrev file : ElfFile
file = record blank_file { elf_memory = 0x100000 }

-- Both are loaded, and not to 0.
vaddr-pos :
    (i : ℕ)
    → i < 2
    → (segments mem 0x100000 i).p_type ≡ pt_load
    → (segments mem 0x100000 i).p_vaddr ≢ 0
unfolding segments elf_program_header
vaddr-pos zero lt is e = absurd (omega (arith, e))
vaddr-pos (suc zero) lt is e = absurd (omega (arith, e))
vaddr-pos (suc (suc i)) lt is e = absurd (omega (arith, lt))

first_load : (segments mem 0x100000 0).p_type ≡ pt_load
unfolding segments elf_program_header
first_load = refl

elf_process_pheaders-Spans_example :
    ((elf_process_pheaders mem file).0 ≡ ok tt)
    × Spans (segments mem 0x100000) 2 (elf_process_pheaders mem file).1
elf_process_pheaders-Spans_example =
    elf_process_pheaders-Spans mem file 0 refl refl vaddr-pos (omega arith) first_load

elf_validate_loaded-IsElf_example :
    (elf_validate_loaded mem 0x1000 0x100000 ≡ ok tt) ↔ IsElf mem 0x100000
elf_validate_loaded-IsElf_example =
    elf_validate_loaded-IsElf mem 0x1000 0x100000
      (record { first = refl; second = refl; third = refl; fourth = refl })

-- A filesystem without files.
abbrev no_files : Filesystem Memory
no_files = record {
  resolve = λ w disk. (err Status.eio, w);
  open_fn = λ w disk path mode. (err Status.eio, w);
  read_fn = λ w disk pvt size nmemb out. (err Status.eio, w);
  seek_fn = λ w pvt offset whence. (err Status.eio, w);
  stat_fn = λ w disk pvt. (err Status.eio, w);
  close_fn = λ w pvt. (ok tt, w);
}

-- Every descriptor is in use.
abbrev loader : Loader Memory
loader = record {
  heap = record {
    saddr = 0x1000000;
    total = 16;
    entries = λ j. if j == 0 then 1 else 0;
    below = λ n. 0;
  };
  files = record {
    filesystems = λ i. none;
    descriptors = λ i. some (record { index = i + 1; filesystem = no_files; pvt = 0; disk = 0 });
    disk_filesystem = some no_files;
    world = mem;
  };
}

loader-IsSound : IsSound loader.heap
unfolding is_taken
loader-IsSound = record {
  starts = omega arith;
  fits = omega arith;
  small = omega arith;
  clean = λ j lt open_. ground arith;
}

block-free : is_taken (loader.heap.entries 1) ≡ false
unfolding is_taken
block-free = refl

no_descriptor :
    (fopen
      (take_block (λ w. w) (λ w m. m) 0 loader elf_file_size).1.files
      (b'0' ∷ b':' ∷ b'/' ∷ b'a' ∷ [])
      read_only).0
    ≡ 0
unfolding take_block
no_descriptor =
    elim (fopen_lem (take_block (λ w. w) (λ w m. m) 0 loader elf_file_size).1.files
      (b'0' ∷ b':' ∷ b'/' ∷ b'a' ∷ []) read_only) [
        | inl fails ↦ fails.0
        | inr is ↦ absurd (ground (arith, is.was_free))
      ]
