-- ===== src/Elf/Load.antt =====
-- elf_load and elf_close of loader/formats/elfloader.c: a file is read into a block of the heap.
use liebe_os.Prelude.{
  ℕ, Option, none, some, List, ◌==◌, if◌then◌else◌, pos, Status, Result, ok, err,
}
use liebe_os.Memory.{Memory}
use liebe_os.Text.{Text}
use liebe_os.Heap.{Heap}
use liebe_os.Heap.Kernel.{kfree, kzalloc}
use liebe_os.File.{Files, fopen, fread, fstat, fclose}
use liebe_os.Elf.{ElfFile, elf_process_loaded}

-- sizeof(struct elf_file)
abbrev pub elf_file_size : ℕ
elf_file_size = 132

-- A `struct elf_file` as `kzalloc` leaves it.
abbrev pub blank_file : ElfFile
blank_file = record {
  elf_memory = 0;
  virtual_base = 0;
  virtual_end = 0;
  physical_base = 0;
  physical_end = 0;
}

-- The string "r".
abbrev pub read_only : Text
read_only i = if i == 0 then b'r' else 0

-- The kernel's heap and the file layer; the memory that files are read into is a part of the state
-- that the filesystems work on, `memory` and `with_memory`.
pub record Loader (W : Type 0) : Type 0 where
  pub heap : Heap
  pub files : Files W

module _ {W : Type 0} (memory : W → Memory) (with_memory : W → Memory → W) (signature : ℕ) where
  -- `kzalloc`
  unfoldable pub take_block : Loader W → (size : ℕ) → ℕ × Loader W
  take_block loader size =
      let (ptr, heap, mem) = kzalloc loader.heap (memory loader.files.world) size in
      (
        ptr,
        record {
          heap = heap;
          files = record loader.files { world = with_memory loader.files.world mem };
        },
      )

  -- `fclose(fd)` at the end, whose result is not used.
  unfoldable pub finish {ℓ} : {A : Type ℓ} → (fd : ℕ) → Result A → Loader W → Result A × Loader W
  finish fd res loader = (res, record loader { files = (fclose loader.files (pos fd)).1 })

  -- What follows `fread`.
  pub check_contents : (file : ℕ) → ElfFile → Result ℕ → Loader W → Result (ℕ × ElfFile) × Loader W
  check_contents file contents (err e) loader = (err e, loader)
  check_contents file contents (ok _) loader =
      let (res, contents') = elf_process_loaded (memory loader.files.world) signature contents in
      elim res [ err e ↦ (err e, loader) | ok _ ↦ (ok (file, contents'), loader) ]

  -- What follows `fopen`.
  pub read_contents : (file fd : ℕ) → Loader W → Result (ℕ × ElfFile) × Loader W
  unfolding take_block check_contents
  read_contents file fd loader =
      let (stat, files) = fstat loader.files (pos fd) in
      elim stat [
        | err e ↦ (err e, record loader { files = files })
        | ok stat ↦
            let (elf_memory, loader') =
              take_block (record loader { files = files }) stat.filesize in
            let (res, files') = fread loader'.files elf_memory stat.filesize 1 (pos fd) in
            check_contents file (record blank_file { elf_memory = elf_memory }) res
              (record loader' { files = files' })
      ]

  -- The file's address and its contents, which the code does not check to be allocated; the blocks of a
  -- file that is refused are not freed.
  unfoldable pub elf_load : Loader W → (filename : List ℕ) → Result (ℕ × ElfFile) × Loader W
  unfolding take_block read_contents finish
  elf_load loader filename =
      let (file, loader0) = take_block loader elf_file_size in
      let (fd, files) = fopen loader0.files filename read_only in
      let opened : Loader W = record loader0 { files = files } in
      if fd == 0
      then finish 0 (err Status.eio) opened
      else let (res, loader1) = read_contents file fd opened in finish fd res loader1

-- `none`: `kfree` has no result, which does not occur (`Heap.Sound.free-ends`).
pub elf_close : Heap → (file : ℕ) → ElfFile → Option Heap
elf_close heap file contents =
    if file == 0
    then some heap
    else elim (kfree heap contents.elf_memory) [ none ↦ none | some heap' ↦ kfree heap' file ]
