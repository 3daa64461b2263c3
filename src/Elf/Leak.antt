-- ===== src/Elf/Leak.antt =====
-- What elf_load leaves in the heap when it fails.
use liebe_os.Prelude.{
  ℕ, ◌+◌, ◌<◌, ◌≡◌, refl, ap, ◌∙◌, true, false, arith, ◌==◌, List, Status, err, subst,
}
use liebe_os.Memory.{Memory}
use liebe_os.Heap.{Heap, is_taken}
use liebe_os.Heap.Scan.{IsFree}
use liebe_os.Heap.Kernel.{kzalloc-malloc}
use liebe_os.Heap.Alloc.{IsSound, blocks_of, malloc_lem, align_value_to_upper_lem}
use liebe_os.File.{fopen}
use liebe_os.Elf.Load.{Loader, take_block, finish, elf_load, elf_file_size, read_only}

blocks_of-file : blocks_of elf_file_size ≡ 1
unfolding blocks_of
blocks_of-file = omega (arith, align_value_to_upper_lem elf_file_size (omega arith))

-- In a sound heap with a free block, where fopen returns 0, elf_load reports EIO, and a block that
-- was free before the call is taken after it.
pub elf_load-leaks :
    {W : Type 0} (memory : W → Memory) (with_memory : W → Memory → W) (signature : ℕ)
    (loader : Loader W) (filename : List ℕ) (t : ℕ)
    → IsSound loader.heap
    → t < loader.heap.total
    → is_taken (loader.heap.entries t) ≡ false
    → (fopen
        (take_block memory with_memory signature loader elf_file_size).1.files
        filename
        read_only).0
      ≡ 0
    → ((elf_load memory with_memory signature loader filename).0 ≡ err Status.eio)
      × (s : ℕ) × (s < loader.heap.total)
      × (is_taken (loader.heap.entries s) ≡ false)
      × (is_taken ((elf_load memory with_memory signature loader filename).1.heap.entries s) ≡ true)
unfolding elf_load finish take_block
elf_load-leaks memory with_memory signature loader filename t sound lt open_ fails =
    let one = blocks_of-file in
    let run : IsFree loader.heap.entries t (t + blocks_of elf_file_size) = λ j lo hi.
      subst (λ n. is_taken (loader.heap.entries n) ≡ false) (omega (arith, lo, hi, one)) open_ in
    let (s, le, eq, inside, within, free_, taken, same) =
      malloc_lem loader.heap elf_file_size t sound (omega arith) (omega arith)
        (omega (arith, lt, one)) run in
    let heap' = (kzalloc-malloc loader.heap (memory loader.files.world) elf_file_size).1 in
    let null : ((fopen (take_block memory with_memory signature loader elf_file_size).1.files
            filename read_only).0
          == 0)
        ≡ true =
      ground (arith, fails) in
    rw null (
      refl,
      s,
      omega (arith, inside, one),
      free_ s (omega arith) (omega (arith, one)),
      ap (λ (h : Heap). is_taken (h.entries s)) heap' ∙ taken s (omega arith) (omega (arith, one)),
    )
