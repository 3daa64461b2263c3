-- ===== src/Task/Texts.antt =====
-- What `copy_string_from_task` gives back.
use liebe_os.Prelude.{
  ℕ, ◌+◌, ◌*◌, ◌%◌, ◌^◌, ◌≤◌, ◌<◌, ◌≡◌, refl, sym, ap, ◌∙◌, inl, inr, false, arith, leb, ◌==◌,
  Bool-cases, subst, ap₂, some, Result, ok, bit_or,
}
use liebe_os.Heap.{Heap, block_size, malloc, free}
use liebe_os.Heap.Scan.{IsFree}
use liebe_os.Heap.Kernel.{kfree, kzalloc, kzalloc-malloc}
use liebe_os.Heap.Alloc.{IsSound, blocks_of, malloc_lem, free-malloc, align_value_to_upper_lem}
use liebe_os.Paging.{
  Words, page_size, is_present, is_writeable, access_from_all, paging_get, paging_set, paging_map,
}
use liebe_os.Paging.Map.{
  IsDirectory, paging_set-aligned, paging_set-IsDirectory, paging_get-paging_set,
}
use liebe_os.Paging.Range.{paging_map-aligned}
use liebe_os.Task.Copy.{Copying, copy_through, copy_string_from_task, copy_with, free_tmp}

-- The directory has the same entries.
abbrev pub SameEntries : Words → Words → (directory : ℕ) → Type 0
SameEntries words words' directory =
    (page : ℕ)
    → page < 2 ^ 32
    → page % page_size ≡ 0
    → paging_get words' directory page ≡ paging_get words directory page

-- Setting an entry and setting the old one again.
set-set-SameEntries :
    (words : Words) (directory tmp val : ℕ)
    → IsDirectory words directory
    → tmp < 2 ^ 32
    → tmp % page_size ≡ 0
    → SameEntries words
        (paging_set
          (paging_set words directory tmp val).1
          directory
          tmp
          (paging_get words directory tmp)).1
        directory
set-set-SameEntries words directory tmp val is low even page lt aligned =
    paging_get-paging_set (paging_set words directory tmp val).1 directory
      (paging_set-IsDirectory words directory is tmp val low even) tmp
      (paging_get words directory tmp) page low lt even aligned
    ∙ elim (Bool-cases (page == tmp)) [
      | inl same ↦ let e : tmp ≡ page = ground arith in rw same (ap (paging_get words directory) e)
      | inr other ↦
          rw other
            (paging_get-paging_set words directory is tmp val page low lt even aligned ∙ rw other)
    ]

copy_through-back :
    (c : Copying) (directory tmp virtual physical max : ℕ)
    → IsDirectory c.words directory
    → tmp < 2 ^ 32
    → tmp % page_size ≡ 0
    → ((copy_through c directory tmp virtual physical max).0 ≡ ok tt)
      × ((copy_through c directory tmp virtual physical max).1.heap ≡ c.heap)
      × SameEntries c.words (copy_through c directory tmp virtual physical max).1.words directory
unfolding copy_through
copy_through-back c directory tmp virtual physical max is low even =
    let flags : ℕ = bit_or (bit_or is_writeable is_present) access_from_all in
    let old : ℕ = paging_get c.words directory tmp in
    let words1 : Words = (paging_map c.words directory tmp tmp flags).1 in
    let mapped = paging_map-aligned c.words directory tmp tmp flags even even in
    let succeeds : (paging_set words1 directory tmp old).0 ≡ ok tt =
      ap (λ (r : Result (Unit {0}) × Words). r.0)
        (paging_set-aligned words1 directory tmp old even) in
    rw (copy_through, succeeds)
      (
        refl,
        refl,
        λ page lt aligned.
            ap
              (λ (r : Result (Unit {0}) × Words).
                paging_get (paging_set r.1 directory tmp old).1 directory page)
              mapped
            ∙ set-set-SameEntries c.words directory tmp (bit_or tmp flags) is low even page lt
                aligned,
      )

-- What the copy needs of the heap: it is on page boundaries, ends in the memory, and has a free block.
pub record HasBlock (heap : Heap) (t : ℕ) : Type 0 where
  pub sound : IsSound heap
  pub aligned : heap.saddr % page_size ≡ 0
  pub below : heap.saddr + heap.total * block_size < 2 ^ 32
  pub inside : t + 1 ≤ heap.total
  pub run : IsFree heap.entries t (t + 1)

free_tmp_lem :
    (r : Result (Unit {0}) × Copying) (tmp : ℕ) (heap : Heap)
    → r.0 ≡ ok tt
    → free r.1.heap tmp ≡ some heap
    → free_tmp tmp r ≡ some (ok tt, record r.1 { heap = heap })
unfolding free_tmp kfree
free_tmp_lem (res, c) tmp heap fine back = rw (free_tmp, back, fine) refl

-- The copy behind a block's allocation.
copy_with-gives_back :
    (c : Copying) (directory virtual physical max tmp : ℕ) (heap : Heap)
    → IsDirectory c.words directory
    → free c.heap tmp ≡ some heap
    → 0 < tmp
    → tmp < 2 ^ 32
    → tmp % page_size ≡ 0
    → (c' : Copying) × (copy_with c directory tmp virtual physical max ≡ some (ok tt, c'))
      × (c'.heap ≡ heap)
      × SameEntries c.words c'.words directory
unfolding copy_with
copy_with-gives_back c directory virtual physical max tmp heap is back positive low even =
    let taken : (tmp == 0) ≡ false = ground arith in
    let (fine, kept, same) = copy_through-back c directory tmp virtual physical max is low even in
    (
      record (copy_through c directory tmp virtual physical max).1 { heap = heap },
      rw taken (
          free_tmp_lem (copy_through c directory tmp virtual physical max) tmp heap fine
            (ap (λ h. free h tmp) kept ∙ back)),
      refl,
      same,
    )

blocks_of-page : (size : ℕ) → 0 < size → size < page_size → blocks_of size ≡ 1
unfolding blocks_of
blocks_of-page size pos short = omega (arith, align_value_to_upper_lem size (omega (arith, short)))

-- For a bound above 0 and below the page size, a well-formed directory, and a sound heap on page
-- boundaries with a free block that ends below the last address, copy_string_from_task succeeds,
-- gives its block back to the heap, and leaves the entry of every page of the task's directory as
-- it was.
pub copy_string_from_task-gives_back :
    (c : Copying) (directory virtual physical max t : ℕ)
    → HasBlock c.heap t
    → 0 < max
    → max < page_size
    → IsDirectory c.words directory
    → (c' : Copying) × (copy_string_from_task c directory virtual physical max ≡ some (ok tt, c'))
      × (c'.heap ≡ c.heap)
      × SameEntries c.words c'.words directory
unfolding copy_string_from_task
copy_string_from_task-gives_back c directory virtual physical max t room pos short is =
    let fits : t + blocks_of max ≤ c.heap.total =
      omega (arith, blocks_of-page max pos short, room.inside) in
    let run' : IsFree c.heap.entries t (t + blocks_of max) =
      subst (λ n. IsFree c.heap.entries t (t + n)) (sym (blocks_of-page max pos short)) room.run in
    let (s, le, eq, inside, within, rest, taken, same) =
      malloc_lem c.heap max t room.sound pos (omega (arith, short)) fits run' in
    let at_ptr : (malloc c.heap max).0 ≡ c.heap.saddr + s * block_size =
      ap (λ (r : ℕ × Heap). r.0) eq in
    let (ptr, heap) = kzalloc-malloc c.heap c.mem max in
    let small : leb page_size max ≡ false = ground arith in
    let c0 : Copying = record c {
      heap = (kzalloc c.heap c.mem max).1;
      mem = (kzalloc c.heap c.mem max).2;
    } in
    rw small (
      copy_with-gives_back c0 directory virtual physical max (kzalloc c.heap c.mem max).0 c.heap is
        (ap₂ free heap ptr
          ∙ free-malloc c.heap max t room.sound pos (omega (arith, short)) fits run')
        (omega (arith, ptr, at_ptr, room.sound.starts))
        (omega (arith, ptr, at_ptr, within, room.below)) (omega (arith, ptr, at_ptr, room.aligned)))
