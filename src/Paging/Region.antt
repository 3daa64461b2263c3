-- ===== src/Paging/Region.antt =====
-- paging_map_to with an end that is aligned upwards, as every caller of it in the kernel has it.
use liebe_os.Prelude.{
  ℕ, ◌+◌, ◌-◌, ◌*◌, ◌/◌, ◌^◌, ◌%◌, ◌≤◌, ◌<◌, ◌≡◌, refl, ◌∙◌, ◌⊎◌, true, false, arith, ltb, ◌==◌, ok,
}
use liebe_os.Paging.{
  Words, page_size, paging_get, paging_map_to, paging_map_range, paging_align_address,
  paging_get_physical_address, paging_align_to_lower_page,
}
use liebe_os.Paging.Map.{IsDirectory}
use liebe_os.Paging.Range.{paging_map_range_lem, paging_get_physical_address-map_range}

paging_map_to-range :
    (words : Words) (directory virt phys phys_end flags : ℕ)
    → virt % page_size ≡ 0
    → phys % page_size ≡ 0
    → phys_end % page_size ≡ 0
    → phys ≤ phys_end
    → paging_map_to words directory virt phys phys_end flags
      ≡ paging_map_range ((phys_end - phys) / page_size) words directory virt phys flags
unfolding paging_map_to
paging_map_to-range words directory virt phys phys_end flags v p e le =
    let qv : (virt % page_size == 0) ≡ true = ground arith in
    let qp : (phys % page_size == 0) ≡ true = ground arith in
    let qe : (phys_end % page_size == 0) ≡ true = ground arith in
    let ql : ltb phys_end phys ≡ false = ground arith in rw (qv, qp, qe, ql) refl

align-within :
    (ptr : ℕ)
    → ptr + page_size ≤ 2 ^ 32
    → (paging_align_address ptr % page_size ≡ 0)
      × (ptr ≤ paging_align_address ptr)
      × (paging_align_address ptr < ptr + page_size)
unfolding paging_align_address
align-within ptr h = ground arith

-- An address is translated by its page's entry alone.
pub paging_get_physical_address-same :
    (words words' : Words) (directory addr : ℕ)
    → paging_get words' directory (addr - addr % page_size)
      ≡ paging_get words directory (addr - addr % page_size)
    → paging_get_physical_address words' directory addr
      ≡ paging_get_physical_address words directory addr
unfolding paging_get_physical_address paging_align_to_lower_page
paging_get_physical_address-same words words' directory addr same = rw same refl

-- What mapping `size` bytes from `virt` on to `phys` does.
pub record Holds (words words' : Words) (directory virt phys size : ℕ) : Type 0 where
  pub directory_kept : IsDirectory words' directory
  pub translated :
      (off : ℕ)
      → off < size
      → paging_get_physical_address words' directory (virt + off) ≡ phys + off
  pub others :
      (page : ℕ)
      → page < 2 ^ 32
      → page % page_size ≡ 0
      → (page < virt) ⊎ (virt + size + page_size ≤ page)
      → paging_get words' directory page ≡ paging_get words directory page

pub paging_map_to-Holds :
    (words : Words) (directory virt phys size flags : ℕ)
    → IsDirectory words directory
    → virt % page_size ≡ 0
    → phys % page_size ≡ 0
    → virt + size + page_size ≤ 2 ^ 32
    → phys + size + page_size ≤ 2 ^ 32
    → flags < page_size
    → ((paging_map_to words directory virt phys
          (paging_align_address ((phys + size) % 2 ^ 32))
          flags).0
        ≡ ok tt)
      × Holds words
          (paging_map_to words directory virt phys
            (paging_align_address ((phys + size) % 2 ^ 32))
            flags).1
          directory
          virt
          phys
          size
paging_map_to-Holds words directory virt phys size flags is v p hv hp hf =
    let wrap : (phys + size) % 2 ^ 32 ≡ phys + size = omega arith in
    let (even, lower, upper) = align-within (phys + size) hp in
    let stop : ℕ = paging_align_address (phys + size) in
    let count : ℕ = (stop - phys) / page_size in
    let e = paging_map_to-range words directory virt phys stop flags v p even (omega arith) in
    let hv' : virt + count * page_size < 2 ^ 32 = omega arith in
    let hp' : phys + count * page_size < 2 ^ 32 = omega arith in
    let (fine, is', entries) =
      paging_map_range_lem count words directory virt phys flags is v p hv' hp' in
    rw (wrap, e)
      (
        fine,
        record {
          directory_kept = is';
          translated = λ off lt.
              paging_get_physical_address-map_range count words directory virt phys flags
                (virt + off) is v p hv' hp' hf (omega arith) (omega arith)
              ∙ omega arith;
          others = λ page low aligned apart.
              entries page low aligned ∙ ground (arith, apart, upper, even, p);
        },
      )
