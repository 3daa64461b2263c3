-- ===== src/Paging/Range.antt =====
-- Mapping ranges of pages, and the translation of their addresses.
use liebe_os.Prelude.{
  ℕ, zero, suc, ◌+◌, ◌-◌, ◌*◌, ◌/◌, ◌%◌, ◌^◌, ◌≤◌, ◌<◌, ◌≡◌, refl, true, false, bit_or, ltb, ◌==◌,
  if◌then◌else◌, Result, ok, arith, inl, inr, Bool-cases, ap, ap, ◌∙◌, bit_or_disjoint,
}
use liebe_os.Paging.{
  Words, page_size, paging_set, paging_get, paging_map, paging_map_range, paging_map_to,
  paging_align_address, paging_get_physical_address,
}
use liebe_os.Paging.Map.{IsDirectory, paging_set-IsDirectory, paging_get-paging_set}

pub paging_map-aligned :
    (words : Words) (directory virt phys flags : ℕ)
    → virt % page_size ≡ 0
    → phys % page_size ≡ 0
    → paging_map words directory virt phys flags
      ≡ (ok tt, (paging_set words directory virt (bit_or phys flags)).1)
unfolding paging_map
paging_map-aligned words directory virt phys flags av ap_ =
    let v : (virt % page_size == 0) ≡ true = ground arith in
    let p : (phys % page_size == 0) ≡ true = ground arith in rw (v, p)

paging_map_range-suc :
    (count : ℕ) (words : Words) (directory virt phys flags : ℕ)
    → virt % page_size ≡ 0
    → phys % page_size ≡ 0
    → virt + page_size < 2 ^ 32
    → phys + page_size < 2 ^ 32
    → paging_map_range (suc count) words directory virt phys flags
      ≡ paging_map_range count
          (paging_set words directory virt (bit_or phys flags)).1
          directory
          (virt + page_size)
          (phys + page_size)
          flags
unfolding paging_map_range
paging_map_range-suc count words directory virt phys flags av ap_ hv hp =
    let v : (virt + page_size) % 2 ^ 32 ≡ virt + page_size = omega arith in
    let p : (phys + page_size) % 2 ^ 32 ≡ phys + page_size = omega arith in
    let e = paging_map-aligned words directory virt phys flags av ap_ in
    rw (e, paging_map_range, v, p)
      (ap (λ w. paging_map_range count w directory (virt + page_size) (phys + page_size) flags)
        (ap (λ (r : Result (Unit {0}) × Words). r.1) e))

-- The entry that a range of `count` pages from `virt` on, mapped to `phys`, leaves for a page.
abbrev pub mapped : Words → (directory virt phys flags count page : ℕ) → ℕ
mapped words directory virt phys flags count page =
    if ltb page virt
    then paging_get words directory page
    else if ltb page (virt + count * page_size)
    then bit_or (phys + (page - virt)) flags
    else paging_get words directory page

mapped-suc :
    (count : ℕ) (words : Words) (directory virt phys flags page : ℕ)
    → page < 2 ^ 32
    → virt % page_size ≡ 0
    → page % page_size ≡ 0
    → paging_get (paging_set words directory virt (bit_or phys flags)).1 directory page
      ≡ (if page == virt then bit_or phys flags else paging_get words directory page)
    → mapped
        (paging_set words directory virt (bit_or phys flags)).1
        directory
        (virt + page_size)
        (phys + page_size)
        flags
        count
        page
      ≡ mapped words directory virt phys flags (suc count) page
mapped-suc count words directory virt phys flags page lt av al e =
    elim (Bool-cases (ltb virt page)) [
      | inl after ↦
          let d : phys + page_size + (page - (virt + page_size)) ≡ phys + (page - virt) =
            ground arith in
          ground (arith, ap (λ w. bit_or w flags) d)
      | inr upto ↦
          let d : page ≡ virt → phys + (page - virt) ≡ phys = λ q. omega arith in
          ground (arith, λ (q : page ≡ virt). ap (λ w. bit_or w flags) (d q))
    ]

-- In a well-formed directory, mapping a range of aligned pages that does not wrap succeeds, keeps
-- the directory well-formed, gives each page of the range the frame at the same distance with the
-- flags, and changes no entry of another page.
pub paging_map_range_lem :
    (count : ℕ) (words : Words) (directory virt phys flags : ℕ)
    → IsDirectory words directory
    → virt % page_size ≡ 0
    → phys % page_size ≡ 0
    → virt + count * page_size < 2 ^ 32
    → phys + count * page_size < 2 ^ 32
    → ((paging_map_range count words directory virt phys flags).0 ≡ ok tt)
      × IsDirectory (paging_map_range count words directory virt phys flags).1 directory
      × ((page : ℕ)
          → page < 2 ^ 32
          → page % page_size ≡ 0
          → paging_get (paging_map_range count words directory virt phys flags).1 directory page
            ≡ mapped words directory virt phys flags count page)
paging_map_range_lem zero words directory virt phys flags is av ap_ hv hp =
    unfold paging_map_range in (refl, is, λ page lt al. ground arith)
paging_map_range_lem (suc count) words directory virt phys flags is av ap_ hv hp =
    let step =
      paging_map_range-suc count words directory virt phys flags av ap_ (omega arith)
        (omega arith) in
    let is' = paging_set-IsDirectory words directory is virt (bit_or phys flags) (omega arith) av in
    let (res, kept, read) =
      paging_map_range_lem count (paging_set words directory virt (bit_or phys flags)).1 directory
        (virt + page_size) (phys + page_size) flags is' (omega arith) (omega arith) (omega arith)
        (omega arith) in
    rw step (
      res,
      kept,
      λ page lt al.
          read page lt al
          ∙ mapped-suc count words directory virt phys flags page lt av al (
              paging_get-paging_set words directory is virt (bit_or phys flags) page (omega arith)
                lt av al),
    )

-- In a well-formed directory, after a range of aligned pages that does not wrap is mapped with
-- flags below the page size, every address of the range is translated to the frame's address at the
-- same distance.
pub paging_get_physical_address-map_range :
    (count : ℕ) (words : Words) (directory virt phys flags addr : ℕ)
    → IsDirectory words directory
    → virt % page_size ≡ 0
    → phys % page_size ≡ 0
    → virt + count * page_size < 2 ^ 32
    → phys + count * page_size < 2 ^ 32
    → flags < page_size
    → virt ≤ addr
    → addr < virt + count * page_size
    → paging_get_physical_address
        (paging_map_range count words directory virt phys flags).1
        directory
        addr
      ≡ phys + (addr - virt)
unfolding paging_get_physical_address
paging_get_physical_address-map_range count words directory virt phys flags addr is av ap_ hv hp hf
      lo hi =
    let page : ℕ = addr - addr % page_size in
    let (res, kept, read) =
      paging_map_range_lem count words directory virt phys flags is av ap_ hv hp in
    let frame : ℕ = phys + (page - virt) in
    let inside : mapped words directory virt phys flags count page ≡ bit_or frame flags =
      ground arith in
    let aligned : frame / 4096 * 2 ^ 12 ≡ frame = omega arith in
    let or : bit_or frame flags ≡ frame + flags =
      rw aligned at (bit_or_disjoint 12 (frame / 4096) flags (omega arith)) in
    let entry = read page (omega arith) (omega arith) ∙ inside ∙ or in rw entry (omega arith)

-- A range of aligned pages is mapped without an error.
paging_map_range-ok :
    (count : ℕ) (words : Words) (directory virt phys flags : ℕ)
    → virt % page_size ≡ 0
    → phys % page_size ≡ 0
    → (paging_map_range count words directory virt phys flags).0 ≡ ok tt
unfolding paging_map_range
paging_map_range-ok zero words directory virt phys flags v p = refl
paging_map_range-ok (suc count) words directory virt phys flags v p =
    rw (paging_map-aligned words directory virt phys flags v p, paging_map_range)
      (paging_map_range-ok count (paging_map words directory virt phys flags).1 directory
        ((virt + page_size) % 2 ^ 32) ((phys + page_size) % 2 ^ 32) flags (omega arith)
        (omega arith))

-- So are the pages up to an aligned end.
pub paging_map_to-ok :
    (words : Words) (directory virt phys phys_end flags : ℕ)
    → virt % page_size ≡ 0
    → phys % page_size ≡ 0
    → phys_end % page_size ≡ 0
    → phys ≤ phys_end
    → (paging_map_to words directory virt phys phys_end flags).0 ≡ ok tt
unfolding paging_map_to
paging_map_to-ok words directory virt phys phys_end flags v p e le =
    let qv : (virt % page_size == 0) ≡ true = ground arith in
    let qp : (phys % page_size == 0) ≡ true = ground arith in
    let qe : (phys_end % page_size == 0) ≡ true = ground arith in
    let ql : ltb phys_end phys ≡ false = ground arith in
    rw (qv, qp, qe, ql)
      (paging_map_range-ok ((phys_end - phys) / page_size) words directory virt phys flags v p)

-- An address with a page behind it is aligned upwards to a page's start.
pub paging_align_address_lem :
    (ptr : ℕ)
    → ptr + page_size ≤ 2 ^ 32
    → (paging_align_address ptr % page_size ≡ 0) × (ptr ≤ paging_align_address ptr)
unfolding paging_align_address
paging_align_address_lem ptr h = ground arith
