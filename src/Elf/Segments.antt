-- ===== src/Elf/Segments.antt =====
-- The span of all the segments that are loaded.
use liebe_os.Prelude.{
  ℕ, zero, suc, ◌+◌, ◌<◌, ◌≡◌, ◌≢◌, refl, sym, ◌∙◌, ◌⊎◌, inl, inr, arith, ◌==◌, Bool-cases, subst,
  ok,
}
use liebe_os.Memory.{Memory}
use liebe_os.Elf.{
  Phdr, ElfFile, pt_load, header_at, phdr_at, elf_program_header, lower_base, raise_end,
  elf_process_phdr_pt_load, elf_process_pheader, pheaders_loop, elf_process_pheaders,
}
use liebe_os.Elf.Span.{Spans, Bare}
use liebe_os.Elf.Widen.{step-Widened, first-Spans, next-Spans, skip-Spans, skip-Bare}

-- The headers in the table of a file's header.
unfoldable pub segments : Memory → (header : ℕ) → ℕ → Phdr
segments mem header i = phdr_at mem (elf_program_header mem header i)

module _ (segment : ℕ → Phdr) where
  -- One header, loaded or not.
  step-Spans :
      (n : ℕ) (file : ElfFile)
      → ((i : ℕ) → i < suc n → (segment i).p_type ≡ pt_load → (segment i).p_vaddr ≢ 0)
      → Spans segment n file ⊎ Bare segment n file
      → ((elf_process_pheader file (segment n)).0 ≡ ok tt)
        × (Spans segment (suc n) (elf_process_pheader file (segment n)).1
            ⊎ Bare segment (suc n) (elf_process_pheader file (segment n)).1)
  unfolding elf_process_pheader elf_process_phdr_pt_load
  step-Spans n file positive seen = elim (Bool-cases ((segment n).p_type == pt_load)) [
    | inl load ↦ rw load (refl, inl (widened seen (ground (arith, load))))
    | inr out ↦ rw out (refl, skipped seen (ground (arith, out)))
  ]
    where
      widened :
          Spans segment n file ⊎ Bare segment n file
          → (segment n).p_type ≡ pt_load
          → Spans segment (suc n) (raise_end (lower_base file (segment n)) (segment n))
      widened (inl spans) load =
          let (i, lt, is, v, p) = spans.base_at in
          next-Spans segment n file _ spans (λ e. positive i (omega (arith, lt)) is (sym v ∙ e))
            load (step-Widened file (segment n))
      widened (inr bare) load =
          first-Spans segment n file _ bare load (step-Widened file (segment n))

      skipped :
          Spans segment n file ⊎ Bare segment n file
          → (segment n).p_type ≢ pt_load
          → Spans segment (suc n) file ⊎ Bare segment (suc n) file
      skipped (inl spans) out = inl (skip-Spans segment n file out spans)
      skipped (inr bare) out = inr (skip-Bare segment n file out bare)

module _ (mem : Memory) (header : ℕ) where
  pheaders_loop-Spans :
      (left n total : ℕ) (file : ElfFile)
      → n + left ≡ total
      → ((i : ℕ)
          → i < total
          → (segments mem header i).p_type ≡ pt_load
          → (segments mem header i).p_vaddr ≢ 0)
      → Spans (segments mem header) n file ⊎ Bare (segments mem header) n file
      → ((pheaders_loop left n mem header file).0 ≡ ok tt)
        × (Spans (segments mem header) total (pheaders_loop left n mem header file).1
            ⊎ Bare (segments mem header) total (pheaders_loop left n mem header file).1)
  unfolding pheaders_loop segments
  pheaders_loop-Spans zero n total file e positive seen =
      let at_total : n ≡ total = omega (arith, e) in
      (
        refl,
        subst (λ n. Spans (segments mem header) n file ⊎ Bare (segments mem header) n file) at_total
            seen,
      )
  pheaders_loop-Spans (suc left) n total file e positive seen =
      let (fine, seen') =
        step-Spans (segments mem header) n file (λ i lt. positive i (omega (arith, lt, e))) seen in
      rw (pheaders_loop, fine)
        (pheaders_loop-Spans left (n + 1) total (elf_process_pheader file (segments mem header n)).1
          (omega (arith, e)) positive
          (subst
            (λ k.
              Spans (segments mem header) k (elf_process_pheader file (segments mem header n)).1
              ⊎ Bare (segments mem header) k (elf_process_pheader file (segments mem header n)).1)
            (omega arith) seen'))

-- For a file whose span is still blank, with a segment to load, and none to load at address 0,
-- elf_process_pheaders reports no error, and the span reaches from the least start of a loaded
-- segment to the greatest end, each with the physical address of a segment that has it.
pub elf_process_pheaders-Spans :
    (mem : Memory) (file : ElfFile) (i : ℕ)
    → file.virtual_base ≡ 0
    → file.virtual_end ≡ 0
    → ((i : ℕ)
        → i < (header_at mem file.elf_memory).e_phnum
        → (segments mem file.elf_memory i).p_type ≡ pt_load
        → (segments mem file.elf_memory i).p_vaddr ≢ 0)
    → i < (header_at mem file.elf_memory).e_phnum
    → (segments mem file.elf_memory i).p_type ≡ pt_load
    → ((elf_process_pheaders mem file).0 ≡ ok tt)
      × Spans
          (segments mem file.elf_memory)
          (header_at mem file.elf_memory).e_phnum
          (elf_process_pheaders mem file).1
unfolding elf_process_pheaders
elf_process_pheaders-Spans mem file i no_base no_end positive lt is =
    let n = (header_at mem file.elf_memory).e_phnum in
    let blank : Bare (segments mem file.elf_memory) 0 file = record {
      none_yet = λ i lt. absurd (omega (arith, lt));
      no_base = no_base;
      no_end = no_end;
    } in
    let (fine, seen) =
      pheaders_loop-Spans mem file.elf_memory n 0 n file (omega arith) positive (inr blank) in
    (fine, elim seen [ inl spans ↦ spans | inr bare ↦ absurd (bare.none_yet i lt is) ])
