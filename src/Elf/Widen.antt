-- ===== src/Elf/Widen.antt =====
-- What one segment does to the span of the loaded ones.
use liebe_os.Prelude.{
  ℕ, suc, ◌+◌, ◌^◌, ◌%◌, ◌≤◌, ◌<◌, ◌≡◌, ◌≢◌, refl, sym, ap, ◌∙◌, ◌⊎◌, inl, inr, arith, leb, ◌==◌,
  Bool-cases, subst, ◌||◌,
}
use liebe_os.Elf.{Phdr, ElfFile, pt_load, lower_base, raise_end}
use liebe_os.Elf.Span.{Spans, Bare, BaseAt, EndAt, end_of}

-- What a loaded segment does to the base and to the end.
pub record KeptBase (file : ElfFile) (phdr : Phdr) (file' : ElfFile) : Type 0 where
  virtual : file'.virtual_base ≡ file.virtual_base
  physical : file'.physical_base ≡ file.physical_base
  beyond : file.virtual_base < phdr.p_vaddr
  not_null : 0 < file.virtual_base

pub record TakenBase (file : ElfFile) (phdr : Phdr) (file' : ElfFile) : Type 0 where
  virtual : file'.virtual_base ≡ phdr.p_vaddr
  physical : file'.physical_base ≡ (file.elf_memory + phdr.p_offset) % 2 ^ 32
  below : (phdr.p_vaddr ≤ file.virtual_base) ⊎ (file.virtual_base ≡ 0)

pub record KeptEnd (file : ElfFile) (phdr : Phdr) (file' : ElfFile) : Type 0 where
  virtual : file'.virtual_end ≡ file.virtual_end
  physical : file'.physical_end ≡ file.physical_end
  before : end_of phdr < file.virtual_end

pub record TakenEnd (file : ElfFile) (phdr : Phdr) (file' : ElfFile) : Type 0 where
  virtual : file'.virtual_end ≡ end_of phdr
  physical : file'.physical_end ≡ (file.elf_memory + phdr.p_offset + phdr.p_filesz) % 2 ^ 32
  behind : file.virtual_end ≤ end_of phdr

-- The same memory, and the base and the end kept or taken.
pub record Widened (file : ElfFile) (phdr : Phdr) (file' : ElfFile) : Type 0 where
  memory : file'.elf_memory ≡ file.elf_memory
  base : KeptBase file phdr file' ⊎ TakenBase file phdr file'
  ending : KeptEnd file phdr file' ⊎ TakenEnd file phdr file'

lower_base_lem :
    (file : ElfFile) (phdr : Phdr)
    → ((lower_base file phdr).elf_memory ≡ file.elf_memory)
      × ((lower_base file phdr).virtual_end ≡ file.virtual_end)
      × ((lower_base file phdr).physical_end ≡ file.physical_end)
      × (KeptBase file phdr (lower_base file phdr) ⊎ TakenBase file phdr (lower_base file phdr))
unfolding lower_base
lower_base_lem file phdr =
    elim (Bool-cases (leb phdr.p_vaddr file.virtual_base || file.virtual_base == 0)) [
      | inl lower ↦
          rw lower (
            refl,
            refl,
            refl,
            inr (record { virtual = refl; physical = refl; below = ground arith }),
          )
      | inr higher ↦ rw higher (
        refl,
        refl,
        refl,
        inl (record {
          virtual = refl;
          physical = refl;
          beyond = ground arith;
          not_null = ground arith;
        }),
      )
    ]

raise_end_lem :
    (file : ElfFile) (phdr : Phdr)
    → ((raise_end file phdr).elf_memory ≡ file.elf_memory)
      × ((raise_end file phdr).virtual_base ≡ file.virtual_base)
      × ((raise_end file phdr).physical_base ≡ file.physical_base)
      × (KeptEnd file phdr (raise_end file phdr) ⊎ TakenEnd file phdr (raise_end file phdr))
unfolding raise_end
raise_end_lem file phdr =
    elim (Bool-cases (leb file.virtual_end (end_of phdr) || file.virtual_end == 0)) [
      | inl higher ↦ rw higher (
        refl,
        refl,
        refl,
        inr (record { virtual = refl; physical = refl; behind = ground arith }),
      )
      | inr lower ↦ rw lower (
        refl,
        refl,
        refl,
        inl (record { virtual = refl; physical = refl; before = ground arith }),
      )
    ]

-- Fields that the other half of the step leaves.
base_after :
    (file f1 f2 : ElfFile) (phdr : Phdr)
    → f2.virtual_base ≡ f1.virtual_base
    → f2.physical_base ≡ f1.physical_base
    → KeptBase file phdr f1 ⊎ TakenBase file phdr f1
    → KeptBase file phdr f2 ⊎ TakenBase file phdr f2
base_after file f1 f2 phdr v p (inl k) = inl (record {
  virtual = v ∙ k.virtual;
  physical = p ∙ k.physical;
  beyond = k.beyond;
  not_null = k.not_null;
})
base_after file f1 f2 phdr v p (inr k) =
    inr (record { virtual = v ∙ k.virtual; physical = p ∙ k.physical; below = k.below })

end_before :
    (file f1 f2 : ElfFile) (phdr : Phdr)
    → f1.elf_memory ≡ file.elf_memory
    → f1.virtual_end ≡ file.virtual_end
    → f1.physical_end ≡ file.physical_end
    → KeptEnd f1 phdr f2 ⊎ TakenEnd f1 phdr f2
    → KeptEnd file phdr f2 ⊎ TakenEnd file phdr f2
end_before file f1 f2 phdr m v p (inl k) = inl (record {
  virtual = k.virtual ∙ v;
  physical = k.physical ∙ p;
  before = omega (arith, k.before, v);
})
end_before file f1 f2 phdr m v p (inr k) = inr (record {
  virtual = k.virtual;
  physical = k.physical ∙ ap (λ a. (a + phdr.p_offset + phdr.p_filesz) % 2 ^ 32) m;
  behind = omega (arith, k.behind, v);
})

pub step-Widened :
    (file : ElfFile) (phdr : Phdr) → Widened file phdr (raise_end (lower_base file phdr) phdr)
step-Widened file phdr =
    let f1 = lower_base file phdr in
    let f2 = raise_end f1 phdr in
    let (m, v, p, base) = lower_base_lem file phdr in
    let (m', v', p', ending) = raise_end_lem f1 phdr in
    record {
      memory = m' ∙ m;
      base = base_after file f1 f2 phdr v' p' base;
      ending = end_before file f1 f2 phdr m v p ending;
    }

taken_base :
    (file : ElfFile) (phdr : Phdr) (file' : ElfFile)
    → file.virtual_base ≡ 0
    → KeptBase file phdr file' ⊎ TakenBase file phdr file'
    → TakenBase file phdr file'
taken_base file phdr file' null (inl k) = absurd (omega (arith, k.not_null, null))
taken_base file phdr file' null (inr k) = k

taken_end :
    (file : ElfFile) (phdr : Phdr) (file' : ElfFile)
    → file.virtual_end ≡ 0
    → KeptEnd file phdr file' ⊎ TakenEnd file phdr file'
    → TakenEnd file phdr file'
taken_end file phdr file' null (inl k) = absurd (omega (arith, k.before, null))
taken_end file phdr file' null (inr k) = k

module _ (segment : ℕ → Phdr) where
  -- What holds below `n` and of `n` holds below `suc n`.
  earlier-or-last : (P : ℕ → Type 0) (n i : ℕ) → i < suc n → (i < n → P i) → P n → P i
  earlier-or-last P n i lt earlier last = elim (Bool-cases (i == n)) [
    | inl same ↦ subst P (ground (arith, same)) last
    | inr other ↦ earlier (ground (arith, lt, other))
  ]

  abbrev AboveBase : ElfFile → ℕ → Type 0
  AboveBase file i = (segment i).p_type ≡ pt_load → file.virtual_base ≤ (segment i).p_vaddr

  abbrev BelowEnd : ElfFile → ℕ → Type 0
  BelowEnd file i = (segment i).p_type ≡ pt_load → end_of (segment i) ≤ file.virtual_end

  BaseAt-last :
      (n : ℕ) (file file' : ElfFile)
      → (segment n).p_type ≡ pt_load
      → file'.elf_memory ≡ file.elf_memory
      → TakenBase file (segment n) file'
      → BaseAt segment (suc n) file'
  BaseAt-last n file file' load m b = (
    n,
    omega arith,
    load,
    b.virtual,
    b.physical ∙ ap (λ m. (m + (segment n).p_offset) % 2 ^ 32) (sym m),
  )

  EndAt-last :
      (n : ℕ) (file file' : ElfFile)
      → (segment n).p_type ≡ pt_load
      → file'.elf_memory ≡ file.elf_memory
      → TakenEnd file (segment n) file'
      → EndAt segment (suc n) file'
  EndAt-last n file file' load m e = (
    n,
    omega arith,
    load,
    e.virtual,
    e.physical ∙ ap (λ m. (m + (segment n).p_offset + (segment n).p_filesz) % 2 ^ 32) (sym m),
  )

  -- The first segment that is loaded.
  pub first-Spans :
      (n : ℕ) (file file' : ElfFile)
      → Bare segment n file
      → (segment n).p_type ≡ pt_load
      → Widened file (segment n) file'
      → Spans segment (suc n) file'
  first-Spans n file file' bare load step =
      let b = taken_base file (segment n) file' bare.no_base step.base in
      let e = taken_end file (segment n) file' bare.no_end step.ending in
      record {
        below = λ i lt.
            earlier-or-last (AboveBase file') n i lt (λ lt' is. absurd (bare.none_yet i lt' is))
              (λ is. omega (arith, b.virtual));
        above = λ i lt.
            earlier-or-last (BelowEnd file') n i lt (λ lt' is. absurd (bare.none_yet i lt' is))
              (λ is. omega (arith, e.virtual));
        base_at = BaseAt-last n file file' load step.memory b;
        end_at = EndAt-last n file file' load step.memory e;
      }

  BaseAt-next :
      (n : ℕ) (file file' : ElfFile)
      → (segment n).p_type ≡ pt_load
      → file'.elf_memory ≡ file.elf_memory
      → BaseAt segment n file
      → KeptBase file (segment n) file' ⊎ TakenBase file (segment n) file'
      → BaseAt segment (suc n) file'
  BaseAt-next n file file' load m (i, lt, is, v, p) (inl k) = (
    i,
    omega arith,
    is,
    k.virtual ∙ v,
    k.physical ∙ p ∙ ap (λ m. (m + (segment i).p_offset) % 2 ^ 32) (sym m),
  )
  BaseAt-next n file file' load m old (inr k) = BaseAt-last n file file' load m k

  EndAt-next :
      (n : ℕ) (file file' : ElfFile)
      → (segment n).p_type ≡ pt_load
      → file'.elf_memory ≡ file.elf_memory
      → EndAt segment n file
      → KeptEnd file (segment n) file' ⊎ TakenEnd file (segment n) file'
      → EndAt segment (suc n) file'
  EndAt-next n file file' load m (i, lt, is, v, p) (inl k) = (
    i,
    omega arith,
    is,
    k.virtual ∙ v,
    k.physical ∙ p ∙ ap (λ m. (m + (segment i).p_offset + (segment i).p_filesz) % 2 ^ 32) (sym m),
  )
  EndAt-next n file file' load m old (inr k) = EndAt-last n file file' load m k

  -- How the base and the end move.
  base_moves :
      (file : ElfFile) (phdr : Phdr) (file' : ElfFile)
      → file.virtual_base ≢ 0
      → KeptBase file phdr file' ⊎ TakenBase file phdr file'
      → (file'.virtual_base ≤ file.virtual_base) × (file'.virtual_base ≤ phdr.p_vaddr)
  base_moves file phdr file' ne (inl k) =
      (omega (arith, k.virtual), omega (arith, k.virtual, k.beyond))
  base_moves file phdr file' ne (inr k) =
      (ground (arith, k.virtual, k.below, ne), omega (arith, k.virtual))

  end_moves :
      (file : ElfFile) (phdr : Phdr) (file' : ElfFile)
      → KeptEnd file phdr file' ⊎ TakenEnd file phdr file'
      → (file.virtual_end ≤ file'.virtual_end) × (end_of phdr ≤ file'.virtual_end)
  end_moves file phdr file' (inl k) = (omega (arith, k.virtual), omega (arith, k.virtual, k.before))
  end_moves file phdr file' (inr k) = (omega (arith, k.virtual, k.behind), omega (arith, k.virtual))

  -- A later one.
  pub next-Spans :
      (n : ℕ) (file file' : ElfFile)
      → Spans segment n file
      → file.virtual_base ≢ 0
      → (segment n).p_type ≡ pt_load
      → Widened file (segment n) file'
      → Spans segment (suc n) file'
  next-Spans n file file' spans ne load step =
      let (base_le, base_new) = base_moves file (segment n) file' ne step.base in
      let (end_le, end_new) = end_moves file (segment n) file' step.ending in
      record {
        below = λ i lt.
            earlier-or-last (AboveBase file') n i lt
              (λ lt' is. omega (arith, base_le, spans.below i lt' is)) (λ is. base_new);
        above = λ i lt.
            earlier-or-last (BelowEnd file') n i lt
              (λ lt' is. omega (arith, end_le, spans.above i lt' is)) (λ is. end_new);
        base_at = BaseAt-next n file file' load step.memory spans.base_at step.base;
        end_at = EndAt-next n file file' load step.memory spans.end_at step.ending;
      }

  -- A segment that is not loaded.
  pub skip-Spans :
      (n : ℕ) (file : ElfFile)
      → (segment n).p_type ≢ pt_load
      → Spans segment n file
      → Spans segment (suc n) file
  skip-Spans n file out spans =
      let (i, lt, is, v, p) = spans.base_at in
      let (j, lt', is', v', p') = spans.end_at in
      record {
        below = λ i lt.
            earlier-or-last (AboveBase file) n i lt (λ lt'. spans.below i lt')
              (λ is. absurd (out is));
        above = λ i lt.
            earlier-or-last (BelowEnd file) n i lt (λ lt'. spans.above i lt')
              (λ is. absurd (out is));
        base_at = (i, omega (arith, lt), is, v, p);
        end_at = (j, omega (arith, lt'), is', v', p');
      }

  pub skip-Bare :
      (n : ℕ) (file : ElfFile)
      → (segment n).p_type ≢ pt_load
      → Bare segment n file
      → Bare segment (suc n) file
  skip-Bare n file out bare = record {
    none_yet =
        λ i lt. earlier-or-last (λ i. (segment i).p_type ≢ pt_load) n i lt (bare.none_yet i) out;
    no_base = bare.no_base;
    no_end = bare.no_end;
  }
