-- ===== src/File/Descriptors.antt =====
-- The table of descriptors.
use liebe_os.Prelude.{
  ℕ, zero, suc, ◌+◌, ◌≤◌, ◌<◌, ◌≡◌, refl, ◌≢◌, Option, none, some, ◌==◌, update, Status, ok, err,
  arith, inl, inr, Bool-cases, Option-cases, ap, ◌⊎◌,
}
use liebe_os.File.{Descriptor, Filesystem, max_descriptors, first_free, file_new_descriptor}

-- What the search for a free slot finds among the indices `i ≤ j < i + left`.
abbrev pub FreeSlot {ℓ} : {A : Type ℓ} → (left i : ℕ) → (ℕ → Option A) → Option ℕ → Type ℓ
FreeSlot left i table none = (j : ℕ) → i ≤ j → j < i + left → table j ≢ none
FreeSlot left i table (some s) =
    (i ≤ s) × (s < i + left) × (table s ≡ none) × ((j : ℕ) → i ≤ j → j < s → table j ≢ none)

widen {ℓ} :
    {A : Type ℓ} (left i : ℕ) (table : ℕ → Option A) (a : A) (r : Option ℕ)
    → table i ≡ some a
    → FreeSlot left (i + 1) table r
    → FreeSlot (suc left) i table r
widen left i table a none e h = λ j lo hi q. elim (Bool-cases (j == i)) [
  | inl same ↦ let p : j ≡ i = ground arith in cc (ap table p, e, q)
  | inr other ↦ h j (ground arith) (omega arith) q
]
widen left i table a (some s) e (lo, hi, free, before) = (
  omega arith,
  omega arith,
  free,
  λ j l u q. elim (Bool-cases (j == i)) [
    | inl same ↦ let p : j ≡ i = ground arith in cc (ap table p, e, q)
    | inr other ↦ before j (ground arith) u q
  ],
)

pub first_free-FreeSlot {ℓ} :
    {A : Type ℓ} (left i : ℕ) (table : ℕ → Option A)
    → FreeSlot left i table (first_free left i table)
unfolding first_free
first_free-FreeSlot zero i table = λ j lo hi. absurd (omega arith)
first_free-FreeSlot (suc left) i table = elim (Option-cases (table i)) [
  | inl e ↦ rw (e, FreeSlot) (omega arith, omega arith, e, λ j lo hi. absurd (omega arith))
  | inr (a, e) ↦
      rw (e, FreeSlot) (widen left i table a _ e (first_free-FreeSlot left (i + 1) table))
]

module _ {W : Type 0} where
  -- A new descriptor takes the first free slot, and no other slot changes; without a free slot the
  -- table stays as it was.
  pub file_new_descriptor_lem :
      (table : ℕ → Option (Descriptor W)) (fs : Filesystem W) (pvt disk : ℕ)
      → ((i : ℕ) × (i < max_descriptors)
          × (table i ≡ none)
          × (file_new_descriptor table fs pvt disk ≡ (
            ok (i + 1),
            update table i
                (some (record { index = i + 1; filesystem = fs; pvt = pvt; disk = disk })),
          )))
        ⊎ (file_new_descriptor table fs pvt disk ≡ (err Status.enomem, table))
  unfolding file_new_descriptor
  file_new_descriptor_lem table fs pvt disk =
      go (first_free max_descriptors 0 table) refl (first_free-FreeSlot max_descriptors 0 table)
    where
      go :
          (r : Option ℕ)
          → first_free max_descriptors 0 table ≡ r
          → FreeSlot max_descriptors 0 table r
          → ((i : ℕ) × (i < max_descriptors)
              × (table i ≡ none)
              × (file_new_descriptor table fs pvt disk ≡ (
                ok (i + 1),
                update table i
                    (some (record { index = i + 1; filesystem = fs; pvt = pvt; disk = disk })),
              )))
            ⊎ (file_new_descriptor table fs pvt disk ≡ (err Status.enomem, table))
      go none e h = inr (rw (e, file_new_descriptor))
      go (some i) e h = inl (i, omega arith, h.2, rw (e, file_new_descriptor))
