-- ===== src/Paging/Freeing.antt =====
-- paging_free_4gb, for a directory whose tables are the blocks of a list.
use liebe_os.Prelude.{
  ℕ, suc, ◌+◌, ◌*◌, ◌<◌, ◌≡◌, refl, List, [], ◌∷◌, ◌++◌, none, some, arith, length, ap, ◌∙◌,
}
use liebe_os.Heap.{Heap, block_size}
use liebe_os.Heap.Kernel.{kfree}
use liebe_os.Heap.Lent.{Lent, IsSpace, free-one, with_entry}
use liebe_os.Paging.{Words, table_entries, slot, page_of, free_tables, paging_free_4gb}
use liebe_os.Paging.Map.{table_at}

-- The tables of the indices from `i` on are the blocks of a list.
abbrev pub TablesAt : Words → (directory saddr i : ℕ) → List ℕ → Type 0
TablesAt words directory saddr i [] = Unit {0}
TablesAt words directory saddr i (k ∷ ks) =
    (table_at words directory i ≡ saddr + k * block_size)
    × TablesAt words directory saddr (i + 1) ks

pub TablesAt-same :
    (words words' : Words) (directory saddr i : ℕ) (ks : List ℕ)
    → ((d : ℕ) → d < i + length ks → words' (slot directory d) ≡ words (slot directory d))
    → TablesAt words directory saddr i ks
    → TablesAt words' directory saddr i ks
TablesAt-same words words' directory saddr i [] same at_ = tt
TablesAt-same words words' directory saddr i (k ∷ ks) same (here, rest) = (
  ap page_of (same i (omega arith)) ∙ here,
  TablesAt-same words words' directory saddr (i + 1) ks (λ d lt. same d (omega arith)) rest,
)

pub TablesAt-snoc :
    (words : Words) (directory saddr i s : ℕ) (ks : List ℕ)
    → TablesAt words directory saddr i ks
    → table_at words directory (i + length ks) ≡ saddr + s * block_size
    → TablesAt words directory saddr i (ks ++ s ∷ [])
TablesAt-snoc words directory saddr i s [] at_ new =
    let e : i + 0 ≡ i = omega arith in (rw e at new, tt)
TablesAt-snoc words directory saddr i s (k ∷ ks) (here, rest) new =
    let e : i + suc (length ks) ≡ i + 1 + length ks = omega arith in
    (here, TablesAt-snoc words directory saddr (i + 1) s ks rest (rw e at new))

-- The loop of paging_free_4gb frees the blocks of the tables.
free_tables_lem :
    (ks rest : List ℕ) (i directory : ℕ) (words : Words) (before heap : Heap)
    → IsSpace heap
    → TablesAt words directory heap.saddr i ks
    → Lent before heap (ks ++ rest)
    → (heap' : Heap) × (free_tables (length ks) i directory words heap ≡ some heap')
      × Lent before heap' rest
      × (heap'.saddr ≡ heap.saddr)
      × (heap'.total ≡ heap.total)
unfolding free_tables kfree
free_tables_lem [] rest i directory words before heap space at_ lent =
    (heap, refl, lent, refl, refl)
free_tables_lem (k ∷ ks) rest i directory words before heap space (here, more)
      (taken, inside, lent) =
    let (heap', freed, left, saddr, total) =
      free_tables_lem ks rest (i + 1) directory words before (with_entry heap k 0) space more
        lent in
    (heap', rw (here, free-one heap k space inside taken, free_tables) freed, left, saddr, total)

free_last :
    (before heap : Heap) (directory dk ck chunk : ℕ)
    → IsSpace heap
    → directory ≡ heap.saddr + dk * block_size
    → chunk ≡ heap.saddr + ck * block_size
    → Lent before heap (dk ∷ ck ∷ [])
    → (elim (kfree heap directory) [ none ↦ none | some heap2 ↦ kfree heap2 chunk ]) ≡ some before
unfolding kfree
free_last before heap directory dk ck chunk space dplace cplace
      (taken, inside, (taken2, inside2, last)) =
    rw
      (
        dplace,
        free-one heap dk space inside taken,
        cplace,
        free-one (with_entry heap dk 0) ck space inside2 taken2,
      )
      (ap (λ h. some h) last)

-- The frees after the tables': the directory's and that of the `struct page_directory`.
pub paging_free_4gb_lem :
    (before heap : Heap) (words : Words) (directory dk ck chunk : ℕ) (ks : List ℕ)
    → IsSpace heap
    → length ks ≡ table_entries
    → words chunk ≡ directory
    → directory ≡ heap.saddr + dk * block_size
    → chunk ≡ heap.saddr + ck * block_size
    → TablesAt words directory heap.saddr 0 ks
    → Lent before heap (ks ++ dk ∷ ck ∷ [])
    → paging_free_4gb heap words chunk ≡ some before
unfolding paging_free_4gb kfree
paging_free_4gb_lem before heap words directory dk ck chunk ks space count at_ dplace cplace tables
      lent =
    let (heap1, freed, rest, saddr, total) =
      free_tables_lem ks (dk ∷ ck ∷ []) 0 directory words before heap space tables lent in
    let space1 : IsSpace heap1 = (omega (arith, space), omega (arith, space)) in
    let last =
      free_last before heap1 directory dk ck chunk space1 (dplace ∙ omega arith)
        (cplace ∙ omega arith) rest in
    let freed' : free_tables table_entries 0 (words chunk) words heap ≡ some heap1 =
      rw at_ (rw count at freed) in
    let last' : (elim (kfree heap1 (words chunk)) [ none ↦ none | some heap2 ↦ kfree heap2 chunk ])
        ≡ some before =
      rw at_ last in
    rw (paging_free_4gb, freed') last'
