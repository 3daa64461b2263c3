-- ===== src/Paging/Fill.antt =====
-- The words that a new page directory and its tables are made of.
use liebe_os.Prelude.{
  ℕ, zero, suc, ◌+◌, ◌*◌, ◌/◌, ◌%◌, ◌^◌, ◌≤◌, ◌<◌, ◌≡◌, ◌≢◌, refl, false, bit_or, ltb, ◌==◌,
  if◌then◌else◌, update, update_self, update-ne, arith, inl, inr, Bool-cases, ◌∙◌, bit_or_disjoint,
  bit_or_low,
}
use liebe_os.Heap.{Heap}
use liebe_os.Heap.Kernel.{kmalloc}
use liebe_os.Paging.{Words, page_size, table_entries, slot, kzalloc_words, fill_table, is_writeable}

-- A page of the memory.
abbrev pub IsPage : ℕ → Type 0
IsPage p = (p % page_size ≡ 0) × (0 < p) × (p + page_size ≤ 2 ^ 32)

-- The words after `kzalloc` of `size` bytes at `ptr`.
abbrev pub cleared : Words → (ptr size : ℕ) → Words
cleared words ptr size a = if ltb a ptr then words a else if ltb a (ptr + size) then 0 else words a

pub kzalloc_words_lem :
    (heap heap' : Heap) (words : Words) (size ptr : ℕ)
    → kmalloc heap size ≡ (ptr, heap')
    → 0 < ptr
    → kzalloc_words heap words size ≡ (ptr, heap', cleared words ptr size)
unfolding kzalloc_words
kzalloc_words_lem heap heap' words size ptr e pos =
    let z : (ptr == 0) ≡ false = ground arith in rw (e, z) refl

pub slot-page : (p j : ℕ) → IsPage p → j < table_entries → slot p j ≡ p + 4 * j
slot-page p j (aligned, pos, fits) lt = omega arith

pub cleared-other :
    (words : Words) (ptr size p j : ℕ)
    → IsPage p
    → IsPage ptr
    → p ≢ ptr
    → size ≤ page_size
    → j < table_entries
    → cleared words ptr size (slot p j) ≡ words (slot p j)
cleared-other words ptr size p j is isp ne le lt = rw (slot-page p j is lt) (ground arith)

pub fill_table-other :
    (left b table offset flags : ℕ) (words : Words) (a : ℕ)
    → ((k : ℕ) → b ≤ k → k < b + left → a ≢ slot table k)
    → fill_table left b table offset flags words a ≡ words a
unfolding fill_table
fill_table-other zero b table offset flags words a ne = refl
fill_table-other (suc left) b table offset flags words a ne =
    fill_table-other left (b + 1) table offset flags
      (update words (slot table b) (bit_or (offset + b * page_size) flags)) a
      (λ k lo lt. ne k (omega arith) (omega arith))
    ∙ update-ne words (slot table b) (bit_or (offset + b * page_size) flags) a
        (ne b (omega arith) (omega arith))

-- The entries that are filled.
pub fill_table_lem :
    (left b table offset flags : ℕ) (words : Words) (j : ℕ)
    → IsPage table
    → b + left ≤ table_entries
    → b ≤ j
    → j < b + left
    → fill_table left b table offset flags words (slot table j)
      ≡ bit_or (offset + j * page_size) flags
unfolding fill_table
fill_table_lem zero b table offset flags words j is room lo hi = absurd (omega arith)
fill_table_lem (suc left) b table offset flags words j is room lo hi =
    let filled : Words = update words (slot table b) (bit_or (offset + b * page_size) flags) in
    elim (Bool-cases (ltb b j)) [
      | inl later ↦
          fill_table_lem left (b + 1) table offset flags filled j is (omega arith) (ground arith)
            (omega arith)
      | inr now ↦
          let same : j ≡ b = ground arith in
          rw same (
            fill_table-other left (b + 1) table offset flags filled (slot table b)
              (λ k lo' hi' e. absurd (omega arith))
            ∙ update_self words (slot table b) (bit_or (offset + b * page_size) flags))
    ]

-- The words after one round of the outer loop, for a table of the index `i` at `table`.
abbrev pub with_table : Words → (directory i table offset flags : ℕ) → Words
with_table words directory i table offset flags =
    update (fill_table table_entries 0 table offset flags (cleared words table (4 * table_entries)))
      (slot directory i) (bit_or (bit_or table flags) is_writeable)

-- In a page of its own, the table holds its entries; the directory has its new entry, and the words
-- of every other page are as they were.
pub with_table-table :
    (words : Words) (directory i table offset flags j : ℕ)
    → IsPage directory
    → IsPage table
    → directory ≢ table
    → i < table_entries
    → j < table_entries
    → with_table words directory i table offset flags (slot table j)
      ≡ bit_or (offset + j * page_size) flags
with_table-table words directory i table offset flags j isd ist ne hi hj =
    update-ne
      (fill_table table_entries 0 table offset flags (cleared words table (4 * table_entries)))
      (slot directory i) (bit_or (bit_or table flags) is_writeable) (slot table j)
      (λ e. absurd (omega arith))
    ∙ fill_table_lem table_entries 0 table offset flags (cleared words table (4 * table_entries)) j
        ist (omega arith) (omega arith) (omega arith)

pub with_table-other :
    (words : Words) (directory i table offset flags p j : ℕ)
    → IsPage p
    → IsPage table
    → p ≢ table
    → j < table_entries
    → slot p j ≢ slot directory i
    → with_table words directory i table offset flags (slot p j) ≡ words (slot p j)
with_table-other words directory i table offset flags p j isp ist ne hj apart =
    update-ne
      (fill_table table_entries 0 table offset flags (cleared words table (4 * table_entries)))
      (slot directory i) (bit_or (bit_or table flags) is_writeable) (slot p j) apart
    ∙ fill_table-other table_entries 0 table offset flags (cleared words table (4 * table_entries))
        (slot p j) (λ k lo hi e. absurd (omega arith))
    ∙ cleared-other words table (4 * table_entries) p j isp ist ne (omega arith) hj

-- The value of the directory's entry for a table.
pub with_table-entry :
    (words : Words) (directory i table offset flags : ℕ)
    → IsPage table
    → flags < page_size
    → (with_table words directory i table offset flags (slot directory i)
        ≡ table + bit_or flags is_writeable)
      × (bit_or flags is_writeable < page_size)
with_table-entry words directory i table offset flags is low =
    let aligned : table / 4096 * 2 ^ 12 ≡ table = omega arith in
    let first : bit_or table flags ≡ table + flags =
      rw aligned at (bit_or_disjoint 12 (table / 4096) flags low) in
    let (upper, lower) = bit_or_low 12 (table / 4096) flags is_writeable low (omega arith) in
    (
      update_self
            (fill_table table_entries 0 table offset flags
              (cleared words table (4 * table_entries)))
            (slot directory i) (bit_or (bit_or table flags) is_writeable)
          ∙ rw first (rw aligned at upper),
      lower,
    )
