-- ===== src/Paging.antt =====
-- memory/paging/paging.c: two-level page tables in physical memory.
pub mod Fill
pub mod Freeing
pub mod Fresh
pub mod Identity
pub mod Map
pub mod Range
pub mod Region
pub mod Release
pub mod Sample
mod Tests
use liebe_os.Prelude.{
  ℕ, zero, suc, ◌+◌, ◌-◌, ◌*◌, ◌/◌, ◌%◌, ◌^◌, Bool, true, false, not, ◌&&◌, Option, none, some,
  bit_or, ltb, leb, ◌==◌, if◌then◌else◌, update, Status, Result, ok, err,
}
use liebe_os.Heap.{Heap}
use liebe_os.Heap.Kernel.{kmalloc, kfree}

-- The 32-bit word at each address; the addresses in use are multiples of 4.
abbrev pub Words : Type 0
Words = ℕ → ℕ

abbrev pub page_size : ℕ
page_size = 4096

-- TABLE_ENTRIES_COUNT
abbrev pub table_entries : ℕ
table_entries = 1024

-- PAGING_IS_PRESENT, PAGING_IS_WRITEABLE, PAGING_ACCESS_FROM_ALL
abbrev pub is_present : ℕ
is_present = 1

abbrev pub is_writeable : ℕ
is_writeable = 2

abbrev pub access_from_all : ℕ
access_from_all = 4

-- The address of `base[index]`, for an array of words.
abbrev pub slot : (base index : ℕ) → ℕ
slot base index = (base + 4 * index) % 2 ^ 32

-- `x & 0xfffff000`
abbrev pub page_of : ℕ → ℕ
page_of x = x / page_size * page_size

pub is_page_aligned : ℕ → Bool
is_page_aligned addr = addr % page_size == 0

-- The directory's and the table's index, or `none` for -1 in both.
pub get_page_indexs : ℕ → Option (ℕ × ℕ)
unfolding is_page_aligned
get_page_indexs virt =
    if is_page_aligned virt
    then some (virt / (table_entries * page_size), virt % (table_entries * page_size) / page_size)
    else none

pub paging_set : Words → (directory virt val : ℕ) → Result (Unit {0}) × Words
unfolding is_page_aligned get_page_indexs
paging_set words directory virt val =
    if not (is_page_aligned virt)
    then (err Status.einvarg, words)
    else elim (get_page_indexs virt) [
      | none ↦ (err Status.einvarg, words)
      | some (d, t) ↦ (ok tt, update words (slot (page_of (words (slot directory d))) t) val)
    ]

-- An index of -1 is read as a `uint32_t`.
pub paging_get : Words → (directory virt : ℕ) → ℕ
unfolding get_page_indexs
paging_get words directory virt = elim (get_page_indexs virt) [
  | none ↦ words (slot (page_of (words (slot directory (2 ^ 32 - 1)))) (2 ^ 32 - 1))
  | some (d, t) ↦ words (slot (page_of (words (slot directory d))) t)
]

pub paging_align_address : ℕ → ℕ
paging_align_address ptr =
    if not (ptr % page_size == 0) then (ptr + page_size - ptr % page_size) % 2 ^ 32 else ptr

pub paging_align_to_lower_page : ℕ → ℕ
paging_align_to_lower_page addr = addr - addr % page_size

pub paging_map : Words → (directory virt phys flags : ℕ) → Result (Unit {0}) × Words
unfolding paging_set
paging_map words directory virt phys flags =
    if not (virt % page_size == 0 && phys % page_size == 0)
    then (err Status.einvarg, words)
    else paging_set words directory virt (bit_or phys flags)

-- The loop over `count` pages stops at the first error.
pub paging_map_range :
    (count : ℕ) → Words → (directory virt phys flags : ℕ) → Result (Unit {0}) × Words
paging_map_range zero words directory virt phys flags = (ok tt, words)
paging_map_range (suc count) words directory virt phys flags =
    let (res, words') = paging_map words directory virt phys flags in
    elim res [
      | err e ↦ (err e, words')
      | ok _ ↦
          paging_map_range count words' directory ((virt + page_size) % 2 ^ 32)
            ((phys + page_size) % 2 ^ 32) flags
    ]

pub paging_map_to : Words → (directory virt phys phys_end flags : ℕ) → Result (Unit {0}) × Words
paging_map_to words directory virt phys phys_end flags =
    if not (virt % page_size == 0)
    then (err Status.einvarg, words)
    else if not (phys % page_size == 0)
    then (err Status.einvarg, words)
    else if not (phys_end % page_size == 0)
    then (err Status.einvarg, words)
    else if ltb phys_end phys
    then (err Status.einvarg, words)
    else paging_map_range ((phys_end - phys) / page_size) words directory virt phys flags

pub paging_get_physical_address : Words → (directory virt : ℕ) → ℕ
unfolding paging_get paging_align_to_lower_page
paging_get_physical_address words directory virt =
    let page = paging_align_to_lower_page virt in
    (page_of (paging_get words directory page) + (virt - page)) % 2 ^ 32

-- `kzalloc` of a number of bytes that is a multiple of 4, on the words.
pub kzalloc_words : Heap → Words → ℕ → ℕ × Heap × Words
kzalloc_words heap words size =
    let (ptr, heap') = kmalloc heap size in
    if ptr == 0
    then (0, heap', words)
    else (ptr, heap', λ a. if ltb a ptr then words a else if ltb a (ptr + size) then 0 else words a)

-- The inner loop of `create_new_page_directory`, from the entry `b` on.
pub fill_table : (left b table offset flags : ℕ) → Words → Words
unfolding update
fill_table zero b table offset flags words = words
fill_table (suc left) b table offset flags words =
    fill_table left (b + 1) table offset flags
      (update words (slot table b) (bit_or (offset + b * page_size) flags))

-- The outer loop, from the entry `i` on.
pub fill_directory : (left i directory offset flags : ℕ) → Heap → Words → Heap × Words
unfolding kzalloc_words update
fill_directory zero i directory offset flags heap words = (heap, words)
fill_directory (suc left) i directory offset flags heap words =
    let (table, heap', words') = kzalloc_words heap words (4 * table_entries) in
    let filled = fill_table table_entries 0 table offset flags words' in
    fill_directory left (i + 1) directory ((offset + table_entries * page_size) % 2 ^ 32) flags
      heap' (update filled (slot directory i) (bit_or (bit_or table flags) is_writeable))

-- The address of the `struct page_directory`, a word that holds the directory's address.
pub create_new_page_directory : Heap → Words → (flags : ℕ) → ℕ × Heap × Words
unfolding kzalloc_words update
create_new_page_directory heap words flags =
    let (directory, heap1, words1) = kzalloc_words heap words (4 * table_entries) in
    let (heap2, words2) = fill_directory table_entries 0 directory 0 flags heap1 words1 in
    let (chunk, heap3, words3) = kzalloc_words heap2 words2 4 in
    (chunk, heap3, update words3 chunk directory)

abbrev pub get_page_directory_entry : Words → (chunk : ℕ) → ℕ
get_page_directory_entry words chunk = words chunk

-- The loop of `paging_free_4gb`, from the entry `i` on.
pub free_tables : (left i directory : ℕ) → Words → Heap → Option Heap
free_tables zero i directory words heap = some heap
free_tables (suc left) i directory words heap =
    elim (kfree heap (page_of (words (slot directory i)))) [
      | none ↦ none
      | some heap' ↦ free_tables left (i + 1) directory words heap'
    ]

pub paging_free_4gb : Heap → Words → (chunk : ℕ) → Option Heap
paging_free_4gb heap words chunk = elim (free_tables 1024 0 (words chunk) words heap) [
  | none ↦ none
  | some heap1 ↦ elim (kfree heap1 (words chunk)) [ none ↦ none | some heap2 ↦ kfree heap2 chunk ]
]
