-- ===== src/Paging/Identity.antt =====
-- A new page directory maps every address to itself.
use liebe_os.Prelude.{
  ℕ, ◌+◌, ◌-◌, ◌*◌, ◌/◌, ◌%◌, ◌^◌, ◌≤◌, ◌<◌, ◌≡◌, ◌≢◌, refl, bit_or, arith, ap, ◌∙◌, update,
  update_self, update-ne, bit_or_disjoint, bit_or_low,
}
use liebe_os.Heap.{Heap, malloc}
use liebe_os.Heap.Alloc.{IsSound}
use liebe_os.Heap.Kernel.{kmalloc}
use liebe_os.Heap.Single.{Held, Room, Takes, malloc-Takes}
use liebe_os.Paging.{
  Words, page_size, table_entries, slot, is_writeable, fill_directory, create_new_page_directory,
  paging_get, paging_get_physical_address, paging_align_to_lower_page,
}
use liebe_os.Paging.Map.{IsDirectory, table_at, dir_index, tab_index, paging_get-aligned}
use liebe_os.Paging.Fill.{IsPage, cleared, cleared-other, kzalloc_words_lem}
use liebe_os.Paging.Fresh.{Held-IsPage, Filled, Filled-kept, Fills, fill_directory-Fills}

module _ {heap : Heap} {words : Words} {directory flags : ℕ} (sound : IsSound heap)
    (even : heap.saddr % page_size ≡ 0) (low : flags < page_size)
    (f : Filled heap words directory flags table_entries) where
  Filled-IsDirectory : IsDirectory words directory
  Filled-IsDirectory = record {
    aligned = (Held-IsPage heap directory sound even f.directory_held).0;
    low = omega (arith, (Held-IsPage heap directory sound even f.directory_held).2);
    words_low = λ d lt.
        let (upper, small) = bit_or_low 12 0 flags is_writeable low (omega arith) in
        rw (f.entry d lt) (
          omega (
            arith,
            (Held-IsPage heap (table_at words directory d) sound even (f.held d lt)).2,
            (Held-IsPage heap (table_at words directory d) sound even (f.held d lt)).0,
          ));
    apart = f.apart;
    distinct = f.distinct;
  }

  Filled-paging_get :
      (page : ℕ)
      → page < 2 ^ 32
      → page % page_size ≡ 0
      → paging_get words directory page ≡ bit_or page flags
  Filled-paging_get page lt aligned =
      paging_get-aligned words directory page aligned
      ∙ f.maps (dir_index page) (tab_index page) (omega arith) (omega arith)
      ∙ ap (λ p. bit_or p flags) (omega arith)

module _ (heap heap' : Heap) (words : Words) (directory chunk : ℕ) (sound : IsSound heap)
    (even : heap.saddr % page_size ≡ 0) (takes : Takes heap heap' chunk 0) where
  -- The words of the blocks that were taken before stay, where the `struct page_directory` is in a
  -- block of its own.
  pub chunk_apart :
      (p j : ℕ)
      → Held heap p
      → j < table_entries
      → update (cleared words chunk 4) chunk directory (slot p j) ≡ words (slot p j)
  chunk_apart p j held lt =
      let isc : IsPage chunk =
        Held-IsPage heap' chunk takes.sound (rw takes.saddr even) takes.held in
      let isp = Held-IsPage heap p sound even held in
      let ne : p ≢ chunk = takes.other p held in
      update-ne (cleared words chunk 4) chunk directory (slot p j)
        (λ e. absurd (ne (omega (arith, isp, isc))))
      ∙ cleared-other words chunk 4 p j isp isc ne (omega arith) lt

  chunk-Filled :
      (flags i : ℕ)
      → i ≤ table_entries
      → Filled heap words directory flags i
      → Filled heap' (update (cleared words chunk 4) chunk directory) directory flags i
  chunk-Filled flags i few f =
      Filled-kept heap heap' words (update (cleared words chunk 4) chunk directory) directory flags
        i f takes.kept (λ d lt. chunk_apart directory d f.directory_held (omega arith))
        (λ p j held ne lt. chunk_apart p j held lt)

-- What create_new_page_directory returns: where the directory is, and what it maps.
pub record IsIdentity (heap : Heap) (words : Words) (chunk flags : ℕ) : Type 0 where
  pub sound : IsSound heap
  pub directory : IsDirectory words (words chunk)
  pub entries :
      (page : ℕ)
      → page < 2 ^ 32
      → page % page_size ≡ 0
      → paging_get words (words chunk) page ≡ bit_or page flags
  pub translated :
      (addr : ℕ) → addr < 2 ^ 32 → paging_get_physical_address words (words chunk) addr ≡ addr

translated :
    (words : Words) (directory flags addr : ℕ)
    → flags < page_size
    → addr < 2 ^ 32
    → paging_get words directory (addr - addr % page_size) ≡ bit_or (addr - addr % page_size) flags
    → paging_get_physical_address words directory addr ≡ addr
unfolding paging_get_physical_address paging_align_to_lower_page
translated words directory flags addr low lt e =
    let page : ℕ = addr - addr % page_size in
    let aligned : page / 4096 * 2 ^ 12 ≡ page = omega arith in
    let or : bit_or page flags ≡ page + flags =
      rw aligned at (bit_or_disjoint 12 (page / 4096) flags low) in
    rw (e ∙ or) (omega arith)

module _ {heap : Heap} {words : Words} {directory flags chunk : ℕ} (sound : IsSound heap)
    (even : heap.saddr % page_size ≡ 0) (low : flags < page_size)
    (f : Filled heap words directory flags table_entries) (at_ : words chunk ≡ directory) where
  Filled-IsIdentity : IsIdentity heap words chunk flags
  Filled-IsIdentity = record {
    sound = sound;
    directory = rw at_ (Filled-IsDirectory sound even low f);
    entries = λ page lt aligned. rw at_ (Filled-paging_get sound even low f page lt aligned);
    translated = λ addr lt. rw at_ (
        translated words directory flags addr low lt (
          Filled-paging_get sound even low f (addr - addr % page_size) (omega arith)
            (omega arith)));
  }

pub Filled-none :
    (heap : Heap) (words : Words) (directory flags : ℕ)
    → Held heap directory
    → Filled heap words directory flags 0
Filled-none heap words directory flags held = record {
  directory_held = held;
  held = λ d lt. absurd (omega arith);
  entry = λ d lt. absurd (omega arith);
  apart = λ d lt. absurd (omega arith);
  distinct = λ d e ld le. absurd (omega arith);
  maps = λ d b ld lb. absurd (omega arith);
}

pub create_new_page_directory-parts :
    (heap heap1 heap2 heap3 : Heap) (words words2 : Words) (flags directory chunk : ℕ)
    → kmalloc heap (4 * table_entries) ≡ (directory, heap1)
    → 0 < directory
    → fill_directory table_entries 0 directory 0 flags heap1
        (cleared words directory (4 * table_entries))
      ≡ (heap2, words2)
    → kmalloc heap2 4 ≡ (chunk, heap3)
    → 0 < chunk
    → create_new_page_directory heap words flags
      ≡ (chunk, heap3, update (cleared words2 chunk 4) chunk directory)
unfolding create_new_page_directory
create_new_page_directory-parts heap heap1 heap2 heap3 words words2 flags directory chunk e1 pos1 e2
      e3 pos3 =
    rw
      (
        kzalloc_words_lem heap heap1 words (4 * table_entries) directory e1 pos1,
        e2,
        kzalloc_words_lem heap2 heap3 words2 4 chunk e3 pos3,
      )
      refl

-- In a sound heap whose pool starts at a page, with a run of 1026 free blocks and flags below the
-- page size, create_new_page_directory leaves a sound heap and a well-formed directory that maps
-- every page to itself with the flags, so that every 32-bit address is translated to itself.
pub create_new_page_directory-IsIdentity :
    (heap : Heap) (words : Words) (flags : ℕ)
    → IsSound heap
    → heap.saddr % page_size ≡ 0
    → flags < page_size
    → Room heap 1026
    → IsIdentity
        (create_new_page_directory heap words flags).1
        (create_new_page_directory heap words flags).2
        (create_new_page_directory heap words flags).0
        flags
unfolding kmalloc
create_new_page_directory-IsIdentity heap words flags sound even low room =
    let directory : ℕ = (malloc heap (4 * table_entries)).0 in
    let heap1 : Heap = (malloc heap (4 * table_entries)).1 in
    let words1 : Words = cleared words directory (4 * table_entries) in
    let takes1 : Takes heap heap1 directory 1025 =
      malloc-Takes heap (4 * table_entries) 1025 sound (omega arith) (omega arith) room in
    let even1 : heap1.saddr % page_size ≡ 0 = rw takes1.saddr even in
    let pos1 = (Held-IsPage heap1 directory takes1.sound even1 takes1.held).1 in
    let heap2 : Heap = (fill_directory table_entries 0 directory 0 flags heap1 words1).0 in
    let words2 : Words = (fill_directory table_entries 0 directory 0 flags heap1 words1).1 in
    let fills : Fills heap1 heap2 words2 directory flags (0 + table_entries) =
      fill_directory-Fills table_entries 0 directory flags 0 heap1 words1 (omega arith)
        (omega arith) takes1.sound even1 low takes1.room
        (Filled-none heap1 words1 directory flags takes1.held) in
    let even2 : heap2.saddr % page_size ≡ 0 = rw fills.saddr even1 in
    let chunk : ℕ = (malloc heap2 4).0 in
    let heap3 : Heap = (malloc heap2 4).1 in
    let takes3 : Takes heap2 heap3 chunk 0 =
      malloc-Takes heap2 4 0 fills.sound (omega arith) (omega arith) fills.room in
    let even3 : heap3.saddr % page_size ≡ 0 = rw takes3.saddr even2 in
    let pos3 = (Held-IsPage heap3 chunk takes3.sound even3 takes3.held).1 in
    let filled =
      chunk-Filled heap2 heap3 words2 directory chunk fills.sound even2 takes3 flags table_entries
        (omega arith) fills.filled in
    let made =
      create_new_page_directory-parts heap heap1 heap2 heap3 words words2 flags directory chunk refl
        pos1 refl refl pos3 in
    rw made (
      Filled-IsIdentity takes3.sound even3 low filled
        (update_self (cleared words2 chunk 4) chunk directory))
