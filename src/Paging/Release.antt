-- ===== src/Paging/Release.antt =====
-- paging_free_4gb gives back what create_new_page_directory took.
use liebe_os.Prelude.{
  ℕ, zero, suc, ◌+◌, ◌*◌, ◌%◌, ◌^◌, ◌≤◌, ◌<◌, ◌≡◌, ◌≢◌, refl, List, [], ◌∷◌, ◌++◌, some, arith,
  length, length-append, append_assoc, append-nil, ap, sym, subst, ◌∙◌, update, update_self,
}
use liebe_os.Heap.{Heap, block_size, malloc}
use liebe_os.Heap.Alloc.{IsSound}
use liebe_os.Heap.Kernel.{kmalloc}
use liebe_os.Heap.Single.{Held, Room, Takes, malloc-Takes}
use liebe_os.Heap.Lent.{Lent, Lent-insert, IsSpace}
use liebe_os.Paging.{
  Words, page_size, table_entries, slot, page_of, fill_directory, create_new_page_directory,
  paging_free_4gb,
}
use liebe_os.Paging.Map.{table_at}
use liebe_os.Paging.Fill.{cleared, with_table, with_table-other, with_table-entry}
use liebe_os.Paging.Fresh.{
  Held-IsPage, Filled, Fills, fill_directory-Fills, fill_directory-suc, with_table-Filled,
}
use liebe_os.Paging.Identity.{chunk_apart, Filled-none, create_new_page_directory-parts}
use liebe_os.Paging.Freeing.{TablesAt, TablesAt-same, TablesAt-snoc, paging_free_4gb_lem}

-- What the loop of create_new_page_directory has taken, behind the directory's block `dk`.
record Owes (before heap : Heap) (words : Words) (directory dk i : ℕ) : Type 0 where
  blocks : List ℕ
  count : length blocks ≡ i
  tables : TablesAt words directory heap.saddr 0 blocks
  lent : Lent before heap (blocks ++ dk ∷ [])

-- A round of the loop.
with_table-Owes :
    (before heap heap' : Heap) (words : Words) (directory dk flags i table offset left : ℕ)
    → IsSound heap
    → heap.saddr % page_size ≡ 0
    → flags < page_size
    → i < table_entries
    → Takes heap heap' table left
    → Filled heap words directory flags i
    → Owes before heap words directory dk i
    → Owes before heap' (with_table words directory i table offset flags) directory dk (i + 1)
with_table-Owes before heap heap' words directory dk flags i table offset left sound even low lt
      takes f owes =
    let ist = Held-IsPage heap' table takes.sound (rw takes.saddr even) takes.held in
    let isd = Held-IsPage heap directory sound even f.directory_held in
    let own : directory ≢ table = takes.other directory f.directory_held in
    let words' : Words = with_table words directory i table offset flags in
    let (entry, small) = with_table-entry words directory i table offset flags ist low in
    let at_ : table_at words' directory i ≡ table = ap page_of entry ∙ omega arith in
    let same : (d : ℕ) → d < i → words' (slot directory d) ≡ words (slot directory d) = λ d ld.
      with_table-other words directory i table offset flags directory d isd ist own (omega arith)
        (λ e. absurd (omega arith)) in
    let (s, place, inside, clean, made) = takes.as_block in
    let ks = owes.blocks in
    let count = owes.count in
    let at_index : 0 + length ks ≡ i = omega arith in
    record {
      blocks = ks ++ s ∷ [];
      count = length-append ks (s ∷ []) ∙ omega (arith, count);
      tables = rw takes.saddr (
          TablesAt-snoc words' directory heap.saddr 0 s ks
            (TablesAt-same words words' directory heap.saddr 0 ks (λ d ld. same d (omega arith))
              owes.tables)
            (rw at_index (at_ ∙ place)));
      lent = rw made (
          rw (append_assoc ks (s ∷ []) (dk ∷ []))
            (Lent-insert ks (dk ∷ []) before heap s owes.lent clean inside));
    }

fill_directory-Owes :
    (left i directory dk flags offset : ℕ) (before heap : Heap) (words : Words)
    → i + left ≤ table_entries
    → offset ≡ i * (table_entries * page_size) % 2 ^ 32
    → IsSound heap
    → heap.saddr % page_size ≡ 0
    → flags < page_size
    → Room heap (left + 1)
    → Filled heap words directory flags i
    → Owes before heap words directory dk i
    → Owes before
        (fill_directory left i directory offset flags heap words).0
        (fill_directory left i directory offset flags heap words).1
        directory
        dk
        (i + left)
unfolding fill_directory kmalloc
fill_directory-Owes zero i directory dk flags offset before heap words most at_ sound even low room
      f owes =
    let e : i + 0 ≡ i = omega arith in rw (fill_directory, e) owes
fill_directory-Owes (suc left) i directory dk flags offset before heap words most at_ sound even low
      room f owes =
    let table : ℕ = (malloc heap (4 * table_entries)).0 in
    let heap' : Heap = (malloc heap (4 * table_entries)).1 in
    let more : suc left + 1 ≡ left + 1 + 1 = omega arith in
    let takes : Takes heap heap' table (left + 1) =
      malloc-Takes heap (4 * table_entries) (left + 1) sound (omega arith) (omega arith)
        (subst (Room heap) more room) in
    let even' : heap'.saddr % page_size ≡ 0 = rw takes.saddr even in
    let here : i * (table_entries * page_size) ≡ offset = omega arith in
    let f' =
      subst (λ o. Filled heap' (with_table words directory i table o flags) directory flags (i + 1))
        here
        (with_table-Filled heap heap' words directory flags i table (left + 1) sound even low
          (omega arith) takes f) in
    let owes' =
      with_table-Owes before heap heap' words directory dk flags i table offset (left + 1) sound
        even low (omega arith) takes f owes in
    let (aligned, pos, fits) = Held-IsPage heap' table takes.sound even' takes.held in
    let ih =
      fill_directory-Owes left (i + 1) directory dk flags
        ((offset + table_entries * page_size) % 2 ^ 32) before heap'
        (with_table words directory i table offset flags) (omega arith) (omega arith) takes.sound
        even' low takes.room f' owes' in
    let shift : i + 1 + left ≡ i + suc left = omega arith in
    rw (fill_directory-suc left i directory offset flags table heap heap' words refl pos, ← shift)
      ih

IsSound-IsSpace : {heap : Heap} → IsSound heap → IsSpace heap
IsSound-IsSpace sound = (sound.fits, sound.small)

release_chunk :
    (before heap heap' : Heap) (words : Words) (directory dk chunk : ℕ)
    → IsSound heap
    → heap.saddr % page_size ≡ 0
    → Takes heap heap' chunk 0
    → Held heap directory
    → directory ≡ heap.saddr + dk * block_size
    → Owes before heap words directory dk table_entries
    → paging_free_4gb heap' (update (cleared words chunk 4) chunk directory) chunk ≡ some before
release_chunk before heap heap' words directory dk chunk sound even takes held dplace owes =
    let (ck, cplace, inside, clean, made) = takes.as_block in
    let ks = owes.blocks in
    let count = owes.count in
    let after : Words = update (cleared words chunk 4) chunk directory in
    let tables =
      TablesAt-same words after directory heap.saddr 0 ks
        (λ d ld.
          chunk_apart heap heap' words directory chunk sound even takes directory d held
            (omega arith))
        owes.tables in
    let lent =
      Lent-insert (ks ++ dk ∷ []) [] before heap ck (rw (append-nil (ks ++ dk ∷ [])) owes.lent)
        clean inside in
    let lent' = rw (append_assoc ks (dk ∷ []) (ck ∷ [])) at lent in
    paging_free_4gb_lem before heap' after directory dk ck chunk ks (IsSound-IsSpace takes.sound)
      count (update_self (cleared words chunk 4) chunk directory) (rw takes.saddr dplace)
      (rw takes.saddr cplace) (rw takes.saddr tables)
      (subst (λ h. Lent before h (ks ++ dk ∷ ck ∷ [])) (sym made) lent')

-- In a sound heap whose pool starts at a page, with a run of 1026 free blocks and flags below the
-- page size, paging_free_4gb of what create_new_page_directory returned comes to its end and gives
-- the heap back as it was, table and all.
pub paging_free_4gb-create_new_page_directory :
    (heap : Heap) (words : Words) (flags : ℕ)
    → IsSound heap
    → heap.saddr % page_size ≡ 0
    → flags < page_size
    → Room heap 1026
    → paging_free_4gb
        (create_new_page_directory heap words flags).1
        (create_new_page_directory heap words flags).2
        (create_new_page_directory heap words flags).0
      ≡ some heap
unfolding kmalloc
paging_free_4gb-create_new_page_directory heap words flags sound even low room =
    let directory : ℕ = (malloc heap (4 * table_entries)).0 in
    let heap1 : Heap = (malloc heap (4 * table_entries)).1 in
    let words1 : Words = cleared words directory (4 * table_entries) in
    let takes1 : Takes heap heap1 directory 1025 =
      malloc-Takes heap (4 * table_entries) 1025 sound (omega arith) (omega arith) room in
    let even1 : heap1.saddr % page_size ≡ 0 = rw takes1.saddr even in
    let pos1 = (Held-IsPage heap1 directory takes1.sound even1 takes1.held).1 in
    let heap2 : Heap = (fill_directory table_entries 0 directory 0 flags heap1 words1).0 in
    let words2 : Words = (fill_directory table_entries 0 directory 0 flags heap1 words1).1 in
    let none_yet = Filled-none heap1 words1 directory flags takes1.held in
    let (dk, dplace, dinside, dclean, dmade) = takes1.as_block in
    let first : Owes heap heap1 words1 directory dk 0 = record {
      blocks = [];
      count = refl;
      tables = tt;
      lent = rw dmade (Lent-insert [] [] heap heap dk refl dclean dinside);
    } in
    let fills : Fills heap1 heap2 words2 directory flags (0 + table_entries) =
      fill_directory-Fills table_entries 0 directory flags 0 heap1 words1 (omega arith)
        (omega arith) takes1.sound even1 low takes1.room none_yet in
    let owes : Owes heap heap2 words2 directory dk (0 + table_entries) =
      fill_directory-Owes table_entries 0 directory dk flags 0 heap heap1 words1 (omega arith)
        (omega arith) takes1.sound even1 low takes1.room none_yet first in
    let even2 : heap2.saddr % page_size ≡ 0 = rw fills.saddr even1 in
    let chunk : ℕ = (malloc heap2 4).0 in
    let heap3 : Heap = (malloc heap2 4).1 in
    let takes3 : Takes heap2 heap3 chunk 0 =
      malloc-Takes heap2 4 0 fills.sound (omega arith) (omega arith) fills.room in
    let even3 : heap3.saddr % page_size ≡ 0 = rw takes3.saddr even2 in
    let pos3 = (Held-IsPage heap3 chunk takes3.sound even3 takes3.held).1 in
    let made =
      create_new_page_directory-parts heap heap1 heap2 heap3 words words2 flags directory chunk refl
        pos1 refl refl pos3 in
    rw made (
      release_chunk heap heap2 heap3 words2 directory dk chunk fills.sound even2 takes3
        fills.filled.directory_held
        (dplace ∙ ap (λ p. p + dk * block_size) (sym (fills.saddr ∙ takes1.saddr))) owes)
