-- ===== src/Paging/Fresh.antt =====
-- The page directory that create_new_page_directory makes.
use liebe_os.Prelude.{
  ℕ, zero, suc, ◌+◌, ◌*◌, ◌%◌, ◌^◌, ◌≤◌, ◌<◌, ◌≡◌, ◌≢◌, ◌⊎◌, refl, bit_or, arith, inl, inr, ap, ◌∙◌,
  sym, subst,
}
use liebe_os.Heap.{Heap, malloc}
use liebe_os.Heap.Alloc.{IsSound}
use liebe_os.Heap.Kernel.{kmalloc}
use liebe_os.Heap.Single.{Held, Room, Takes, malloc-Takes}
use liebe_os.Paging.{Words, page_size, table_entries, slot, page_of, is_writeable, fill_directory}
use liebe_os.Paging.Map.{table_at}
use liebe_os.Paging.Fill.{
  IsPage, kzalloc_words_lem, with_table, with_table-table, with_table-other, with_table-entry,
}

-- The block of a pool that starts at a page.
pub Held-IsPage :
    (heap : Heap) (p : ℕ) → IsSound heap → heap.saddr % page_size ≡ 0 → Held heap p → IsPage p
Held-IsPage heap p sound even (k, at_, low, taken) =
    (omega arith, omega (arith, sound.starts), omega (arith, sound.fits))

-- The first `i` tables of a directory: blocks of their own, which map each page to itself.
pub record Filled (heap : Heap) (words : Words) (directory flags i : ℕ) : Type 0 where
  pub directory_held : Held heap directory
  pub held : (d : ℕ) → d < i → Held heap (table_at words directory d)
  pub entry :
      (d : ℕ)
      → d < i
      → words (slot directory d) ≡ table_at words directory d + bit_or flags is_writeable
  pub apart : (d : ℕ) → d < i → table_at words directory d ≢ directory
  pub distinct :
      (d e : ℕ) → d < i → e < i → table_at words directory d ≡ table_at words directory e → d ≡ e
  pub maps :
      (d b : ℕ)
      → d < i
      → b < table_entries
      → words (slot (table_at words directory d) b)
        ≡ bit_or (d * (table_entries * page_size) + b * page_size) flags

-- It depends only on the entries and the tables.
pub Filled-kept :
    (heap heap' : Heap) (words words' : Words) (directory flags i : ℕ)
    → Filled heap words directory flags i
    → ((p : ℕ) → Held heap p → Held heap' p)
    → ((d : ℕ) → d < i → words' (slot directory d) ≡ words (slot directory d))
    → ((p j : ℕ)
        → Held heap p
        → p ≢ directory
        → j < table_entries
        → words' (slot p j) ≡ words (slot p j))
    → Filled heap' words' directory flags i
Filled-kept heap heap' words words' directory flags i f still same keep = record {
  directory_held = still directory f.directory_held;
  held = λ d lt. rw (same d lt) (still (table_at words directory d) (f.held d lt));
  entry = λ d lt. rw (same d lt) (f.entry d lt);
  apart = λ d lt. rw (same d lt) (f.apart d lt);
  distinct = λ d e ld le. rw (same d ld, same e le) (f.distinct d e ld le);
  maps = λ d b ld lb.
      rw (same d ld)
        (keep (table_at words directory d) b (f.held d ld) (f.apart d ld) lb ∙ f.maps d b ld lb);
}

below_or_last : (d i : ℕ) → d < i + 1 → (d < i) ⊎ (d ≡ i)
below_or_last d i lt = ground arith

-- One table more.
Filled-suc :
    (heap : Heap) (words : Words) (directory flags i table : ℕ)
    → Filled heap words directory flags i
    → table_at words directory i ≡ table
    → words (slot directory i) ≡ table + bit_or flags is_writeable
    → Held heap table
    → table ≢ directory
    → ((d : ℕ) → d < i → table_at words directory d ≢ table)
    → ((b : ℕ)
        → b < table_entries
        → words (slot table b) ≡ bit_or (i * (table_entries * page_size) + b * page_size) flags)
    → Filled heap words directory flags (i + 1)
Filled-suc heap words directory flags i table f at_ entry held apart fresh maps = record {
  directory_held = f.directory_held;
  held =
      λ d lt. elim (below_or_last d i lt) [ inl old ↦ f.held d old | inr new ↦ rw (new, at_) held ];
  entry = λ d lt. elim (below_or_last d i lt) [
    | inl old ↦ f.entry d old
    | inr new ↦ rw new (entry ∙ ap (λ t. t + bit_or flags is_writeable) (sym at_))
  ];
  apart = λ d lt. elim (below_or_last d i lt) [
    | inl old ↦ f.apart d old
    | inr new ↦ rw (new, at_) apart
  ];
  distinct = λ d e ld le same. elim (below_or_last d i ld) [
    | inl old ↦ elim (below_or_last e i le) [
      | inl old' ↦ f.distinct d e old old' same
      | inr new ↦ absurd (fresh d old (same ∙ ap (table_at words directory) new ∙ at_))
    ]
    | inr new ↦ elim (below_or_last e i le) [
      | inl old ↦ absurd (fresh e old (sym same ∙ ap (table_at words directory) new ∙ at_))
      | inr new' ↦ new ∙ sym new'
    ]
  ];
  maps = λ d b ld lb. elim (below_or_last d i ld) [
    | inl old ↦ f.maps d b old lb
    | inr new ↦ rw (new, at_) (maps b lb)
  ];
}

-- A round of the loop, for a table in a block of its own.
pub with_table-Filled :
    (heap heap' : Heap) (words : Words) (directory flags i table left : ℕ)
    → IsSound heap
    → heap.saddr % page_size ≡ 0
    → flags < page_size
    → i < table_entries
    → Takes heap heap' table left
    → Filled heap words directory flags i
    → Filled heap'
        (with_table words directory i table (i * (table_entries * page_size)) flags)
        directory
        flags
        (i + 1)
with_table-Filled heap heap' words directory flags i table left sound even low lt takes f =
    let ist = Held-IsPage heap' table takes.sound (rw takes.saddr even) takes.held in
    let isd = Held-IsPage heap directory sound even f.directory_held in
    let own : directory ≢ table = takes.other directory f.directory_held in
    let offset : ℕ = i * (table_entries * page_size) in
    let words' : Words = with_table words directory i table offset flags in
    let (entry, small) = with_table-entry words directory i table offset flags ist low in
    let at_ : table_at words' directory i ≡ table = ap page_of entry ∙ omega arith in
    let same : (d : ℕ) → d < i → words' (slot directory d) ≡ words (slot directory d) = λ d ld.
      with_table-other words directory i table offset flags directory d isd ist own (omega arith)
        (λ e. absurd (omega arith)) in
    let keep : (p j : ℕ)
        → Held heap p
        → p ≢ directory
        → j < table_entries
        → words' (slot p j) ≡ words (slot p j) =
      λ p j held ne lj.
        let isp = Held-IsPage heap p sound even held in
        with_table-other words directory i table offset flags p j isp ist (takes.other p held) lj
          (λ e. absurd (ne (omega arith))) in
    Filled-suc heap' words' directory flags i table
      (Filled-kept heap heap' words words' directory flags i f takes.kept same keep) at_ entry
      takes.held (λ e. own (sym e))
      (λ d ld e.
        takes.other (table_at words directory d) (f.held d ld) (ap page_of (sym (same d ld)) ∙ e))
      (λ b lb. with_table-table words directory i table offset flags b isd ist own lt lb)

pub fill_directory-suc :
    (left i directory offset flags table : ℕ) (heap heap' : Heap) (words : Words)
    → kmalloc heap (4 * table_entries) ≡ (table, heap')
    → 0 < table
    → fill_directory (suc left) i directory offset flags heap words
      ≡ fill_directory left
          (i + 1)
          directory
          ((offset + table_entries * page_size) % 2 ^ 32)
          flags
          heap'
          (with_table words directory i table offset flags)
unfolding fill_directory
fill_directory-suc left i directory offset flags table heap heap' words e pos =
    rw (kzalloc_words_lem heap heap' words (4 * table_entries) table e pos) refl

-- What the loop leaves, with `left` rounds to go.
pub record Fills (heap heap' : Heap) (words' : Words) (directory flags i : ℕ) : Type 0 where
  pub sound : IsSound heap'
  pub saddr : heap'.saddr ≡ heap.saddr
  pub room : Room heap' 1
  pub filled : Filled heap' words' directory flags i

after :
    (heap heap' : Heap) (table left : ℕ) {last : Heap} {words : Words} {directory flags i : ℕ}
    → Takes heap heap' table left
    → Fills heap' last words directory flags i
    → Fills heap last words directory flags i
after heap heap' table left takes f = record {
  sound = f.sound;
  saddr = f.saddr ∙ takes.saddr;
  room = f.room;
  filled = f.filled;
}

pub fill_directory-Fills :
    (left i directory flags offset : ℕ) (heap : Heap) (words : Words)
    → i + left ≤ table_entries
    → offset ≡ i * (table_entries * page_size) % 2 ^ 32
    → IsSound heap
    → heap.saddr % page_size ≡ 0
    → flags < page_size
    → Room heap (left + 1)
    → Filled heap words directory flags i
    → Fills heap
        (fill_directory left i directory offset flags heap words).0
        (fill_directory left i directory offset flags heap words).1
        directory
        flags
        (i + left)
unfolding fill_directory kmalloc
fill_directory-Fills zero i directory flags offset heap words most at_ sound even low room f =
    let e : i + 0 ≡ i = omega arith in
    rw (fill_directory, e) (record { sound = sound; saddr = refl; room = room; filled = f })
fill_directory-Fills (suc left) i directory flags offset heap words most at_ sound even low room f =
    let table : ℕ = (malloc heap (4 * table_entries)).0 in
    let heap' : Heap = (malloc heap (4 * table_entries)).1 in
    let more : suc left + 1 ≡ left + 1 + 1 = omega arith in
    let takes : Takes heap heap' table (left + 1) =
      malloc-Takes heap (4 * table_entries) (left + 1) sound (omega arith) (omega arith)
        (subst (Room heap) more room) in
    let even' : heap'.saddr % page_size ≡ 0 = rw takes.saddr even in
    let here : i * (table_entries * page_size) ≡ offset = omega arith in
    let f' =
      subst (λ o. Filled heap' (with_table words directory i table o flags) directory flags (i + 1))
        here
        (with_table-Filled heap heap' words directory flags i table (left + 1) sound even low
          (omega arith) takes f) in
    let (aligned, pos, fits) = Held-IsPage heap' table takes.sound even' takes.held in
    let ih =
      fill_directory-Fills left (i + 1) directory flags
        ((offset + table_entries * page_size) % 2 ^ 32) heap'
        (with_table words directory i table offset flags) (omega arith) (omega arith) takes.sound
        even' low takes.room f' in
    let shift : i + 1 + left ≡ i + suc left = omega arith in
    rw (fill_directory-suc left i directory offset flags table heap heap' words refl pos, ← shift)
      (after heap heap' table (left + 1) takes ih)
