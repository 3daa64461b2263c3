-- ===== src/Paging/Map.antt =====
-- Page tables as a map from pages to their entries.
use liebe_os.Prelude.{
  ℕ, ◌*◌, ◌/◌, ◌%◌, ◌^◌, ◌<◌, ◌≡◌, ◌≢◌, true, false, ◌==◌, if◌then◌else◌, update, ok, arith, inl,
  inr, Bool-cases, ap, update_self, update-ne, ap, ◌∙◌, ◌⊎◌, sym,
}
use liebe_os.Paging.{
  Words, page_size, table_entries, slot, page_of, is_page_aligned, get_page_indexs, paging_set,
  paging_get,
}

-- The page table that holds the entries of the directory's index `d`.
abbrev pub table_at : Words → (directory d : ℕ) → ℕ
table_at words directory d = page_of (words (slot directory d))

-- A page directory whose tables are pages of their own, apart from it and from one another.
pub record IsDirectory (words : Words) (directory : ℕ) : Type 0 where
  pub aligned : directory % page_size ≡ 0
  pub low : directory < 2 ^ 32
  pub words_low : (d : ℕ) → d < table_entries → words (slot directory d) < 2 ^ 32
  pub apart : (d : ℕ) → d < table_entries → table_at words directory d ≢ directory
  pub distinct :
      (d e : ℕ)
      → d < table_entries
      → e < table_entries
      → table_at words directory d ≡ table_at words directory e
      → d ≡ e

abbrev pub dir_index : ℕ → ℕ
dir_index virt = virt / (table_entries * page_size)

abbrev pub tab_index : ℕ → ℕ
tab_index virt = virt % (table_entries * page_size) / page_size

-- The address of the entry of a page.
abbrev pub entry_at : Words → (directory virt : ℕ) → ℕ
entry_at words directory virt = slot (table_at words directory (dir_index virt)) (tab_index virt)

pub paging_set-aligned :
    (words : Words) (directory virt val : ℕ)
    → virt % page_size ≡ 0
    → paging_set words directory virt val
      ≡ (ok tt, update words (entry_at words directory virt) val)
unfolding paging_set get_page_indexs is_page_aligned
paging_set-aligned words directory virt val h =
    let e : (virt % page_size == 0) ≡ true = ground arith in rw e

pub paging_get-aligned :
    (words : Words) (directory virt : ℕ)
    → virt % page_size ≡ 0
    → paging_get words directory virt ≡ words (entry_at words directory virt)
unfolding paging_get get_page_indexs is_page_aligned
paging_get-aligned words directory virt h =
    let e : (virt % page_size == 0) ≡ true = ground arith in rw (e, paging_get)

module _ (words : Words) (directory : ℕ) (is : IsDirectory words directory) where
  -- An entry is no word of the directory.
  entry-ne-directory :
      (virt d : ℕ)
      → virt < 2 ^ 32
      → d < table_entries
      → slot directory d ≢ entry_at words directory virt
  entry-ne-directory virt d hv hd e =
      is.apart (dir_index virt) (omega arith)
        (omega (arith, is.words_low (dir_index virt) (omega arith), is.aligned, is.low))

  -- Entries of different pages are different words.
  entry-injective :
      (v w : ℕ)
      → v < 2 ^ 32
      → w < 2 ^ 32
      → v % page_size ≡ 0
      → w % page_size ≡ 0
      → entry_at words directory v ≡ entry_at words directory w
      → v ≡ w
  entry-injective v w hv hw av aw e =
      let lv = is.words_low (dir_index v) (omega arith) in
      let lw = is.words_low (dir_index w) (omega arith) in
      let same : dir_index v ≡ dir_index w =
        is.distinct (dir_index v) (dir_index w) (omega arith) (omega arith) (omega arith) in
      let t : table_at words directory (dir_index v) ≡ table_at words directory (dir_index w) =
        ap (table_at words directory) same in
      omega arith

  -- Setting the entry of a page leaves the directory as it was.
  pub paging_set-directory :
      (virt val d : ℕ)
      → virt < 2 ^ 32
      → virt % page_size ≡ 0
      → d < table_entries
      → (paging_set words directory virt val).1 (slot directory d) ≡ words (slot directory d)
  paging_set-directory virt val d hv av hd = rw (paging_set-aligned words directory virt val av) (
      update-ne words (entry_at words directory virt) val (slot directory d)
        (entry-ne-directory virt d hv hd))

  pub paging_set-IsDirectory :
      (virt val : ℕ)
      → virt < 2 ^ 32
      → virt % page_size ≡ 0
      → IsDirectory (paging_set words directory virt val).1 directory
  paging_set-IsDirectory virt val hv av = record {
    aligned = is.aligned;
    low = is.low;
    words_low = λ d hd. rw (keep d hd) (is.words_low d hd);
    apart = λ d hd. rw (keep d hd) (is.apart d hd);
    distinct = λ d e hd he. rw (keep d hd, keep e he) (is.distinct d e hd he);
  }
    where
      keep :
          (d : ℕ)
          → d < table_entries
          → (paging_set words directory virt val).1 (slot directory d) ≡ words (slot directory d)
      keep d hd = paging_set-directory virt val d hv av hd

  -- In a well-formed directory, reading the entry of an aligned page after setting that of an
  -- aligned page gives the new value for the same page, and the old entry for every other page.
  pub paging_get-paging_set :
      (virt val page : ℕ)
      → virt < 2 ^ 32
      → page < 2 ^ 32
      → virt % page_size ≡ 0
      → page % page_size ≡ 0
      → paging_get (paging_set words directory virt val).1 directory page
        ≡ (if page == virt then val else paging_get words directory page)
  paging_get-paging_set virt val page hv hp av ap_ =
      paging_get-aligned (paging_set words directory virt val).1 directory page ap_
      ∙ ap (λ w. (paging_set words directory virt val).1 (slot (page_of w) (tab_index page)))
          (paging_set-directory virt val (dir_index page) hv av (omega arith))
      ∙ rw (paging_set-aligned words directory virt val av) (choose (Bool-cases (page == virt)))
    where
      choose :
          ((page == virt) ≡ true) ⊎ ((page == virt) ≡ false)
          → update words (entry_at words directory virt) val (entry_at words directory page)
            ≡ (if page == virt then val else paging_get words directory page)
      choose (inl same) =
          let e : page ≡ virt = ground arith in
          ap (λ p. update words (entry_at words directory virt) val (entry_at words directory p)) e
          ∙ update_self words (entry_at words directory virt) val
          ∙ rw same
      choose (inr other) =
          update-ne words (entry_at words directory virt) val (entry_at words directory page)
            (λ e. absurd (ground (arith, entry-injective page virt hp hv ap_ av e)))
          ∙ sym (paging_get-aligned words directory page ap_)
          ∙ rw other
