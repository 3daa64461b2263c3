-- ===== src/File/Open.antt =====
-- What fopen does to the table of descriptors, and which of its numbers the other calls accept.
use liebe_os.Prelude.{
  ℕ, ◌+◌, ◌-◌, ◌<◌, ◌≡◌, refl, ◌≢◌, false, Option, none, some, List, ◌==◌, if◌then◌else◌, update,
  pos, Status, Result, ok, err, arith, inl, inr, ap, ◌∙◌, fun_ext, ◌⊎◌,
}
use liebe_os.Text.{Text}
use liebe_os.File.{
  Files, FileMode, Descriptor, Filesystem, max_descriptors, file_get_descriptor,
  file_free_descriptor, open_on, open_checks, fopen, fclose,
}
use liebe_os.File.Descriptors.{file_new_descriptor_lem}

module _ {W : Type 0} where
  -- A call of fopen that left `files'` and returned `n`: the descriptor that it made is in the slot
  -- of that number, which was free, and no other slot has changed.
  pub record IsOpened (files files' : Files W) (n : ℕ) : Type 0 where
    pub slot : ℕ
    pub desc : Descriptor W
    pub number : n ≡ slot + 1
    pub index : desc.index ≡ n
    pub in_table : slot < max_descriptors
    pub was_free : files.descriptors slot ≡ none
    pub table : files'.descriptors ≡ update files.descriptors slot (some desc)

  -- Either an error and the table as it was, or a number that was opened.
  abbrev pub Tried : Files W → Result ℕ × Files W → Type 0
  Tried files (err e, files') = files'.descriptors ≡ files.descriptors
  Tried files (ok n, files') = IsOpened files files' n

  open_on-Tried :
      (files : Files W) (fs : Filesystem W) (disk : ℕ) (first : List (List ℕ)) (mode : FileMode)
      → Tried files (open_on files fs disk first mode)
  unfolding open_on
  open_on-Tried files fs disk first mode = go (fs.open_fn files.world disk first mode) refl
    where
      go :
          (r : Result ℕ × W)
          → fs.open_fn files.world disk first mode ≡ r
          → Tried files (open_on files fs disk first mode)
      go (err c, w) e = rw (e, open_on) refl
      go (ok pvt, w) e = elim (file_new_descriptor_lem files.descriptors fs pvt disk) [
        | inr full ↦ rw (e, open_on, full) refl
        | inl (i, lt, free, new) ↦
            rw (e, open_on, new)
              (record {
                slot = i;
                desc = record { index = i + 1; filesystem = fs; pvt = pvt; disk = disk };
                number = refl;
                index = refl;
                in_table = lt;
                was_free = free;
                table = ap (λ (r : Result ℕ × (ℕ → Option (Descriptor W))). r.1) new;
              })
      ]

  -- fopen either returns 0 and leaves the table of descriptors as it was, or it opens a descriptor
  -- in a free slot and returns its number.
  pub fopen_lem :
      (files : Files W) (filename : List ℕ) (mode : Text)
      → (((fopen files filename mode).0 ≡ 0)
          × ((fopen files filename mode).1.descriptors ≡ files.descriptors))
        ⊎ IsOpened files (fopen files filename mode).1 (fopen files filename mode).0
  unfolding fopen
  fopen_lem files filename mode = checked (open_checks files filename mode) refl
    where
      Goal : ℕ × Files W → Type 0
      Goal r = ((r.0 ≡ 0) × (r.1.descriptors ≡ files.descriptors)) ⊎ IsOpened files r.1 r.0

      tried :
          (r : Result ℕ × Files W)
          → Tried files r
          → Goal (elim r.0 [ err _ ↦ (0, r.1) | ok index ↦ (index, r.1) ])
      tried (err c, files') h = inl (refl, h)
      tried (ok n, files') h = inr h

      checked :
          (r : Result (ℕ × Filesystem W × List (List ℕ) × FileMode))
          → open_checks files filename mode ≡ r
          → Goal (fopen files filename mode)
      checked (err c) e = rw (e, fopen) (inl (refl, refl))
      checked (ok (disk, fs, first, m)) e =
          rw (e, fopen)
            (tried (open_on files fs disk first m) (open_on-Tried files fs disk first m))

  -- A number that fopen returned names its descriptor, but for the number of the table's last slot,
  -- which names none.
  pub file_get_descriptor-opened :
      (files files' : Files W) (n : ℕ) (is : IsOpened files files' n)
      → file_get_descriptor files'.descriptors (pos n)
        ≡ (if n == max_descriptors then none else some is.desc)
  unfolding file_get_descriptor update
  file_get_descriptor-opened files files' n is =
      rw (is.number, is.table) (ground (arith, is.in_table))

  -- Closing what fopen opened puts the table of descriptors back, where the filesystem's close
  -- reports no error and the number is not that of the last slot.
  pub fclose-fopen :
      (files files' : Files W) (n : ℕ) (is : IsOpened files files' n) (world : W)
      → n ≢ max_descriptors
      → is.desc.filesystem.close_fn files'.world is.desc.pvt ≡ (ok tt, world)
      → ((fclose files' (pos n)).0 ≡ ok tt)
        × ((fclose files' (pos n)).1.descriptors ≡ files.descriptors)
  unfolding fclose
  fclose-fopen files files' n is world ne closed =
      let other : (n == max_descriptors) ≡ false = ground arith in
      let e : file_get_descriptor files'.descriptors (pos n) ≡ some is.desc =
        file_get_descriptor-opened files files' n is ∙ rw other in
      rw (e, fclose, closed) (refl, restored)
    where
      restored : file_free_descriptor files'.descriptors is.desc ≡ files.descriptors
      restored = fun_ext λ j.
          unfold file_free_descriptor update in
          rw (is.index, is.number, is.table)
            (ground (arith, is.was_free, λ (e : j ≡ is.slot). ap files.descriptors e))

  -- The descriptor in the last slot stays open: fclose refuses its number and changes nothing.
  pub fclose-last :
      (files files' : Files W)
      → (is : IsOpened files files' max_descriptors)
      → (fclose files' (pos max_descriptors) ≡ (err Status.eio, files'))
        × (files'.descriptors (max_descriptors - 1) ≡ some is.desc)
  unfolding fclose
  fclose-last files files' is = (
    rw (file_get_descriptor-opened files files' max_descriptors is, fclose),
    rw (is.table) (unfold update in (ground (arith, is.number))),
  )
