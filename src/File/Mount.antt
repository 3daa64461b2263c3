-- ===== src/File/Mount.antt =====
-- disk/disk.c and fs/file.c: the filesystem of the disk as the kernel starts.
use liebe_os.Prelude.{ℕ, ◌≡◌, refl, Option, some, none, Result, ok, err, update, ap}
use liebe_os.Disk.{default_disk_id}
use liebe_os.File.{
  Files, Filesystem, fs_init, first_free, fs_insert_filesystem, fs_resolve, fs_resolve_loop,
  max_filesystems,
}

module _ {W : Type 0} where
  -- `disk_search_and_init`: the disk's structure is cleared, and gets the filesystem that accepts it.
  unfoldable pub disk_search_and_init : Files W → Files W
  disk_search_and_init files =
      let (fs, files') = fs_resolve (record files { disk_filesystem = none }) default_disk_id in
      record files' { disk_filesystem = fs }

  -- The filesystem for the result of its `resolve`.
  abbrev pub accepted : Filesystem W → Result (Unit {0}) → Option (Filesystem W)
  accepted fs (ok _) = some fs
  accepted fs (err e) = none

  only_filesystem :
      (fat16 : Filesystem W) (world : W) (r : Result (Unit {0}))
      → (fat16.resolve world default_disk_id).0 ≡ r
      → fs_resolve_loop max_filesystems 0 (update (λ i. none) 0 (some fat16)) world default_disk_id
        ≡ (accepted fat16 r, (fat16.resolve world default_disk_id).1)
  unfolding fs_resolve_loop update
  only_filesystem fat16 world (ok u) e = rw e refl
  only_filesystem fat16 world (err c) e = rw e refl

  -- After fs_init, which finds a free slot, the disk has the filesystem that was inserted just where
  -- that accepts it; no file is open.
  pub disk_search_and_init-fs_init :
      (files : Files W) (fat16 : Filesystem W)
      → (files1 : Files W) × (fs_init files fat16 ≡ some files1)
        × (files1.world ≡ files.world)
        × ((disk_search_and_init files1).disk_filesystem
            ≡ accepted fat16 (fat16.resolve files.world default_disk_id).0)
        × ((disk_search_and_init files1).world ≡ (fat16.resolve files.world default_disk_id).1)
        × ((i : ℕ) → (disk_search_and_init files1).descriptors i ≡ none)
  unfolding fs_init fs_insert_filesystem disk_search_and_init fs_resolve first_free
  disk_search_and_init-fs_init files fat16 =
      let r : Result (Unit {0}) = (fat16.resolve files.world default_disk_id).0 in
      let found = only_filesystem fat16 files.world r refl in
      (
        record files { filesystems = update (λ i. none) 0 (some fat16); descriptors = λ i. none },
        refl,
        refl,
        ap (λ (p : Option (Filesystem W) × W). p.0) found,
        ap (λ (p : Option (Filesystem W) × W). p.1) found,
        λ i. refl,
      )
