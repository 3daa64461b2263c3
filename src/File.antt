-- ===== src/File.antt =====
-- fs/file.c: the table of filesystems, the table of file descriptors, and the calls that go through a
-- descriptor to its filesystem's functions.
pub mod Descriptors
pub mod Mount
pub mod Open
mod Tests
use liebe_os.Prelude.{
  ℕ, zero, suc, ◌+◌, ◌-◌, Bool, true, false, ◌&&◌, ◌||◌, Option, none, some, List, [], ltb, leb,
  ◌==◌, if◌then◌else◌, update, ℤ, pos, negsuc, Status, Result, ok, err, ◌>>=◌,
}
use liebe_os.Text.{Text, strncmp}
use liebe_os.PathParser.{PathRoot, pathparser_parse}
use liebe_os.Disk.{disk_get}

-- FILE_MODE
pub data FileMode : Type 0 where
  read_mode write_mode append_mode invalid_mode : FileMode

-- FILE_SEEK_MODE, an `unsigned int`
pub data SeekMode : Type 0 where
  seek_set seek_cur seek_end : SeekMode
  seek_other : ℕ → SeekMode

-- `struct file_stat`
pub record FileStat : Type 0 where
  pub flags : ℕ
  pub filesize : ℕ

-- `struct filesystem`: the function pointers, over the state `W` that they work on. Private data is
-- a pointer, and a disk is its number.
pub record Filesystem (W : Type 0) : Type 0 where
  pub resolve : W → (disk : ℕ) → Result (Unit {0}) × W
  pub open_fn : W → (disk : ℕ) → List (List ℕ) → FileMode → Result ℕ × W
  pub read_fn : W → (disk pvt size nmemb out : ℕ) → Result ℕ × W
  pub seek_fn : W → (pvt : ℕ) → ℤ → SeekMode → Result ℕ × W
  pub stat_fn : W → (disk pvt : ℕ) → Result FileStat × W
  pub close_fn : W → (pvt : ℕ) → Result (Unit {0}) × W

-- `struct file_descriptor`
pub record Descriptor (W : Type 0) : Type 0 where
  pub index : ℕ
  pub filesystem : Filesystem W
  pub pvt : ℕ
  pub disk : ℕ

-- LIEBE_OS_MAX_FILESYSTEMS, LIEBE_OS_MAX_FILE_DESCRIPTORS
abbrev pub max_filesystems : ℕ
max_filesystems = 12

abbrev pub max_descriptors : ℕ
max_descriptors = 512

-- The two tables, the filesystem of the disk, and the state below.
pub record Files (W : Type 0) : Type 0 where
  pub filesystems : ℕ → Option (Filesystem W)
  pub descriptors : ℕ → Option (Descriptor W)
  pub disk_filesystem : Option (Filesystem W)
  pub world : W

-- `for (i = 0; i < n; i++) if (table[i] == 0) ...`, from index `i` with `left` rounds to go.
pub first_free {ℓ} : {A : Type ℓ} → (left i : ℕ) → (ℕ → Option A) → Option ℕ
first_free zero i table = none
first_free (suc left) i table = elim (table i) [
  | none ↦ some i
  | some _ ↦ first_free left (i + 1) table
]

-- `fd < 1`
pub below_one : ℤ → Bool
below_one (pos n) = n == 0
below_one (negsuc n) = true

-- The mode for a string, which is read up to its first byte.
pub file_get_mode_by_string : Text → FileMode
file_get_mode_by_string str =
    if is_zero (strncmp str (letter b'a') 1)
    then append_mode
    else if is_zero (strncmp str (letter b'w') 1)
    then write_mode
    else if is_zero (strncmp str (letter b'r') 1)
    then read_mode
    else invalid_mode
  where
    letter : ℕ → Text
    letter c i = if i == 0 then c else 0

    is_zero : ℤ → Bool
    is_zero (pos n) = n == 0
    is_zero (negsuc n) = false

module _ {W : Type 0} where
  -- `none` where no slot is free: the kernel prints a message and loops for ever.
  pub fs_insert_filesystem : Files W → Filesystem W → Option (Files W)
  fs_insert_filesystem files fs = elim (first_free max_filesystems 0 files.filesystems) [
    | none ↦ none
    | some i ↦ some (record files { filesystems = update files.filesystems i (some fs) })
  ]

  -- `fs_init` and `fs_load`, with the filesystem of `fs_static_load`.
  pub fs_init : Files W → Filesystem W → Option (Files W)
  fs_init files fat16 =
      fs_insert_filesystem (record files { filesystems = λ i. none; descriptors = λ i. none }) fat16

  -- The loop of `fs_resolve`: the first filesystem that accepts the disk.
  pub fs_resolve_loop :
      (left i : ℕ) → (ℕ → Option (Filesystem W)) → W → (disk : ℕ) → Option (Filesystem W) × W
  fs_resolve_loop zero i table world disk = (none, world)
  fs_resolve_loop (suc left) i table world disk = elim (table i) [
    | none ↦ fs_resolve_loop left (i + 1) table world disk
    | some fs ↦
        let (res, world') = fs.resolve world disk in
        elim res [
          | ok _ ↦ (some fs, world')
          | err _ ↦ fs_resolve_loop left (i + 1) table world' disk
        ]
  ]

  pub fs_resolve : Files W → (disk : ℕ) → Option (Filesystem W) × Files W
  fs_resolve files disk =
      let (fs, world') = fs_resolve_loop max_filesystems 0 files.filesystems files.world disk in
      (fs, record files { world = world' })

  -- The new descriptor's index, if the allocation of its memory does not fail, which the code does not
  -- check; its other fields are those that `fopen` writes next.
  pub file_new_descriptor :
      (ℕ → Option (Descriptor W))
      → Filesystem W
      → (pvt disk : ℕ) → Result ℕ × (ℕ → Option (Descriptor W))
  file_new_descriptor table fs pvt disk = elim (first_free max_descriptors 0 table) [
    | none ↦ (err Status.enomem, table)
    | some i ↦ (
      ok (i + 1),
      update table i (some (record { index = i + 1; filesystem = fs; pvt = pvt; disk = disk })),
    )
  ]

  pub file_free_descriptor : (ℕ → Option (Descriptor W)) → Descriptor W → ℕ → Option (Descriptor W)
  file_free_descriptor table desc = update table (desc.index - 1) none

  pub file_get_descriptor : (ℕ → Option (Descriptor W)) → ℤ → Option (Descriptor W)
  file_get_descriptor table (negsuc n) = none
  file_get_descriptor table (pos n) =
      if n == 0 then none else if leb max_descriptors n then none else table (n - 1)

  -- The part of `fopen` from the call of the filesystem's function on.
  pub open_on : Files W → Filesystem W → (disk : ℕ) → List (List ℕ) → FileMode → Result ℕ × Files W
  open_on files fs disk first mode =
      let (opened, world') = fs.open_fn files.world disk first mode in
      elim opened [
        | err e ↦ (err e, record files { world = world' })
        | ok pvt ↦
            let (res, table) = file_new_descriptor files.descriptors fs pvt disk in
            elim res [
              | err _ ↦ (err Status.eio, record files { world = world' })
              | ok index ↦ (ok index, record files { descriptors = table; world = world' })
            ]
      ]

  -- The checks of `fopen`, which give the disk, its filesystem, the path's parts and the mode.
  pub open_checks : Files W → List ℕ → Text → Result (ℕ × Filesystem W × List (List ℕ) × FileMode)
  open_checks files filename mode_str = do
    root ← present (pathparser_parse filename) Status.einvarg
    _ ← not_empty root.first
    disk ← disk_of root.drive_no
    fs ← present files.disk_filesystem Status.eio
    mode ← valid (file_get_mode_by_string mode_str)
    ok (disk, fs, root.first, mode)
    where
      present : {A : Type 0} → Option A → Status → Result A
      present none e = err e
      present (some a) e = ok a

      not_empty : List (List ℕ) → Result (Unit {0})
      not_empty [] = err Status.einvarg
      not_empty _ = ok tt

      disk_of : ℤ → Result ℕ
      disk_of (negsuc n) = err Status.eio
      disk_of (pos n) = present (disk_get n) Status.eio

      valid : FileMode → Result FileMode
      valid invalid_mode = err Status.einvarg
      valid mode = ok mode

  -- The descriptor's index, or 0 on every error.
  pub fopen : Files W → List ℕ → Text → ℕ × Files W
  fopen files filename mode_str = elim (open_checks files filename mode_str) [
    | err _ ↦ (0, files)
    | ok (disk, fs, first, mode) ↦
        let (res, files') = open_on files fs disk first mode in
        elim res [ err _ ↦ (0, files') | ok index ↦ (index, files') ]
  ]

  -- `out` is the buffer's address.
  pub fread : Files W → (out size nmemb : ℕ) → ℤ → Result ℕ × Files W
  fread files out size nmemb fd =
      if size == 0 || (nmemb == 0 || below_one fd)
      then (err Status.einvarg, files)
      else elim (file_get_descriptor files.descriptors fd) [
        | none ↦ (err Status.eio, files)
        | some desc ↦
            let (res, world') =
              desc.filesystem.read_fn files.world desc.disk desc.pvt size nmemb out in
            (res, record files { world = world' })
      ]

  pub fseek : Files W → ℤ → ℤ → SeekMode → Result ℕ × Files W
  fseek files fd offset whence = elim (file_get_descriptor files.descriptors fd) [
    | none ↦ (err Status.eio, files)
    | some desc ↦
        let (res, world') = desc.filesystem.seek_fn files.world desc.pvt offset whence in
        (res, record files { world = world' })
  ]

  pub fstat : Files W → ℤ → Result FileStat × Files W
  fstat files fd = elim (file_get_descriptor files.descriptors fd) [
    | none ↦ (err Status.eio, files)
    | some desc ↦
        let (res, world') = desc.filesystem.stat_fn files.world desc.disk desc.pvt in
        (res, record files { world = world' })
  ]

  pub fclose : Files W → ℤ → Result (Unit {0}) × Files W
  fclose files fd = elim (file_get_descriptor files.descriptors fd) [
    | none ↦ (err Status.eio, files)
    | some desc ↦
        let (res, world') = desc.filesystem.close_fn files.world desc.pvt in
        elim res [
          | err e ↦ (err e, record files { world = world' })
          | ok _ ↦ (
            ok tt,
            record files {
              descriptors = file_free_descriptor files.descriptors desc;
              world = world';
            },
          )
        ]
  ]
