-- ===== src/Fat16/Directory.antt =====
-- fs/fat/fat16.c: directory items, their names, and the search for a path.
use liebe_os.Prelude.{
  ℕ, zero, suc, ◌+◌, ◌*◌, ◌/◌, Bool, false, not, ◌||◌, Option, none, some, List, [], ◌∷◌, ◌++◌,
  ◌==◌, if◌then◌else◌, Status, Result, ok, err, bit_and, bit_or, pos, negsuc,
}
use liebe_os.Text.{Text, istrncmp}
use liebe_os.Disk.{Reader, Stream, sector_size, diskstreamer_seek}
use liebe_os.Fat16.{Private, stream_read, cluster_to_sector, read_internal, sector_to_absolute}

-- `struct fat_directory_item`: the 32 bytes of a directory item, and whatever lies behind them.
abbrev pub Item : Type 0
Item = ℕ → ℕ

abbrev pub item_size : ℕ
item_size = 32

abbrev pub attribute : Item → ℕ
attribute item = item 11

abbrev pub half : Item → ℕ → ℕ
half item at = item at + 256 * item (at + 1)

-- `item->filesize`
abbrev pub filesize : Item → ℕ
filesize item = half item 28 + 65536 * half item 30

pub get_first_cluster : Item → ℕ
get_first_cluster item = bit_or (half item 20) (half item 26)

-- The loop of `fat16_get_total_items_for_directory`, on fuel for the items that it reads: `none` means
-- that it has not ended by then. `item` is the buffer that each read fills.
pub count_items : (fuel : ℕ) → Reader → Stream → Item → (count : ℕ) → Option (Result ℕ × Stream)
count_items zero read stream item count = none
count_items (suc fuel) read stream item count =
    let (res, stream', item') = stream_read read stream item_size item in
    elim res [
      | err _ ↦ some (err Status.eio, stream')
      | ok _ ↦
          let used : ℕ = if item' 0 == 0xE5 then count else count + 1 in
          let rest = count_items fuel read stream' item' used in
          if item' 0 == 0x00 then some (ok count, stream') else rest
    ]

pub get_total_items_for_directory :
    (fuel : ℕ) → Reader → Private → (directory_start_sector : ℕ) → Option (Result ℕ × Private)
get_total_items_for_directory fuel read private directory_start_sector =
    elim (count_items fuel read
      (diskstreamer_seek private.directory_stream (directory_start_sector * sector_size)) (λ i. 0)
      0) [
        | none ↦ none
        | some (res, stream') ↦ some (res, record private { directory_stream = stream' })
      ]

-- `struct fat_directory`: the items one after another, and `total`.
pub record Directory : Type 0 where
  pub item : ℕ → ℕ
  pub total : ℕ

abbrev pub item_at : Directory → ℕ → Item
item_at directory i k = directory.item (item_size * i + k)

-- `fat16_get_root_directory`: the directory and the private data with the place of the clusters.
-- `none` as above. The allocation is taken to succeed.
pub get_root_directory : (fuel : ℕ) → Reader → Private → Option (Result Directory × Private)
get_root_directory fuel read private =
    let header = private.header in
    let root_pos = header.fat_copies * header.sectors_per_fat + header.reserved_sectors in
    let root_size = header.root_dir_entries * item_size in
    elim (get_total_items_for_directory fuel read private root_pos) [
      | none ↦ none
      | some (total, private1) ↦
          let stream = diskstreamer_seek private1.directory_stream (sector_to_absolute root_pos) in
          let (res, stream', items) = stream_read read stream root_size (λ i. 0) in
          let private2 = record private1 { directory_stream = stream' } in
          let private3 = record private2 {
            ending_sector_pos = root_pos + root_size / sector_size;
          } in
          elim res [
            | err _ ↦ some (err Status.eio, private2)
            | ok _ ↦ elim total [
              | err _ ↦ some (ok (record { item = items; total = 0 }), private3)
              | ok n ↦ some (ok (record { item = items; total = n }), private3)
            ]
          ]
    ]

-- The loop of `fat16_to_proper_string` from the byte `i` on: the bytes up to a NUL or a space. `none`:
-- more than `left` bytes.
pub to_proper_string : (left : ℕ) → Item → (i : ℕ) → Option (List ℕ)
to_proper_string zero item i = none
to_proper_string (suc left) item i =
    let rest : Option (List ℕ) = elim (to_proper_string left item (i + 1)) [
      | none ↦ none
      | some bytes ↦ some (item i ∷ bytes)
    ] in
    if item i == 0x00 || item i == 0x20 then some [] else rest

-- LIEBE_OS_MAX_PATH_LEN, the size of the buffer for a name. `none`: the name overruns it.
abbrev pub max_path_len : ℕ
max_path_len = 108

pub get_full_relative_filename : Item → Option (List ℕ)
get_full_relative_filename item = elim (to_proper_string max_path_len item 0) [
  | none ↦ none
  | some name ↦
      if item 8 == 0x00 || item 8 == 0x20
      then some name
      else elim (to_proper_string max_path_len item 8) [
        | none ↦ none
        | some ext ↦ some (name ++ b'.' ∷ ext)
      ]
]

-- A text in memory that was cleared.
abbrev pub text_of : List ℕ → Text
text_of [] i = 0
text_of (c ∷ text) zero = c
text_of (c ∷ text) (suc i) = text_of text i

-- `istrncmp(tmp_filename, name, sizeof(tmp_filename)) == 0`
pub is_named : Item → List ℕ → Bool
is_named item name = elim (get_full_relative_filename item) [
  | none ↦ false
  | some full ↦ elim (istrncmp (text_of full) (text_of name) max_path_len) [
    | pos n ↦ n == 0
    | negsuc n ↦ false
  ]
]

-- The loop of `fat16_find_item_in_directory` does not stop at a match: the last one counts.
pub find_index : (left i : ℕ) → Directory → (name : List ℕ) → Option ℕ → Option ℕ
find_index zero i directory name found = found
find_index (suc left) i directory name found =
    find_index left (i + 1) directory name
      (if is_named (item_at directory i) name then some i else found)

-- `struct fat_item`, a union with its type.
pub data FatItem : Type 0 where
  file_item : Item → FatItem
  directory_item : Directory → FatItem

abbrev pub is_subdirectory : Item → Bool
is_subdirectory item = not (bit_and (attribute item) 0x10 == 0)

-- `fat16_load_fat_directory` for an item that is a subdirectory. The code does not look at the errors
-- of the count and of the read.
pub load_fat_directory : (fuel : ℕ) → Reader → Private → Item → Option (Directory × Private)
load_fat_directory fuel read private item =
    let cluster = get_first_cluster item in
    elim (get_total_items_for_directory fuel read private (cluster_to_sector private cluster)) [
      | none ↦ none
      | some (err _, private1) ↦ some (record { item = λ i. 0; total = 0 }, private1)
      | some (ok total, private1) ↦
          let (res, private2, items) =
            read_internal read private1 cluster 0 (total * item_size) (λ i. 0) in
          some (record { item = items; total = total }, private2)
    ]

-- `fat16_new_fat_item_for_directory_item`, whose allocations are taken to succeed.
pub new_fat_item : (fuel : ℕ) → Reader → Private → Item → Option (FatItem × Private)
new_fat_item fuel read private item =
    if is_subdirectory item
    then elim (load_fat_directory fuel read private item) [
      | none ↦ none
      | some (directory, private') ↦ some (directory_item directory, private')
    ]
    else some (file_item item, private)

-- `fat16_find_item_in_directory`. The items of matches before the last one are lost there, unused.
pub find_item_in_directory :
    (fuel : ℕ) → Reader → Private → Directory → (name : List ℕ) → Option (Option FatItem × Private)
find_item_in_directory fuel read private directory name =
    elim (find_index directory.total 0 directory name none) [
      | none ↦ some (none, private)
      | some i ↦ elim (new_fat_item fuel read private (item_at directory i)) [
        | none ↦ none
        | some (item, private') ↦ some (some item, private')
      ]
    ]

-- What a search for a path gives; `crash`: the code reads the type of an item through NULL.
pub data Lookup : Type 0 where
  found : FatItem → Lookup
  missing : Lookup
  crash : Lookup

-- The loop of `fat16_get_directory_entry` over the parts that are left.
pub descend :
    List (List ℕ) → (fuel : ℕ) → Reader → Private → Option FatItem → Option (Lookup × Private)
descend [] fuel read private none = some (missing, private)
descend [] fuel read private (some item) = some (found item, private)
descend (part ∷ parts) fuel read private none = some (crash, private)
descend (part ∷ parts) fuel read private (some (file_item item)) = some (missing, private)
descend (part ∷ parts) fuel read private (some (directory_item directory)) =
    elim (find_item_in_directory fuel read private directory part) [
      | none ↦ none
      | some (item, private') ↦ descend parts fuel read private' item
    ]

pub get_directory_entry :
    (fuel : ℕ)
    → Reader
    → Private
    → (root : Directory) → (part : List ℕ) → List (List ℕ)
    → Option (Lookup × Private)
get_directory_entry fuel read private root part parts =
    elim (find_item_in_directory fuel read private root part) [
      | none ↦ none
      | some (none, private') ↦ some (missing, private')
      | some (some item, private') ↦ descend parts fuel read private' (some item)
    ]
