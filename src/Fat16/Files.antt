-- ===== src/Fat16/Files.antt =====
-- fs/fat/fat16.c: the functions that the table of filesystems calls.
use liebe_os.Prelude.{
  ℕ, zero, suc, ◌+◌, ◌-◌, ◌%◌, ◌^◌, not, Option, none, some, List, ltb, leb, ◌==◌, if◌then◌else◌,
  Status, Result, ok, err, bit_and,
}
use liebe_os.File.{
  FileMode, SeekMode, FileStat, read_mode, seek_set, seek_cur, seek_end, seek_other,
}
use liebe_os.Disk.{Reader}
use liebe_os.Fat16.{Header, Private, stream_read, read_internal}
use liebe_os.Fat16.Directory.{
  Directory, FatItem, file_item, directory_item, found, missing, crash, attribute, filesize,
  get_first_cluster, get_root_directory, get_directory_entry,
}

-- `struct fat_file_descriptor`
pub record FatDescriptor : Type 0 where
  pub item : FatItem
  pub pos : ℕ

-- What an operation gives: `hang`: the count of a directory's items has not ended within the fuel.
pub data Answer (A : Type 0) : Type 0 where
  done : Result A → Answer A
  crashed : Answer A
  hang : Answer A

-- `fat16_resolve`, with the header that `decode` takes from its 62 bytes; the signature is compared
-- with FAT16_SIGNATURE.
pub fat16_resolve :
    (fuel : ℕ) → Reader → (decode : (ℕ → ℕ) → Header) → Private → Answer (Directory × Private)
fat16_resolve fuel read decode fresh =
    let (res, stream', bytes) = stream_read read fresh.directory_stream 62 (λ i. 0) in
    let private = record fresh { header = decode bytes } in
    elim res [
      | err _ ↦ done (err Status.eio)
      | ok _ ↦
          if not (private.header.signature == 0x29)
          then done (err Status.efsnotus)
          else elim (get_root_directory fuel read private) [
            | none ↦ hang
            | some (err _, private') ↦ done (err Status.eio)
            | some (ok directory, private') ↦ done (ok (directory, private'))
          ]
    ]

-- The path is not empty: `fopen` has checked that.
pub fat16_open :
    (fuel : ℕ)
    → Reader
    → Private
    → (root : Directory) → (part : List ℕ) → List (List ℕ)
    → FileMode
    → Answer (FatDescriptor × Private)
fat16_open fuel read private root part parts read_mode =
    elim (get_directory_entry fuel read private root part parts) [
      | none ↦ hang
      | some (crash, private') ↦ crashed
      | some (missing, private') ↦ done (err Status.eio)
      | some (found item, private') ↦ done (ok (record { item = item; pos = 0 }, private'))
    ]
fat16_open fuel read private root part parts mode = done (err Status.erdonly)

-- The loop of `fat16_read` over the members that are left.
pub read_members :
    (left : ℕ)
    → Reader
    → Private
    → (cluster offset size out : ℕ) → (ℕ → ℕ)
    → Result (Unit {0}) × Private × (ℕ → ℕ)
read_members zero read private cluster offset size out target = (ok tt, private, target)
read_members (suc left) read private cluster offset size out target =
    let (res, private', new) =
      read_internal read private cluster offset size (λ i. target (out + i)) in
    let target' : ℕ → ℕ = λ j. if ltb j out then target j else new (j - out) in
    elim res [
      | err e ↦ (err e, private', target')
      | ok _ ↦ read_members left read private' cluster (offset + size) size (out + size) target'
    ]

-- `none`: the descriptor is of a directory, which the code takes for a file's item. The descriptor is
-- only read.
pub fat16_read :
    Reader
    → Private
    → FatDescriptor
    → (size nmemb : ℕ) → (ℕ → ℕ)
    → Option (Result ℕ × Private × (ℕ → ℕ))
fat16_read read private desc size nmemb target = elim desc.item [
  | directory_item directory ↦ none
  | file_item item ↦
      let (res, private', target') =
        read_members nmemb read private (get_first_cluster item) desc.pos size 0 target in
      elim res [
        | err e ↦ some (err e, private', target')
        | ok _ ↦ some (ok nmemb, private', target')
      ]
]

-- Offsets and positions are `uint32_t`.
pub fat16_seek : FatDescriptor → (offset : ℕ) → SeekMode → Result ℕ × FatDescriptor
fat16_seek desc offset seek_mode = elim desc.item [
  | directory_item directory ↦ (err Status.einvarg, desc)
  | file_item item ↦ if leb (filesize item) offset then (err Status.eio, desc) else elim seek_mode [
    | seek_set ↦ (ok 0, record desc { pos = offset })
    | seek_end ↦ (ok (filesize item - offset), desc)
    | seek_cur ↦ (ok 0, record desc { pos = (desc.pos + offset) % 2 ^ 32 })
    | seek_other n ↦ (err Status.einvarg, desc)
  ]
]

pub fat16_stat : FatDescriptor → Result FileStat
fat16_stat desc = elim desc.item [
  | directory_item directory ↦ err Status.einvarg
  | file_item item ↦ ok (record {
    flags = if not (bit_and (attribute item) 0x01 == 0) then 1 else 0;
    filesize = filesize item;
  })
]
