-- ===== src/Fat16.antt =====
-- fs/fat/fat16.c: clusters, the file allocation table and the bytes of a chain of clusters.
pub mod Chain
pub mod Content
pub mod Delivered
pub mod Directory
pub mod Files
mod Tests
use liebe_os.Prelude.{
  ℕ, zero, suc, ◌+◌, ◌-◌, ◌*◌, ◌/◌, ◌%◌, ◌^◌, ◌||◌, Bool, true, false, Option, none, some, ltb, leb,
  ◌==◌, if◌then◌else◌, Status, code, Result, ok, err, bit_or,
}
use liebe_os.Disk.{
  Reader, Stream, Outcome, sector_size, default_disk_id, diskstreamer_seek, diskstreamer_read,
}

-- The fields of `struct fat_header` and `struct fat_header_extended` that the code reads.
pub record Header : Type 0 where
  pub sectors_per_cluster : ℕ
  pub reserved_sectors : ℕ
  pub fat_copies : ℕ
  pub root_dir_entries : ℕ
  pub sectors_per_fat : ℕ
  pub signature : ℕ

-- `struct fat_private`, with the part of `root_directory` that places the clusters. The streams are
-- those of `fat16_init_private`.
pub record Private : Type 0 where
  pub header : Header
  pub ending_sector_pos : ℕ
  pub cluster_read_stream : Stream
  pub fat_read_stream : Stream
  pub directory_stream : Stream

-- `diskstreamer_read`; `Disk.Reads.diskstreamer_read-ends` shows that the first case does not occur.
pub stream_read : Reader → Stream → (total : ℕ) → (ℕ → ℕ) → Outcome
stream_read read stream total target = elim (diskstreamer_read read stream total target) [
  | none ↦ (err Status.eio, stream, target)
  | some o ↦ o
]

pub sector_to_absolute : ℕ → ℕ
sector_to_absolute sector = sector * sector_size

-- `ending + (cluster - 2) * sectors_per_cluster`, in the 32 bits of an `int`.
pub cluster_to_sector : Private → ℕ → ℕ
cluster_to_sector private cluster =
    (private.ending_sector_pos
      + cluster * private.header.sectors_per_cluster
      + 2 ^ 32 * private.header.sectors_per_cluster
      - 2 * private.header.sectors_per_cluster)
    % 2 ^ 32

pub get_first_fat_sector : Private → ℕ
get_first_fat_sector private = private.header.reserved_sectors

-- A cluster is an `int`, of which a negative one is an error's number negated. The table does not lie in
-- the first sector, so that the position is not negative.
pub fat_position : Private → Result ℕ → ℕ
fat_position private (ok cluster) = get_first_fat_sector private * sector_size + cluster * 2
fat_position private (err e) = get_first_fat_sector private * sector_size - code e * 2

-- The entry is the two bytes of `result`, lowest first, which is 0 before the read.
pub get_fat_entry : Reader → Private → (cluster : Result ℕ) → Result ℕ × Private
unfolding fat_position
get_fat_entry read private cluster =
    let stream = diskstreamer_seek private.fat_read_stream (fat_position private cluster) in
    let (res, stream', result) = stream_read read stream 2 (λ i. 0) in
    let private' = record private { fat_read_stream = stream' } in
    elim res [ err e ↦ (err e, private') | ok _ ↦ (ok (result 0 + 256 * result 1), private') ]

-- The entries at which `fat16_get_cluster_for_offset` stops with an error.
unfoldable pub is_stop : ℕ → Bool
is_stop entry =
    entry == 0xFF8
    || (entry == 0xFFF || (entry == 0xFF7 || (entry == 0xFF0 || (entry == 0xFF6 || entry == 0x00))))

-- The comparisons of `entry`, which a negative one passes.
pub stops : Result ℕ → Bool
stops (ok entry) = is_stop entry
stops (err e) = false

-- The loop over the clusters ahead; a lookup's error is the next cluster.
pub follow : (ahead : ℕ) → Reader → Private → (cluster : Result ℕ) → Result ℕ × Private
follow zero read private cluster = (cluster, private)
follow (suc ahead) read private cluster =
    let (entry, private') = get_fat_entry read private cluster in
    elim (stops entry) [
      | true ↦ (err Status.eio, private')
      | false ↦ follow ahead read private' entry
    ]

abbrev pub size_of_cluster_bytes : Private → ℕ
size_of_cluster_bytes private = private.header.sectors_per_cluster * sector_size

pub get_cluster_for_offset : Reader → Private → (starting_cluster offset : ℕ) → Result ℕ × Private
get_cluster_for_offset read private starting_cluster offset =
    follow (offset / size_of_cluster_bytes private) read private (ok starting_cluster)

-- What `fat16_read_internal` leaves: its status, the private data and the buffer.
abbrev pub Filled : Type 0
Filled = Result (Unit {0}) × Private × (ℕ → ℕ)

-- The buffer from `out` on.
abbrev pub from : (ℕ → ℕ) → ℕ → ℕ → ℕ
from target out i = target (out + i)

-- The buffer with new bytes from `out` on.
abbrev pub placed : (target : ℕ → ℕ) → (out : ℕ) → (ℕ → ℕ) → ℕ → ℕ
placed target out new j = if ltb j out then target j else new (j - out)

-- `fat16_read_internal_from_stream` on the cluster stream, on fuel for one call for each cluster; with
-- less fuel than that it ends early without an error.
pub read_clusters :
    (fuel : ℕ) → Reader → Private → (cluster offset total out : ℕ) → (ℕ → ℕ) → Filled
read_clusters zero read private cluster offset total out target = (ok tt, private, target)
read_clusters (suc fuel) read private cluster offset total out target =
    let size = size_of_cluster_bytes private in
    let (found, private1) = get_cluster_for_offset read private cluster offset in
    elim found [
      | err e ↦ (err e, private1, target)
      | ok cluster_to_use ↦
          let starting_pos =
            cluster_to_sector private cluster_to_use * sector_size + offset % size in
          let total_to_read : ℕ = if ltb size total then size else total in
          let stream = diskstreamer_seek private1.cluster_read_stream starting_pos in
          let (res, stream', new) = stream_read read stream total_to_read (from target out) in
          let private2 = record private1 { cluster_read_stream = stream' } in
          let target' = placed target out new in
          elim res [
            | err e ↦ (err e, private2, target')
            | ok _ ↦ elim (ltb 0 (total - total_to_read)) [
              | false ↦ (ok tt, private2, target')
              | true ↦
                  read_clusters fuel read private2 cluster (offset + total_to_read)
                    (total - total_to_read) (out + total_to_read) target'
            ]
          ]
    ]

pub read_internal : Reader → Private → (starting_cluster offset total : ℕ) → (ℕ → ℕ) → Filled
read_internal read private starting_cluster offset total target =
    read_clusters (total + 1) read private starting_cluster offset total 0 target
