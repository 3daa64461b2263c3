-- ===== src/Fat16/Chain.antt =====
-- The chain of clusters of a file, and the bytes that a read delivers from it.
use liebe_os.Prelude.{
  ℕ, zero, suc, ◌+◌, ◌-◌, ◌*◌, ◌%◌, ◌^◌, ◌<◌, ◌≡◌, refl, true, false, ltb, Status, Result, ok, err,
  arith, inl, inr, Bool-cases, ap, ◌∙◌,
}
use liebe_os.Disk.{Reader, Sector, Outcome, sector_size, default_disk_id, diskstreamer_seek}
use liebe_os.Disk.Reads.{
  disk_byte, filled, back_from, diskstreamer_read-within, diskstreamer_read-across,
}
use liebe_os.Fat16.{
  Header, Private, stream_read, get_first_fat_sector, fat_position, get_fat_entry, is_stop, stops,
  follow,
}

-- The place of a cluster's entry on the disk, a `uint32_t`, and the entry.
abbrev pub entry_pos : Header → ℕ → ℕ
entry_pos header cluster = (header.reserved_sectors * sector_size + cluster * 2) % 2 ^ 32

abbrev pub fat_entry : (ℕ → Sector) → Header → ℕ → ℕ
fat_entry sectors header cluster =
    disk_byte sectors (entry_pos header cluster)
    + 256 * disk_byte sectors (entry_pos header cluster + 1)

-- The cluster that is `ahead` links behind a cluster, by the table alone.
unfoldable pub walk : (ahead : ℕ) → (entry : ℕ → ℕ) → (cluster : ℕ) → Result ℕ
walk zero entry cluster = ok cluster
walk (suc ahead) entry cluster = elim (is_stop (entry cluster)) [
  | true ↦ err Status.eio
  | false ↦ walk ahead entry (entry cluster)
]

-- What the lookups leave alone: all but the position in the stream of the table.
pub record SameFat (private private' : Private) : Type 0 where
  pub header : private'.header ≡ private.header
  pub ending : private'.ending_sector_pos ≡ private.ending_sector_pos
  pub clusters : private'.cluster_read_stream.disk ≡ private.cluster_read_stream.disk
  pub fat : private'.fat_read_stream.disk ≡ private.fat_read_stream.disk
  pub directory : private'.directory_stream ≡ private.directory_stream

pub SameFat-trans : {p q r : Private} → SameFat p q → SameFat q r → SameFat p r
SameFat-trans a b = record {
  header = b.header ∙ a.header;
  ending = b.ending ∙ a.ending;
  clusters = b.clusters ∙ a.clusters;
  fat = b.fat ∙ a.fat;
  directory = b.directory ∙ a.directory;
}

-- The streams are those of the disk.
pub record IsReady (private : Private) : Type 0 where
  pub clusters : private.cluster_read_stream.disk ≡ default_disk_id
  pub fat : private.fat_read_stream.disk ≡ default_disk_id

pub IsReady-same : {p q : Private} → IsReady p → SameFat p q → IsReady q
IsReady-same r s = record { clusters = s.clusters ∙ r.clusters; fat = s.fat ∙ r.fat }

module _ (read : Reader) (sectors : ℕ → Sector)
    (readable : (lba : ℕ) → read lba ≡ ok (sectors lba)) where
  -- Two bytes at an even position are read, also where they end a sector.
  read_pair :
      (p d : ℕ)
      → d ≡ default_disk_id
      → p % 2 ≡ 0
      → p < 2 ^ 32
      → (q : ℕ) × (stream_read read (record { pos = p; disk = d }) 2 (λ i. 0)
          ≡ (ok tt, record { pos = q; disk = d }, filled (λ i. 0) (disk_byte sectors) 0 p 2))
  unfolding stream_read
  read_pair p d e even low = elim (Bool-cases (ltb (p % sector_size + 2) sector_size)) [
    | inl within ↦ (
      p + 2,
      rw (
        e,
        diskstreamer_read-within read sectors readable p 2 (λ i. 0) (ground arith) (ground arith),
        stream_read,
      ),
    )
    | inr across ↦
        let last : sector_size - p % sector_size ≡ 2 = ground arith in
        (
          back_from (p + (sector_size - p % sector_size)) (sector_size - 2),
          rw
              (
                e,
                diskstreamer_read-across read sectors readable p 2 (λ i. 0) (ground arith)
                    (omega arith),
                stream_read,
                last,
              )
              refl,
        )
  ]

  -- The entry of a cluster is the little-endian number at its place in the first file allocation
  -- table; the lookup changes only the position of the table's stream.
  pub get_fat_entry_lem :
      (private : Private) (cluster : ℕ)
      → IsReady private
      → ((get_fat_entry read private (ok cluster)).0
          ≡ ok (fat_entry sectors private.header cluster))
        × SameFat private (get_fat_entry read private (ok cluster)).1
  unfolding get_fat_entry fat_position diskstreamer_seek get_first_fat_sector
  get_fat_entry_lem private cluster ready =
      let (q, e) =
        read_pair (entry_pos private.header cluster) private.fat_read_stream.disk ready.fat
          (omega arith) (omega arith) in
      rw (e, get_fat_entry)
        (
          ap (λ (o : Outcome). ok (o.2 0 + 256 * o.2 1)) e ∙ value,
          record {
            header = refl;
            ending = refl;
            clusters = refl;
            fat = ap (λ (o : Outcome). o.1.disk) e;
            directory = refl;
          },
        )
    where
      value :
          ok (
            filled (λ i. 0) (disk_byte sectors) 0 (entry_pos private.header cluster) 2 0
            + 256 * filled (λ i. 0) (disk_byte sectors) 0 (entry_pos private.header cluster) 2 1)
          ≡ ok (fat_entry sectors private.header cluster)
      value =
          let z : entry_pos private.header cluster + 0 ≡ entry_pos private.header cluster =
            omega arith in
          ap
            (λ p. ok (
              disk_byte sectors p + 256 * disk_byte sectors (entry_pos private.header cluster + 1)))
            z

  -- On a disk whose every sector can be read, with the streams on it, the loop of
  -- fat16_get_cluster_for_offset walks along the little-endian entries of the first file allocation
  -- table, and changes only the position of the table's stream.
  pub follow-walk :
      (ahead : ℕ) (private : Private) (cluster : ℕ)
      → IsReady private
      → ((follow ahead read private (ok cluster)).0
          ≡ walk ahead (fat_entry sectors private.header) cluster)
        × SameFat private (follow ahead read private (ok cluster)).1
  unfolding follow walk stops
  follow-walk zero private cluster ready =
      (refl, record { header = refl; ending = refl; clusters = refl; fat = refl; directory = refl })
  follow-walk (suc ahead) private cluster ready =
      let (value, same) = get_fat_entry_lem private cluster ready in
      let (rest, same') =
        follow-walk ahead (get_fat_entry read private (ok cluster)).1
          (fat_entry sectors private.header cluster) (IsReady-same ready same) in
      let rest' : (follow ahead read (get_fat_entry read private (ok cluster)).1
            (ok (fat_entry sectors private.header cluster))).0
          ≡ walk ahead (fat_entry sectors private.header)
              (fat_entry sectors private.header cluster) =
        rest
        ∙ ap (λ h. walk ahead (fat_entry sectors h) (fat_entry sectors private.header cluster))
            same.header in
      elim (Bool-cases (is_stop (fat_entry sectors private.header cluster))) [
        | inl stop ↦ rw (value, follow, walk, stop) (refl, same)
        | inr on ↦ rw (value, follow, walk, on, value) (rest', SameFat-trans same same')
      ]
