-- ===== src/Disk/Tests.antt =====
-- Reads of a disk whose byte at a position is the position modulo 251.
use liebe_os.Prelude.{ℕ, ◌+◌, ◌*◌, ◌%◌, ◌≡◌, refl, arith, some, ok}
use liebe_os.Disk.{Reader, Sector, sector_size, default_disk_id, diskstreamer_read}
use liebe_os.Disk.Reads.{diskstreamer_read-aligned, filled, disk_byte}

abbrev sectors : ℕ → Sector
sectors lba i = (lba * sector_size + i) % 251

abbrev read : Reader
read lba = ok (sectors lba)

abbrev zeros : ℕ → ℕ
zeros j = 0

-- Two sectors and a half.
diskstreamer_read-aligned_example :
    diskstreamer_read read (record { pos = 1024; disk = default_disk_id }) 1280 zeros
    ≡ some (
      ok tt,
      record { pos = 2304; disk = default_disk_id },
      filled zeros (disk_byte sectors) 0 1024 1280,
    )
diskstreamer_read-aligned_example =
    diskstreamer_read-aligned read sectors (λ lba. refl) 1024 1280 zeros refl (omega arith)
