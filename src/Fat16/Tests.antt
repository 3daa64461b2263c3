-- ===== src/Fat16/Tests.antt =====
-- A chain of three clusters on a disk that can be read.
use liebe_os.Prelude.{ℕ, ◌*◌, ◌≡◌, refl, arith, ok, ◌==◌, if◌then◌else◌, zero, suc}
use liebe_os.Disk.{Reader, Sector, Stream, default_disk_id}
use liebe_os.Fat16.{
  cluster_to_sector, Header, Private, follow, read_internal, is_stop, size_of_cluster_bytes,
}
use liebe_os.Fat16.Chain.{follow-walk, walk, SameFat, IsReady, fat_entry}
use liebe_os.Fat16.Delivered.{delivered}
use liebe_os.Fat16.Content.{read_internal_lem, IsChain, AreWithin, cluster_byte}

abbrev header : Header
header = record {
  sectors_per_cluster = 2;
  reserved_sectors = 1;
  fat_copies = 2;
  root_dir_entries = 16;
  sectors_per_fat = 1;
  signature = 0x29;
}

abbrev stream : Stream
stream = record { pos = 0; disk = default_disk_id }

abbrev private : Private
private = record {
  header = header;
  ending_sector_pos = 4;
  cluster_read_stream = stream;
  fat_read_stream = stream;
  directory_stream = stream;
}

-- The table in sector 1 links the clusters 3, 5 and 4, and the data holds the sectors' numbers.
abbrev sectors : ℕ → Sector
sectors lba i =
    if lba == 1
    then if i == 6
      then 5
      else if i == 10
      then 4
      else if i == 8
      then 0xff
      else if i == 9
      then 0xff
      else 0
    else lba

abbrev read : Reader
read lba = ok (sectors lba)

abbrev chain : ℕ → ℕ
chain k = if k == 0 then 3 else if k == 1 then 5 else 4

private-IsReady : IsReady private
private-IsReady = record { clusters = refl; fat = refl }

private-IsChain : IsChain sectors private 3 chain 3
unfolding walk is_stop
private-IsChain zero lt = refl
private-IsChain (suc zero) lt = refl
private-IsChain (suc (suc zero)) lt = refl
private-IsChain (suc (suc (suc k))) lt = absurd (omega arith)

private-AreWithin : AreWithin private chain 3
unfolding cluster_to_sector
private-AreWithin zero lt = omega arith
private-AreWithin (suc zero) lt = omega arith
private-AreWithin (suc (suc zero)) lt = omega arith
private-AreWithin (suc (suc (suc k))) lt = absurd (omega arith)

follow-walk_example :
    ((follow 2 read private (ok 3)).0 ≡ walk 2 (fat_entry sectors header) 3)
    × SameFat private (follow 2 read private (ok 3)).1
follow-walk_example = follow-walk read sectors (λ lba. refl) 2 private 3 private-IsReady

-- All but the last 100 bytes of the second and the third cluster.
read_internal_example :
    ((read_internal read private 3 (1 * size_of_cluster_bytes private) 1948 (λ j. 0)).0 ≡ ok tt)
    × ((j : ℕ)
        → (read_internal read private 3 (1 * size_of_cluster_bytes private) 1948 (λ j. 0)).2 j
          ≡ delivered
              (λ k. cluster_byte sectors private (chain k))
              (size_of_cluster_bytes private)
              1
              1948
              0
              (λ j. 0)
              j)
read_internal_example =
    read_internal_lem read sectors (λ lba. refl) private 3 chain 3 1 1948 (λ j. 0) private-IsReady
      (omega arith) private-IsChain private-AreWithin (omega arith) (omega arith)
