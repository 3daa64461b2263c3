-- ===== src/Fat16/Content.antt =====
-- The bytes that a read delivers from a chain of clusters.
use liebe_os.Prelude.{
  ℕ, zero, suc, ◌+◌, ◌-◌, ◌*◌, ◌/◌, ◌%◌, ◌^◌, ◌≤◌, ◌<◌, ◌≡◌, refl, true, false, ltb, if◌then◌else◌,
  ok, arith, inl, inr, Bool-cases, ap, ap₂, ◌∙◌,
}
use liebe_os.Disk.{Reader, Sector, Stream, Outcome, sector_size, default_disk_id, diskstreamer_seek}
use liebe_os.Disk.Reads.{disk_byte, filled, diskstreamer_read-aligned}
use liebe_os.Fat16.{
  Header, Private, stream_read, cluster_to_sector, size_of_cluster_bytes, get_cluster_for_offset,
  Filled, from, placed, read_clusters, read_internal,
}
use liebe_os.Fat16.Chain.{fat_entry, walk, SameFat, IsReady, follow-walk}
use liebe_os.Fat16.Delivered.{
  delivered, delivered-last, delivered-more, multiple_div, multiple_mod, below_count, room,
  same_next, IsReady-next, placed-filled,
}

-- The byte `i` of the cluster `c` on the disk.
abbrev pub cluster_byte : (ℕ → Sector) → Private → (c i : ℕ) → ℕ
cluster_byte sectors private c i = disk_byte sectors (cluster_to_sector private c * sector_size + i)

-- The clusters of the chain of a file are `chain 0`, `chain 1` and so on, as far as `count` of them.
abbrev pub IsChain : (ℕ → Sector) → Private → (cluster : ℕ) → (chain : ℕ → ℕ) → (count : ℕ) → Type 0
IsChain sectors private cluster chain count =
    (k : ℕ) → k < count → walk k (fat_entry sectors private.header) cluster ≡ ok (chain k)

-- The clusters end before the position 2^31 on the disk, from which on a position is no `int`.
abbrev pub AreWithin : Private → (chain : ℕ → ℕ) → (count : ℕ) → Type 0
AreWithin private chain count =
    (k : ℕ)
    → k < count
    → cluster_to_sector private (chain k) * sector_size + size_of_cluster_bytes private < 2 ^ 31

module _ (read : Reader) (sectors : ℕ → Sector)
    (readable : (lba : ℕ) → read lba ≡ ok (sectors lba)) where
  -- The read of one cluster or part of it, after the lookup.
  stream_read-aligned :
      (s : Stream) (p total : ℕ) (target : ℕ → ℕ)
      → s.disk ≡ default_disk_id
      → p % sector_size ≡ 0
      → p + total < 2 ^ 31
      → stream_read read (diskstreamer_seek s p) total target ≡ (
        ok tt,
        record { pos = p + total; disk = default_disk_id },
        filled target (disk_byte sectors) 0 p total,
      )
  unfolding stream_read diskstreamer_seek
  stream_read-aligned s p total target e al low =
      let wrap : p % 2 ^ 32 ≡ p = omega (arith, low) in
      rw (
        wrap,
        e,
        diskstreamer_read-aligned read sectors readable p total target al low,
        stream_read,
      )

  -- What one round leaves to the later ones.
  abbrev round : (fuel : ℕ) → Private → (cluster offset total ttr out p : ℕ) → (ℕ → ℕ) → Filled
  round fuel private cluster offset total ttr out p target =
      let private2 = record private {
        cluster_read_stream = record { pos = p + ttr; disk = default_disk_id };
      } in
      let target' = placed target out (filled (from target out) (disk_byte sectors) 0 p ttr) in
      elim (ltb 0 (total - ttr)) [
        | false ↦ (ok tt, private2, target')
        | true ↦
            read_clusters fuel read private2 cluster (offset + ttr) (total - ttr) (out + ttr)
              target'
      ]

  round-more :
      (fuel : ℕ) (private : Private) (cluster offset total ttr out p : ℕ) (target : ℕ → ℕ)
      → ltb 0 (total - ttr) ≡ true
      → round fuel private cluster offset total ttr out p target
        ≡ read_clusters fuel read
            (record private {
              cluster_read_stream = record { pos = p + ttr; disk = default_disk_id };
            })
            cluster
            (offset + ttr)
            (total - ttr)
            (out + ttr)
            (placed target out (filled (from target out) (disk_byte sectors) 0 p ttr))
  round-more fuel private cluster offset total ttr out p target e = rw (e, round)

  round-last :
      (fuel : ℕ) (private : Private) (cluster offset total ttr out p : ℕ) (target : ℕ → ℕ)
      → ltb 0 (total - ttr) ≡ false
      → round fuel private cluster offset total ttr out p target ≡ (
        ok tt,
        record private { cluster_read_stream = record { pos = p + ttr; disk = default_disk_id } },
        placed target out (filled (from target out) (disk_byte sectors) 0 p ttr),
      )
  round-last fuel private cluster offset total ttr out p target e = rw (e, round)

  read_clusters-suc :
      (fuel : ℕ) (private : Private) (cluster offset total out c : ℕ) (target : ℕ → ℕ)
      → IsReady private
      → (get_cluster_for_offset read private cluster offset).0 ≡ ok c
      → SameFat private (get_cluster_for_offset read private cluster offset).1
      → offset % size_of_cluster_bytes private ≡ 0
      → cluster_to_sector private c * sector_size + size_of_cluster_bytes private < 2 ^ 31
      → read_clusters (suc fuel) read private cluster offset total out target
        ≡ round fuel
            (get_cluster_for_offset read private cluster offset).1
            cluster
            offset
            total
            (if ltb (size_of_cluster_bytes private) total
              then size_of_cluster_bytes private
              else total)
            out
            (cluster_to_sector private c * sector_size)
            target
  unfolding read_clusters
  read_clusters-suc fuel private cluster offset total out c target ready found same al low =
      let private1 = (get_cluster_for_offset read private cluster offset).1 in
      let p = cluster_to_sector private c * sector_size in
      let ttr : ℕ =
        if ltb (size_of_cluster_bytes private) total
        then size_of_cluster_bytes private
        else total in
      let place : p + offset % size_of_cluster_bytes private ≡ p = omega (arith, al) in
      let e =
        ap
          (λ q.
            stream_read read (diskstreamer_seek private1.cluster_read_stream q) ttr
              (from target out))
          place
        ∙ stream_read-aligned private1.cluster_read_stream p ttr (from target out)
            (same.clusters ∙ ready.clusters) (omega arith) (ground (arith, low)) in
      rw (found, read_clusters, e)
        (ap
          (λ (o : Outcome).
            let private2 = record private1 { cluster_read_stream = o.1 } in
            let target' = placed target out o.2 in
            let filled_ : Filled = elim (ltb 0 (total - ttr)) [
              | false ↦ (ok tt, private2, target')
              | true ↦
                  read_clusters fuel read private2 cluster (offset + ttr) (total - ttr) (out + ttr)
                    target'
            ] in
            filled_)
          e)

  -- A read that begins at the start of the cluster `n` of the chain, with the private data `now`.
  read_clusters_lem :
      (fuel : ℕ) (private now : Private) (cluster : ℕ) (chain : ℕ → ℕ) (count n total out : ℕ)
      (target : ℕ → ℕ)
      → IsReady now
      → SameFat private now
      → 0 < private.header.sectors_per_cluster
      → IsChain sectors private cluster chain count
      → AreWithin private chain count
      → n * size_of_cluster_bytes private + total ≤ count * size_of_cluster_bytes private
      → 0 < total
      → total < fuel
      → ((read_clusters fuel read now cluster
            (n * size_of_cluster_bytes private)
            total
            out
            target).0
          ≡ ok tt)
        × ((j : ℕ)
            → (read_clusters fuel read now cluster
                  (n * size_of_cluster_bytes private)
                  total
                  out
                  target).2
                j
              ≡ delivered
                  (λ k. cluster_byte sectors private (chain k))
                  (size_of_cluster_bytes private)
                  n
                  total
                  out
                  target
                  j)
  read_clusters_lem zero private now cluster chain count n total out target ready since pos is
        within fits some_ enough =
      absurd (omega arith)
  read_clusters_lem (suc fuel) private now cluster chain count n total out target ready since pos is
        within fits some_ enough =
      let size : ℕ = size_of_cluster_bytes private in
      let size_now : size_of_cluster_bytes now ≡ size =
        ap (λ (h : Header). h.sectors_per_cluster * sector_size) since.header in
      let quot : n * size / size_of_cluster_bytes now ≡ n =
        rw size_now (multiple_div n size (omega arith)) in
      let rest : n * size % size_of_cluster_bytes now ≡ 0 =
        rw size_now (multiple_mod n size (omega arith)) in
      let lt : n < count = below_count n size total count fits some_ in
      let (value, same) =
        follow-walk read sectors readable (n * size / size_of_cluster_bytes now) now cluster
          ready in
      let found : (get_cluster_for_offset read now cluster (n * size)).0 ≡ ok (chain n) =
        unfold get_cluster_for_offset in
        (value
          ∙ ap (λ k. walk k (fat_entry sectors now.header) cluster) quot
          ∙ ap (λ h. walk n (fat_entry sectors h) cluster) since.header
          ∙ is n lt) in
      let same' : SameFat now (get_cluster_for_offset read now cluster (n * size)).1 =
        unfold get_cluster_for_offset in same in
      let sector : cluster_to_sector now (chain n) ≡ cluster_to_sector private (chain n) =
        unfold cluster_to_sector in
        ap₂
          (λ (h : Header) e.
            (e
              + chain n * h.sectors_per_cluster
              + 2 ^ 32 * h.sectors_per_cluster
              - 2 * h.sectors_per_cluster)
            % 2 ^ 32)
          since.header since.ending in
      let first = (get_cluster_for_offset read now cluster (n * size)).1 in
      let step =
        λ (ttr : ℕ)
            (e : (if ltb (size_of_cluster_bytes now) total
                then size_of_cluster_bytes now
                else total)
              ≡ ttr).
          read_clusters-suc fuel now cluster (n * size) total out (chain n) target ready found same'
            rest (rw (sector, size_now) (within n lt))
          ∙ ap₂ (λ t s. round fuel first cluster (n * size) total t out (s * sector_size) target) e
              sector in
      let p : ℕ = cluster_to_sector private (chain n) * sector_size in
      elim (Bool-cases (ltb size total)) [
        | inr last ↦
            let ttr : (if ltb (size_of_cluster_bytes now) total
                  then size_of_cluster_bytes now
                  else total)
                ≡ total =
              rw (size_now, last) in
            let done : ltb 0 (total - total) ≡ false = ground arith in
            rw
              (
                step total ttr,
                round-last fuel first cluster (n * size) total total out p target done,
              )
              (
                refl,
                λ j.
                    placed-filled sectors target p total out j
                    ∙ delivered-last (λ k. cluster_byte sectors private (chain k)) size n total out
                        target j (ground arith),
              )
        | inl long ↦
            let ttr : (if ltb (size_of_cluster_bytes now) total
                  then size_of_cluster_bytes now
                  else total)
                ≡ size =
              rw (size_now, long) in
            let more : ltb 0 (total - size) ≡ true = ground arith in
            let next : n * size + size ≡ (n + 1) * size = omega arith in
            let target' =
              placed target out (filled (from target out) (disk_byte sectors) 0 p size) in
            let private2 = record first {
              cluster_read_stream = record { pos = p + size; disk = default_disk_id };
            } in
            let (okay, bytes) =
              read_clusters_lem fuel private private2 cluster chain count (n + 1) (total - size)
                (out + size) target' (IsReady-next now first (p + size) ready same')
                (same_next private now first (p + size) ready since same') pos is within
                (room n size total count (ground arith) fits) (ground arith)
                (ground (arith, pos)) in
            rw
              (
                step size ttr,
                round-more fuel first cluster (n * size) total size out p target more,
                next,
              )
              (
                okay,
                λ j.
                    bytes j
                    ∙ delivered-more (λ k. cluster_byte sectors private (chain k)) size n total out
                        target j (omega arith) (ground arith) target'
                        (placed-filled sectors target p size out j),
              )
      ]

  -- On a disk whose every sector can be read, with the streams on it, a read of some bytes from the
  -- start of a cluster of a chain that holds them, and whose clusters end before the position 2^31,
  -- reports no error, delivers the bytes of the chain's clusters, each at its place, and writes no
  -- other byte of the buffer.
  pub read_internal_lem :
      (private : Private) (cluster : ℕ) (chain : ℕ → ℕ) (count n total : ℕ) (target : ℕ → ℕ)
      → IsReady private
      → 0 < private.header.sectors_per_cluster
      → IsChain sectors private cluster chain count
      → AreWithin private chain count
      → n * size_of_cluster_bytes private + total ≤ count * size_of_cluster_bytes private
      → 0 < total
      → ((read_internal read private cluster (n * size_of_cluster_bytes private) total target).0
          ≡ ok tt)
        × ((j : ℕ)
            → (read_internal read private cluster
                  (n * size_of_cluster_bytes private)
                  total
                  target).2
                j
              ≡ delivered
                  (λ k. cluster_byte sectors private (chain k))
                  (size_of_cluster_bytes private)
                  n
                  total
                  0
                  target
                  j)
  unfolding read_internal
  read_internal_lem private cluster chain count n total target ready pos is within fits some_ =
      read_clusters_lem (total + 1) private private cluster chain count n total 0 target ready
        (record { header = refl; ending = refl; clusters = refl; fat = refl; directory = refl }) pos
        is within fits some_ (omega arith)
