-- ===== src/Disk/Reads.antt =====
-- Which bytes a stream delivers, and where it stands afterwards.
use liebe_os.Prelude.{
  ℕ, zero, suc, ◌+◌, ◌-◌, ◌/◌, ◌%◌, ◌^◌, ◌≤◌, ◌<◌, ◌≡◌, refl, ◌≢◌, inl, inr, true, false, none,
  some, ltb, leb, if◌then◌else◌, update, Result, ok, err, arith, fun_ext, ap, ap₂, Bool-cases, ◌∙◌,
}
use liebe_os.Disk.{
  sector_size, default_disk_id, Sector, Reader, disk_read_block, Stream, transfer, read_loop,
  diskstreamer_read,
}

-- The target with `n` bytes of the source from `from` on at the places from `out` on.
abbrev pub filled : (target source : ℕ → ℕ) → (out from n j : ℕ) → ℕ
filled target source out from n j =
    if ltb j out then target j else if ltb j (out + n) then source (from + (j - out)) else target j

transfer_lem :
    (left i offset out : ℕ) (buffer : Sector) (target : ℕ → ℕ) (j : ℕ)
    → transfer left i offset out buffer target j ≡ (
        if ltb j (out + i)
        then target j
        else if ltb j (out + i + left)
        then buffer (offset + (j - out))
        else target j)
unfolding transfer update
transfer_lem zero i offset out buffer target j = ground arith
transfer_lem (suc left) i offset out buffer target j =
    let index : j ≡ out + i → offset + (j - out) ≡ offset + i = λ e. omega arith in
    ground (
      arith,
      transfer_lem left (i + 1) offset out buffer (update target (out + i) (buffer (offset + i))) j,
      λ (e : j ≡ out + i). ap buffer (index e),
    )

-- The 32 bits of a position, and those of the position `d` before it.
abbrev pub back_from : (p d : ℕ) → ℕ
back_from p d = (p % 2 ^ 32 + 2 ^ 32 - d) % 2 ^ 32

-- The bytes of a disk whose every sector can be read.
abbrev pub disk_byte : (ℕ → Sector) → ℕ → ℕ
disk_byte sectors p = sectors (p / sector_size) (p % sector_size)

-- Bytes of one sector are bytes of the disk.
sector-disk_byte :
    (sectors : ℕ → Sector) (p k : ℕ)
    → p % sector_size + k < sector_size
    → sectors (p / sector_size) (p % sector_size + k) ≡ disk_byte sectors (p + k)
sector-disk_byte sectors p k h =
    let q : (p + k) / sector_size ≡ p / sector_size = omega arith in
    let r : (p + k) % sector_size ≡ p % sector_size + k = omega arith in rw (q, r)

-- A sector's bytes, and then the rest.
filled-filled :
    (target source : ℕ → ℕ) (out from total : ℕ)
    → sector_size ≤ total
    → (j : ℕ)
    → filled
        (filled target source out from sector_size)
        source
        (out + sector_size)
        (from + sector_size)
        (total - sector_size)
        j
      ≡ filled target source out from total j
filled-filled target source out from total h j =
    let index : out + sector_size ≤ j
        → from + sector_size + (j - (out + sector_size)) ≡ from + (j - out) =
      λ le. omega arith in
    ground (arith, λ (le : out + sector_size ≤ j). ap source (index le))

module _ (read : Reader) (sectors : ℕ → Sector)
    (readable : (lba : ℕ) → read lba ≡ ok (sectors lba)) where
  -- The bytes that a call moves out of one sector.
  moved :
      (p n out : ℕ) (target : ℕ → ℕ)
      → p % sector_size + n ≤ sector_size
      → transfer n 0 (p % sector_size) out (sectors (p / sector_size)) target
        ≡ filled target (disk_byte sectors) out p n
  moved p n out target h =
      fun_ext
        λ j. transfer_lem n 0 (p % sector_size) out (sectors (p / sector_size)) target j ∙ place j
    where
      place :
          (j : ℕ)
          → (if ltb j (out + 0)
              then target j
              else if ltb j (out + 0 + n)
              then sectors (p / sector_size) (p % sector_size + (j - out))
              else target j)
            ≡ filled target (disk_byte sectors) out p n j
      place j = elim (Bool-cases (ltb j out)) [
        | inl before ↦ ground arith
        | inr after ↦ elim (Bool-cases (ltb j (out + n))) [
          | inl inside ↦ ground (arith, sector-disk_byte sectors p (j - out) (ground arith))
          | inr behind ↦ ground arith
        ]
      ]

  -- A read that stays before the end of its sector.
  pub read_loop-within :
      (fuel p total out : ℕ) (target : ℕ → ℕ)
      → p % sector_size + total < sector_size
      → p + total < 2 ^ 32
      → read_loop (suc fuel) read (record { pos = p; disk = default_disk_id }) total out target
        ≡ some (
          ok tt,
          record { pos = p + total; disk = default_disk_id },
          filled target (disk_byte sectors) out p total,
        )
  unfolding read_loop disk_read_block
  read_loop-within fuel p total out target h low =
      let no_overflow : leb sector_size (p % sector_size + total) ≡ false = ground arith in
      let wrap : (p + total) % 2 ^ 32 ≡ p + total = omega (arith, low) in
      rw (readable, no_overflow, wrap)
        (ap (λ t. some (ok tt, record { pos = p + total; disk = default_disk_id }, t))
          (moved p total out target (omega arith)))

  -- One round of a longer read from the start of a sector.
  read_loop-sector :
      (fuel p total out : ℕ) (target : ℕ → ℕ)
      → p % sector_size ≡ 0
      → sector_size ≤ total
      → p + total < 2 ^ 31
      → read_loop (suc fuel) read (record { pos = p; disk = default_disk_id }) total out target
        ≡ read_loop fuel read
            (record { pos = p + sector_size; disk = default_disk_id })
            (total - sector_size)
            (out + sector_size)
            (filled target (disk_byte sectors) out p sector_size)
  unfolding read_loop disk_read_block
  read_loop-sector fuel p total out target aligned long low =
      let over : leb sector_size (p % sector_size + total) ≡ true = ground arith in
      let more : leb sector_size total ≡ true = ground arith in
      let all : sector_size - p % sector_size ≡ sector_size = omega arith in
      let wrap : (p + sector_size) % 2 ^ 32 ≡ p + sector_size = omega (arith, low, long) in
      rw (readable, over, more, all, wrap)
        (ap
          (λ t.
            read_loop fuel read (record { pos = p + sector_size; disk = default_disk_id })
              (total - sector_size) (out + sector_size) t)
          (moved p sector_size out target (omega arith)))

  -- A read of whole and part sectors from the start of a sector on.
  read_loop-aligned :
      (fuel p total out : ℕ) (target : ℕ → ℕ)
      → p % sector_size ≡ 0
      → total / sector_size < fuel
      → p + total < 2 ^ 31
      → read_loop fuel read (record { pos = p; disk = default_disk_id }) total out target
        ≡ some (
          ok tt,
          record { pos = p + total; disk = default_disk_id },
          filled target (disk_byte sectors) out p total,
        )
  read_loop-aligned zero p total out target aligned enough low = absurd (omega arith)
  read_loop-aligned (suc fuel) p total out target aligned enough low =
      elim (Bool-cases (ltb total sector_size)) [
        | inl short ↦ read_loop-within fuel p total out target (ground arith) (omega (arith, low))
        | inr long ↦
            read_loop-sector fuel p total out target aligned (ground arith) low
            ∙ read_loop-aligned fuel (p + sector_size) (total - sector_size) (out + sector_size)
                (filled target (disk_byte sectors) out p sector_size) (omega arith) (ground arith)
                (ground (arith, low))
            ∙ ap₂ (λ q t. some (ok tt, record { pos = q; disk = default_disk_id }, t))
                (ground arith)
                (fun_ext (filled-filled target (disk_byte sectors) out p total (ground arith)))
      ]

  -- A read that reaches the end of its sector, but is shorter than one.
  pub read_loop-across :
      (fuel p total out : ℕ) (target : ℕ → ℕ)
      → sector_size ≤ p % sector_size + total
      → total < sector_size
      → read_loop (suc fuel) read (record { pos = p; disk = default_disk_id }) total out target
        ≡ some (
          ok tt,
          record {
            pos = back_from (p + (sector_size - p % sector_size)) (sector_size - total);
            disk = default_disk_id;
          },
          filled target (disk_byte sectors) out p (sector_size - p % sector_size),
        )
  unfolding read_loop disk_read_block
  read_loop-across fuel p total out target reach short =
      let over : leb sector_size (p % sector_size + total) ≡ true = ground arith in
      let less : leb sector_size total ≡ false = ground arith in
      rw (readable, over, less, readable, over)
        (ap
          (λ t. some (
            ok tt,
            record {
              pos = back_from (p + (sector_size - p % sector_size)) (sector_size - total);
              disk = default_disk_id;
            },
            t,
          ))
          (moved p (sector_size - p % sector_size) out target (omega arith)))

  -- On a disk whose every sector can be read, a read from the start of a sector that ends before the
  -- position 2^31, where the `int` would overflow, delivers the bytes of the disk from the position
  -- on, writes no other byte, and moves the position past them.
  pub diskstreamer_read-aligned :
      (p total : ℕ) (target : ℕ → ℕ)
      → p % sector_size ≡ 0
      → p + total < 2 ^ 31
      → diskstreamer_read read (record { pos = p; disk = default_disk_id }) total target
        ≡ some (
          ok tt,
          record { pos = p + total; disk = default_disk_id },
          filled target (disk_byte sectors) 0 p total,
        )
  unfolding diskstreamer_read
  diskstreamer_read-aligned p total target aligned low =
      read_loop-aligned (total / sector_size + 1) p total 0 target aligned (omega arith) low

  -- On a disk whose every sector can be read, a read that ends before the end of the sector that it
  -- begins in, and before the position 2^32, delivers the bytes of the disk from the position on, writes no other byte, and moves
  -- the position past them.
  pub diskstreamer_read-within :
      (p total : ℕ) (target : ℕ → ℕ)
      → p % sector_size + total < sector_size
      → p + total < 2 ^ 32
      → diskstreamer_read read (record { pos = p; disk = default_disk_id }) total target
        ≡ some (
          ok tt,
          record { pos = p + total; disk = default_disk_id },
          filled target (disk_byte sectors) 0 p total,
        )
  unfolding diskstreamer_read
  diskstreamer_read-within p total target h low =
      rw (suc_of p total) (read_loop-within (total / sector_size) p total 0 target h low)
    where
      suc_of : (p total : ℕ) → total / sector_size + 1 ≡ suc (total / sector_size)
      suc_of p total = omega arith

  -- On a disk whose every sector can be read, a read of less than a sector that begins inside a
  -- sector and reaches its end reports no error, but delivers only the bytes up to that end, and
  -- moves the position there and back by what the total is less than a sector, modulo 2^32.
  pub diskstreamer_read-across :
      (p total : ℕ) (target : ℕ → ℕ)
      → sector_size ≤ p % sector_size + total
      → total < sector_size
      → diskstreamer_read read (record { pos = p; disk = default_disk_id }) total target
        ≡ some (
          ok tt,
          record {
            pos = back_from (p + (sector_size - p % sector_size)) (sector_size - total);
            disk = default_disk_id;
          },
          filled target (disk_byte sectors) 0 p (sector_size - p % sector_size),
        )
  unfolding diskstreamer_read
  diskstreamer_read-across p total target reach short =
      let e : total / sector_size + 1 ≡ suc (total / sector_size) = omega arith in
      rw e (read_loop-across (total / sector_size) p total 0 target reach short)

-- With fuel for its sectors a read does not run out of it, whatever the disk delivers.
read_loop-ends :
    (fuel : ℕ) (read : Reader) (stream : Stream) (total out : ℕ) (target : ℕ → ℕ)
    → total / sector_size < fuel
    → read_loop fuel read stream total out target ≢ none
unfolding read_loop
read_loop-ends zero read stream total out target h = absurd (omega arith)
read_loop-ends (suc fuel) read stream total out target h =
    go (disk_read_block read stream.disk (stream.pos / sector_size)) refl
      (λ s o t fits. read_loop-ends fuel read s (total - sector_size) o t (omega arith))
  where
    Rest : Type 0
    Rest =
        (s : Stream) (o : ℕ) (t : ℕ → ℕ)
        → sector_size ≤ total
        → read_loop fuel read s (total - sector_size) o t ≢ none

    go :
        (r : Result Sector)
        → disk_read_block read stream.disk (stream.pos / sector_size) ≡ r
        → Rest
        → read_loop (suc fuel) read stream total out target ≢ none
    go (err c) e rest = rw (e, read_loop) (λ q. cc)
    go (ok buffer) e rest =
        rw (e, read_loop)
          (elim (Bool-cases (leb sector_size (stream.pos % sector_size + total))) [
            | inr short ↦ rw short (λ q. cc)
            | inl over ↦ rw over (elim (Bool-cases (leb sector_size total)) [
              | inr less ↦ rw less (λ q. cc)
              | inl more ↦ rw more (rest _ _ _ (ground arith))
            ])
          ])

-- A call of diskstreamer_read ends, whatever the disk delivers: its fuel is enough.
pub diskstreamer_read-ends :
    (read : Reader) (stream : Stream) (total : ℕ) (target : ℕ → ℕ)
    → diskstreamer_read read stream total target ≢ none
unfolding diskstreamer_read
diskstreamer_read-ends read stream total target =
    read_loop-ends (total / sector_size + 1) read stream total 0 target (omega arith)
