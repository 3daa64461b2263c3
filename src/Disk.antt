-- ===== src/Disk.antt =====
-- disk/disk.c and disk/streamer.c: sectors of the one disk, and a stream of bytes over them.
pub mod Controller
pub mod Reads
mod Tests
use liebe_os.Prelude.{
  ℕ, zero, suc, ◌+◌, ◌-◌, ◌/◌, ◌%◌, ◌^◌, Bool, true, false, Option, none, some, ltb, leb, ◌==◌,
  if◌then◌else◌, update, Status, Result, ok, err, ◌>>=◌,
}

-- LIEBE_OS_SECTOR_SIZE
abbrev pub sector_size : ℕ
sector_size = 512

-- LIEBE_OS_DEFAULT_DISK_ID
abbrev pub default_disk_id : ℕ
default_disk_id = 0

-- The bytes of one sector.
abbrev pub Sector : Type 0
Sector = ℕ → ℕ

-- `disk_read_sector` drives the ATA controller by port input and output: what it delivers for a
-- sector number is a parameter, with the error that `disk_read_block` passes on.
abbrev pub Reader : Type 0
Reader = ℕ → Result Sector

-- `disk_get`: the number of the disk, or `none` for the null pointer.
pub disk_get : ℕ → Option ℕ
disk_get index = if index == default_disk_id then some default_disk_id else none

-- `idisk != &disk_obj`: a disk is its number.
unfoldable pub disk_read_block : Reader → (disk lba : ℕ) → Result Sector
disk_read_block read disk lba = if disk == default_disk_id then read lba else err Status.eio

-- `struct disk_stream`. The position is the 32 bits of an `int`, which wrap around. From 2^31 on
-- they stand for a negative `int`; a read there, with a negative sector and offset, is not modelled.
pub record Stream : Type 0 where
  pub pos : ℕ
  pub disk : ℕ

pub get_new_disk_stream : ℕ → Option Stream
unfolding disk_get
get_new_disk_stream disk_id = elim (disk_get disk_id) [
  | none ↦ none
  | some d ↦ some (record { pos = 0; disk = d })
]

unfoldable pub diskstreamer_seek : Stream → ℕ → Stream
diskstreamer_seek stream p = record stream { pos = p % 2 ^ 32 }

-- `for (i = 0; i < total_to_read; i++) *out++ = buffer[offset + i]`; `out` counts the bytes that went
-- to the buffer before.
pub transfer : (left i offset out : ℕ) → Sector → (ℕ → ℕ) → ℕ → ℕ
transfer zero i offset out buffer target = target
transfer (suc left) i offset out buffer target =
    transfer left (i + 1) offset out buffer (update target (out + i) (buffer (offset + i)))

-- A call with a total of -`deficit`, below 0: the sector is read, no byte is copied, and the position
-- goes back. It is made at the start of a sector.
pub read_negative : Reader → Stream → (deficit : ℕ) → Result (Unit {0}) × Stream
unfolding disk_read_block
read_negative read stream deficit =
    elim (disk_read_block read stream.disk (stream.pos / sector_size)) [
      | err e ↦ (err e, stream)
      | ok buffer ↦ (ok tt, record stream { pos = (stream.pos + 2 ^ 32 - deficit) % 2 ^ 32 })
    ]

-- What a call of `diskstreamer_read` leaves: its status, the stream and the buffer.
abbrev pub Outcome : Type 0
Outcome = Result (Unit {0}) × Stream × (ℕ → ℕ)

-- `diskstreamer_read(stream, out, total)`, on fuel for one call for each sector. The last test tells
-- whether the recursive call's `total - LIEBE_OS_SECTOR_SIZE` is negative.
pub read_loop : (fuel : ℕ) → Reader → Stream → (total out : ℕ) → (ℕ → ℕ) → Option Outcome
unfolding transfer update disk_read_block read_negative
read_loop zero read stream total out target = none
read_loop (suc fuel) read stream total out target =
    let offset = stream.pos % sector_size in
    let overflow = leb sector_size (offset + total) in
    let total_to_read : ℕ = if overflow then sector_size - offset else total in
    elim (disk_read_block read stream.disk (stream.pos / sector_size)) [
      | err e ↦ some (err e, stream, target)
      | ok buffer ↦
          let target' = transfer total_to_read 0 offset out buffer target in
          let stream' = record stream { pos = (stream.pos + total_to_read) % 2 ^ 32 } in
          let more =
            read_loop fuel read stream' (total - sector_size) (out + total_to_read) target' in
          let (res, back) = read_negative read stream' (sector_size - total) in
          if overflow
          then if leb sector_size total then more else some (res, back, target')
          else some (ok tt, stream', target')
    ]

-- The fuel counts the sectors of the total and one call more.
pub diskstreamer_read : Reader → Stream → (total : ℕ) → (ℕ → ℕ) → Option Outcome
unfolding read_loop
diskstreamer_read read stream total target =
    read_loop (total / sector_size + 1) read stream total 0 target
