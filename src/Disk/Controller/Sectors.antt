-- ===== src/Disk/Controller/Sectors.antt =====
-- disk/disk.c: what disk_read_sector reads from a drive that keeps to the ATA interface.
use liebe_os.Prelude.{
  ℕ, ◌+◌, ◌*◌, ◌/◌, ◌%◌, ◌^◌, ◌<◌, ◌≡◌, refl, some, bit_or, ◌==◌, if◌then◌else◌, arith, true,
  all_below, all_below_sound, ◌∙◌,
}
use liebe_os.Memory.{Memory}
use liebe_os.Disk.Controller.{Ports, select_sectors, disk_read_sector}
use liebe_os.Disk.Controller.Ata.{address, IsAta, with_bytes}
use liebe_os.Disk.Controller.Words.{read_sectors_lem}

-- The choice of the drive and of linear addresses, beside the upper bits of the number.
or_table : all_below 16 (λ x. bit_or x 0xE0 == x + 0xE0) ≡ true
or_table = refl

or-drive : (x : ℕ) → x < 16 → bit_or x 0xE0 ≡ x + 0xE0
or-drive x lt = ground (arith, all_below_sound 16 (λ x. bit_or x 0xE0 == x + 0xE0) x or_table lt)

module _ {S : Type 0} (ports : Ports S) {content : ℕ → ℕ} {polls : ℕ}
    (ata : IsAta ports content polls) where
  open ata use {register, next, left, busy}

  -- A port written five writes ago, four and so on.
  written_chain :
      (v6 v2 v3 v4 v5 : ℕ) (s : S) (q : ℕ)
      → register
          (ports.outb 0x1F5 v5 (
            ports.outb 0x1F4 v4
              (ports.outb 0x1F3 v3 (ports.outb 0x1F2 v2 (ports.outb 0x1F6 v6 s)))))
          q
        ≡ (if q == 0x1F5
            then v5
            else if q == 0x1F4
            then v4
            else if q == 0x1F3
            then v3
            else if q == 0x1F2
            then v2
            else if q == 0x1F6
            then v6
            else register s q)
  written_chain v6 v2 v3 v4 v5 s q =
      let s1 : S = ports.outb 0x1F6 v6 s in
      let s2 : S = ports.outb 0x1F2 v2 s1 in
      let s3 : S = ports.outb 0x1F3 v3 s2 in
      let s4 : S = ports.outb 0x1F4 v4 s3 in
      rw
        (
          ata.written 0x1F5 v5 s4 q (omega arith),
          ata.written 0x1F4 v4 s3 q (omega arith),
          ata.written 0x1F3 v3 s2 q (omega arith),
          ata.written 0x1F2 v2 s1 q (omega arith),
          ata.written 0x1F6 v6 s q (omega arith),
        )
        refl

  -- The registers when the command is given.
  select_sectors_lem :
      (lba total : ℕ) (s : S)
      → lba < 2 ^ 28
      → total < 2 ^ 8
      → (address (register (select_sectors ports lba total s)) ≡ lba)
        × (register (select_sectors ports lba total s) 0x1F6 / 16 ≡ 14)
        × (register (select_sectors ports lba total s) 0x1F2 ≡ total)
  unfolding select_sectors
  select_sectors_lem lba total s low few =
      let get : (q : ℕ) → ℕ = λ q. register (select_sectors ports lba total s) q in
      let chain =
        written_chain (bit_or (lba / 2 ^ 24) 0xE0 % 2 ^ 8) (total % 2 ^ 8) (lba % 2 ^ 8)
          (lba / 2 ^ 8 % 2 ^ 8) (lba / 2 ^ 16 % 2 ^ 8) s in
      let or = or-drive (lba / 2 ^ 24) (omega arith) in
      let p6 : get 0x1F6 ≡ lba / 2 ^ 24 + 0xE0 = chain 0x1F6 ∙ rw or (omega arith) in
      let p5 : get 0x1F5 ≡ lba / 2 ^ 16 % 2 ^ 8 = chain 0x1F5 in
      let p4 : get 0x1F4 ≡ lba / 2 ^ 8 % 2 ^ 8 = chain 0x1F4 in
      let p3 : get 0x1F3 ≡ lba % 2 ^ 8 = chain 0x1F3 in
      let p2 : get 0x1F2 ≡ total = chain 0x1F2 ∙ omega arith in
      (omega (arith, p6, p5, p4, p3), omega (arith, p6), p2)

  -- For a sector number below 2 ^ 28 and fewer than 256 sectors, on a drive that keeps to the ATA
  -- interface and is ready within `polls` reads of its status, `polls + 1` rounds of each wait are
  -- enough: disk_read_sector returns, with the bytes of the sectors from that number on in the
  -- buffer, in their order, and every other byte of the memory unchanged.
  pub disk_read_sector_lem :
      (lba total buff : ℕ) (s : S) (mem : Memory)
      → lba < 2 ^ 28
      → total < 2 ^ 8
      → (s' : S) × (mem' : Memory) × (disk_read_sector ports (polls + 1) lba total buff s mem
          ≡ some (s', mem'))
        × ((j : ℕ) → mem' j ≡ with_bytes content (lba * 512) buff (total * 512) mem j)
  unfolding disk_read_sector
  disk_read_sector_lem lba total buff s mem low few =
      let (at_, lba_mode, count) = select_sectors_lem lba total s low few in
      let (first, room) = ata.started (select_sectors ports lba total s) lba_mode in
      read_sectors_lem ports ata total buff lba
        (ports.outb 0x1F7 0x20 (select_sectors ports lba total s)) mem (omega arith) (omega arith)
