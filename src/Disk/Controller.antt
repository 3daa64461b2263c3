-- ===== src/Disk/Controller.antt =====
-- disk/disk.c: disk_read_sector, over the ports of the ATA controller.
pub mod Ata
pub mod Words
pub mod Sectors
mod Tests
use liebe_os.Prelude.{
  ℕ, zero, suc, ◌+◌, ◌*◌, ◌/◌, ◌%◌, ◌^◌, Option, none, some, bit_and, bit_or, ◌==◌, if◌then◌else◌,
  update,
}
use liebe_os.Memory.{Memory}

-- `outb`, `insb` and `insw` of io/io.asm, on the state of what the ports lead to.
pub record Ports (S : Type 0) : Type 0 where
  pub outb : (port val : ℕ) → S → S
  pub insb : (port : ℕ) → S → ℕ × S
  pub insw : (port : ℕ) → S → ℕ × S

module _ {S : Type 0} (ports : Ports S) where
  -- The writes before the command; the value of a port is an `unsigned char`.
  pub select_sectors : (lba total : ℕ) → S → S
  select_sectors lba total s = ports.outb 0x1F5 (lba / 2 ^ 16 % 2 ^ 8) (
      ports.outb 0x1F4 (lba / 2 ^ 8 % 2 ^ 8) (
        ports.outb 0x1F3 (lba % 2 ^ 8) (
          ports.outb 0x1F2 (total % 2 ^ 8)
            (ports.outb 0x1F6 (bit_or (lba / 2 ^ 24) 0xE0 % 2 ^ 8) s))))

  -- `while (!(insb(0X1F7) & 0x08))`, with fuel for the rounds.
  pub wait_ready : (fuel : ℕ) → S → Option S
  wait_ready zero s = none
  wait_ready (suc fuel) s =
      let (status, s') = ports.insb 0x1F7 s in
      let rest = wait_ready fuel s' in if bit_and status 0x08 == 0 then rest else some s'

  -- The inner loop: each word is two bytes, the lower one first.
  pub read_words : (left ptr : ℕ) → S → Memory → S × Memory
  unfolding update
  read_words zero ptr s mem = (s, mem)
  read_words (suc left) ptr s mem =
      let (word, s') = ports.insw 0x1F0 s in
      read_words left (ptr + 2) s'
        (update (update mem ptr (word % 2 ^ 8)) (ptr + 1) (word / 2 ^ 8 % 2 ^ 8))

  -- The outer loop, with `fuel` for each wait.
  pub read_sectors : (fuel left ptr : ℕ) → S → Memory → Option (S × Memory)
  read_sectors fuel zero ptr s mem = some (s, mem)
  read_sectors fuel (suc left) ptr s mem = elim (wait_ready fuel s) [
    | none ↦ none
    | some s1 ↦
        let (s2, mem') = read_words 256 ptr s1 mem in read_sectors fuel left (ptr + 512) s2 mem'
  ]

  pub disk_read_sector : (fuel lba total buff : ℕ) → S → Memory → Option (S × Memory)
  unfolding select_sectors
  disk_read_sector fuel lba total buff s mem =
      read_sectors fuel total buff (ports.outb 0x1F7 0x20 (select_sectors lba total s)) mem
