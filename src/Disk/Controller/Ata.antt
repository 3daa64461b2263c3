-- ===== src/Disk/Controller/Ata.antt =====
-- disk/disk.c: a drive that keeps to the ATA interface, as the controller's ports show it.
use liebe_os.Prelude.{
  ℕ, suc, ◌+◌, ◌-◌, ◌*◌, ◌/◌, ◌%◌, ◌^◌, ◌≤◌, ◌<◌, ◌≡◌, ◌≢◌, bit_and, ltb, ◌==◌, if◌then◌else◌,
}
use liebe_os.Memory.{Memory}
use liebe_os.Disk.Controller.{Ports}

-- The number of the sector that the registers hold.
abbrev pub address : (ℕ → ℕ) → ℕ
address register =
    register 0x1F6 % 16 * 2 ^ 24 + register 0x1F5 * 2 ^ 16 + register 0x1F4 * 2 ^ 8 + register 0x1F3

-- The documented behaviour of the first drive behind the ports, of which `content` are the bytes and
-- which needs at most `polls` reads of the status before it is ready. `next` is the number of the
-- next word that it delivers, `left` counts the words to go, and `busy` the reads until it is ready.
pub record IsAta {S : Type 0} (ports : Ports S) (content : ℕ → ℕ) (polls : ℕ) : Type 0 where
  pub register : S → ℕ → ℕ
  pub next : S → ℕ
  pub left : S → ℕ
  pub busy : S → ℕ
  pub bytes : (n : ℕ) → content n < 2 ^ 8
  pub prompt : (s : S) → busy s ≤ polls
  -- A register holds what was written to it.
  pub written :
      (port val : ℕ) (s : S) (q : ℕ)
      → port ≢ 0x1F7
      → register (ports.outb port val s) q ≡ (if q == port then val else register s q)
  -- The command 0x20 starts the delivery, where the first drive and the linear addresses are chosen.
  pub started :
      (s : S)
      → register s 0x1F6 / 16 ≡ 14
      → (next (ports.outb 0x1F7 0x20 s) ≡ address (register s) * 2 ^ 8)
        × (left (ports.outb 0x1F7 0x20 s) ≡ register s 0x1F2 * 2 ^ 8)
  -- The bit 3 of the status is set as soon as the drive is ready to deliver.
  pub waiting :
      (s : S) (n : ℕ)
      → busy s ≡ suc n
      → (busy (ports.insb 0x1F7 s).1 ≡ n) × (bit_and (ports.insb 0x1F7 s).0 0x08 ≡ 0)
  pub ready :
      (s : S)
      → busy s ≡ 0
      → 0 < left s
      → (busy (ports.insb 0x1F7 s).1 ≡ 0) × (bit_and (ports.insb 0x1F7 s).0 0x08 ≡ 0x08)
  pub polled :
      (s : S) → (next (ports.insb 0x1F7 s).1 ≡ next s) × (left (ports.insb 0x1F7 s).1 ≡ left s)
  -- A ready drive delivers a word, and stays ready up to the sector's end.
  pub delivered :
      (s : S)
      → busy s ≡ 0
      → 0 < left s
      → ((ports.insw 0x1F0 s).0 ≡ content (2 * next s) + content (2 * next s + 1) * 2 ^ 8)
        × (next (ports.insw 0x1F0 s).1 ≡ next s + 1)
        × (left (ports.insw 0x1F0 s).1 + 1 ≡ left s)
        × ((next s + 1) % 2 ^ 8 ≢ 0 → busy (ports.insw 0x1F0 s).1 ≡ 0)

-- The memory `mem` with `count` bytes of the disk from the byte `first` on at `ptr`.
abbrev pub with_bytes : (ℕ → ℕ) → (first ptr count : ℕ) → Memory → ℕ → ℕ
with_bytes content first ptr count mem j =
    if ltb j ptr then mem j else if ltb j (ptr + count) then content (first + (j - ptr)) else mem j
