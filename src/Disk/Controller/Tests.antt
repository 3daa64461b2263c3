-- ===== src/Disk/Controller/Tests.antt =====
-- A small drive that keeps to the ATA interface, and two sectors read from it.
use liebe_os.Prelude.{
  ℕ, ◌+◌, ◌-◌, ◌*◌, ◌%◌, ◌^◌, ◌≡◌, Bool, true, false, some, ◌==◌, if◌then◌else◌, update, arith,
  refl,
}
use liebe_os.Memory.{Memory}
use liebe_os.Disk.Controller.{Ports, disk_read_sector}
use liebe_os.Disk.Controller.Ata.{IsAta, address, with_bytes}
use liebe_os.Disk.Controller.Sectors.{disk_read_sector_lem}

record Drive : Type 0 where
  registers : ℕ → ℕ
  word : ℕ
  to_go : ℕ
  is_busy : Bool

abbrev content : ℕ → ℕ
content n = n % 251

abbrev ports : Ports Drive
ports = record {
  outb = λ port val d.
      if port == 0x1F7
      then record d {
        word = address d.registers * 2 ^ 8;
        to_go = d.registers 0x1F2 * 2 ^ 8;
        is_busy = true;
      }
      else record d { registers = update d.registers port val };
  insb = λ port d. if d.is_busy then (0, record d { is_busy = false }) else (0x08, d);
  insw = λ port d. (
    content (2 * d.word) + content (2 * d.word + 1) * 2 ^ 8,
    record d { word = d.word + 1; to_go = d.to_go - 1; is_busy = (d.word + 1) % 2 ^ 8 == 0 },
  );
}

rounds : Bool → ℕ
rounds b = if b then 1 else 0

ports-IsAta : IsAta ports content 1
unfolding rounds update
ports-IsAta = record {
  register = λ d. d.registers;
  next = λ d. d.word;
  left = λ d. d.to_go;
  busy = λ d. rounds d.is_busy;
  bytes = λ n. omega arith;
  prompt = λ d. ground arith;
  written = λ port val d q ne. ground arith;
  started = λ d mode. (refl, refl);
  waiting = λ d n e. ground arith;
  ready = λ d e some_. ground arith;
  polled = λ d. ground arith;
  delivered = λ d e some_. ground arith;
}

abbrev idle : Drive
idle = record { registers = λ q. 0; word = 0; to_go = 0; is_busy = false }

disk_read_sector_example :
    (s' : Drive) × (mem' : Memory) × (disk_read_sector ports 2 0x1234567 2 0x7000 idle (λ j. 0)
      ≡ some (s', mem'))
    × ((j : ℕ) → mem' j ≡ with_bytes content (0x1234567 * 512) 0x7000 (2 * 512) (λ j. 0) j)
disk_read_sector_example =
    disk_read_sector_lem ports ports-IsAta 0x1234567 2 0x7000 idle (λ j. 0) (omega arith)
      (omega arith)
