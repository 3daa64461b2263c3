-- ===== src/Gdt.antt =====
-- gdt/gdt.c: the bytes of a segment descriptor.
pub mod Decode
pub mod Kernel
mod Tests
use liebe_os.Prelude.{
  ℕ, ◌+◌, ◌/◌, ◌%◌, ◌^◌, ◌&&◌, not, Option, none, some, List, [], ◌∷◌, bit_or, ltb, ◌==◌,
  if◌then◌else◌,
}

-- `struct gdt_structured`
pub record Segment : Type 0 where
  pub base : ℕ
  pub limit : ℕ
  pub kind : ℕ

-- The eight bytes of `target`, in order.
pub record Entry : Type 0 where
  pub byte0 : ℕ
  pub byte1 : ℕ
  pub byte2 : ℕ
  pub byte3 : ℕ
  pub byte4 : ℕ
  pub byte5 : ℕ
  pub byte6 : ℕ
  pub byte7 : ℕ

-- The bytes for a limit as it stands in the entry, with the high flags.
pub encode_with : (limit flags : ℕ) → Segment → Entry
encode_with limit flags source = record {
  byte0 = limit % 2 ^ 8;
  byte1 = limit / 2 ^ 8 % 2 ^ 8;
  byte2 = source.base % 2 ^ 8;
  byte3 = source.base / 2 ^ 8 % 2 ^ 8;
  byte4 = source.base / 2 ^ 16 % 2 ^ 8;
  byte5 = source.kind;
  byte6 = bit_or flags (limit / 2 ^ 16 % 2 ^ 4);
  byte7 = source.base / 2 ^ 24 % 2 ^ 8;
}

-- `none`: the kernel panics.
pub encode : Segment → Option Entry
unfolding encode_with
encode source =
    if ltb 65536 source.limit && not (source.limit % 2 ^ 12 == 0xfff)
    then none
    else some (
        if ltb 65536 source.limit
        then encode_with (source.limit / 2 ^ 12) 0xc0 source
        else encode_with source.limit 0x40 source)

-- `gdt_structured_to_gdt`
pub structured_to_gdt : List Segment → Option (List Entry)
unfolding encode
structured_to_gdt [] = some []
structured_to_gdt (source ∷ rest) = elim (encode source) [
  | none ↦ none
  | some entry ↦ elim (structured_to_gdt rest) [
    | none ↦ none
    | some entries ↦ some (entry ∷ entries)
  ]
]
