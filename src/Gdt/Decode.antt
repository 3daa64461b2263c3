-- ===== src/Gdt/Decode.antt =====
-- The processor's reading of a segment descriptor, and that it is what was encoded.
use liebe_os.Prelude.{
  ℕ, ◌+◌, ◌*◌, ◌/◌, ◌%◌, ◌^◌, ◌<◌, ◌≡◌, refl, ◌≢◌, none, some, ltb, leb, ◌==◌, if◌then◌else◌, arith,
  inl, inr, Bool-cases, ◌∙◌, ◌⊎◌, bit_or, bit_or_disjoint,
}
use liebe_os.Gdt.{Segment, Entry, encode_with, encode}

pub decode_base : Entry → ℕ
decode_base e = e.byte2 + e.byte3 * 2 ^ 8 + e.byte4 * 2 ^ 16 + e.byte7 * 2 ^ 24

-- With the granularity bit the limit counts pages of 4096 bytes, and is that of the last one.
pub decode_limit : Entry → ℕ
decode_limit e =
    let raw = e.byte0 + e.byte1 * 2 ^ 8 + e.byte6 % 2 ^ 4 * 2 ^ 16 in
    if leb 0x80 e.byte6 then raw * 2 ^ 12 + 0xfff else raw

base-encode_with :
    (limit flags : ℕ) (source : Segment)
    → source.base < 2 ^ 32
    → decode_base (encode_with limit flags source) ≡ source.base
unfolding decode_base encode_with
base-encode_with limit flags source h = omega arith

high_flags :
    (q limit : ℕ) → bit_or (q * 2 ^ 4) (limit / 2 ^ 16 % 2 ^ 4) ≡ q * 2 ^ 4 + limit / 2 ^ 16 % 2 ^ 4
high_flags q limit = bit_or_disjoint 4 q (limit / 2 ^ 16 % 2 ^ 4) (omega arith)

limit-bytes :
    (limit : ℕ) (source : Segment)
    → limit < 2 ^ 20
    → decode_limit (encode_with limit 0x40 source) ≡ limit
unfolding decode_limit encode_with
limit-bytes limit source h = rw (high_flags 4 limit) (ground arith)

limit-pages :
    (limit : ℕ) (source : Segment)
    → limit < 2 ^ 20
    → decode_limit (encode_with limit 0xc0 source) ≡ limit * 2 ^ 12 + 0xfff
unfolding decode_limit encode_with
limit-pages limit source h = rw (high_flags 12 limit) (ground arith)

-- Every segment with a 32-bit base and limit that is encoded is read back with its base, limit and
-- type, and the segments that are refused are those whose limit is above 65536 and does not end a
-- page.
pub decode-encode :
    (source : Segment)
    → source.base < 2 ^ 32
    → source.limit < 2 ^ 32
    → ((encode source ≡ none) × (65536 < source.limit) × (source.limit % 2 ^ 12 ≢ 0xfff))
      ⊎ ((entry : Entry) × (encode source ≡ some entry)
          × (decode_base entry ≡ source.base)
          × (decode_limit entry ≡ source.limit)
          × (entry.byte5 ≡ source.kind))
unfolding encode
decode-encode source hb hl = elim (Bool-cases (ltb 65536 source.limit)) [
  | inl large ↦ elim (Bool-cases (source.limit % 2 ^ 12 == 0xfff)) [
    | inl page ↦ inr (
      encode_with (source.limit / 2 ^ 12) 0xc0 source,
      rw (large, page),
      base-encode_with _ _ source hb,
      limit-pages (source.limit / 2 ^ 12) source (omega arith) ∙ ground arith,
      refl,
    )
    | inr part ↦ inl (rw (large, part), ground arith, ground arith)
  ]
  | inr small ↦ inr (
    encode_with source.limit 0x40 source,
    rw small,
    base-encode_with _ _ source hb,
    limit-bytes source.limit source (ground arith),
    refl,
  )
]
