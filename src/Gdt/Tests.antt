-- ===== src/Gdt/Tests.antt =====
-- The kernel's code segment.
use liebe_os.Prelude.{◌%◌, ◌^◌, ◌<◌, ◌≡◌, ◌≢◌, ◌⊎◌, arith, some, none}
use liebe_os.Gdt.{Segment, Entry, encode}
use liebe_os.Gdt.Decode.{decode_base, decode_limit, decode-encode}

abbrev code : Segment
code = record { base = 0; limit = 0xffffffff; kind = 0x9a }

decode-encode_example :
    ((encode code ≡ none) × (65536 < 0xffffffff) × (0xffffffff % 2 ^ 12 ≢ 0xfff))
    ⊎ ((entry : Entry) × (encode code ≡ some entry)
        × (decode_base entry ≡ 0)
        × (decode_limit entry ≡ 0xffffffff)
        × (entry.byte5 ≡ 0x9a))
decode-encode_example = decode-encode code (omega arith) (omega arith)
