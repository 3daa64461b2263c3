-- ===== src/Memory/Tests.antt =====
-- The functions on a small block.
use liebe_os.Prelude.{◌-◌, ◌≡◌, ltb, if◌then◌else◌}
use liebe_os.Memory.{Memory, memset}
use liebe_os.Memory.Blocks.{memset_lem}

-- Each byte is its address, and the bytes from 100 on are those from 0 on.
abbrev mem : Memory
mem j = if ltb j 100 then j else j - 100

memset_example : memset mem 10 0x1ff 5 12 ≡ 0xff
memset_example = memset_lem mem 10 0x1ff 5 12
