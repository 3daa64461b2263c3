-- ===== src/Memory.antt =====
-- memory/memory.c: memset, memcmp and memcpy over a memory of bytes.
pub mod Blocks
mod Tests
use liebe_os.Prelude.{ℕ, zero, suc, ◌+◌, ◌%◌, ltb, ◌==◌, if◌then◌else◌, update, ℤ, pos, negsuc}

-- A byte at each address.
abbrev pub Memory : Type 0
Memory = ℕ → ℕ

-- The loop of `memset`, from index `i` with `left` rounds to go.
pub memset_loop : (left i ptr c : ℕ) → Memory → Memory
memset_loop zero i ptr c mem = mem
memset_loop (suc left) i ptr c mem = memset_loop left (i + 1) ptr c (update mem (ptr + i) (c % 256))

pub memset : Memory → (ptr c size : ℕ) → Memory
unfolding memset_loop update
memset mem ptr c size = memset_loop size 0 ptr c mem

-- `*a < *b` for `char`s, which are signed.
pub char_lt : ℕ → ℕ → liebe_os.Prelude.Bool
char_lt a b = ltb ((a + 128) % 256) ((b + 128) % 256)

pub memcmp : Memory → (s1 s2 count : ℕ) → ℤ
unfolding char_lt
memcmp mem s1 s2 zero = pos 0
memcmp mem s1 s2 (suc count) =
    let rest = memcmp mem (s1 + 1) (s2 + 1) count in
    if mem s1 == mem s2 then rest else if char_lt (mem s1) (mem s2) then negsuc 0 else pos 1

pub memcpy : Memory → (dest src len : ℕ) → Memory
unfolding update
memcpy mem dest src zero = mem
memcpy mem dest src (suc len) = memcpy (update mem dest (mem src)) (dest + 1) (src + 1) len
