-- ===== src/Elf/Valid.antt =====
-- Which headers are accepted.
use liebe_os.Prelude.{
  ℕ, zero, suc, Bool, Status, ◌+◌, ◌<◌, ◌≡◌, ◌≢◌, ◌⊎◌, refl, sym, ap, ◌∙◌, true, false, arith, ◌==◌,
  ◌||◌, ◌&&◌, if◌then◌else◌, ok, err, ℤ, pos, negsuc,
}
use mathlib.Core.Logic.{◌↔◌}
use native.Mathlib.Nat.{add-zero}
use liebe_os.Memory.{Memory, memcmp}
use liebe_os.Memory.Blocks.{memcmp-zero}
use liebe_os.Elf.{
  header_at, is_zero, elf_valid_class, elf_valid_encoding, elf_has_program_header,
  elf_valid_signature, elf_validate_loaded,
}

-- `elf_signature` is at the address `signature`.
pub record HasSignature (mem : Memory) (a : ℕ) : Type 0 where
  pub first : mem a ≡ 0x7f
  pub second : mem (a + 1) ≡ b'E'
  pub third : mem (a + 2) ≡ b'L'
  pub fourth : mem (a + 3) ≡ b'F'

-- The header of a 32-bit little-endian file, or of one that does not say so, with program headers.
pub record IsElf (mem : Memory) (header : ℕ) : Type 0 where
  pub signature : HasSignature mem header
  pub bits : (mem (header + 4) ≡ 0) ⊎ (mem (header + 4) ≡ 1)
  pub encoding : (mem (header + 5) ≡ 0) ⊎ (mem (header + 5) ≡ 1)
  pub has_headers : (header_at mem header).e_phoff ≢ 0

is_zero-pos : (z : ℤ) → is_zero z ≡ true → z ≡ pos 0
unfolding is_zero
is_zero-pos (pos n) e = ap pos (ground (arith, e))
is_zero-pos (negsuc n) e = absurd (ground (arith, e))

elf_valid_signature-HasSignature :
    (mem : Memory) (signature header : ℕ)
    → HasSignature mem signature
    → (elf_valid_signature mem signature header ≡ true) ↔ HasSignature mem header
unfolding elf_valid_signature is_zero
elf_valid_signature-HasSignature mem signature header kept = (
  λ e.
      let same =
        (memcmp-zero 4 mem header signature).0 (is_zero-pos (memcmp mem header signature 4) e) in
      record {
        first =
            sym (ap mem (add-zero header))
            ∙ same 0 (omega arith)
            ∙ ap mem (add-zero signature)
            ∙ kept.first;
        second = same 1 (omega arith) ∙ kept.second;
        third = same 2 (omega arith) ∙ kept.third;
        fourth = same 3 (omega arith) ∙ kept.fourth;
      },
  λ has. ap is_zero ((memcmp-zero 4 mem header signature).1 (bytes has)),
)
  where
    bytes : HasSignature mem header → (k : ℕ) → k < 4 → mem (header + k) ≡ mem (signature + k)
    bytes has zero lt =
        ap mem (add-zero header) ∙ has.first ∙ sym kept.first ∙ sym (ap mem (add-zero signature))
    bytes has (suc zero) lt = has.second ∙ sym kept.second
    bytes has (suc (suc zero)) lt = has.third ∙ sym kept.third
    bytes has (suc (suc (suc zero))) lt = has.fourth ∙ sym kept.fourth
    bytes has (suc (suc (suc (suc k)))) lt = absurd (omega (arith, lt))

if-ok : (b : Bool) (e : Status) → (if b then ok tt else err e) ≡ ok (tt {0}) → b ≡ true
if-ok true e same = refl
if-ok false e same = absurd (ground (arith, same))

and_both : (a b : Bool) → (a && b) ≡ true → (a ≡ true) × (b ≡ true)
and_both true b e = (refl, e)
and_both false b e = absurd (ground (arith, e))

one_of : (a b c : ℕ) → (a == b || a == c) ≡ true → (a ≡ b) ⊎ (a ≡ c)
one_of a b c e = ground (arith, e)

one_of_back : (a b c : ℕ) → (a ≡ b) ⊎ (a ≡ c) → (a == b || a == c) ≡ true
one_of_back a b c e = ground (arith, e)

-- Where elf_signature holds its four bytes, elf_validate_loaded accepts exactly the headers that
-- begin with these bytes, have a class and an encoding of 0 or 1, and have an offset of program
-- headers that is not 0.
pub elf_validate_loaded-IsElf :
    (mem : Memory) (signature header : ℕ)
    → HasSignature mem signature
    → (elf_validate_loaded mem signature header ≡ ok tt) ↔ IsElf mem header
unfolding elf_validate_loaded elf_valid_class elf_valid_encoding elf_has_program_header
elf_validate_loaded-IsElf mem signature header kept =
    let h = header_at mem header in
    (
      λ e.
          let (s, rest) =
            and_both (elf_valid_signature mem signature header) _ (if-ok _ Status.einformat e) in
          let (c, rest') = and_both (elf_valid_class h) _ rest in
          let (d, p) = and_both (elf_valid_encoding h) (elf_has_program_header h) rest' in
          record {
            signature = (elf_valid_signature-HasSignature mem signature header kept).0 s;
            bits = one_of (mem (header + 4)) 0 1 c;
            encoding = one_of (mem (header + 5)) 0 1 d;
            has_headers = λ z. ground (arith, p, z);
          },
      λ is.
          let s = (elf_valid_signature-HasSignature mem signature header kept).1 is.signature in
          let c = one_of_back (mem (header + 4)) 0 1 is.bits in
          let d = one_of_back (mem (header + 5)) 0 1 is.encoding in
          let p : (h.e_phoff == 0) ≡ false = ground (arith, is.has_headers) in rw (s, c, d, p) refl,
    )
