-- ===== src/Memory/Blocks.antt =====
-- What memset and memcpy write, and when memcmp finds two blocks equal.
use liebe_os.Prelude.{
  ℕ, zero, suc, ◌+◌, ◌-◌, ◌%◌, ◌≤◌, ◌<◌, ◌≡◌, refl, ◌⊎◌, inl, inr, arith, ltb, ◌==◌, if◌then◌else◌,
  update, Bool-cases, ap, pos, negsuc,
}
use liebe_os.Memory.{Memory, memset_loop, memset, char_lt, memcmp, memcpy}
use mathlib.Core.Logic.{◌↔◌}

memset_loop_lem :
    (left i ptr c : ℕ) (mem : Memory) (j : ℕ)
    → memset_loop left i ptr c mem j
      ≡ (if ltb j (ptr + i) then mem j else if ltb j (ptr + i + left) then c % 256 else mem j)
unfolding memset_loop update
memset_loop_lem zero i ptr c mem j = ground arith
memset_loop_lem (suc left) i ptr c mem j =
    ground (arith, memset_loop_lem left (i + 1) ptr c (update mem (ptr + i) (c % 256)) j)

-- memset writes the low byte of its value to the `size` bytes from the pointer on, and to no other.
pub memset_lem :
    (mem : Memory) (ptr c size j : ℕ)
    → memset mem ptr c size j
      ≡ (if ltb j ptr then mem j else if ltb j (ptr + size) then c % 256 else mem j)
unfolding memset
memset_lem mem ptr c size j = ground (arith, memset_loop_lem size 0 ptr c mem j)

-- One round of the loop: `r` is what the later rounds leave at `j`.
memcpy_step :
    (len : ℕ) (mem : Memory) (dest src j r : ℕ)
    → (dest ≤ src) ⊎ (src + suc len ≤ dest)
    → r ≡ (
        if ltb j (dest + 1)
        then update mem dest (mem src) j
        else if ltb j (dest + 1 + len)
        then update mem dest (mem src) (src + 1 + (j - (dest + 1)))
        else update mem dest (mem src) j)
    → r ≡ (
        if ltb j dest
        then mem j
        else if ltb j (dest + suc len)
        then mem (src + (j - dest))
        else mem j)
unfolding update
memcpy_step len mem dest src j r apart e = elim (Bool-cases (ltb dest j)) [
  | inl after ↦
      let index : src + 1 + (j - (dest + 1)) ≡ src + (j - dest) = ground arith in
      ground (arith, ap mem index)
  | inr upto ↦
      let index : j ≡ dest → src + (j - dest) ≡ src = λ q. omega arith in
      ground (arith, λ (q : j ≡ dest). ap mem (index q))
]

-- Where the target does not begin inside the source behind its start, memcpy puts into each byte of
-- the target the byte that the source held before, and changes no other byte.
pub memcpy_lem :
    (len : ℕ) (mem : Memory) (dest src j : ℕ)
    → (dest ≤ src) ⊎ (src + len ≤ dest)
    → memcpy mem dest src len j
      ≡ (if ltb j dest then mem j else if ltb j (dest + len) then mem (src + (j - dest)) else mem j)
unfolding memcpy
memcpy_lem zero mem dest src j apart = ground arith
memcpy_lem (suc len) mem dest src j apart =
    memcpy_step len mem dest src j _ apart
      (memcpy_lem len (update mem dest (mem src)) (dest + 1) (src + 1) j (narrow apart))
  where
    narrow :
        (dest ≤ src) ⊎ (src + suc len ≤ dest) → (dest + 1 ≤ src + 1) ⊎ (src + 1 + len ≤ dest + 1)
    narrow (inl h) = inl (omega arith)
    narrow (inr h) = inr (omega arith)

-- memcmp returns 0 exactly when the two blocks hold the same bytes.
pub memcmp-zero :
    (count : ℕ) (mem : Memory) (s1 s2 : ℕ)
    → (memcmp mem s1 s2 count ≡ pos 0) ↔ ((k : ℕ) → k < count → mem (s1 + k) ≡ mem (s2 + k))
unfolding memcmp
memcmp-zero zero mem s1 s2 = (λ e k lt. absurd (omega arith), λ h. refl)
memcmp-zero (suc count) mem s1 s2 =
    let ih = memcmp-zero count mem (s1 + 1) (s2 + 1) in
    elim (Bool-cases (mem s1 == mem s2)) [
      | inl same ↦ rw same (
        λ e k lt. first_step k lt (ground arith) (ih.0 e),
        λ h. ih.1 (λ k lt. rw (shift s1 k, shift s2 k) (h (suc k) (omega arith))),
      )
      | inr other ↦
          rw other (λ e. absurd (differ e), λ h. absurd (ground (arith, h 0 (omega arith))))
    ]
  where
    shift : (s k : ℕ) → s + 1 + k ≡ s + suc k
    shift s k = omega arith

    first_step :
        (k : ℕ)
        → k < suc count
        → mem s1 ≡ mem s2
        → ((k : ℕ) → k < count → mem (s1 + 1 + k) ≡ mem (s2 + 1 + k))
        → mem (s1 + k) ≡ mem (s2 + k)
    first_step zero lt e h = ground arith
    first_step (suc k) lt e h = rw (← shift s1 k, ← shift s2 k) (h k (omega arith))

    differ : (if char_lt (mem s1) (mem s2) then negsuc 0 else pos 1) ≡ pos 0 → ⊥
    differ e = ground arith
