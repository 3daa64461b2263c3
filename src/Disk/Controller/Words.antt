-- ===== src/Disk/Controller/Words.antt =====
-- disk/disk.c: the loops of disk_read_sector that wait for a sector and read its words.
use liebe_os.Prelude.{
  ℕ, zero, suc, ◌+◌, ◌-◌, ◌*◌, ◌/◌, ◌%◌, ◌^◌, ◌≤◌, ◌<◌, ◌≡◌, ◌⊎◌, inl, inr, refl, some, arith,
  update, ap, ◌∙◌, sym,
}
use liebe_os.Memory.{Memory}
use liebe_os.Disk.Controller.{Ports, wait_ready, read_words, read_sectors}
use liebe_os.Disk.Controller.Ata.{IsAta, with_bytes}

zero_or_suc : (n : ℕ) → (n ≡ 0) ⊎ ((m : ℕ) × (n ≡ suc m))
zero_or_suc zero = inl refl
zero_or_suc (suc m) = inr (m, refl)

with_bytes-words :
    (content : ℕ → ℕ) (first first' b0 b1 ptr count : ℕ) (mem : Memory) (j : ℕ)
    → first' ≡ first + 2
    → b0 ≡ content first
    → b1 ≡ content (first + 1)
    → with_bytes content first' (ptr + 2) (2 * count) (update (update mem ptr b0) (ptr + 1) b1) j
      ≡ with_bytes content first ptr (2 * suc count) mem j
unfolding update
with_bytes-words content first first' b0 b1 ptr count mem j next_ zeroth one =
    let a : j ≡ ptr → content (first + (j - ptr)) ≡ b0 =
      λ e. ap content (omega arith) ∙ sym zeroth in
    let b : j ≡ ptr + 1 → content (first + (j - ptr)) ≡ b1 =
      λ e. ap content (omega arith) ∙ sym one in
    let c : ptr + 2 ≤ j → content (first + (j - ptr)) ≡ content (first' + (j - (ptr + 2))) =
      λ e. ap content (omega arith) in
    ground (arith, a, b, c)

with_bytes-append :
    (content : ℕ → ℕ) (first first1 first2 ptr size more : ℕ) (mem mem2 : Memory) (j : ℕ)
    → first1 ≡ first
    → first2 ≡ first + size
    → mem2 j ≡ with_bytes content first1 ptr size mem j
    → with_bytes content first2 (ptr + size) more mem2 j
      ≡ with_bytes content first ptr (size + more) mem j
with_bytes-append content first first1 first2 ptr size more mem mem2 j same next_ before =
    let a : ptr + size ≤ j → content (first2 + (j - (ptr + size))) ≡ content (first + (j - ptr)) =
      λ e. ap content (omega arith) in
    let b : content (first1 + (j - ptr)) ≡ content (first + (j - ptr)) = ap content (omega arith) in
    ground (arith, a, b, before)

module _ {S : Type 0} (ports : Ports S) {content : ℕ → ℕ} {polls : ℕ}
    (ata : IsAta ports content polls) where
  open ata use {register, next, left, busy}

  wait_ready_lem :
      (fuel : ℕ) (s : S)
      → busy s < fuel
      → 0 < left s
      → (s' : S) × (wait_ready ports fuel s ≡ some s')
        × (busy s' ≡ 0)
        × (next s' ≡ next s)
        × (left s' ≡ left s)
  unfolding wait_ready
  wait_ready_lem zero s lt some_ = absurd (omega arith)
  wait_ready_lem (suc fuel) s lt some_ =
      let (same, more) = ata.polled s in
      elim (zero_or_suc (busy s)) [
        | inl e ↦
            let (still, set_) = ata.ready s e some_ in
            ((ports.insb 0x1F7 s).1, rw set_ refl, still, same, more)
        | inr (n, e) ↦
            let (one, clear) = ata.waiting s n e in
            let (s', found, idle, at_, to_go) =
              wait_ready_lem fuel (ports.insb 0x1F7 s).1 (omega arith) (omega arith) in
            (s', rw clear found, idle, at_ ∙ same, to_go ∙ more)
      ]

  -- The words of one sector, or of its rest.
  read_words_lem :
      (count ptr : ℕ) (s : S) (mem : Memory)
      → count ≤ left s
      → (0 < count → busy s ≡ 0)
      → next s % 2 ^ 8 + count ≤ 2 ^ 8
      → (next (read_words ports count ptr s mem).0 ≡ next s + count)
        × (left (read_words ports count ptr s mem).0 + count ≡ left s)
        × ((j : ℕ)
            → (read_words ports count ptr s mem).1 j
              ≡ with_bytes content (2 * next s) ptr (2 * count) mem j)
  unfolding read_words
  read_words_lem zero ptr s mem room ready within = (omega arith, omega arith, λ j. ground arith)
  read_words_lem (suc count) ptr s mem room ready within =
      let (word, one, less, still) = ata.delivered s (ready (omega arith)) (omega arith) in
      let mem1 : Memory =
        update (update mem ptr ((ports.insw 0x1F0 s).0 % 2 ^ 8)) (ptr + 1)
          ((ports.insw 0x1F0 s).0 / 2 ^ 8 % 2 ^ 8) in
      let low : (ports.insw 0x1F0 s).0 % 2 ^ 8 ≡ content (2 * next s) =
        omega (arith, ata.bytes (2 * next s)) in
      let high : (ports.insw 0x1F0 s).0 / 2 ^ 8 % 2 ^ 8 ≡ content (2 * next s + 1) =
        omega (arith, ata.bytes (2 * next s), ata.bytes (2 * next s + 1)) in
      let (at_, to_go, reads) =
        read_words_lem count (ptr + 2) (ports.insw 0x1F0 s).1 mem1 (omega arith)
          (λ p. still (omega arith)) (omega arith) in
      (
        omega arith,
        omega arith,
        λ j.
            reads j
            ∙ with_bytes-words content (2 * next s) (2 * next (ports.insw 0x1F0 s).1)
                ((ports.insw 0x1F0 s).0 % 2 ^ 8) ((ports.insw 0x1F0 s).0 / 2 ^ 8 % 2 ^ 8) ptr count
                mem j (omega arith) low high,
      )

  -- The sectors, from the start of one on.
  pub read_sectors_lem :
      (total ptr sector : ℕ) (s : S) (mem : Memory)
      → next s ≡ sector * 2 ^ 8
      → left s ≡ total * 2 ^ 8
      → (s' : S) × (mem' : Memory) × (read_sectors ports (polls + 1) total ptr s mem
          ≡ some (s', mem'))
        × ((j : ℕ) → mem' j ≡ with_bytes content (sector * 512) ptr (total * 512) mem j)
  unfolding read_sectors
  read_sectors_lem zero ptr sector s mem at_ to_go = (s, mem, refl, λ j. ground arith)
  read_sectors_lem (suc total) ptr sector s mem at_ to_go =
      let (s1, found, idle, next1, left1) =
        wait_ready_lem (polls + 1) s (omega (arith, ata.prompt s)) (omega arith) in
      let (next2, left2, reads) =
        read_words_lem 256 ptr s1 mem (omega arith) (λ p. idle) (omega arith) in
      let s2 : S = (read_words ports 256 ptr s1 mem).0 in
      let mem2 : Memory = (read_words ports 256 ptr s1 mem).1 in
      let (s', mem', rest, all) =
        read_sectors_lem total (ptr + 512) (sector + 1) s2 mem2 (omega arith) (omega arith) in
      (
        s',
        mem',
        rw (found, read_sectors) rest,
        λ j.
            all j
            ∙ with_bytes-append content (sector * 512) (2 * next s1) ((sector + 1) * 512) ptr 512
                (total * 512) mem mem2 j (omega arith) (omega arith) (reads j)
            ∙ ap (λ n. with_bytes content (sector * 512) ptr n mem j) (omega arith),
      )
