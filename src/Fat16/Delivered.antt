-- ===== src/Fat16/Delivered.antt =====
-- The buffer that a read of a chain of clusters fills, cluster by cluster.
use liebe_os.Prelude.{
  ℕ, zero, suc, ◌+◌, ◌-◌, ◌*◌, ◌/◌, ◌%◌, ◌≤◌, ◌<◌, ◌≡◌, refl, true, ltb, if◌then◌else◌, arith, inl,
  inr, Bool-cases, ◌∙◌, sym,
}
use liebe_os.Disk.{Sector, default_disk_id}
use liebe_os.Disk.Reads.{disk_byte, filled}
use liebe_os.Fat16.{Private, from, placed}
use liebe_os.Fat16.Chain.{SameFat, IsReady}
use native.Mathlib.Nat.{div-eq-sub-div, mod-eq-sub-mod, mod-eq_of_lt, div-eq_of_lt}

-- The buffer after a read of `total` bytes from the start of the cluster `n` of a chain, whose
-- clusters have `size` bytes, given by their numbers in the chain.
abbrev pub delivered : (byte : ℕ → ℕ → ℕ) → (size n total out : ℕ) → (ℕ → ℕ) → ℕ → ℕ
delivered byte size n total out target j =
    if ltb j out
    then target j
    else if ltb j (out + total)
    then byte (n + (j - out) / size) ((j - out) % size)
    else target j

pub delivered-last :
    (byte : ℕ → ℕ → ℕ) (size n total out : ℕ) (target : ℕ → ℕ) (j : ℕ)
    → total ≤ size
    → (if ltb j out then target j else if ltb j (out + total) then byte n (j - out) else target j)
      ≡ delivered byte size n total out target j
delivered-last byte size n total out target j h = elim (Bool-cases (ltb j out)) [
  | inl before ↦ rw before
  | inr after ↦ elim (Bool-cases (ltb j (out + total))) [
    | inr behind ↦ rw (after, behind)
    | inl inside ↦
        let lt : j - out < size = ground arith in
        let q : n + (j - out) / size ≡ n = omega (arith, div-eq_of_lt lt) in
        rw (after, inside, q, mod-eq_of_lt lt)
  ]
]

pub delivered-more :
    (byte : ℕ → ℕ → ℕ) (size n total out : ℕ) (target : ℕ → ℕ) (j : ℕ)
    → 0 < size
    → size < total
    → (t : ℕ → ℕ)
    → t j
      ≡ (if ltb j out then target j else if ltb j (out + size) then byte n (j - out) else target j)
    → delivered byte size (n + 1) (total - size) (out + size) t j
      ≡ delivered byte size n total out target j
delivered-more byte size n total out target j pos h t e = elim (Bool-cases (ltb j out)) [
  | inl before ↦ let b : ltb j (out + size) ≡ true = ground arith in rw (b, before) (e ∙ rw before)
  | inr after ↦ elim (Bool-cases (ltb j (out + size))) [
    | inl first ↦
        let lt : j - out < size = ground arith in
        let inside : ltb j (out + total) ≡ true = ground arith in
        let q : n + (j - out) / size ≡ n = omega (arith, div-eq_of_lt lt) in
        rw (first, after, inside, q, mod-eq_of_lt lt) (e ∙ rw (after, first))
    | inr later ↦
        let le : size ≤ j - out = ground arith in
        let back : j - (out + size) ≡ j - out - size = omega arith in
        let q : n + 1 + (j - out - size) / size ≡ n + (j - out) / size =
          omega (arith, div-eq-sub-div pos le) in
        let r : (j - out - size) % size ≡ (j - out) % size = sym (mod-eq-sub-mod le) in
        let end : out + size + (total - size) ≡ out + total = omega arith in
        rw (later, after, end, back, q, r)
          (elim (Bool-cases (ltb j (out + total))) [
            | inl inside ↦ rw inside
            | inr behind ↦ rw behind (e ∙ rw (after, later))
          ])
  ]
]

pub multiple_div : (q size : ℕ) → 0 < size → q * size / size ≡ q
multiple_div zero size h = omega arith
multiple_div (suc q) size h =
    let e : suc q * size ≡ q * size + size = omega arith in
    let s : q * size + size - size ≡ q * size = omega arith in
    rw e (div-eq-sub-div h (omega arith) ∙ rw (s, multiple_div q size h) (omega arith))

pub multiple_mod : (q size : ℕ) → 0 < size → q * size % size ≡ 0
multiple_mod zero size h = omega arith
multiple_mod (suc q) size h =
    let e : suc q * size ≡ q * size + size = omega arith in
    let s : q * size + size - size ≡ q * size = omega arith in
    rw e (mod-eq-sub-mod (omega arith) ∙ rw s (multiple_mod q size h))

pub below_count : (n size total count : ℕ) → n * size + total ≤ count * size → 0 < total → n < count
below_count n size total count fits some_ = grind arith

pub room :
    (n size total count : ℕ)
    → size < total
    → n * size + total ≤ count * size
    → (n + 1) * size + (total - size) ≤ count * size
room n size total count h fits = omega arith

pub same_next :
    (private now first : Private) (p : ℕ)
    → IsReady now
    → SameFat private now
    → SameFat now first
    → SameFat private
        (record first { cluster_read_stream = record { pos = p; disk = default_disk_id } })
same_next private now first p ready since same = record {
  header = same.header ∙ since.header;
  ending = same.ending ∙ since.ending;
  clusters = sym ready.clusters ∙ since.clusters;
  fat = same.fat ∙ since.fat;
  directory = same.directory ∙ since.directory;
}

pub IsReady-next :
    (now first : Private) (p : ℕ)
    → IsReady now
    → SameFat now first
    → IsReady (record first { cluster_read_stream = record { pos = p; disk = default_disk_id } })
IsReady-next now first p ready same = record { clusters = refl; fat = same.fat ∙ ready.fat }

-- One round: the part of a cluster at `out`, and the rest behind it.
pub placed-filled :
    (sectors : ℕ → Sector) (target : ℕ → ℕ) (p n out j : ℕ)
    → placed target out (filled (from target out) (disk_byte sectors) 0 p n) j ≡ (
        if ltb j out
        then target j
        else if ltb j (out + n)
        then disk_byte sectors (p + (j - out))
        else target j)
placed-filled sectors target p n out j = elim (Bool-cases (ltb j out)) [
  | inl before ↦ rw before
  | inr after ↦
      let back : out + (j - out) ≡ j = ground arith in
      let zero' : j - out - 0 ≡ j - out = omega arith in rw (after, back, zero') (ground arith)
]
