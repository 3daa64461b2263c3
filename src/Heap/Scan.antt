-- ===== src/Heap/Scan.antt =====
-- What `heap_get_start_block` finds: the first run of free blocks that is long enough, or, where no
-- run is, the free blocks that end the table.
use liebe_os.Prelude.{
  ℕ, zero, suc, ◌+◌, ◌≤◌, ◌<◌, ◌≡◌, refl, true, false, Option, none, some, ◌⊎◌, inl, inr, arith,
  ◌==◌, Bool-cases, Option-cases, Result, ok, err, Status,
}
use liebe_os.Heap.{Heap, is_taken, scan, get_start_block}

-- The entries `a ≤ j < b` are free.
abbrev pub IsFree : (ℕ → ℕ) → ℕ → ℕ → Type 0
IsFree entries a b = (j : ℕ) → a ≤ j → j < b → is_taken (entries j) ≡ false

-- A taken entry of the table stands among the `need` entries from `t` on.
abbrev pub Blocked : (ℕ → ℕ) → (need total t : ℕ) → Type 0
Blocked entries need total t =
    (j : ℕ) × (t ≤ j) × (j < t + need) × (j < total) × (is_taken (entries j) ≡ true)

-- The loop's state at index `i`: `count` free entries end at `i`, `start` is the first of them, and
-- no window that begins before them is free.
abbrev State : (ℕ → ℕ) → (need total i count : ℕ) → Option ℕ → Type 0
State entries need total i count none =
    (count ≡ 0) × ((t : ℕ) → t < i → Blocked entries need total t)
State entries need total i count (some s) =
    (s + count ≡ i)
    × (count < need)
    × (0 < count)
    × IsFree entries s i
    × ((t : ℕ) → t < s → Blocked entries need total t)

-- What the loop leaves in `block_start`: no window before it is free, and it begins a free run of
-- `need` blocks, or the free blocks at the table's end, which are fewer.
abbrev pub Found : (ℕ → ℕ) → (need total : ℕ) → Option ℕ → Type 0
Found entries need total none = (t : ℕ) → t < total → Blocked entries need total t
Found entries need total (some s) =
    (s < total)
    × ((t : ℕ) → t < s → Blocked entries need total t)
    × ((s + need ≤ total) × IsFree entries s (s + need)
        ⊎ (total < s + need) × IsFree entries s total)

module _ (entries : ℕ → ℕ) (need : ℕ) (positive : 0 < need) where
  IsFree-snoc :
      (a b c : ℕ)
      → IsFree entries a b
      → is_taken (entries b) ≡ false
      → c ≡ b + 1
      → IsFree entries a c
  IsFree-snoc a b c h e q j lo hi = elim (Bool-cases (j == b)) [
    | inl same ↦ ground arith
    | inr other ↦ h j lo (ground arith)
  ]

  -- A taken entry at `i` blocks the windows of a run that is too short.
  Blocked-step :
      (total base i : ℕ)
      → i < total
      → i < base + need
      → ((t : ℕ) → t < base → Blocked entries need total t)
      → is_taken (entries i) ≡ true
      → (t : ℕ) → t < i + 1
      → Blocked entries need total t
  Blocked-step total base i inside short old taken t lt =
      elim (Bool-cases (liebe_os.Prelude.ltb t base)) [
        | inl before ↦ old t (ground arith)
        | inr after ↦ (i, omega arith, ground arith, inside, taken)
      ]

  scan-Found :
      (left i count : ℕ) (start : Option ℕ) (total : ℕ)
      → i + left ≡ total
      → State entries need total i count start
      → Found entries need total (scan entries need left i count start)
  unfolding scan
  scan-Found zero i count none total e st = λ t lt. st.1 t (omega arith)
  scan-Found zero i count (some s) total e st =
      (omega arith, st.4, inr (omega arith, λ j lo hi. st.3 j lo (omega arith)))
  scan-Found (suc left) i count none total e st = elim (Bool-cases (is_taken (entries i))) [
    | inl taken ↦
        rw (taken, Found)
          (scan-Found left (i + 1) 0 none total (omega arith)
            (refl, Blocked-step total i i (omega arith) (omega arith) st.1 taken))
    | inr open_ ↦
        rw (open_, Found)
          (elim (Bool-cases (count + 1 == need)) [
            | inl enough ↦
                rw (enough, Found)
                  (
                    omega arith,
                    st.1,
                    inl (
                      ground arith,
                      IsFree-snoc i i (i + need) (λ j lo hi. absurd (omega arith)) open_
                          (ground arith),
                    ),
                  )
            | inr more ↦
                rw (more, Found)
                  (scan-Found left (i + 1) (count + 1) (some i) total (omega arith) (
                    ground arith,
                    ground arith,
                    omega arith,
                    IsFree-snoc i i (i + 1) (λ j lo hi. absurd (omega arith)) open_ refl,
                    st.1,
                  ))
          ])
  ]
  scan-Found (suc left) i count (some s) total e st = elim (Bool-cases (is_taken (entries i))) [
    | inl taken ↦
        rw (taken, Found)
          (scan-Found left (i + 1) 0 none total (omega arith)
            (refl, Blocked-step total s i (omega arith) (omega arith) st.4 taken))
    | inr open_ ↦
        rw (open_, Found)
          (elim (Bool-cases (count + 1 == need)) [
            | inl enough ↦
                rw (enough, Found)
                  (
                    omega arith,
                    st.4,
                    inl (ground arith, IsFree-snoc s i (s + need) st.3 open_ (ground arith)),
                  )
            | inr more ↦
                rw (more, Found)
                  (scan-Found left (i + 1) (count + 1) (some s) total (omega arith) (
                    omega arith,
                    ground arith,
                    omega arith,
                    IsFree-snoc s i (i + 1) st.3 open_ refl,
                    st.4,
                  ))
          ])
  ]

-- What `heap_get_start_block` returns for `need` blocks.
abbrev pub Located : Heap → ℕ → Result ℕ → Type 0
Located heap need (ok s) = Found heap.entries need heap.total (some s)
Located heap need (err e) = (e ≡ Status.enomem) × Found heap.entries need heap.total none

-- For a positive number of blocks, heap_get_start_block returns -ENOMEM only if every window of
-- that many blocks holds a taken one; a block that it returns lies in the table, no window before
-- it is free, and it begins a free run of that many blocks or the shorter free run that ends the
-- table.
pub get_start_block-Located :
    (heap : Heap) (need : ℕ) → 0 < need → Located heap need (get_start_block heap need)
unfolding get_start_block
get_start_block-Located heap need positive =
    let found : Found heap.entries need heap.total (scan heap.entries need heap.total 0 0 none) =
      scan-Found heap.entries need positive heap.total 0 0 none heap.total (omega arith)
        (refl, λ t lt. absurd (omega arith)) in
    elim (Option-cases (scan heap.entries need heap.total 0 0 none)) [
      | inl e ↦ rw (e, Located) (refl, rw e at found)
      | inr (s, e) ↦ rw (e, Located) (rw e at found)
    ]
