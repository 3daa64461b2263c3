-- ===== src/Heap/Lent.antt =====
-- Blocks that are taken one by one, and freed in another order.
use liebe_os.Prelude.{
  ℕ, zero, suc, ◌+◌, ◌-◌, ◌*◌, ◌/◌, ◌%◌, ◌^◌, ◌≤◌, ◌<◌, ◌≡◌, ◌≢◌, refl, true, false, List, [], ◌∷◌,
  ◌++◌, some, ltb, update, arith, fun_ext, ap, subst, sym, lt→ltb,
}
use liebe_os.Heap.{Heap, block_size, has_next, free, mark_blocks_free, mark_free_loop}

-- The heap with an entry written.
abbrev pub with_entry : Heap → (k v : ℕ) → Heap
with_entry heap k v = record heap { entries = update heap.entries k v }

-- Freeing the blocks of a list, in its order, leads from `heap` to `before`.
abbrev pub Lent : (before heap : Heap) → List ℕ → Type 0
Lent before heap [] = heap ≡ before
Lent before heap (k ∷ ks) =
    (heap.entries k ≡ 129) × (k < heap.total) × Lent before (with_entry heap k 0) ks

update_apart :
    (e : ℕ → ℕ) (k s v w : ℕ) → k ≢ s → update (update e s v) k w ≡ update (update e k w) s v
unfolding update
update_apart e k s v w ne = fun_ext λ j. ground arith

update_back : (e : ℕ → ℕ) (s v : ℕ) → e s ≡ 0 → update (update e s v) s 0 ≡ e
unfolding update
update_back e s v z = fun_ext λ j. ground (arith, ap e)

-- A free block may be taken for any place in the list.
pub Lent-insert :
    (ks ls : List ℕ) (before heap : Heap) (s : ℕ)
    → Lent before heap (ks ++ ls)
    → heap.entries s ≡ 0
    → s < heap.total
    → Lent before (with_entry heap s 129) (ks ++ s ∷ ls)
unfolding update
Lent-insert [] ls before heap s lent z lt = (
  ground arith,
  lt,
  subst (λ e. Lent before (record heap { entries = e }) ls) (sym (update_back heap.entries s 129 z))
      lent,
)
Lent-insert (k ∷ ks) ls before heap s (taken, inside, lent) z lt =
    let ne : k ≢ s = λ e. absurd (omega (arith, rw e at taken)) in
    (
      ground (arith, ne),
      inside,
      subst (λ e. Lent before (record heap { entries = e }) (ks ++ s ∷ ls))
          (sym (update_apart heap.entries k s 129 0 ne))
          (Lent-insert ks ls before (with_entry heap k 0) s lent (ground (arith, ne)) lt),
    )

-- The addresses of the pool do not wrap.
abbrev pub IsSpace : Heap → Type 0
IsSpace heap = (heap.saddr + heap.total * block_size ≤ 2 ^ 32) × (heap.total * block_size ≤ 2 ^ 31)

one_round : (left k : ℕ) (e : ℕ → ℕ) → 0 < left → e k ≡ 129 → mark_free_loop left k e ≡ update e k 0
unfolding mark_free_loop has_next
one_round zero k e pos taken = absurd (omega arith)
one_round (suc left) k e pos taken =
    let last : has_next (e k) ≡ false = rw taken refl in rw last refl

-- Freeing a block that was taken alone.
pub free-one :
    (heap : Heap) (k : ℕ)
    → IsSpace heap
    → k < heap.total
    → heap.entries k ≡ 129
    → free heap (heap.saddr + k * block_size) ≡ some (with_entry heap k 0)
unfolding free mark_blocks_free
free-one heap k (fits, small) lt taken =
    let d : (heap.saddr + k * block_size + 2 ^ 32 - heap.saddr) % 2 ^ 32 ≡ k * block_size =
      omega arith in
    let low : ltb (k * block_size) (2 ^ 31) ≡ true = lt→ltb _ _ (omega arith) in
    let q : k * block_size / block_size ≡ k = omega arith in
    rw (d, low, q)
      (ap (λ e. some (record heap { entries = e }))
        (one_round (heap.total - k) k heap.entries (omega arith) taken))
