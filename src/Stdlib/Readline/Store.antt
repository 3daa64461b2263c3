-- ===== src/Stdlib/Readline/Store.antt =====
-- programs/stdlib/src/liebeos.c: a key changes the buffer as it changes the line.
use liebe_os.Prelude.{
  ℕ, ◌+◌, ◌-◌, ◌≤◌, ◌<◌, ◌≡◌, inl, inr, refl, true, false, List, [], ◌∷◌, leb, ◌==◌, update,
  update_self, update-ne, length, arith, Bool-cases, sym, subst, ◌&&◌,
}
use liebe_os.Text.{Text}
use liebe_os.Stdlib.Readline.{Line, store_key}
use liebe_os.Stdlib.Readline.Edit.{press, Holds}

pub Holds-update :
    (out : Text) (k v : ℕ) (typed : List ℕ)
    → length typed ≤ k
    → Holds out typed
    → Holds (update out k v) typed
unfolding update
Holds-update out k v [] le holds = tt
Holds-update out k v (c ∷ typed) le (last, holds) =
    (ground arith, Holds-update out k v typed (omega arith) holds)

-- What a key leaves, where the characters `typed` are the line's.
abbrev pub Typed : (line line' : Line) → (max : ℕ) → List ℕ → Type 0
Typed line line' max typed =
    (line'.i ≡ length typed)
    × Holds line'.out typed
    × (line'.keys ≡ line.keys)
    × ((j : ℕ) → max ≤ j → line'.out j ≡ line.out j)

store_key-put :
    (key max : ℕ) (line : Line) (typed : List ℕ)
    → (key == 0x08 && leb 1 line.i) ≡ false
    → line.i ≡ length typed
    → line.i < max
    → Holds line.out typed
    → Typed line (store_key key line) max (key ∷ typed)
unfolding store_key
store_key-put key max line typed put at_ lt holds =
    let stored : store_key key line
        ≡ record line { out = update line.out line.i key; i = line.i + 1 } =
      rw put in
    subst (λ line'. Typed line line' max (key ∷ typed)) (sym stored)
      (
        omega arith,
        (
          rw (← at_) (update_self line.out line.i key),
          Holds-update line.out line.i key typed (omega arith) holds,
        ),
        refl,
        λ j le. update-ne line.out line.i key j (omega arith),
      )

store_key-take :
    (key max c : ℕ) (line : Line) (typed : List ℕ)
    → (key == 0x08) ≡ true
    → line.i ≡ length (c ∷ typed)
    → line.i < max
    → Holds line.out typed
    → Typed line (store_key key line) max typed
unfolding store_key
store_key-take key max c line typed back at_ lt holds =
    let take : (key == 0x08 && leb 1 line.i) ≡ true = ground arith in
    let stored : store_key key line
        ≡ record line { out = update line.out (line.i - 1) 0x00; i = line.i - 1 } =
      rw take in
    subst (λ line'. Typed line line' max typed) (sym stored)
      (
        omega arith,
        Holds-update line.out (line.i - 1) 0x00 typed (omega arith) holds,
        refl,
        λ j le. update-ne line.out (line.i - 1) 0x00 j (omega arith),
      )

-- A key changes the buffer as it changes the line.
pub store_key-press :
    (key max : ℕ) (line : Line) (typed : List ℕ)
    → line.i ≡ length typed
    → line.i < max
    → Holds line.out typed
    → Typed line (store_key key line) max (press key typed)
store_key-press key max line [] at_ lt holds =
    store_key-put key max line [] (ground arith) at_ lt holds
store_key-press key max line (c ∷ typed) at_ lt (last, holds) = elim (Bool-cases (key == 0x08)) [
  | inl back ↦ rw back (store_key-take key max c line typed back at_ lt holds)
  | inr other ↦
      rw other (store_key-put key max line (c ∷ typed) (ground arith) at_ lt (last, holds))
]
