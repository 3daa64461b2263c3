-- ===== src/Keyboard/Queue.antt =====
-- The key buffer of a process as a bounded queue of bytes.
use liebe_os.Prelude.{
  ℕ, zero, suc, ◌+◌, ◌-◌, ◌%◌, ◌^◌, ◌≤◌, ◌<◌, ◌≡◌, refl, ◌≢◌, some, List, [], ◌∷◌, ◌++◌, length,
  length-append, ◌==◌, if◌then◌else◌, update, update_self, update-ne, arith, inl, inr, Bool-cases,
  ◌∙◌, sym,
}
use liebe_os.Keyboard.{KeyBuffer, buffer_size, get_tail_index, push, pop, backspace}

-- The byte at an index, and 0 behind the end.
abbrev pub byte_at : List ℕ → ℕ → ℕ
byte_at [] k = 0
byte_at (c ∷ keys) zero = c
byte_at (c ∷ keys) (suc k) = byte_at keys k

abbrev pub NoneZero : List ℕ → Type 0
NoneZero [] = Unit {0}
NoneZero (c ∷ keys) = (c ≢ 0) × NoneZero keys

-- From the head on the buffer holds the keys that were pushed and not yet popped, and then zeros.
pub record Holds (kb : KeyBuffer) (keys : List ℕ) : Type 0 where
  pub low : kb.head < 2 ^ 32
  pub fits : length keys ≤ buffer_size
  pub tail_at : kb.tail ≡ (kb.head + length keys) % 2 ^ 32
  pub none_zero : NoneZero keys
  pub cells : (k : ℕ) → k < buffer_size → kb.buffer ((kb.head + k) % buffer_size) ≡ byte_at keys k

byte_at-beyond : (keys : List ℕ) (k : ℕ) → length keys ≤ k → byte_at keys k ≡ 0
byte_at-beyond [] k h = refl
byte_at-beyond (c ∷ keys) zero h = absurd (omega arith)
byte_at-beyond (c ∷ keys) (suc k) h = byte_at-beyond keys k (omega arith)

byte_at-snoc :
    (keys : List ℕ) (c k : ℕ)
    → byte_at (keys ++ c ∷ []) k ≡ (if k == length keys then c else byte_at keys k)
byte_at-snoc [] c zero = refl
byte_at-snoc [] c (suc k) = ground arith
byte_at-snoc (x ∷ keys) c zero = ground arith
byte_at-snoc (x ∷ keys) c (suc k) = byte_at-snoc keys c k ∙ ground arith

NoneZero-snoc : (keys : List ℕ) (c : ℕ) → c ≢ 0 → NoneZero keys → NoneZero (keys ++ c ∷ [])
NoneZero-snoc [] c ne h = (ne, tt)
NoneZero-snoc (x ∷ keys) c ne h = (h.0, NoneZero-snoc keys c ne h.1)

-- keyboard_push appends a byte that is not NUL to the queue of keys, where the buffer has room.
pub push-Holds :
    (kb : KeyBuffer) (keys : List ℕ) (c : ℕ)
    → Holds kb keys
    → c ≢ 0
    → length keys < buffer_size
    → (kb' : KeyBuffer) × (push (some kb) c ≡ some kb') × Holds kb' (keys ++ c ∷ [])
unfolding push
push-Holds kb keys c h ne room = (
  record kb { buffer = update kb.buffer (get_tail_index kb) c; tail = (kb.tail + 1) % 2 ^ 32 },
  ground arith,
  record {
    low = h.low;
    fits = omega (arith, length-append keys (c ∷ []), h.fits);
    tail_at = omega (arith, length-append keys (c ∷ []), h.tail_at);
    none_zero = NoneZero-snoc keys c ne h.none_zero;
    cells = λ k lt. cell k lt;
  },
)
  where
    index : get_tail_index kb ≡ (kb.head + length keys) % buffer_size
    index = unfold get_tail_index in omega (arith, h.tail_at)

    cell :
        (k : ℕ)
        → k < buffer_size
        → update kb.buffer (get_tail_index kb) c ((kb.head + k) % buffer_size)
          ≡ byte_at (keys ++ c ∷ []) k
    cell k lt = elim (Bool-cases (k == length keys)) [
      | inl same ↦
          let e : (kb.head + k) % buffer_size ≡ get_tail_index kb = ground (arith, index) in
          rw (e, update_self kb.buffer (get_tail_index kb) c, byte_at-snoc keys c k, same)
      | inr other ↦
          let ne' : (kb.head + k) % buffer_size ≢ get_tail_index kb = ground (arith, index) in
          rw
            (
              update-ne kb.buffer (get_tail_index kb) c ((kb.head + k) % buffer_size) ne',
              byte_at-snoc keys c k,
              other,
            )
            (h.cells k lt)
    ]

-- keyboard_pop takes the oldest key of the queue.
pub pop-Holds :
    (kb : KeyBuffer) (c : ℕ) (keys : List ℕ)
    → Holds kb (c ∷ keys)
    → (kb' : KeyBuffer) × (pop (some kb) ≡ (c, some kb')) × Holds kb' keys
unfolding pop
pop-Holds kb c keys h = (
  record kb { buffer = update kb.buffer index 0; head = (kb.head + 1) % 2 ^ 32 },
  rw (first) (ground (arith, h.none_zero)),
  record {
    low = omega arith;
    fits = omega (arith, h.fits);
    tail_at = omega (arith, h.tail_at);
    none_zero = h.none_zero.1;
    cells = λ k lt. cell k lt;
  },
)
  where
    index : ℕ
    index = kb.head % 2 ^ 32 % buffer_size

    first : kb.buffer (kb.head % 2 ^ 32 % buffer_size) ≡ c
    first =
        let e : kb.head % 2 ^ 32 % buffer_size ≡ (kb.head + 0) % buffer_size =
          omega (arith, h.low) in
        rw e (h.cells 0 (omega arith))

    cell :
        (k : ℕ)
        → k < buffer_size
        → update kb.buffer index 0 (((kb.head + 1) % 2 ^ 32 + k) % buffer_size) ≡ byte_at keys k
    cell k lt = elim (Bool-cases (k == 1023)) [
      | inl last ↦
          let e : ((kb.head + 1) % 2 ^ 32 + k) % buffer_size ≡ index = ground (arith, h.low) in
          rw e
            (update_self kb.buffer index 0 ∙ sym (byte_at-beyond keys k (ground (arith, h.fits))))
      | inr more ↦
          let e : ((kb.head + 1) % 2 ^ 32 + k) % buffer_size ≡ (kb.head + suc k) % buffer_size =
            omega arith in
          let ne : (kb.head + suc k) % buffer_size ≢ index = ground (arith, h.low) in
          rw e (
            update-ne kb.buffer index 0 ((kb.head + suc k) % buffer_size) ne
            ∙ h.cells (suc k) (ground arith))
    ]

-- On an empty buffer keyboard_pop returns 0 and changes nothing.
pub pop-empty : (kb : KeyBuffer) → Holds kb [] → pop (some kb) ≡ (0, some kb)
unfolding pop
pop-empty kb h =
    let e : kb.head % 2 ^ 32 % buffer_size ≡ (kb.head + 0) % buffer_size = omega (arith, h.low) in
    let z : kb.buffer (kb.head % 2 ^ 32 % buffer_size) ≡ 0 = rw e (h.cells 0 (omega arith)) in
    ground (arith, z)

-- keyboard_backspace takes back the key that was pushed last.
pub backspace-Holds :
    (kb : KeyBuffer) (keys : List ℕ) (c : ℕ) → Holds kb (keys ++ c ∷ []) → Holds (backspace kb) keys
unfolding backspace
backspace-Holds kb keys c h = record {
  low = h.low;
  fits = omega (arith, length-append keys (c ∷ []), h.fits);
  tail_at = tail_of;
  none_zero = init keys h.none_zero;
  cells = λ k lt. cell k lt;
}
  where
    moved : KeyBuffer
    moved = record kb { tail = (kb.tail + 2 ^ 32 - 1) % 2 ^ 32 }

    tail_of : (kb.tail + 2 ^ 32 - 1) % 2 ^ 32 ≡ (kb.head + length keys) % 2 ^ 32
    tail_of = omega (arith, h.low, h.tail_at, length-append keys (c ∷ []))

    init : (xs : List ℕ) → NoneZero (xs ++ c ∷ []) → NoneZero xs
    init [] n = tt
    init (x ∷ xs) n = (n.0, init xs n.1)

    index : get_tail_index moved ≡ (kb.head + length keys) % buffer_size
    index = unfold get_tail_index in omega (arith, tail_of)

    cell :
        (k : ℕ)
        → k < buffer_size
        → update kb.buffer (get_tail_index moved) 0 ((kb.head + k) % buffer_size) ≡ byte_at keys k
    cell k lt = elim (Bool-cases (k == length keys)) [
      | inl same ↦
          let e : (kb.head + k) % buffer_size ≡ get_tail_index moved = ground (arith, index) in
          rw (e, update_self kb.buffer (get_tail_index moved) 0)
            (sym (byte_at-beyond keys k (ground arith)))
      | inr other ↦
          let ne : (kb.head + k) % buffer_size ≢ get_tail_index moved =
            ground (arith, index, length-append keys (c ∷ []), h.fits) in
          rw (update-ne kb.buffer (get_tail_index moved) 0 ((kb.head + k) % buffer_size) ne)
            (h.cells k lt ∙ byte_at-snoc keys c k ∙ rw other)
    ]

-- keyboard_backspace on an empty buffer moves the tail before the head: a key that is pushed next
-- is not what keyboard_pop then finds, which finds nothing.
pub backspace-empty :
    (kb : KeyBuffer) (c : ℕ)
    → Holds kb []
    → c ≢ 0
    → (kb' : KeyBuffer) × (push (some (backspace kb)) c ≡ some kb')
      × (pop (some kb') ≡ (0, some kb'))
unfolding push pop backspace
backspace-empty kb c h ne = (
  record (backspace kb) {
    buffer = update (backspace kb).buffer (get_tail_index (backspace kb)) c;
    tail = ((backspace kb).tail + 1) % 2 ^ 32;
  },
  ground arith,
  rw still (refl),
)
  where
    index : ℕ
    index = kb.head % 2 ^ 32 % buffer_size

    zero_cell : kb.buffer index ≡ 0
    zero_cell =
        let e : index ≡ (kb.head + 0) % buffer_size = omega (arith, h.low) in
        rw e (h.cells 0 (omega arith))

    behind : get_tail_index (backspace kb) ≢ index
    behind = unfold backspace get_tail_index in omega (arith, h.low, h.tail_at)

    still : update (backspace kb).buffer (get_tail_index (backspace kb)) c index ≡ 0
    still =
        update-ne (backspace kb).buffer (get_tail_index (backspace kb)) c index
          (λ e. behind (sym e))
        ∙ unfold backspace in
          update-ne kb.buffer (get_tail_index (backspace kb)) 0 index (λ e. behind (sym e))
          ∙ zero_cell
