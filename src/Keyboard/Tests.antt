-- ===== src/Keyboard/Tests.antt =====
-- A buffer with one key, just before its end.
use liebe_os.Prelude.{
  ℕ, zero, suc, ◌+◌, ◌%◌, ◌<◌, ◌≡◌, refl, arith, some, [], ◌∷◌, ◌++◌, ◌==◌, if◌then◌else◌,
}
use liebe_os.Keyboard.{KeyBuffer, push, pop}
use liebe_os.Keyboard.Queue.{Holds, byte_at, push-Holds, pop-Holds}

abbrev one : KeyBuffer
one = record { buffer = λ j. if j == 1023 then b'a' else 0; head = 1023; tail = 1024 }

one-Holds : Holds one (b'a' ∷ [])
one-Holds = record {
  low = omega arith;
  fits = omega arith;
  tail_at = refl;
  none_zero = (λ e. omega arith, tt);
  cells = λ k lt. cell k lt;
}
  where
    cell : (k : ℕ) → k < 1024 → one.buffer ((1023 + k) % 1024) ≡ byte_at (b'a' ∷ []) k
    cell zero lt = refl
    cell (suc k) lt = ground arith

abbrev blank : KeyBuffer
blank = record { buffer = λ j. 0; head = 0; tail = 0 }

blank-Holds : Holds blank []
blank-Holds = record {
  low = omega arith;
  fits = omega arith;
  tail_at = refl;
  none_zero = tt;
  cells = λ k lt. refl;
}

push-Holds_example :
    (kb' : KeyBuffer) × (push (some one) b'b' ≡ some kb') × Holds kb' ((b'a' ∷ []) ++ b'b' ∷ [])
push-Holds_example = push-Holds one (b'a' ∷ []) b'b' one-Holds (λ e. omega arith) (omega arith)

pop-Holds_example : (kb' : KeyBuffer) × (pop (some one) ≡ (b'a', some kb')) × Holds kb' []
pop-Holds_example = pop-Holds one b'a' [] one-Holds
