-- ===== src/Prelude/Codes.antt =====
-- status.h: the error codes, and the result of a function that returns a value or a negated code.
use Prim.Native.Nat.{ℕ}

-- EIO .. EINFORMAT; `OK` is the `ok` of a result.
pub data Status : Type 0 where
  eio einvarg enomem ebadpath efsnotus erdonly eunimp eistkn einformat : Status

-- The number of an error.
pub code : Status → ℕ
code Status.eio = 1
code Status.einvarg = 2
code Status.enomem = 3
code Status.ebadpath = 4
code Status.efsnotus = 5
code Status.erdonly = 6
code Status.eunimp = 7
code Status.eistkn = 8
code Status.einformat = 9

pub data Result {ℓ} (A : Type ℓ) : Type ℓ where
  ok : A → Result A
  err : Status → Result A

infixl 5 ◌>>=◌
abbrev pub ◌>>=◌ {ℓ κ} : {A : Type ℓ} {B : Type κ} → Result A → (A → Result B) → Result B
ok a >>= f = f a
err e >>= f = err e
